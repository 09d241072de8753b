-- ===== src/Agent/Initializer/SetUp.antt =====
-- The steps of Initialize in pkg/agent/agentFunc.go: the ports of the bridge, the gateway's link, and
-- the flows. What AddInterface stores is changed through its pointer by setupGatewayInterface, so the
-- change is made in the store.
use ciccni.Base.{
  ℕ, String, Bool, true, false, List, [], ◌∷◌, Option, none, some, string_eq, nat_eqb, Outcome, ok,
  err, panic, wrapped, Exec, Done, pure, lift, ◌>>=◌, ◌>>◌, put_back, if◌then◌else◌,
}
use ciccni.Net.{Ip, nil, v4, IpNet, Mac, mask_ip}
use ciccni.Iptables.{set_up_rules}
use ciccni.Ovs.Database.{Library, OvsBridge}
use ciccni.Ovs.Ports.{get_port_list, create_vxlan_port, create_internal_port, set_interface_mtu}
use ciccni.Openflow.Client
use ciccni.Agent.InterfaceStore.{
  InterfaceConfig, OvsPortConfig, get_interface, new_tunnel_interface, new_gateway_interface,
}
use ciccni.Agent.InterfaceStore
use ciccni.Agent.Nodes.{KubeNode, construct_arp_openflow, construct_ip_tun_flow}
use ciccni.Agent.Initializer.{
  Link, Host, NodeConfig, Initializer, tun_port_name, tun_of_port, host_gateway_of_port,
  max_retry_for_host_link, wait_for_link, on_host, on_bridge, on_client, store_interface,
  set_node_config, get_config, init_node_local_config,
}

abbrev pub with_port : InterfaceConfig → String → String → ℕ → InterfaceConfig
with_port config name uuid of_port = record config {
  port = some (record { iface_name = name; port_uuid = uuid; of_port = of_port });
}

-- addr.IP.Equal(ip)
abbrev pub ip_equal : Ip → Ip → Bool
ip_equal (v4 n) (v4 m) = nat_eqb n m
ip_equal nil nil = true
ip_equal _ _ = false

-- the loop over the addresses that the link has
unfoldable pub has_address : Ip → List Ip → Bool
has_address ip [] = false
has_address ip (addr ∷ addrs) = if ip_equal addr ip then true else has_address ip addrs

module _ {H W : Type 0} (ops : Host H) (lib : Library W) where
  abbrev Run : Type 0 → Type 0
  Run A = Exec (Initializer H W) A

  -- setUpTunnelInterface once the store has been asked for the port
  abbrev pub create_tunnel : String → Option InterfaceConfig → Run Done
  create_tunnel name (some config) = pure tt
  create_tunnel name none = do
    uuid ← on_bridge ops lib (create_vxlan_port lib name tun_of_port "")
    store_interface ops lib name (with_port (new_tunnel_interface name) name uuid tun_of_port)

  -- setUpTunnelInterface
  unfoldable pub set_up_tunnel_interface : String → Run Done
  set_up_tunnel_interface name s = create_tunnel name (get_interface name s.iface_store) s

  -- the gateway's interface: the one in the store, or a new one with its port
  abbrev pub gateway_interface : String → Option InterfaceConfig → Run InterfaceConfig
  gateway_interface name (some config) = pure config
  gateway_interface name none = do
    uuid ← on_bridge ops lib (create_internal_port lib name host_gateway_of_port none)
    let config = with_port (new_gateway_interface name) name uuid host_gateway_of_port
    store_interface ops lib name config
    pure config

  -- SetInterfaceMTU, whose error is dropped
  abbrev tolerated : Outcome Done × OvsBridge W → Outcome Done × OvsBridge W
  tolerated (ok _, s) = (ok tt, s)
  tolerated (err _, s) = (ok tt, s)
  tolerated (panic, s) = (panic, s)

  abbrev pub request_mtu : Run Done
  request_mtu s =
      on_bridge ops lib (λ b. tolerated (set_interface_mtu lib s.host_gateway s.mtu b)) s

  -- i.nodeConfig.ClusterPodCIDR.Mask
  abbrev pub cluster_ones : Option IpNet → Outcome ℕ
  cluster_ones none = panic
  cluster_ones (some net) = ok net.ones

  -- the gateway's address in the node's subnet, with the cluster's mask
  abbrev pub gateway_net : NodeConfig → ℕ → IpNet
  gateway_net config ones = record {
    ip = ops.next_ip (mask_ip config.pod_cidr.ip config.pod_cidr.ones);
    ones = ones;
  }

  abbrev pub add_unless_there : Link → IpNet → List Ip → Run Done
  add_unless_there link net addrs =
      if has_address net.ip addrs then pure tt else on_host ops lib (ops.addr_add link net)

  -- what the configuration and the store hold of the gateway
  abbrev pub remember_gateway : String → NodeConfig → InterfaceConfig → IpNet → Mac → Run Done
  remember_gateway name config iface net mac = do
    set_node_config ops lib
        (record config { gateway = some (record { ip = net.ip; mac = mac; name = name }) })
    store_interface ops lib name (record iface { ip = net.ip; mac = mac })

  -- setupGatewayInterface from the link on
  unfoldable pub configure_gateway : String → InterfaceConfig → Run Done
  configure_gateway name iface = do
    link ← on_host ops lib (wait_for_link ops max_retry_for_host_link name)
    on_host ops lib (ops.link_set_up link)
    config ← get_config ops lib
    ones ← lift (cluster_ones config.cluster_pod_cidr)
    let net = gateway_net config ones
    remember_gateway name config iface net link.hardware_addr
    addrs ← on_host ops lib (ops.addr_list link)
    add_unless_there link net addrs

  -- setupGatewayInterface
  unfoldable pub set_up_gateway_interface : Run Done
  set_up_gateway_interface s =
      (do
        iface ← gateway_interface s.host_gateway (get_interface s.host_gateway s.iface_store)
        request_mtu
        configure_gateway s.host_gateway iface)
        s

  -- ifaceStore.Initialize on the bridge's ports
  unfoldable pub init_store : Run Done
  init_store s =
      let (ports, bridge) = get_port_list lib s.ovs_bridge in
      put_back (λ m. record s { ovs_bridge = bridge; iface_store = m })
        (InterfaceStore.initialize ports tun_port_name s.iface_store)

  -- setUpOVSBridge
  unfoldable pub set_up_ovs_bridge : Run Done
  set_up_ovs_bridge = do init_store; set_up_tunnel_interface tun_port_name; set_up_gateway_interface

  -- the two calls of initOpenFlow on its list of nodes
  abbrev pub install_for_nodes : NodeConfig → List KubeNode → Run Done
  install_for_nodes config nodes = do
    on_client ops lib (construct_arp_openflow config.node_name nodes)
    on_client ops lib (construct_ip_tun_flow config.node_name config.pod_cidr nodes)

  -- initOpenFlow
  unfoldable pub init_openflow : Run Done
  init_openflow = do
    nodes ← on_host ops lib ops.list_nodes
    config ← get_config ops lib
    install_for_nodes config nodes

  -- setUpFlow
  unfoldable pub set_up_flow : Run Done
  set_up_flow = do on_client ops lib Client.initialize; init_openflow

  -- fmt.Errorf(message, err)
  abbrev explained : String → Outcome Done × Initializer H W → Outcome Done × Initializer H W
  explained message (ok _, s) = (ok tt, s)
  explained message (err e, s) = (err (wrapped message e), s)
  explained message (panic, s) = (panic, s)

  abbrev pub explain : String → Run Done → Run Done
  explain message m s = explained message (m s)

  -- GetDefaultInterface, whose error is only logged; SetUpRules does not read the name
  abbrev found_interface : Outcome String × H → Outcome Done × H
  found_interface (ok _, h) = (ok tt, h)
  found_interface (err _, h) = (ok tt, h)
  found_interface (panic, h) = (panic, h)

  -- the firewall's part of Initialize
  unfoldable pub set_up_firewall : Run Done
  set_up_firewall s =
      (do
        explain "error creating iptables client" (on_host ops lib ops.new_iptables)
        on_host ops lib (λ h. found_interface (ops.get_default_interface h))
        explain "error setting up iptables rules"
            (on_host ops lib (set_up_rules ops.iptables s.host_gateway)))
        s

  -- Initialize
  unfoldable pub initialize_agent : Run Done
  initialize_agent = do
    init_node_local_config ops lib
    set_up_firewall
    set_up_ovs_bridge
    set_up_flow
