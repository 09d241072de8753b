-- ===== src/Agent/Initializer.antt =====
-- pkg/agent/agentFunc.go: what the agent sets up on its node. The calls of netlink, of the Kubernetes
-- API and of the operating system are a parameter, the operations of `Host` on a state of theirs;
-- the clients of the bridge and of OpenFlow, the store and the firewall are those of this library.
pub mod SetUp
pub mod Links
pub mod Ready
pub mod Restart
pub mod Settled
mod Tests
use ciccni.Base.{
  ℕ, zero, suc, String, List, [], ◌∷◌, Option, none, some, insert, string_eq, ◌==◌, if◌then◌else◌,
  Outcome, ok, err, panic, Error, external, parse_failed, wrapped, Exec, Done, pure, fail, lift,
  for_each, ◌>>=◌, ◌>>◌, put_back,
}
use ciccni.Net.{Ip, IpNet, Mac, parse_cidr, mask_ip, show_ip_net}
use ciccni.Iptables
use ciccni.Ovs.Database.{Library, OvsBridge}
use ciccni.Ovs.Ports.{get_port_list, create_vxlan_port, create_internal_port, set_interface_mtu}
use ciccni.Openflow.State.{Client}
use ciccni.Openflow.Client
use ciccni.Agent.InterfaceStore.{
  InterfaceConfig, InterfaceStore, OvsPortConfig, add_interface, get_interface,
  new_tunnel_interface, new_gateway_interface,
}
use ciccni.Agent.InterfaceStore
use ciccni.Agent.Nodes.{KubeNode, arp_destinations, construct_arp_openflow, construct_ip_tun_flow}

-- netlink.Link, and what LinkByName finds: a link, none of the name, or another error
pub record Link : Type 0 where
  pub name : String
  pub hardware_addr : Mac

pub data LinkReply : Type 0 where
  link : Link → LinkReply
  missing : LinkReply
  broken : Error → LinkReply

-- os.Getenv and Hostname, the API's node, its kubeadm-config and its list of nodes, yaml.Unmarshal
-- up to networking.podSubnet, GetDefaultInterface of pkg/link, netlink's LinkByName, LinkSetUp,
-- AddrList and AddrAdd, a pause of one second, ip.NextIP, and the iptables package
pub record Host (H : Type 0) : Type 0 where
  pub getenv : String → H → String
  pub hostname : Exec H String
  pub get_node : String → Exec H KubeNode
  pub cluster_configuration : Exec H String
  pub unmarshal_pod_subnet : String → Outcome String
  pub list_nodes : Exec H (List KubeNode)
  pub get_default_interface : Exec H String
  pub link_by_name : String → H → LinkReply × H
  pub sleep : H → H
  pub link_set_up : Link → Exec H Done
  pub addr_list : Link → Exec H (List Ip)
  pub addr_add : Link → IpNet → Exec H Done
  pub next_ip : Ip → Ip
  pub new_iptables : Exec H Done
  pub iptables : Iptables.Ops H

-- Gateway and NodeConfig; a pointer may be nil
pub record Gateway : Type 0 where
  pub ip : Ip
  pub mac : Mac
  pub name : String

pub record NodeConfig : Type 0 where
  pub node_name : String
  pub pod_cidr : IpNet
  pub cluster_pod_cidr : Option IpNet
  pub gateway : Option Gateway

-- Initializer, with the host and the state of the clients that it leads to
pub record Initializer (H W : Type 0) : Type 0 where
  pub host : H
  pub node_config : Option NodeConfig
  pub ovs_bridge : OvsBridge W
  pub iface_store : InterfaceStore
  pub of_client : Client
  pub host_gateway : String
  pub mtu : ℕ

abbrev pub tun_port_name : String
tun_port_name = "tun0"

abbrev pub tun_of_port : ℕ
tun_of_port = 1

abbrev pub host_gateway_of_port : ℕ
host_gateway_of_port = 2

abbrev pub max_retry_for_host_link : ℕ
max_retry_for_host_link = 5

-- a call whose error is only logged
abbrev logged {ℓ κ} : {A : Type ℓ} {S : Type κ} → Outcome A × S → Outcome Done × S
logged (err _, s) = (ok tt, s)
logged (ok _, s) = (ok tt, s)
logged (panic, s) = (panic, s)

abbrev port_config : String → String → ℕ → Option OvsPortConfig
port_config name uuid of_port =
    some (record { iface_name = name; port_uuid = uuid; of_port = of_port })

module _ {H : Type 0} (ops : Host H) where
  -- getNodeName
  unfoldable pub get_node_name : Exec H String
  get_node_name h =
      let node_name = ops.getenv "NODE_NAME" h in
      if node_name == "" then ops.hostname h else (ok node_name, h)

  -- the loop of setupGatewayInterface that waits for the link, by the tries that are left
  abbrev pub try_link : Exec H Link → LinkReply × H → Outcome Link × H
  try_link again (link l, h) = (ok l, h)
  try_link again (missing, h) = again (ops.sleep h)
  try_link again (broken e, h) = (err e, h)

  unfoldable pub wait_for_link : ℕ → String → Exec H Link
  wait_for_link zero name h = (err (external "link not found"), h)
  wait_for_link (suc n) name h = try_link (wait_for_link n name) (ops.link_by_name name h)

  -- the subnet of initNodeLocalConfig, for the node's Spec.PodCIDR
  abbrev pub local_subnet : String → String → Outcome IpNet
  local_subnet node_name pod_cidr =
      if pod_cidr == "" then err (external "CIDR string is empty") else elim (parse_cidr pod_cidr) [
        | none ↦ err (parse_failed pod_cidr)
        | some (ip, net) ↦ ok net
      ]

  -- net.ParseCIDR of the cluster's subnet, whose error is dropped
  abbrev pub cluster_subnet : String → Option IpNet
  cluster_subnet pod_subnet = elim (parse_cidr pod_subnet) [
    | none ↦ none
    | some (ip, net) ↦ some net
  ]

  -- the configuration that initNodeLocalConfig makes
  unfoldable pub read_node_config : Exec H NodeConfig
  unfolding get_node_name parse_cidr
  read_node_config = do
    node_name ← get_node_name
    node ← ops.get_node node_name
    net ← lift (local_subnet node_name node.pod_cidr)
    text ← ops.cluster_configuration
    pod_subnet ← lift (ops.unmarshal_pod_subnet text)
    pure (record {
      node_name = node_name;
      pod_cidr = net;
      cluster_pod_cidr = cluster_subnet pod_subnet;
      gateway = none;
    })

module _ {H W : Type 0} (ops : Host H) (lib : Library W) where
  abbrev pub on_host : {A : Type 0} → Exec H A → Exec (Initializer H W) A
  on_host m s = put_back (λ h. record s { host = h }) (m s.host)

  abbrev pub on_bridge : {A : Type 0} → Exec (OvsBridge W) A → Exec (Initializer H W) A
  on_bridge m s = put_back (λ b. record s { ovs_bridge = b }) (m s.ovs_bridge)

  abbrev pub on_client : {A : Type 0} → Exec Client A → Exec (Initializer H W) A
  on_client m s = put_back (λ c. record s { of_client = c }) (m s.of_client)

  abbrev pub on_store : {A : Type 0} → Exec InterfaceStore A → Exec (Initializer H W) A
  on_store m s = put_back (λ m. record s { iface_store = m }) (m s.iface_store)

  abbrev pub store_interface : String → InterfaceConfig → Exec (Initializer H W) Done
  store_interface name config = on_store (λ m. (ok tt, add_interface name config m))

  abbrev pub set_node_config : NodeConfig → Exec (Initializer H W) Done
  set_node_config config s = (ok tt, record s { node_config = some config })

  -- i.nodeConfig, whose fields are read
  abbrev pub config_of : Option NodeConfig → Exec (Initializer H W) NodeConfig
  config_of none s = (panic, s)
  config_of (some config) s = (ok config, s)

  abbrev pub get_config : Exec (Initializer H W) NodeConfig
  get_config s = config_of s.node_config s

  -- initNodeLocalConfig
  unfoldable pub init_node_local_config : Exec (Initializer H W) Done
  unfolding read_node_config
  init_node_local_config = do config ← on_host (read_node_config ops); set_node_config config
