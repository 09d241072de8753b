-- ===== src/Agent/Initializer/Ready.antt =====
-- setupGatewayInterface of pkg/agent/agentFunc.go: what it records of the gateway.
use ciccni.Base.{
  String, ◌≡◌, refl, sym, subst, List, Option, none, some, false, lift, inl, inr, lookup, insert,
  lookup-insert, string_eq, ◌==◌, if◌then◌else◌, Outcome, ok, err, panic, Error, Exec, Done, resume,
  put_back, Bool-cases,
}
use ciccni.Net.{Ip, IpNet, Mac}
use ciccni.Ovs.Database.{Library, OvsBridge}
use ciccni.Ovs.Ports.{create_internal_port}
use ciccni.Agent.InterfaceStore.{
  InterfaceConfig, add_interface, get_interface, new_gateway_interface,
}
use ciccni.Agent.Initializer.{
  host_gateway_of_port, Link, Host, NodeConfig, Initializer, on_host, config_of,
  max_retry_for_host_link, wait_for_link,
}
use ciccni.Agent.Initializer.SetUp.{
  has_address, with_port, gateway_net, gateway_interface, request_mtu, cluster_ones,
  add_unless_there, remember_gateway, configure_gateway, set_up_gateway_interface,
}

-- the configuration and the interface with what is found out about the gateway
abbrev pub with_gateway : String → NodeConfig → IpNet → Mac → NodeConfig
with_gateway name config net mac = record config {
  gateway = some (record { ip = net.ip; mac = mac; name = name });
}

module _ {H W : Type 0} (ops : Host H) (lib : Library W) where
  -- The link that waiting for the gateway's link from the host of `s` comes back with.
  abbrev pub Waited : Initializer H W → Link → Type 0
  Waited s l = (wait_for_link ops max_retry_for_host_link s.host_gateway s.host).0 ≡ ok l

  -- How setupGatewayInterface ends, for the state `s` before it.
  pub data GatewaySetUp (s : Initializer H W) : Outcome Done × Initializer H W → Type 0 where
    ready :
        (s' : Initializer H W) (config : NodeConfig) (cluster : IpNet) (l : Link)
        (iface : InterfaceConfig)
        → Waited s l
        → s.node_config ≡ some config
        → config.cluster_pod_cidr ≡ some cluster
        → s'.node_config
          ≡ some (
              with_gateway s.host_gateway config
                (gateway_net ops lib config cluster.ones)
                l.hardware_addr)
        → ((j : String)
            → lookup j s'.iface_store ≡ (
                if j == s.host_gateway
                then some (record iface {
                  ip = (gateway_net ops lib config cluster.ones).ip;
                  mac = l.hardware_addr;
                })
                else lookup j s.iface_store))
        → GatewaySetUp s (ok tt, s')
    failed : (e : Error) (s' : Initializer H W) → GatewaySetUp s (err e, s')
    crashed : (s' : Initializer H W) → GatewaySetUp s (panic, s')

  GatewaySetUp-resume :
      {A : Type 0} (s : Initializer H W) (r : Outcome A × Initializer H W)
      (k : A → Exec (Initializer H W) Done)
      → ((a : A) → r.0 ≡ ok a → GatewaySetUp s (k a r.1))
      → GatewaySetUp s (resume r k)
  GatewaySetUp-resume s (ok a, s1) k next = next a refl
  GatewaySetUp-resume s (err e, s1) k next = failed e s1
  GatewaySetUp-resume s (panic, s1) k next = crashed s1

  -- The configuration is that of `s`, and so are the interfaces under other names than the gateway's.
  abbrev Near : Initializer H W → Initializer H W → Type 0
  Near s s1 =
      (s1.node_config ≡ s.node_config)
      × ((j : String)
          → (j == s.host_gateway) ≡ false
          → lookup j s1.iface_store ≡ lookup j s.iface_store)

  -- The state after the gateway has been recorded, and what only changes the host then.
  abbrev Recorded : Initializer H W → Initializer H W → Type 0
  Recorded s s1 = GatewaySetUp s (ok tt, s1)

  GatewaySetUp-host :
      (s s1 : Initializer H W) (call : Exec H Done)
      → ((h : H) → Recorded s (record s1 { host = h }))
      → GatewaySetUp s (on_host ops lib call s1)
  GatewaySetUp-host s s1 call h = ends (call s1.host)
    where
      ends :
          (r : Outcome Done × H) → GatewaySetUp s (put_back (λ (h : H). record s1 { host = h }) r)
      ends (ok _, h1) = h h1
      ends (err e, h1) = failed e _
      ends (panic, h1) = crashed _

  GatewaySetUp-add :
      (s s1 : Initializer H W) (l : Link) (net : IpNet) (addrs : List Ip)
      → ((h : H) → Recorded s (record s1 { host = h }))
      → GatewaySetUp s (add_unless_there ops lib l net addrs s1)
  GatewaySetUp-add s s1 l net addrs h = elim (Bool-cases (has_address net.ip addrs)) [
    | inl there ↦ rw there (h s1.host)
    | inr absent ↦ rw absent (GatewaySetUp-host s s1 (ops.addr_add l net) h)
  ]

  abbrev recorded :
      Initializer H W
      → Initializer H W
      → NodeConfig
      → IpNet
      → InterfaceConfig
      → Mac
      → Initializer H W
  recorded s s1 config net iface mac = record s1 {
    node_config = some (with_gateway s.host_gateway config net mac);
    iface_store = insert s.host_gateway (record iface { ip = net.ip; mac = mac }) s1.iface_store;
  }

  lookup-recorded :
      (s s1 : Initializer H W) (v : InterfaceConfig) (j : String)
      → Near s s1
      → lookup j (insert s.host_gateway v s1.iface_store)
        ≡ (if j == s.host_gateway then some v else lookup j s.iface_store)
  lookup-recorded s s1 v j near = elim (Bool-cases (j == s.host_gateway)) [
    | inl own ↦ rw (lookup-insert j s.host_gateway v s1.iface_store, own)
    | inr other ↦ rw (lookup-insert j s.host_gateway v s1.iface_store, other) (near.1 j other)
  ]

  GatewaySetUp-remember :
      (s s1 : Initializer H W) (config : NodeConfig) (cluster : IpNet) (iface : InterfaceConfig)
      (l : Link)
      → Waited s l
      → Near s s1
      → s.node_config ≡ some config
      → config.cluster_pod_cidr ≡ some cluster
      → GatewaySetUp s (
          resume
            (remember_gateway ops lib s.host_gateway config iface
              (gateway_net ops lib config cluster.ones)
              l.hardware_addr
              s1)
            (λ _ s2.
              resume
                (on_host ops lib (ops.addr_list l) s2)
                (add_unless_there ops lib l (gateway_net ops lib config cluster.ones))))
  unfolding add_interface
  GatewaySetUp-remember s s1 config cluster iface l found near ec en =
      let net = gateway_net ops lib config cluster.ones in
      let s2 = recorded s s1 config net iface l.hardware_addr in
      GatewaySetUp-resume s (on_host ops lib (ops.addr_list l) s2) (add_unless_there ops lib l net)
        (λ addrs got. GatewaySetUp-add s (on_host ops lib (ops.addr_list l) s2).1 l net addrs (λ h.
          ready (record s2 { host = h }) config cluster l iface found ec en refl
            (λ j. lookup-recorded s s1 _ j near)))

  -- from the configuration on, of which the cluster's network is needed
  abbrev from_cluster :
      String → NodeConfig → InterfaceConfig → Link → Option IpNet → Exec (Initializer H W) Done
  from_cluster name config iface l cluster s2 =
      resume (lift (cluster_ones ops lib cluster) s2) (λ ones s3.
        resume
          (remember_gateway ops lib name config iface (gateway_net ops lib config ones)
            l.hardware_addr s3)
          (λ _ s4.
            resume (on_host ops lib (ops.addr_list l) s4)
              (add_unless_there ops lib l (gateway_net ops lib config ones))))

  GatewaySetUp-cluster :
      (s s1 : Initializer H W) (config : NodeConfig) (iface : InterfaceConfig) (l : Link)
      (cluster : Option IpNet)
      → Waited s l
      → Near s s1
      → s.node_config ≡ some config
      → config.cluster_pod_cidr ≡ cluster
      → GatewaySetUp s (from_cluster s.host_gateway config iface l cluster s1)
  GatewaySetUp-cluster s s1 config iface l none found near e n = crashed s1
  GatewaySetUp-cluster s s1 config iface l (some cluster) found near e n =
      GatewaySetUp-remember s s1 config cluster iface l found near e n

  GatewaySetUp-config :
      (s s1 : Initializer H W) (iface : InterfaceConfig) (l : Link) (config : Option NodeConfig)
      → Waited s l
      → Near s s1
      → s.node_config ≡ config
      → GatewaySetUp s (
          resume
            (config_of ops lib config s1)
            (λ config. from_cluster s.host_gateway config iface l config.cluster_pod_cidr))
  GatewaySetUp-config s s1 iface l none found near e = crashed s1
  GatewaySetUp-config s s1 iface l (some config) found near e =
      GatewaySetUp-cluster s s1 config iface l config.cluster_pod_cidr found near e refl

  GatewaySetUp-configure :
      (s s1 : Initializer H W) (iface : InterfaceConfig)
      → s1.host ≡ s.host
      → Near s s1
      → GatewaySetUp s (configure_gateway ops lib s.host_gateway iface s1)
  unfolding configure_gateway
  GatewaySetUp-configure s s1 iface host near =
      GatewaySetUp-resume s
        (on_host ops lib (wait_for_link ops max_retry_for_host_link s.host_gateway) s1) _
        (λ l got. GatewaySetUp-resume s (on_host ops lib (ops.link_set_up l) _) _ (λ up done.
          GatewaySetUp-config s _ iface l _
            (subst (λ h. (wait_for_link ops max_retry_for_host_link s.host_gateway h).0 ≡ ok l) host
              got)
            near (sym near.0)))

  abbrev request : String → InterfaceConfig → Exec (Initializer H W) Done
  request name iface s1 =
      resume (request_mtu ops lib s1) (λ _. configure_gateway ops lib name iface)

  GatewaySetUp-request :
      (s s1 : Initializer H W) (iface : InterfaceConfig)
      → s1.host ≡ s.host
      → Near s s1
      → GatewaySetUp s (request s.host_gateway iface s1)
  GatewaySetUp-request s s1 iface host near =
      GatewaySetUp-resume s (request_mtu ops lib s1) _
        (λ up done. GatewaySetUp-configure s _ iface host near)

  abbrev made_gateway : String → String → InterfaceConfig
  made_gateway name uuid = with_port (new_gateway_interface name) name uuid host_gateway_of_port

  -- what follows the answer to the request for a port
  GatewaySetUp-made :
      (s : Initializer H W) (r : Outcome String × OvsBridge W)
      → GatewaySetUp s (
          resume
            (resume (put_back (λ b. record s { ovs_bridge = b }) r) (λ uuid s1. (
              ok (made_gateway s.host_gateway uuid),
              record s1 {
                iface_store =
                    insert s.host_gateway (made_gateway s.host_gateway uuid) s1.iface_store;
              },
            )))
            (request s.host_gateway))
  GatewaySetUp-made s (ok uuid, b) =
      GatewaySetUp-request s _ (made_gateway s.host_gateway uuid) refl (
        refl,
        λ j other. rw (
          lookup-insert j s.host_gateway (made_gateway s.host_gateway uuid) s.iface_store,
          other,
        ),
      )
  GatewaySetUp-made s (err e, b) = failed e _
  GatewaySetUp-made s (panic, b) = crashed _

  -- the interface found in the store, or made
  GatewaySetUp-interface :
      (s : Initializer H W) (found : Option InterfaceConfig)
      → GatewaySetUp s
          (resume (gateway_interface ops lib s.host_gateway found s) (request s.host_gateway))
  unfolding add_interface
  GatewaySetUp-interface s (some iface) =
      GatewaySetUp-request s s iface refl (refl, λ j other. refl)
  GatewaySetUp-interface s none =
      GatewaySetUp-made s
        (create_internal_port lib s.host_gateway host_gateway_of_port none s.ovs_bridge)

-- If setupGatewayInterface returns no error, then the cluster's network was known; the configuration
-- has the gateway with the address that follows the node's subnet and with the hardware address of
-- the link that waiting for the gateway's link from the host before the call comes back with, the store has the same two under the gateway's name, and the other interfaces are as they
-- were. Otherwise it returns an error or panics.
pub set_up_gateway_interface-GatewaySetUp :
    {H W : Type 0} (ops : Host H) (lib : Library W) (s : Initializer H W)
    → GatewaySetUp ops lib s (set_up_gateway_interface ops lib s)
unfolding set_up_gateway_interface
set_up_gateway_interface-GatewaySetUp ops lib s =
    GatewaySetUp-interface ops lib s (get_interface s.host_gateway s.iface_store)
