-- ===== src/Cniserver/Interfaces.antt =====
-- configureInterface and removeInterfaces of pkg/cniserver/cniserver.go, with buildContainerConfig
-- and setupContainerOVSPort. What other components and packages do to the host is a parameter, the
-- operations of `Ops` on a state that is theirs. A result's other fields are not read here.
use ciccni.Base.{
  ℕ, String, Bool, true, false, ◌&&◌, List, [], ◌∷◌, Option, none, some, Dict, ◌==◌, string_eq,
  if◌then◌else◌, Outcome, ok, err, panic, Exec, Done, pure, lift, ◌>>=◌, ◌>>◌,
}
use ciccni.Base.Text.{has_prefix}
use ciccni.Net.{Ip, nil, v4, Mac, parse_ip}
use ciccni.Tctools.Bandwidth.{TcArgs}
use ciccni.Agent.InterfaceStore.{
  InterfaceConfig, InterfaceStore, add_interface, delete_interface, get_container_interface,
  new_container_interface_config, build_ovs_port_external_ids,
}

-- types100.Interface, with the address that its text stands for
pub record Interface : Type 0 where
  pub name : String
  pub mac : Mac
  pub sandbox : String

-- ns.GetNS, tctools.ConstructTcConfig, setupVethPair, CreatePort, DeletePort and GetOFPort of the OVS
-- client, the cluster address of the service kube-dns, InstallCorednsFlow and UninstallCorednsFlow of
-- the OpenFlow client, configureContainerAddr and removeContainerLink
pub record Ops (W : Type 0) : Type 0 where
  pub get_ns : String → Exec W Done
  pub construct_tc_config : String → String → Exec W (Option TcArgs)
  pub setup_veth_pair :
      String → String → String → String → ℕ → Option TcArgs → Exec W (Interface × Interface)
  pub create_port : String → String → Dict String String → Exec W String
  pub delete_port : String → Exec W Done
  pub get_of_port : String → Exec W ℕ
  pub kube_dns_cluster_ip : Exec W String
  pub install_coredns_flow : ℕ → String → Ip → Exec W Done
  pub uninstall_coredns_flow : String → Exec W Done
  pub configure_container_addr : String → Interface → List Ip → Exec W Done
  pub remove_container_link : String → String → String → Exec W Done

-- the arguments that configureInterface has besides the clients
pub record Request : Type 0 where
  pub pod_name : String
  pub pod_namespace : String
  pub container_id : String
  pub container_net_ns : String
  pub ifname : String
  pub mtu : ℕ
  pub ips : List Ip

-- the host, the store of interfaces, and result.Interfaces
pub record Node (W : Type 0) : Type 0 where
  pub world : W
  pub store : InterfaceStore
  pub interfaces : List Interface

-- parseContainerIP: the first address of version 4
unfoldable pub parse_container_ip : List Ip → Option Ip
parse_container_ip [] = none
parse_container_ip (nil ∷ ips) = parse_container_ip ips
parse_container_ip (v4 n ∷ ips) = some (v4 n)

-- buildContainerConfig, which answers nil without an address
unfoldable pub build_container_config :
    String → String → String → Interface → List Ip → Option InterfaceConfig
unfolding parse_container_ip new_container_interface_config
build_container_config container_id pod_name pod_namespace iface ips =
    elim (parse_container_ip ips) [
      | none ↦ none
      | some ip ↦ some (
          new_container_interface_config container_id pod_name pod_namespace iface.sandbox iface.mac
            ip)
    ]

unfoldable pub is_coredns : Request → Bool
unfolding has_prefix
is_coredns q = has_prefix q.pod_name "coredns" && q.pod_namespace == "kube-system"

module _ {W : Type 0} (ops : Ops W) where
  abbrev pub on_world : {A : Type 0} → Exec W A → Exec (Node W) A
  on_world m s = let (r, w) = m s.world in (r, record s { world = w })

  -- a call whose error is only logged
  abbrev tolerated {ℓ} : {A : Type ℓ} → A → Outcome A → Outcome A
  tolerated a (ok b) = ok b
  tolerated a (err _) = ok a
  tolerated a panic = panic

  abbrev pub tolerate : {A : Type 0} → A → Exec W A → Exec W A
  tolerate a m w = let (r, w') = m w in (tolerated a r, w')

  -- A deferred function that undoes what was done unless `success` is set. The outcome `ok false` is
  -- a return of a nil error without success; what the deferred function answers is only logged.
  abbrev pub unless_success : Exec W Done → Outcome Bool × Node W → Outcome Bool × Node W
  unless_success undo (ok true, s) = (ok true, s)
  unless_success undo (r, s) = (r, record s { world = (undo s.world).1 })

  abbrev pub deferred : Exec W Done → Exec (Node W) Bool → Exec (Node W) Bool
  deferred undo m s = unless_success undo (m s)

  -- setupContainerOVSPort; a nil configuration is read, which panics
  abbrev pub setup_container_ovs_port : Option InterfaceConfig → String → Exec W String
  setup_container_ovs_port none ovs_port_name = lift panic
  setup_container_ovs_port (some config) ovs_port_name =
      ops.create_port ovs_port_name ovs_port_name (build_ovs_port_external_ids config)

  abbrev set_interfaces : Interface → Interface → Exec (Node W) Done
  set_interfaces host container s = (ok tt, record s { interfaces = host ∷ container ∷ [] })

  -- the configuration with its port, stored under the port's name; a nil one is written to
  abbrev pub cache_interface : Option InterfaceConfig → String → String → ℕ → Exec (Node W) Bool
  cache_interface none name uuid of_port s = (panic, s)
  cache_interface (some config) name uuid of_port s = (
    ok true,
    record s {
      store =
          add_interface name
            (record config {
              port = some (record { iface_name = name; port_uuid = uuid; of_port = of_port });
            })
            s.store;
    },
  )

  -- steps 4 to 6 of configureInterface
  abbrev pub finish :
      Request → Interface → Interface → Option InterfaceConfig → String → Exec (Node W) Bool
  finish q host container config uuid = do
    on_world (ops.configure_container_addr q.container_net_ns container q.ips)
    of_port ← on_world (ops.get_of_port host.name)
    cache_interface config host.name uuid of_port

  -- What follows InstallCorednsFlow: if it failed, `return err` returns the err of GetOFPort, nil.
  abbrev pub after_coredns : Request → Exec (Node W) Bool → Outcome Done × W → Exec (Node W) Bool
  after_coredns q rest (ok _, w) s =
      deferred (ops.uninstall_coredns_flow q.container_id) rest (record s { world = w })
  after_coredns q rest (err _, w) s = (ok false, record s { world = w })
  after_coredns q rest (panic, w) s = (panic, record s { world = w })

  -- the flows for CoreDNS, and then the rest
  abbrev pub with_coredns : Request → String → Exec (Node W) Bool → Exec (Node W) Bool
  with_coredns q ovs_port_name rest = do
    of_port ← on_world (ops.get_of_port ovs_port_name)
    service_ip ← on_world (tolerate "" ops.kube_dns_cluster_ip)
    λ s.
        after_coredns q rest
          (ops.install_coredns_flow of_port q.container_id (parse_ip service_ip) s.world) s

  abbrev pub plugged :
      Request → Interface → Interface → Option InterfaceConfig → String → Exec (Node W) Bool
  plugged q host container config uuid =
      if is_coredns q
      then with_coredns q host.name (finish q host container config uuid)
      else finish q host container config uuid

  -- everything under the first deferred function
  abbrev pub configure_steps : Request → Exec (Node W) Bool
  configure_steps q = do
    on_world (ops.get_ns q.container_net_ns)
    tc_args ← on_world (tolerate none (ops.construct_tc_config q.pod_name q.pod_namespace))
    (host, container) ←
        on_world
          (ops.setup_veth_pair q.pod_name q.pod_namespace q.ifname q.container_net_ns q.mtu tc_args)
    set_interfaces host container
    let config = build_container_config q.container_id q.pod_name q.pod_namespace container q.ips
    uuid ← on_world (setup_container_ovs_port config host.name)
    deferred (ops.delete_port uuid) (plugged q host container config uuid)

  abbrev pub without_flag : Outcome Bool × Node W → Outcome Done × Node W
  without_flag (ok _, s) = (ok tt, s)
  without_flag (err e, s) = (err e, s)
  without_flag (panic, s) = (panic, s)

  -- configureInterface
  unfoldable pub configure_interface : Request → Exec (Node W) Done
  configure_interface q s = without_flag (
      deferred (ops.remove_container_link q.container_id q.container_net_ns q.ifname)
        (configure_steps q) s)

  -- what removeInterfaces does about the entry that it found
  abbrev pub remove_entry : Option InterfaceConfig → Exec (Node W) Done
  remove_entry none = pure tt
  remove_entry (some config) = elim config.port [
    | none ↦ lift panic
    | some port ↦ do
      on_world (ops.delete_port port.port_uuid)
      λ s. (ok tt, record s { store = delete_interface port.iface_name s.store })
  ]

  -- removeInterfaces
  unfoldable pub remove_interfaces :
      (String → String) → String → String → String → String → String → Exec (Node W) Done
  remove_interfaces sha1_hex pod_name pod_namespace container_id container_net_ns ifname = do
    if container_net_ns == ""
        then pure tt
        else on_world (ops.remove_container_link container_id container_net_ns ifname)
    entry ← λ s. (get_container_interface sha1_hex pod_name pod_namespace s.store, s)
    remove_entry entry
