-- ===== src/Cniserver/Tests.antt =====
-- configureInterface and removeInterfaces at concrete inputs, on a host that is the list of the calls
-- made.
use ciccni.Base.{
  String, ◌≡◌, refl, List, [], ◌∷◌, ◌++◌, none, lookup, string_eq, Outcome, ok, err, external, Exec,
}
use ciccni.Net.{v4}
use ciccni.Agent.Names.{generate_container_interface_name}
use ciccni.Agent.Tests.{zeros}
use ciccni.Agent.InterfaceStore.{new_container_interface_config}
use ciccni.Cniserver.Interfaces.{
  Interface, Ops, Request, Node, build_container_config, is_coredns, configure_interface,
  remove_interfaces,
}
use ciccni.Cniserver.Configured.{Configured}
use ciccni.Cniserver.Removed.{Keyed, Removal, remove_interfaces-Removal, configure_interface-Keyed}

abbrev host_end : Interface
host_end = record { name = "coredns7-000000"; mac = []; sandbox = "" }

abbrev pod_end : Interface
pod_end = record { name = "eth0"; mac = []; sandbox = "/proc/7/ns" }

abbrev said {ℓ} : {A : Type ℓ} → String → Outcome A → Exec (List String) A
said text r w = (r, w ++ text ∷ [])

-- a host on which flows for CoreDNS cannot be installed
abbrev host_ops : Ops (List String)
host_ops = record {
  get_ns = λ path. said "ns" (ok tt);
  construct_tc_config = λ pod space. said "tc" (ok none);
  setup_veth_pair = λ pod space ifname net_ns mtu tc. said "veth" (ok (host_end, pod_end));
  create_port = λ name ifname ids. said "create" (ok "u1");
  delete_port = λ uuid. said "delete" (ok tt);
  get_of_port = λ name. said "port" (ok 5);
  kube_dns_cluster_ip = said "dns" (ok "10.96.0.10");
  install_coredns_flow = λ of_port id ip. said "flows" (err (external "refused"));
  uninstall_coredns_flow = λ id. said "no flows" (ok tt);
  configure_container_addr = λ net_ns iface ips. said "address" (ok tt);
  remove_container_link = λ id net_ns ifname. said "unlink" (ok tt);
}

abbrev node0 : Node (List String)
node0 = record { world = []; store = []; interfaces = [] }

abbrev coredns_pod : Request
coredns_pod = record {
  pod_name = "coredns-7d";
  pod_namespace = "kube-system";
  container_id = "c7";
  container_net_ns = "/proc/7/ns";
  ifname = "eth0";
  mtu = 1450;
  ips = v4 167772161 ∷ [];
}

abbrev other_pod : Request
other_pod = record coredns_pod { pod_namespace = "default" }

node0-Keyed : Keyed []
unfolding lookup
node0-Keyed k c e = absurd (cc e)

configure_interface-Keyed_example : Keyed (configure_interface host_ops other_pod node0).1.store
configure_interface-Keyed_example = configure_interface-Keyed host_ops other_pod node0 node0-Keyed

pod_interface :
    generate_container_interface_name zeros "coredns-7d" "default" ≡ ok "coredns7-000000"
unfolding generate_container_interface_name
pod_interface = refl

remove_interfaces-Removal_example :
    Removal "coredns7-000000" (configure_interface host_ops other_pod node0).1.store (
      remove_interfaces host_ops zeros "coredns-7d" "default" "c7" "/proc/7/ns" "eth0"
        (configure_interface host_ops other_pod node0).1)
remove_interfaces-Removal_example =
    remove_interfaces-Removal host_ops zeros "coredns-7d" "default" "c7" "/proc/7/ns" "eth0"
      "coredns7-000000" (configure_interface host_ops other_pod node0).1
      (configure_interface-Keyed host_ops other_pod node0 node0-Keyed) pod_interface

-- InstallCorednsFlow fails, and the call reports success.
swallowed_run : configure_interface host_ops coredns_pod node0 ≡ (
  ok tt,
  record node0 {
    world = "ns" ∷ "tc" ∷ "veth" ∷ "create" ∷ "port" ∷ "dns" ∷ "flows" ∷ "delete" ∷ "unlink" ∷ [];
    interfaces = host_end ∷ pod_end ∷ [];
  },
)
unfolding configure_interface is_coredns string_eq build_container_config
    new_container_interface_config
swallowed_run = refl
