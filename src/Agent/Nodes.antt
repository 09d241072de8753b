-- ===== src/Agent/Nodes.antt =====
-- The flows that pkg/agent/agentFunc.go installs for the nodes of the cluster.
use ciccni.Base.{
  String, List, [], ◌∷◌, Option, none, some, string_eq, ◌==◌, if◌then◌else◌, Outcome, ok, err,
  panic, Exec, Done, pure, for_each,
}
use ciccni.Net.{Ip, nil, v4, IpNet, parse_ip, show_ip_net}
use ciccni.Openflow.State.{Client}
use ciccni.Openflow.Client.{install_arp_flow, install_local_ip_flow, install_tun_flow}

-- v1.NodeAddress and v1.Node, as far as they are read
pub record NodeAddress : Type 0 where
  pub type : String
  pub address : String

pub record KubeNode : Type 0 where
  pub name : String
  pub pod_cidr : String
  pub addresses : List NodeAddress

-- the loops over node.Status.Addresses, which stop at the first of type v1.NodeInternalIP
unfoldable pub internal_ip : List NodeAddress → Option String
internal_ip [] = none
internal_ip (a ∷ addresses) =
    if a.type == "InternalIP" then some a.address else internal_ip addresses

abbrev cons_if : Option String → List String → List String
cons_if none xs = xs
cons_if (some x) xs = x ∷ xs

-- tunDsts of constructArpOpenflow
unfoldable pub arp_destinations : String → List KubeNode → List String
unfolding internal_ip
arp_destinations own [] = []
arp_destinations own (node ∷ nodes) =
    cons_if (if node.name == own then none else internal_ip node.addresses)
      (arp_destinations own nodes)

-- a call whose error is dropped or only logged
abbrev pub unless_panic : Outcome Done × Client → Outcome Done × Client
unless_panic (ok _, c) = (ok tt, c)
unless_panic (err _, c) = (ok tt, c)
unless_panic (panic, c) = (panic, c)

abbrev pub ignore : Exec Client Done → Exec Client Done
ignore m c = unless_panic (m c)

abbrev pub install_if_any : List String → Exec Client Done
install_if_any [] = pure tt
install_if_any (dst ∷ dsts) = ignore (install_arp_flow (dst ∷ dsts))

-- constructArpOpenflow
unfoldable pub construct_arp_openflow : String → List KubeNode → Exec Client Done
unfolding arp_destinations
construct_arp_openflow own nodes = install_if_any (arp_destinations own nodes)

-- nodeAddress of constructIPTunFlow
abbrev pub address_of : Option String → Ip
address_of none = nil
address_of (some text) = parse_ip text

abbrev pub install_tun_if_any : String → Ip → Exec Client Done
install_tun_if_any pod_cidr nil = pure tt
install_tun_if_any pod_cidr (v4 n) = ignore (install_tun_flow pod_cidr 0 (v4 n))

-- the body of constructIPTunFlow's loop
unfoldable pub install_node_flow : String → IpNet → KubeNode → Exec Client Done
unfolding internal_ip
install_node_flow own pod_cidr node =
    if node.name == own
    then ignore (install_local_ip_flow node.name (show_ip_net pod_cidr))
    else install_tun_if_any node.pod_cidr (address_of (internal_ip node.addresses))

-- constructIPTunFlow
unfoldable pub construct_ip_tun_flow : String → IpNet → List KubeNode → Exec Client Done
unfolding install_node_flow
construct_ip_tun_flow own pod_cidr nodes = for_each nodes (install_node_flow own pod_cidr)
