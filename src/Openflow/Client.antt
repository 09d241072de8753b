-- ===== src/Openflow/Client.antt =====
-- pkg/openflow/client.go: the Install and Uninstall methods, and Initialize.
mod Tests
pub mod Arp
pub mod Missing
pub mod Started
pub mod Steady
use ciccni.Base.{
  ℕ, String, List, [], ◌∷◌, map, Option, none, some, lookup, insert, erase, string_eq, ◌<>◌,
  Outcome, ok, err, panic, Exec, Done, Error, parse_failed, wrapped, pure, lift, for_each, ◌>>=◌,
  ◌>>◌, put_back,
}
use ciccni.Net.{Ip, nil, v4, IpNet, Mac, parse_ip, parse_cidr}
use ciccni.Binding.Switch.{TableStatus, dump_table_status, connect, disconnect}
use ciccni.Binding.Flow.{Flow, match_string}
use ciccni.Openflow.Tables.{global_virtual_mac}
use ciccni.Openflow.State.{Client, FlowCache, FlowCategoryCache, add, delete, generate}
use ciccni.Openflow.Caches.{node_flows, pod_flows, general_flows, add_missing_flows, delete_flows}
use ciccni.Openflow.Flows.Forwarding.{
  tunnel_classifier_flow, gateway_classifier_flow, pod_classifier_flow, l2_forward_calc_flow,
  l3_flows_to_pod, l3_to_gateway_flow, l3_fwd_flow_to_remote, service_cidr_dnat_flow,
}
use ciccni.Openflow.Flows.Guards.{
  arp_responder_flow, pod_ip_spoof_guard_flow, gateway_arp_spoof_guard_flow, arp_spoof_guard_flow,
  gateway_ip_spoof_guard_flow,
}
use ciccni.Openflow.Flows.Cluster.{
  ip_tun_flow_without_in_port, ip_tun_flow_match_ip, arp_flow, local_ip_flow_with_ip_net,
  local_ip_flow_with_ip, classifier_table_flow_with_in_port, core_dns_snat_flow_with_in_port,
  arp_normal_flow, classifier_default_flow, core_dns_snat_default_flow,
  cluster_forward_default_flow,
}

-- parseDstIP: an address or a network
pub data Destination : Type 0 where
  to_ip : Ip → Destination
  to_ip_net : IpNet → Destination

abbrev found_ip : String → Ip → Outcome Destination
found_ip text nil = err (parse_failed text)
found_ip text (v4 n) = ok (to_ip (v4 n))

unfoldable pub parse_dst_ip : String → Outcome Destination
unfolding parse_cidr parse_ip
parse_dst_ip text = elim (parse_cidr text) [
  | some (ip, net) ↦ ok (to_ip_net net)
  | none ↦ found_ip text (parse_ip text)
]

-- GetFlowTableStatus
unfoldable pub get_flow_table_status : Client → List TableStatus
get_flow_table_status c = dump_table_status c.switch

-- InstallNodeFlows
unfoldable pub install_node_flows : String → Mac → Ip → IpNet → Ip → Exec Client Done
install_node_flows hostname local_gateway_mac peer_gateway_ip peer_pod_cidr tunnel_peer_addr = do
  arp ← generate (λ p. arp_responder_flow p peer_gateway_ip)
  forward ← generate (λ p. l3_fwd_flow_to_remote p local_gateway_mac peer_pod_cidr tunnel_peer_addr)
  add_missing_flows node_flows hostname (arp ∷ forward ∷ [])

-- UninstallNodeFlows
unfoldable pub uninstall_node_flows : String → Exec Client Done
uninstall_node_flows hostname = delete_flows node_flows hostname

-- IPConnectionVxlan, ArpRequest and ArpResponse
abbrev pub ip_connection_vxlan : String
ip_connection_vxlan = "ipConnectionVxlan"

abbrev pub arp_request : String
arp_request = "arpOP1"

abbrev pub arp_response : String
arp_response = "arpOP2"

-- the two branches of InstallTunFlow
abbrev pub tun_flow : Destination → ℕ → Ip → Exec Client Flow
tun_flow (to_ip_net net) in_port tunnel_dst_ip =
    generate (λ p. ip_tun_flow_without_in_port p net tunnel_dst_ip)
tun_flow (to_ip ip) in_port tunnel_dst_ip =
    generate (λ p. ip_tun_flow_match_ip p ip in_port tunnel_dst_ip)

-- InstallTunFlow
unfoldable pub install_tun_flow : String → ℕ → Ip → Exec Client Done
install_tun_flow dst_ip_net in_port tunnel_dst_ip = do
  destination ← lift (parse_dst_ip dst_ip_net)
  flow ← tun_flow destination in_port tunnel_dst_ip
  add_missing_flows general_flows ip_connection_vxlan (flow ∷ [])

-- UninstallTunFlow
unfoldable pub uninstall_tun_flow : Exec Client Done
uninstall_tun_flow = delete_flows general_flows ip_connection_vxlan

-- InstallARPFlow
unfoldable pub install_arp_flow : List String → Exec Client Done
install_arp_flow dst_ip_nets = do
  (request, response) ← generate (λ p. arp_flow p (map parse_ip dst_ip_nets))
  add_missing_flows general_flows arp_request (request ∷ [])
  add_missing_flows general_flows arp_response (response ∷ [])

-- the two branches of InstallLocalIPFlow
abbrev pub local_ip_flow : Destination → Exec Client Flow
local_ip_flow (to_ip_net net) = generate (λ p. local_ip_flow_with_ip_net p net)
local_ip_flow (to_ip ip) = generate (λ p. local_ip_flow_with_ip p ip)

-- InstallLocalIPFlow
unfoldable pub install_local_ip_flow : String → String → Exec Client Done
install_local_ip_flow node_name local_ip = do
  destination ← lift (parse_dst_ip local_ip)
  flow ← local_ip_flow destination
  add_missing_flows general_flows (node_name <> "-localIP") (flow ∷ [])

-- InstallCorednsFlow
unfoldable pub install_coredns_flow : ℕ → String → Ip → Exec Client Done
install_coredns_flow of_port_num container_id service_ip = do
  classifier ← generate (λ p. classifier_table_flow_with_in_port p of_port_num)
  snat ← generate (λ p. core_dns_snat_flow_with_in_port p of_port_num service_ip)
  add_missing_flows pod_flows container_id (classifier ∷ snat ∷ [])

-- UninstallCorednsFlow
unfoldable pub uninstall_coredns_flow : String → Exec Client Done
uninstall_coredns_flow container_id = delete_flows pod_flows container_id

-- InstallPodFlows
unfoldable pub install_pod_flows : String → Ip → Mac → Mac → ℕ → Exec Client Done
install_pod_flows container_id pod_ip pod_mac gateway_mac of_port = do
  classifier ← generate (λ p. pod_classifier_flow p of_port)
  ip_guard ← generate (λ p. pod_ip_spoof_guard_flow p pod_ip pod_mac of_port)
  arp_guard ← generate (λ p. arp_spoof_guard_flow p pod_ip pod_mac of_port)
  l2 ← generate (λ p. l2_forward_calc_flow p pod_mac of_port)
  l3 ← generate (λ p. l3_flows_to_pod p gateway_mac pod_ip pod_mac)
  add_missing_flows pod_flows container_id (classifier ∷ ip_guard ∷ arp_guard ∷ l2 ∷ l3 ∷ [])

-- UninstallPodFlows
unfoldable pub uninstall_pod_flows : String → Exec Client Done
uninstall_pod_flows container_id = delete_flows pod_flows container_id

-- InstallClusterServiceCIDRFlows
unfoldable pub install_cluster_service_cidr_flows : IpNet → ℕ → Exec Client Done
install_cluster_service_cidr_flows service_net gateway_of_port = do
  flow ← generate (λ p. service_cidr_dnat_flow p service_net gateway_of_port)
  add flow

-- InstallGatewayFlows
unfoldable pub install_gateway_flows : Ip → Mac → ℕ → Exec Client Done
install_gateway_flows gateway_addr gateway_mac gateway_of_port = do
  classifier ← generate (λ p. gateway_classifier_flow p gateway_of_port)
  add classifier
  ip_guard ← generate (λ p. gateway_ip_spoof_guard_flow p gateway_of_port)
  add ip_guard
  arp_guard ← generate (λ p. gateway_arp_spoof_guard_flow p gateway_of_port)
  add arp_guard
  l3 ← generate (λ p. l3_to_gateway_flow p gateway_addr gateway_mac)
  add l3
  l2 ← generate (λ p. l2_forward_calc_flow p gateway_mac gateway_of_port)
  add l2

-- InstallTunnelFlows
unfoldable pub install_tunnel_flows : ℕ → Exec Client Done
install_tunnel_flows tunnel_of_port = do
  classifier ← generate (λ p. tunnel_classifier_flow p tunnel_of_port)
  add classifier
  l2 ← generate (λ p. l2_forward_calc_flow p global_virtual_mac tunnel_of_port)
  add l2

-- fmt.Errorf(message, err)
abbrev explained : String → Outcome Done → Outcome Done
explained message (ok _) = ok tt
explained message (err e) = err (wrapped message e)
explained message panic = panic

abbrev pub explain : String → Exec Client Done → Exec Client Done
explain message m c = let (r, c') = m c in (explained message r, c')

abbrev pub max_retry_for_of_switch : ℕ
max_retry_for_of_switch = 5

abbrev pub connect_bridge : Exec Client Done
connect_bridge c =
    put_back (λ s. record c { switch = s }) (connect max_retry_for_of_switch c.switch)

-- Initialize
unfoldable pub initialize : Exec Client Done
initialize = do
  connect_bridge
  arp ← generate arp_normal_flow
  explain "failed to install arp normal flow" (add arp)
  classifier ← generate classifier_default_flow
  explain "failed to install classifier default resubmit flow" (add classifier)
  snat ← generate core_dns_snat_default_flow
  explain "failed to install coreDNSSNAT default resubmit flow" (add snat)
  forward ← generate cluster_forward_default_flow
  explain "failed to install clusterForward default normal flow" (add forward)

-- Disconnect of pipeline.go
unfoldable pub disconnect_client : Exec Client Done
disconnect_client c = put_back (λ s. record c { switch = s }) (disconnect c.switch)
