-- ===== src/Openflow/Flows/Guards.antt =====
-- The ARP responder, the spoof guards and the flows of established connections.
use ciccni.Base.{ℕ, List, [], ◌∷◌, Outcome, ok, ◌▷◌}
use ciccni.Base.Partial.{◌>>=◌}
use ciccni.Net.{Ip, Mac}
use ciccni.Binding.Flow.{Flow}
use ciccni.Binding.Builder
use ciccni.Binding.Builder.{
  build_flow, priority, protocol_ip, protocol_arp, protocol_udp, protocol_tcp, protocol_sctp, i2h,
  match_in_port, match_protocol, match_reg_range, match_ct_mark, match_ct_state, match_dst_mac,
  match_src_mac, match_arp_op, match_arp_tpa, match_arp_sha, match_arp_spa, match_tp_src,
  match_conj_id,
}
use ciccni.Binding.Action.{
  resubmit, output_in_port, set_src_mac, move, load_arp_operation, set_arp_sha, set_arp_spa,
}
use ciccni.Openflow.Tables
use ciccni.Openflow.Tables.{
  Pipeline, table, priority_high, priority_normal, priority_low, priority_miss, marks_reg,
  port_cache_reg, of_port_mark_range, of_port_reg_range, port_found_mark, global_virtual_mac,
  mark_traffic_from_tunnel, mark_traffic_from_gateway, mark_traffic_from_local, gateway_ct_mark,
  ct_zone,
}

-- arpResponderFlow
unfoldable pub arp_responder_flow : Pipeline → Ip → Outcome Flow
unfolding table
arp_responder_flow p peer_gateway_ip = do
  t ← table p Tables.arp_responder_table
  ok (
      build_flow t
      ▷ match_protocol protocol_arp
      ▷ priority priority_normal
      ▷ match_arp_op 1
      ▷ match_arp_tpa peer_gateway_ip
      ▷ move "NXM_OF_ETH_SRC" "NXM_OF_ETH_DST"
      ▷ set_src_mac global_virtual_mac
      ▷ load_arp_operation 2
      ▷ move "NXM_NX_ARP_SHA" "NXM_NX_ARP_THA"
      ▷ set_arp_sha global_virtual_mac
      ▷ move "NXM_OF_ARP_SPA" "NXM_OF_ARP_TPA"
      ▷ set_arp_spa peer_gateway_ip
      ▷ output_in_port)

-- podIPSpoofGuardFlow
unfoldable pub pod_ip_spoof_guard_flow : Pipeline → Ip → Mac → ℕ → Outcome Flow
unfolding table
pod_ip_spoof_guard_flow p if_ip if_mac if_of_port = do
  t ← table p Tables.spoof_guard_table
  ok (
      build_flow t
      ▷ match_protocol protocol_ip
      ▷ priority priority_normal
      ▷ match_in_port if_of_port
      ▷ match_src_mac if_mac
      ▷ Builder.match_src_ip if_ip
      ▷ resubmit "" t.next)

-- gatewayARPSpoofGuardFlow
unfoldable pub gateway_arp_spoof_guard_flow : Pipeline → ℕ → Outcome Flow
unfolding table
gateway_arp_spoof_guard_flow p gateway_of_port = do
  t ← table p Tables.spoof_guard_table
  ok (
      build_flow t
      ▷ match_protocol protocol_arp
      ▷ priority priority_normal
      ▷ match_in_port gateway_of_port
      ▷ resubmit "" Tables.arp_responder_table)

-- arpSpoofGuardFlow
unfoldable pub arp_spoof_guard_flow : Pipeline → Ip → Mac → ℕ → Outcome Flow
unfolding table
arp_spoof_guard_flow p if_ip if_mac if_of_port = do
  t ← table p Tables.spoof_guard_table
  ok (
      build_flow t
      ▷ match_protocol protocol_arp
      ▷ priority priority_normal
      ▷ match_in_port if_of_port
      ▷ match_arp_sha if_mac
      ▷ match_arp_spa if_ip
      ▷ resubmit "" Tables.arp_responder_table)

-- gatewayIPSpoofGuardFlow
unfoldable pub gateway_ip_spoof_guard_flow : Pipeline → ℕ → Outcome Flow
unfolding table
gateway_ip_spoof_guard_flow p gateway_of_port = do
  t ← table p Tables.spoof_guard_table
  ok (
      build_flow t
      ▷ priority priority_normal
      ▷ match_protocol protocol_ip
      ▷ match_in_port gateway_of_port
      ▷ resubmit "" t.next)

-- establishedConnectionFlows
unfoldable pub established_connection_flows : Pipeline → Outcome (List Flow)
unfolding table
established_connection_flows p = do
  egress_rule ← table p Tables.egress_rule_table
  egress_drop ← table p Tables.egress_default_table
  let egress_est =
      build_flow egress_rule
      ▷ match_protocol protocol_ip
      ▷ priority priority_high
      ▷ match_ct_state "-new+est"
      ▷ resubmit "" egress_drop.next
  ingress_rule ← table p Tables.ingress_rule_table
  ingress_drop ← table p Tables.ingress_default_table
  let ingress_est =
      build_flow ingress_rule
      ▷ match_protocol protocol_ip
      ▷ priority priority_high
      ▷ match_ct_state "-new+est"
      ▷ resubmit "" ingress_drop.next
  ok (egress_est ∷ ingress_est ∷ [])
