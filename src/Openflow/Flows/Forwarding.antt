-- ===== src/Openflow/Flows/Forwarding.antt =====
-- Classification, connection tracking and forwarding: the flows of the Antrea pipeline.
use ciccni.Base.{ℕ, true, false, List, [], ◌∷◌, Outcome, ok, ◌▷◌}
use ciccni.Base.Partial.{◌>>=◌}
use ciccni.Net.{Ip, IpNet, Mac}
use ciccni.Binding.Switch.{MissAction, miss_drop, miss_normal, miss_next, Table}
use ciccni.Binding.Flow.{Flow}
use ciccni.Binding.Builder
use ciccni.Binding.Builder.{
  build_flow, priority, protocol_ip, protocol_arp, protocol_udp, protocol_tcp, protocol_sctp, i2h,
  match_in_port, match_protocol, match_reg_range, match_ct_mark, match_ct_state, match_dst_mac,
  match_src_mac, match_arp_op, match_arp_tpa, match_arp_sha, match_arp_spa, match_tp_src,
  match_conj_id,
}
use ciccni.Binding.Action.{
  drop, normal, resubmit, load_reg_range, ct, ct_done, load_to_mark, move_to_label, move_range,
  output_reg_range, output, set_tunnel_dst, set_src_mac, set_dst_mac, dec_ttl,
}
use ciccni.Openflow.Tables
use ciccni.Openflow.Tables.{
  Pipeline, table, priority_high, priority_normal, priority_low, priority_miss, marks_reg,
  port_cache_reg, of_port_mark_range, of_port_reg_range, port_found_mark, global_virtual_mac,
  mark_traffic_from_tunnel, mark_traffic_from_gateway, mark_traffic_from_local, gateway_ct_mark,
  ct_zone,
}

-- the miss action of one table, in defaultFlows
abbrev miss_flow : MissAction → Table → Flow → Flow
miss_flow miss_next t b = b ▷ resubmit "" t.next
miss_flow miss_normal t b = b ▷ normal
miss_flow miss_drop t b = b ▷ drop

-- defaultFlows
unfoldable pub default_flows : Pipeline → List Flow
default_flows [] = []
default_flows ((_, t) ∷ p) =
    miss_flow t.miss_action t (build_flow t ▷ priority priority_miss ▷ match_protocol protocol_ip)
    ∷ default_flows p

-- tunnelClassifierFlow
unfoldable pub tunnel_classifier_flow : Pipeline → ℕ → Outcome Flow
unfolding table
tunnel_classifier_flow p tunnel_of_port = do
  t ← table p Tables.classifier_table
  ok (
      build_flow t
      ▷ priority priority_normal
      ▷ match_in_port tunnel_of_port
      ▷ load_reg_range marks_reg mark_traffic_from_tunnel (0, 15)
      ▷ resubmit "" Tables.conntrack_table)

-- gatewayClassifierFlow
unfoldable pub gateway_classifier_flow : Pipeline → ℕ → Outcome Flow
unfolding table
gateway_classifier_flow p gateway_of_port = do
  t ← table p Tables.classifier_table
  ok (
      build_flow t
      ▷ priority priority_normal
      ▷ match_in_port gateway_of_port
      ▷ load_reg_range marks_reg mark_traffic_from_gateway (0, 15)
      ▷ resubmit "" t.next)

-- podClassifierFlow
unfoldable pub pod_classifier_flow : Pipeline → ℕ → Outcome Flow
unfolding table
pod_classifier_flow p pod_of_port = do
  t ← table p Tables.classifier_table
  ok (
      build_flow t
      ▷ priority priority_low
      ▷ match_in_port pod_of_port
      ▷ load_reg_range marks_reg mark_traffic_from_local (0, 15)
      ▷ resubmit "" t.next)

-- connectionTrackFlows
unfoldable pub connection_track_flows : Pipeline → Outcome (List Flow)
unfolding table
connection_track_flows p = do
  c ← table p Tables.conntrack_table
  let base =
      build_flow c
      ▷ match_protocol protocol_ip
      ▷ priority priority_normal
      ▷ ct_done (ct false c.next ct_zone)
  s ← table p Tables.conntrack_state_table
  let gateway_reply =
      build_flow s
      ▷ match_protocol protocol_ip
      ▷ priority priority_high
      ▷ match_reg_range marks_reg mark_traffic_from_gateway (0, 15)
      ▷ match_ct_mark (i2h gateway_ct_mark)
      ▷ match_ct_state "-new+trk"
      ▷ resubmit "" s.next
  let gateway_send =
      build_flow s
      ▷ match_protocol protocol_ip
      ▷ priority priority_normal
      ▷ match_reg_range marks_reg mark_traffic_from_gateway (0, 15)
      ▷ match_ct_state "+new+trk"
      ▷ ct_done (
          ct true s.next ct_zone
          ▷ load_to_mark gateway_ct_mark
          ▷ move_to_label "NXM_OF_ETH_SRC" (0, 47) (0, 47))
  let pod_reply_gateway =
      build_flow s
      ▷ match_protocol protocol_ip
      ▷ priority priority_normal
      ▷ match_ct_mark (i2h gateway_ct_mark)
      ▷ match_ct_state "-new+trk"
      ▷ move_range "NXM_NX_CT_LABEL" "NXM_OF_ETH_DST" (0, 47) (0, 47)
      ▷ resubmit "" s.next
  let non_gateway_send =
      build_flow s
      ▷ match_protocol protocol_ip
      ▷ priority priority_low
      ▷ match_ct_state "+new+trk"
      ▷ ct_done (ct true s.next ct_zone)
  let inv_ct =
      build_flow s
      ▷ match_protocol protocol_ip
      ▷ priority priority_normal
      ▷ match_ct_state "+new+inv"
      ▷ drop
  ok (base ∷ gateway_reply ∷ gateway_send ∷ pod_reply_gateway ∷ non_gateway_send ∷ inv_ct ∷ [])

-- l2ForwardCalcFlow
unfoldable pub l2_forward_calc_flow : Pipeline → Mac → ℕ → Outcome Flow
unfolding table
l2_forward_calc_flow p dst_mac of_port = do
  t ← table p Tables.l2_forwarding_calc_table
  ok (
      build_flow t
      ▷ priority priority_normal
      ▷ match_dst_mac dst_mac
      ▷ load_reg_range port_cache_reg of_port of_port_reg_range
      ▷ load_reg_range marks_reg port_found_mark of_port_mark_range
      ▷ resubmit "" t.next)

-- l2ForwardOutputFlow
unfoldable pub l2_forward_output_flow : Pipeline → Outcome Flow
unfolding table
l2_forward_output_flow p = do
  t ← table p Tables.l2_forwarding_out_table
  ok (
      build_flow t
      ▷ priority priority_normal
      ▷ match_protocol protocol_ip
      ▷ match_reg_range marks_reg port_found_mark of_port_mark_range
      ▷ output_reg_range port_cache_reg of_port_reg_range)

-- l3FlowsToPod
unfoldable pub l3_flows_to_pod : Pipeline → Mac → Ip → Mac → Outcome Flow
unfolding table
l3_flows_to_pod p local_gateway_mac pod_interface_ip pod_interface_mac = do
  t ← table p Tables.l3_forwarding_table
  ok (
      build_flow t
      ▷ match_protocol protocol_ip
      ▷ priority priority_normal
      ▷ match_dst_mac global_virtual_mac
      ▷ Builder.match_dst_ip pod_interface_ip
      ▷ set_src_mac local_gateway_mac
      ▷ set_dst_mac pod_interface_mac
      ▷ dec_ttl
      ▷ resubmit "" t.next)

-- l3ToGatewayFlow
unfoldable pub l3_to_gateway_flow : Pipeline → Ip → Mac → Outcome Flow
unfolding table
l3_to_gateway_flow p local_gateway_ip local_gateway_mac = do
  t ← table p Tables.l3_forwarding_table
  ok (
      build_flow t
      ▷ match_protocol protocol_ip
      ▷ priority priority_normal
      ▷ Builder.match_dst_ip local_gateway_ip
      ▷ set_dst_mac local_gateway_mac
      ▷ resubmit "" t.next)

-- l3FwdFlowToRemote
unfoldable pub l3_fwd_flow_to_remote : Pipeline → Mac → IpNet → Ip → Outcome Flow
unfolding table
l3_fwd_flow_to_remote p local_gateway_mac peer_subnet tunnel_peer = do
  t ← table p Tables.l3_forwarding_table
  ok (
      build_flow t
      ▷ match_protocol protocol_ip
      ▷ priority priority_normal
      ▷ Builder.match_dst_ip_net peer_subnet
      ▷ dec_ttl
      ▷ set_src_mac local_gateway_mac
      ▷ set_dst_mac global_virtual_mac
      ▷ set_tunnel_dst tunnel_peer
      ▷ resubmit "" t.next)

-- serviceCIDRDNATFlow
unfoldable pub service_cidr_dnat_flow : Pipeline → IpNet → ℕ → Outcome Flow
unfolding table
service_cidr_dnat_flow p service_cidr gateway_of_port = do
  t ← table p Tables.dnat_table
  ok (
      build_flow t
      ▷ match_protocol protocol_ip
      ▷ priority priority_normal
      ▷ Builder.match_dst_ip_net service_cidr
      ▷ output gateway_of_port)
