-- ===== src/Openflow/Flows/Cluster.antt =====
-- The flows of the three tables that the program creates: tunnels between the nodes, ARP, local
-- networks and CoreDNS.
use ciccni.Base.{ℕ, List, [], ◌∷◌, Outcome, ok, ◌▷◌}
use ciccni.Base.Partial.{◌>>=◌}
use ciccni.Net.{Ip, IpNet}
use ciccni.Binding.Flow.{Flow}
use ciccni.Binding.Builder
use ciccni.Binding.Builder.{
  build_flow, priority, protocol_ip, protocol_arp, protocol_udp, protocol_tcp, protocol_sctp, i2h,
  match_in_port, match_protocol, match_reg_range, match_ct_mark, match_ct_state, match_dst_mac,
  match_src_mac, match_arp_op, match_arp_tpa, match_arp_sha, match_arp_spa, match_tp_src,
  match_conj_id,
}
use ciccni.Binding.Action.{normal, resubmit, set_tunnel_dst, set_src_ip}
use ciccni.Openflow.Tables
use ciccni.Openflow.Tables.{
  Pipeline, table, priority_high, priority_normal, priority_low, priority_miss, marks_reg,
  port_cache_reg, of_port_mark_range, of_port_reg_range, port_found_mark, global_virtual_mac,
  mark_traffic_from_tunnel, mark_traffic_from_gateway, mark_traffic_from_local, gateway_ct_mark,
  ct_zone,
}

-- ipTunFlow
unfoldable pub ip_tun_flow : Pipeline → IpNet → ℕ → Ip → Outcome Flow
unfolding table
ip_tun_flow p dst_ip_net in_port tunnel_dst_ip = do
  t ← table p Tables.all_flow_table
  ok (
      build_flow t
      ▷ priority priority_normal
      ▷ match_protocol protocol_ip
      ▷ Builder.match_dst_ip_net dst_ip_net
      ▷ match_in_port in_port
      ▷ set_tunnel_dst tunnel_dst_ip
      ▷ normal)

-- ipTunFlowWithoutInPort
unfoldable pub ip_tun_flow_without_in_port : Pipeline → IpNet → Ip → Outcome Flow
unfolding table
ip_tun_flow_without_in_port p dst_ip_net tunnel_dst_ip = do
  t ← table p Tables.cluster_forward_table
  ok (
      build_flow t
      ▷ priority priority_normal
      ▷ match_protocol protocol_ip
      ▷ Builder.match_dst_ip_net dst_ip_net
      ▷ set_tunnel_dst tunnel_dst_ip
      ▷ normal)

-- classifierDefaultFlow
unfoldable pub classifier_default_flow : Pipeline → Outcome Flow
unfolding table
classifier_default_flow p = do
  t ← table p Tables.classifier_table
  ok (build_flow t ▷ priority priority_miss ▷ resubmit "" Tables.cluster_forward_table)

-- classifierTableFlowWithInPort
unfoldable pub classifier_table_flow_with_in_port : Pipeline → ℕ → Outcome Flow
unfolding table
classifier_table_flow_with_in_port p core_dns_port = do
  t ← table p Tables.classifier_table
  ok (
      build_flow t
      ▷ priority priority_normal
      ▷ match_in_port core_dns_port
      ▷ resubmit "" Tables.core_dns_snat_table)

-- coreDNSSNATDefaultFlow
unfoldable pub core_dns_snat_default_flow : Pipeline → Outcome Flow
unfolding table
core_dns_snat_default_flow p = do
  t ← table p Tables.core_dns_snat_table
  ok (build_flow t ▷ priority priority_miss ▷ resubmit "" Tables.cluster_forward_table)

-- coreDnsSNATTFlowWithInPort
unfoldable pub core_dns_snat_flow_with_in_port : Pipeline → ℕ → Ip → Outcome Flow
unfolding table
core_dns_snat_flow_with_in_port p core_dns_port service_ip = do
  t ← table p Tables.core_dns_snat_table
  ok (
      build_flow t
      ▷ priority priority_normal
      ▷ match_in_port core_dns_port
      ▷ match_tp_src 53
      ▷ match_protocol protocol_udp
      ▷ set_src_ip service_ip
      ▷ resubmit "" Tables.cluster_forward_table)

-- clusterForwardDefaultFlow
unfoldable pub cluster_forward_default_flow : Pipeline → Outcome Flow
unfolding table
cluster_forward_default_flow p = do
  t ← table p Tables.cluster_forward_table
  ok (build_flow t ▷ priority priority_miss ▷ normal)

-- localIPFlowWithIPnet
unfoldable pub local_ip_flow_with_ip_net : Pipeline → IpNet → Outcome Flow
unfolding table
local_ip_flow_with_ip_net p net = do
  t ← table p Tables.cluster_forward_table
  ok (
      build_flow t
      ▷ priority priority_normal
      ▷ match_protocol protocol_ip
      ▷ Builder.match_dst_ip_net net
      ▷ normal)

-- localIPFlowWithIP
unfoldable pub local_ip_flow_with_ip : Pipeline → Ip → Outcome Flow
unfolding table
local_ip_flow_with_ip p ip = do
  t ← table p Tables.cluster_forward_table
  ok (
      build_flow t
      ▷ priority priority_normal
      ▷ match_protocol protocol_ip
      ▷ Builder.match_dst_ip ip
      ▷ normal)

-- ipTunFlowMatchIP
unfoldable pub ip_tun_flow_match_ip : Pipeline → Ip → ℕ → Ip → Outcome Flow
unfolding table
ip_tun_flow_match_ip p dst_ip in_port tunnel_dst_ip = do
  t ← table p Tables.cluster_forward_table
  ok (
      build_flow t
      ▷ priority priority_normal
      ▷ match_protocol protocol_ip
      ▷ Builder.match_dst_ip dst_ip
      ▷ match_in_port in_port
      ▷ set_tunnel_dst tunnel_dst_ip
      ▷ normal)

-- the loop of arpFlow, which appends two actions for each address
abbrev pub tunnel_each : List Ip → Flow → Flow
tunnel_each [] b = b
tunnel_each (ip ∷ ips) b = tunnel_each ips (b ▷ set_tunnel_dst ip ▷ normal)

-- arpFlow
unfoldable pub arp_flow : Pipeline → List Ip → Outcome (Flow × Flow)
unfolding table
arp_flow p ips = do
  t ← table p Tables.cluster_forward_table
  let build_for_req =
      build_flow t ▷ priority priority_normal ▷ match_protocol protocol_arp ▷ match_arp_op 1
  let build_for_resp =
      build_flow t ▷ priority priority_normal ▷ match_protocol protocol_arp ▷ match_arp_op 2
  ok (tunnel_each ips build_for_req, tunnel_each ips build_for_resp)

-- arpNormalFlow
unfoldable pub arp_normal_flow : Pipeline → Outcome Flow
unfolding table
arp_normal_flow p = do
  t ← table p Tables.cluster_forward_table
  ok (build_flow t ▷ match_protocol protocol_arp ▷ priority priority_low ▷ normal)
