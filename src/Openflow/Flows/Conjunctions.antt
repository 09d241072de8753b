-- ===== src/Openflow/Flows/Conjunctions.antt =====
-- The conjunction flows of network policies.
use ciccni.Base.{ℕ, List, [], ◌∷◌, Outcome, ok, ◌▷◌}
use ciccni.Base.Partial.{◌>>=◌}
use ciccni.Binding.Flow.{Flow}
use ciccni.Binding.Builder
use ciccni.Binding.Builder.{
  build_flow, priority, protocol_ip, protocol_arp, protocol_udp, protocol_tcp, protocol_sctp, i2h,
  match_in_port, match_protocol, match_reg_range, match_ct_mark, match_ct_state, match_dst_mac,
  match_src_mac, match_arp_op, match_arp_tpa, match_arp_sha, match_arp_spa, match_tp_src,
  match_conj_id,
}
use ciccni.Binding.Action.{drop, resubmit, conjunction}
use ciccni.Openflow.Tables.{
  Pipeline, table, priority_normal, priority_low, port_cache_reg, of_port_reg_range,
}
use ciccni.Openflow.Match.{
  MatchKey, MatchValue, match_dst_ip, match_src_ip, match_dst_ip_net, match_src_ip_net,
  match_dst_of_port, match_src_of_port, match_tcp_dst_port, match_udp_dst_port, match_sctp_dst_port,
  unsupported, as_ip, as_ip_net, as_of_port, as_port,
}

-- conjunctiveAction of network_policy.go
pub record ConjunctiveAction : Type 0 where
  pub conj_id : ℕ
  pub clause_id : ℕ
  pub n_clause : ℕ

-- conjunctionActionFlow
unfoldable pub conjunction_action_flow : Pipeline → ℕ → ℕ → ℕ → Outcome Flow
unfolding table
conjunction_action_flow p conjunction_id table_id next_table = do
  t ← table p table_id
  ok (
      build_flow t
      ▷ match_protocol protocol_ip
      ▷ priority priority_low
      ▷ match_conj_id conjunction_id
      ▷ resubmit "" next_table)

-- addFlowMatch. A type assertion that fails panics.
unfoldable pub add_flow_match : Flow → MatchKey → MatchValue → Outcome Flow
add_flow_match fb match_dst_ip v = do
  ip ← as_ip v
  ok (fb ▷ match_protocol protocol_ip ▷ Builder.match_dst_ip ip)
add_flow_match fb match_dst_ip_net v = do
  net ← as_ip_net v
  ok (fb ▷ match_protocol protocol_ip ▷ Builder.match_dst_ip_net net)
add_flow_match fb match_src_ip v = do
  ip ← as_ip v
  ok (fb ▷ match_protocol protocol_ip ▷ Builder.match_src_ip ip)
add_flow_match fb match_src_ip_net v = do
  net ← as_ip_net v
  ok (fb ▷ match_protocol protocol_ip ▷ Builder.match_src_ip_net net)
add_flow_match fb match_dst_of_port v = do
  port ← as_of_port v
  ok (fb ▷ match_protocol protocol_ip ▷ match_reg_range port_cache_reg port of_port_reg_range)
add_flow_match fb match_src_of_port v = do
  port ← as_of_port v
  ok (fb ▷ match_protocol protocol_ip ▷ match_in_port port)
add_flow_match fb match_tcp_dst_port v = do
  port ← as_port v
  ok (fb ▷ match_protocol protocol_tcp ▷ Builder.match_tcp_dst_port port)
add_flow_match fb match_udp_dst_port v = do
  port ← as_port v
  ok (fb ▷ match_protocol protocol_udp ▷ Builder.match_udp_dst_port port)
add_flow_match fb match_sctp_dst_port v = do
  port ← as_port v
  ok (fb ▷ match_protocol protocol_sctp ▷ Builder.match_sctp_dst_port port)
add_flow_match fb unsupported v = ok fb

-- conjunctionExceptionFlow
unfoldable pub conjunction_exception_flow :
    Pipeline → ℕ → ℕ → ℕ → MatchKey → MatchValue → Outcome Flow
unfolding table add_flow_match
conjunction_exception_flow p conjunction_id table_id next_table key value = do
  t ← table p table_id
  fb ←
      add_flow_match (build_flow t ▷ priority priority_normal ▷ match_conj_id conjunction_id) key
        value
  ok (fb ▷ resubmit "" next_table)

-- the loop over the conjunctive actions, which appends one action for each
abbrev pub conjunction_each : List ConjunctiveAction → Flow → Flow
conjunction_each [] b = b
conjunction_each (a ∷ actions) b =
    conjunction_each actions (b ▷ conjunction a.conj_id a.clause_id a.n_clause)

-- conjunctiveMatchFlow
unfoldable pub conjunctive_match_flow :
    Pipeline → ℕ → MatchKey → MatchValue → List ConjunctiveAction → Outcome Flow
unfolding table add_flow_match
conjunctive_match_flow p table_id key value actions = do
  t ← table p table_id
  fb ← add_flow_match (build_flow t ▷ priority priority_normal) key value
  ok (conjunction_each actions fb)

-- defaultDropFlow
unfoldable pub default_drop_flow : Pipeline → ℕ → MatchKey → MatchValue → Outcome Flow
unfolding table add_flow_match
default_drop_flow p table_id key value = do
  t ← table p table_id
  fb ← add_flow_match (build_flow t ▷ priority priority_normal) key value
  ok (fb ▷ drop)
