-- ===== src/Openflow/Match/Key.antt =====
-- generateGlobalMapKey of pkg/openflow/network_policy.go as the key of a match condition.
use text.Mathlib.TextLemmas.{append_cancel_left, cons-append}
use ciccni.Base.{ℕ, String, ◌≡◌, refl, ◌<>◌, arith, ap, ◌↔◌, nat_eqb, if◌then◌else◌}
use ciccni.Base.Text.{Ends, dec_at_separator}
use ciccni.Openflow.Match.{
  MatchKey, match_dst_ip, match_src_ip, match_dst_ip_net, match_src_ip_net, match_dst_of_port,
  match_src_of_port, match_tcp_dst_port, match_udp_dst_port, match_sctp_dst_port, unsupported,
  key_number, show_value, ConjunctiveMatch, generate_global_map_key,
}

-- the constant of a number
abbrev key_of : ℕ → MatchKey
key_of n =
    if nat_eqb n 0
    then match_dst_ip
    else if nat_eqb n 1
    then match_src_ip
    else if nat_eqb n 2
    then match_dst_ip_net
    else if nat_eqb n 3
    then match_src_ip_net
    else if nat_eqb n 4
    then match_dst_of_port
    else if nat_eqb n 5
    then match_src_of_port
    else if nat_eqb n 6
    then match_tcp_dst_port
    else if nat_eqb n 7
    then match_udp_dst_port
    else if nat_eqb n 8
    then match_sctp_dst_port
    else unsupported

key_of-key_number : (k : MatchKey) → key_of (key_number k) ≡ k
unfolding key_number
key_of-key_number match_dst_ip = refl
key_of-key_number match_src_ip = refl
key_of-key_number match_dst_ip_net = refl
key_of-key_number match_src_ip_net = refl
key_of-key_number match_dst_of_port = refl
key_of-key_number match_src_of_port = refl
key_of-key_number match_tcp_dst_port = refl
key_of-key_number match_udp_dst_port = refl
key_of-key_number match_sctp_dst_port = refl
key_of-key_number unsupported = refl

key_number_injective : (j k : MatchKey) → key_number j ≡ key_number k → j ≡ k
key_number_injective j k e = cc (key_of-key_number j, key_of-key_number k, ap key_of e)

type-Ends : (s : String) → Ends b',' (",type:" <> s)
type-Ends s = rw cons-append refl

value-Ends : (s : String) → Ends b',' (",value:" <> s)
value-Ends s = rw cons-append refl

-- Two match conditions share one key of the global cache of contexts exactly when they are of one
-- table and one match key, and their values print alike.
pub generate_global_map_key-eq_iff :
    (m n : ConjunctiveMatch)
    → (generate_global_map_key m ≡ generate_global_map_key n) ↔ (
        (m.table_id ≡ n.table_id)
        × (m.match_key ≡ n.match_key)
        × (show_value m.match_value ≡ show_value n.match_value))
unfolding generate_global_map_key
generate_global_map_key-eq_iff m n = (
  λ e.
      let (same_table, e1) =
        dec_at_separator b',' _ _ _ _ (omega arith) (type-Ends _) (type-Ends _)
          (append_cancel_left "table:" _ _ e) in
      let (same_key, e2) =
        dec_at_separator b',' _ _ _ _ (omega arith) (value-Ends _) (value-Ends _)
          (append_cancel_left ",type:" _ _ e1) in
      (same_table, key_number_injective _ _ same_key, append_cancel_left ",value:" _ _ e2),
  λ h. cc (h.0, h.1, h.2),
)
