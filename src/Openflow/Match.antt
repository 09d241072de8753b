-- ===== src/Openflow/Match.antt =====
-- The match conditions of pkg/openflow/network_policy.go and the addresses that they come from,
-- with AddressType of pkg/agent/types/networkpolicy.go.
pub mod Key
use ciccni.Base.{
  ℕ, ◌-◌, ◌%◌, ◌^◌, String, ◌≡◌, refl, ltb, if◌then◌else◌, ◌<>◌, dec, Outcome, ok, panic,
}
use ciccni.Base.Partial.{◌>>=◌}
use ciccni.Net.{Ip, IpNet, show_ip, show_ip_net, show_mask}

-- MatchDstIP, ...; `Unsupported` is the last
pub data MatchKey : Type 0 where
  match_dst_ip match_src_ip match_dst_ip_net match_src_ip_net : MatchKey
  match_dst_of_port match_src_of_port : MatchKey
  match_tcp_dst_port match_udp_dst_port match_sctp_dst_port unsupported : MatchKey

-- the value of the constant, which iota counts
unfoldable pub key_number : MatchKey → ℕ
key_number match_dst_ip = 0
key_number match_src_ip = 1
key_number match_dst_ip_net = 2
key_number match_src_ip_net = 3
key_number match_dst_of_port = 4
key_number match_src_of_port = 5
key_number match_tcp_dst_port = 6
key_number match_udp_dst_port = 7
key_number match_sctp_dst_port = 8
key_number unsupported = 9

-- the `interface{}` of a match value: net.IP, net.IPNet, int32 or uint16. An int32 is kept as its
-- 32-bit pattern.
pub data MatchValue : Type 0 where
  ip_value : Ip → MatchValue
  ip_net_value : IpNet → MatchValue
  of_port_value : ℕ → MatchValue
  port_value : ℕ → MatchValue

-- "%d" of an int32
unfoldable pub show_int32 : ℕ → String
unfolding dec
show_int32 n = if ltb n (2 ^ 31) then dec n else "-" <> dec (2 ^ 32 - n)

-- fmt's %s of the value. A net.IPNet, which is no Stringer, is printed field by field, and a number
-- as a bad verb.
unfoldable pub show_value : MatchValue → String
unfolding show_ip show_mask show_int32 dec
show_value (ip_value ip) = show_ip ip
show_value (ip_net_value net) = "{" <> show_ip net.ip <> " " <> show_mask net.ones <> "}"
show_value (of_port_value n) = "%!s(int32=" <> show_int32 n <> ")"
show_value (port_value n) = "%!s(uint16=" <> dec n <> ")"

-- types.AddressType; the source's `default` branches are reached by its other values
pub data AddressType : Type 0 where
  src_address dst_address : AddressType
  other_address : ℕ → AddressType

-- the value of the constant
abbrev pub address_type_number : AddressType → ℕ
address_type_number src_address = 0
address_type_number dst_address = 1
address_type_number (other_address n) = n

-- types.Address: IPAddress, IPNetAddress or OFPortAddress
pub data Address : Type 0 where
  ip_address : Ip → Address
  ip_net_address : IpNet → Address
  of_port_address : ℕ → Address

-- GetMatchKey
unfoldable pub get_match_key : Address → AddressType → MatchKey
get_match_key (ip_address _) src_address = match_src_ip
get_match_key (ip_address _) dst_address = match_dst_ip
get_match_key (ip_net_address _) src_address = match_src_ip_net
get_match_key (ip_net_address _) dst_address = match_dst_ip_net
get_match_key (of_port_address _) src_address = match_src_of_port
get_match_key (of_port_address _) dst_address = match_dst_of_port
get_match_key _ (other_address _) = unsupported

-- GetMatchValue
unfoldable pub get_match_value : Address → String
unfolding show_ip show_ip_net show_int32
get_match_value (ip_address ip) = show_ip ip
get_match_value (ip_net_address net) = show_ip_net net
get_match_value (of_port_address n) = show_int32 n

-- GetValue
unfoldable pub get_value : Address → MatchValue
get_value (ip_address ip) = ip_value ip
get_value (ip_net_address net) = ip_net_value net
get_value (of_port_address n) = of_port_value n

-- coreV1.Protocol; any other text is treated as TCP
pub data ServiceProtocol : Type 0 where
  tcp udp sctp : ServiceProtocol
  other_protocol : String → ServiceProtocol

-- v1.NetworkPolicyPort: the protocol and Port.IntVal as its 32-bit pattern
pub record NetworkPolicyPort : Type 0 where
  pub protocol : ServiceProtocol
  pub int_val : ℕ

-- getServiceMatchType
unfoldable pub get_service_match_type : ServiceProtocol → MatchKey
get_service_match_type tcp = match_tcp_dst_port
get_service_match_type udp = match_udp_dst_port
get_service_match_type sctp = match_sctp_dst_port
get_service_match_type (other_protocol _) = match_tcp_dst_port

-- conjunctiveMatch
pub record ConjunctiveMatch : Type 0 where
  pub table_id : ℕ
  pub match_key : MatchKey
  pub match_value : MatchValue

-- generateGlobalMapKey
unfoldable pub generate_global_map_key : ConjunctiveMatch → String
unfolding dec key_number show_value
generate_global_map_key m =
    "table:"
    <> dec m.table_id
    <> ",type:"
    <> dec (key_number m.match_key)
    <> ",value:"
    <> show_value m.match_value

-- the type assertions of addFlowMatch
abbrev pub as_ip : MatchValue → Outcome Ip
as_ip (ip_value ip) = ok ip
as_ip _ = panic

abbrev pub as_ip_net : MatchValue → Outcome IpNet
as_ip_net (ip_net_value net) = ok net
as_ip_net _ = panic

abbrev pub as_of_port : MatchValue → Outcome ℕ
as_of_port (of_port_value n) = ok n
as_of_port _ = panic

abbrev pub as_port : MatchValue → Outcome ℕ
as_port (port_value n) = ok n
as_port _ = panic
