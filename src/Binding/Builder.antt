-- ===== src/Binding/Builder.antt =====
-- pkg/ovs/openflow/cmd_builder.go, with BuildFlow of cmd_table.go and CopyToBuilder of cmd_flow.go.
-- A builder is the flow that it fills in; each method returns the builder as it leaves it.
use ciccni.Base.{ℕ, String, [], ◌∷◌, ◌++◌, ◌<>◌, dec, hex}
use ciccni.Net.{Ip, IpNet, Mac, show_ip, show_ip_net, show_mac}
use ciccni.Binding.Switch.{Table}
use ciccni.Binding.Flow.{Flow}

-- the protocol constants of interfaces.go
pub data Protocol : Type 0 where
  protocol_ip protocol_arp protocol_tcp protocol_udp protocol_sctp protocol_icmp : Protocol

-- Range
abbrev pub Range : Type 0
Range = ℕ × ℕ

-- the constants' text, which strings.ToLower leaves as it is
unfoldable pub show_protocol : Protocol → String
show_protocol protocol_ip = "ip"
show_protocol protocol_arp = "arp"
show_protocol protocol_tcp = "tcp"
show_protocol protocol_udp = "udp"
show_protocol protocol_sctp = "sctp"
show_protocol protocol_icmp = "icmp"

-- "0x%x"
abbrev pub i2h : ℕ → String
i2h n = "0x" <> hex n

-- "[%d..%d]"
abbrev pub show_range : Range → String
show_range (low, high) = "[" <> dec low <> ".." <> dec high <> "]"

-- BuildFlow
abbrev pub build_flow : Table → Flow
build_flow t = record { table = t; bridge = t.bridge; priority = 0; matchers = []; actions = [] }

-- CopyToBuilder
abbrev pub copy_to_builder : Flow → Flow
copy_to_builder f = record f { actions = [] }

-- b.matchers = append(b.matchers, text)
abbrev pub matcher : String → Flow → Flow
matcher text b = record b { matchers = b.matchers ++ text ∷ [] }

-- Priority
abbrev pub priority : ℕ → Flow → Flow
priority level b = record b { priority = level }

-- MatchField and MatchFieldRange
abbrev pub match_field : String → String → Flow → Flow
match_field name value = matcher (name <> "=" <> value)

abbrev pub match_field_range : String → String → Range → Flow → Flow
match_field_range name value range = matcher (name <> show_range range <> "=" <> value)

abbrev pub match_reg : ℕ → ℕ → Flow → Flow
match_reg reg value = match_field ("reg" <> dec reg) (i2h value)

abbrev pub match_reg_range : ℕ → ℕ → Range → Flow → Flow
match_reg_range reg value range = match_field_range ("reg" <> dec reg) (i2h value) range

abbrev pub match_ct_state : String → Flow → Flow
match_ct_state value = matcher ("ct_state=" <> value)

abbrev pub match_ct_mark : String → Flow → Flow
match_ct_mark value = matcher ("ct_mark=" <> value)

abbrev pub match_in_port : ℕ → Flow → Flow
match_in_port port = match_field "in_port" (dec port)

abbrev pub match_dst_ip : Ip → Flow → Flow
match_dst_ip ip = match_field "nw_dst" (show_ip ip)

abbrev pub match_dst_ip_net : IpNet → Flow → Flow
match_dst_ip_net net = match_field "nw_dst" (show_ip_net net)

abbrev pub match_src_ip : Ip → Flow → Flow
match_src_ip ip = match_field "nw_src" (show_ip ip)

abbrev pub match_src_ip_net : IpNet → Flow → Flow
match_src_ip_net net = match_field "nw_src" (show_ip_net net)

abbrev pub match_dst_mac : Mac → Flow → Flow
match_dst_mac mac = match_field "dl_dst" (show_mac mac)

abbrev pub match_src_mac : Mac → Flow → Flow
match_src_mac mac = match_field "dl_src" (show_mac mac)

abbrev pub match_arp_sha : Mac → Flow → Flow
match_arp_sha mac = match_field "arp_sha" (show_mac mac)

abbrev pub match_arp_tha : Mac → Flow → Flow
match_arp_tha mac = match_field "arp_tha" (show_mac mac)

abbrev pub match_arp_spa : Ip → Flow → Flow
match_arp_spa ip = match_field "arp_spa" (show_ip ip)

abbrev pub match_arp_tpa : Ip → Flow → Flow
match_arp_tpa ip = match_field "arp_tpa" (show_ip ip)

abbrev pub match_arp_op : ℕ → Flow → Flow
match_arp_op op = match_field "arp_op" (dec op)

abbrev pub match_conj_id : ℕ → Flow → Flow
match_conj_id id = match_field "conj_id" (dec id)

abbrev pub match_tcp_dst_port : ℕ → Flow → Flow
match_tcp_dst_port port = match_field "tcp_dst" (dec port)

abbrev pub match_udp_dst_port : ℕ → Flow → Flow
match_udp_dst_port port = match_field "udp_dst" (dec port)

abbrev pub match_sctp_dst_port : ℕ → Flow → Flow
match_sctp_dst_port port = match_field "sct_dst" (dec port)

abbrev pub match_tp_src : ℕ → Flow → Flow
match_tp_src port = match_field "tp_src" (dec port)

abbrev pub match_protocol : Protocol → Flow → Flow
match_protocol protocol = matcher (show_protocol protocol)

abbrev pub cookie : ℕ → Flow → Flow
cookie id = match_field "cookie" (dec id)
