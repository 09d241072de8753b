-- ===== src/Binding/Action.antt =====
-- pkg/ovs/openflow/cmd_action.go. An action method appends to the actions of the builder that it was
-- asked of and returns that builder, so it is a step of the builder.
use ciccni.Base.{ℕ, ◌%◌, ◌^◌, String, Bool, true, false, List, [], ◌∷◌, ◌++◌, ltb, ◌<>◌, dec, join}
use ciccni.Net.{Ip, Mac, show_ip, show_mac}
use ciccni.Binding.Flow.{Flow}
use ciccni.Binding.Builder.{Range, i2h, show_range}

-- a.builder.actions = append(a.builder.actions, text)
abbrev pub action : String → Flow → Flow
action text b = record b { actions = b.actions ++ text ∷ [] }

abbrev pub drop : Flow → Flow
drop = action "drop"

abbrev pub output : ℕ → Flow → Flow
output port = action ("output:" <> dec port)

abbrev pub output_field_range : String → Range → Flow → Flow
output_field_range name range = action ("output:" <> name <> show_range range)

abbrev pub output_reg_range : ℕ → Range → Flow → Flow
output_reg_range reg = output_field_range ("NXM_NX_REG" <> dec reg)

abbrev pub output_in_port : Flow → Flow
output_in_port = action "in_port"

-- cmdCT with its ctBase. The builder that CTDone goes back to is that method's argument.
pub record ConnTrack : Type 0 where
  pub commit : Bool
  pub ct_table : ℕ
  pub ct_zone : ℕ
  pub actions : List String

-- CT
abbrev pub ct : Bool → ℕ → ℕ → ConnTrack
ct commit table zone = record {
  commit = commit;
  ct_table = table;
  ct_zone = zone % 2 ^ 16;
  actions = [];
}

abbrev pub add_action : String → ConnTrack → ConnTrack
add_action text a = record a { actions = a.actions ++ text ∷ [] }

abbrev pub load_to_mark : ℕ → ConnTrack → ConnTrack
load_to_mark value = add_action ("load:" <> i2h value <> "->NXM_NX_CT_MARK[]")

abbrev pub load_to_label_range : ℕ → Range → ConnTrack → ConnTrack
load_to_label_range value (low, high) =
    add_action ("load:" <> i2h value <> "->NXM_NX_CT_LABEL[" <> dec low <> "," <> dec high <> "]")

abbrev pub move_to_label : String → Range → Range → ConnTrack → ConnTrack
move_to_label name from label =
    add_action ("move:" <> name <> show_range from <> "->NXM_NX_CT_LABEL" <> show_range label)

abbrev pub move_src_mac_to_label : Range → ConnTrack → ConnTrack
move_src_mac_to_label = move_to_label "NXM_OF_ETH_SRC" (0, 47)

-- `if cond { if repr != "" { repr += "," }; repr += text }`, with the parts kept apart
abbrev part : Bool → String → List String
part true text = text ∷ []
part false text = []

abbrev exec_part : List String → List String
exec_part [] = []
exec_part (a ∷ actions) = ("exec(" <> join "," (a ∷ actions) <> ")") ∷ []

-- CTDone
abbrev pub ct_done : ConnTrack → Flow → Flow
ct_done a = action (
    "ct("
    <> join "," (
        part a.commit "commit"
        ++ (part (ltb 0 a.ct_table) ("table=" <> dec a.ct_table)
            ++ (part (ltb 0 a.ct_zone) ("zone=" <> dec a.ct_zone) ++ exec_part a.actions)))
    <> ")")

abbrev pub set_field : String → String → Flow → Flow
set_field key value = action ("set_field:" <> value <> "->" <> key)

abbrev pub load : String → ℕ → Flow → Flow
load name value = action ("load:" <> i2h value <> "->" <> name <> "[]")

abbrev pub load_arp_operation : ℕ → Flow → Flow
load_arp_operation = load "NXM_OF_ARP_OP"

abbrev pub load_range : String → ℕ → Range → Flow → Flow
load_range name value to = action ("load:" <> i2h value <> "->" <> name <> show_range to)

abbrev pub load_reg_range : ℕ → ℕ → Range → Flow → Flow
load_reg_range reg = load_range ("reg" <> dec reg)

abbrev pub move : String → String → Flow → Flow
move from to = action ("move:" <> from <> "[]->" <> to <> "[]")

abbrev pub move_range : String → String → Range → Range → Flow → Flow
move_range from_name to_name from to =
    action ("move:" <> from_name <> show_range from <> "->" <> to_name <> show_range to)

abbrev pub resubmit : String → ℕ → Flow → Flow
resubmit port table = action ("resubmit(" <> port <> "," <> dec table <> ")")

abbrev pub dec_ttl : Flow → Flow
dec_ttl = action "dec_ttl"

abbrev pub normal : Flow → Flow
normal = action "Normal"

abbrev pub conjunction : ℕ → ℕ → ℕ → Flow → Flow
conjunction conj_id clause_id n_clause =
    action ("conjunction(" <> dec conj_id <> "," <> dec clause_id <> "/" <> dec n_clause <> ")")

abbrev pub set_dst_mac : Mac → Flow → Flow
set_dst_mac mac = set_field "dl_dst" (show_mac mac)

abbrev pub set_src_mac : Mac → Flow → Flow
set_src_mac mac = set_field "dl_src" (show_mac mac)

abbrev pub set_arp_sha : Mac → Flow → Flow
set_arp_sha mac = set_field "arp_sha" (show_mac mac)

abbrev pub set_arp_tha : Mac → Flow → Flow
set_arp_tha mac = set_field "arp_tha" (show_mac mac)

abbrev pub set_arp_spa : Ip → Flow → Flow
set_arp_spa ip = set_field "arp_spa" (show_ip ip)

abbrev pub set_arp_tpa : Ip → Flow → Flow
set_arp_tpa ip = set_field "arp_tpa" (show_ip ip)

abbrev pub set_src_ip : Ip → Flow → Flow
set_src_ip ip = set_field "nw_src" (show_ip ip)

abbrev pub set_dst_ip : Ip → Flow → Flow
set_dst_ip ip = set_field "nw_dst" (show_ip ip)

abbrev pub set_tunnel_dst : Ip → Flow → Flow
set_tunnel_dst ip = set_field "tun_dst" (show_ip ip)
