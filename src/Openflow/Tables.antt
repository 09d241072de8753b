-- ===== src/Openflow/Tables.antt =====
-- The constants of pkg/openflow/pipeline.go, and the tables that NewClient creates.
use ciccni.Base.{ℕ, [], none, some, Dict, lookup, nat_eq, Outcome, ok, panic}
use ciccni.Net.{Mac}
use ciccni.Binding.Switch.{Table, Switch, miss_next, miss_normal, last_table_id, create_table}
use ciccni.Binding.Builder.{Range}
use ciccni.Base.{◌∷◌}

-- Flow table numbers. The last three are the ones that NewClient creates tables for.
abbrev pub spoof_guard_table : ℕ
spoof_guard_table = 10

abbrev pub arp_responder_table : ℕ
arp_responder_table = 20

abbrev pub conntrack_table : ℕ
conntrack_table = 30

abbrev pub conntrack_state_table : ℕ
conntrack_state_table = 31

abbrev pub dnat_table : ℕ
dnat_table = 40

abbrev pub egress_rule_table : ℕ
egress_rule_table = 50

abbrev pub egress_default_table : ℕ
egress_default_table = 60

abbrev pub l3_forwarding_table : ℕ
l3_forwarding_table = 70

abbrev pub l2_forwarding_calc_table : ℕ
l2_forwarding_calc_table = 80

abbrev pub ingress_rule_table : ℕ
ingress_rule_table = 90

abbrev pub ingress_default_table : ℕ
ingress_default_table = 100

abbrev pub l2_forwarding_out_table : ℕ
l2_forwarding_out_table = 110

-- classifierTable and allFlowTable have one number
abbrev pub classifier_table : ℕ
classifier_table = 0

abbrev pub all_flow_table : ℕ
all_flow_table = 0

abbrev pub cluster_forward_table : ℕ
cluster_forward_table = 1

abbrev pub core_dns_snat_table : ℕ
core_dns_snat_table = 2

-- Flow priorities.
abbrev pub priority_high : ℕ
priority_high = 210

abbrev pub priority_normal : ℕ
priority_normal = 200

abbrev pub priority_low : ℕ
priority_low = 190

abbrev pub priority_miss : ℕ
priority_miss = 80

-- Traffic marks, the registers that hold them, and the connection tracking constants.
abbrev pub mark_traffic_from_tunnel : ℕ
mark_traffic_from_tunnel = 0

abbrev pub mark_traffic_from_gateway : ℕ
mark_traffic_from_gateway = 1

abbrev pub mark_traffic_from_local : ℕ
mark_traffic_from_local = 2

abbrev pub of_port_mark_range : Range
of_port_mark_range = (16, 16)

abbrev pub of_port_reg_range : Range
of_port_reg_range = (0, 31)

abbrev pub marks_reg : ℕ
marks_reg = 0

abbrev pub port_cache_reg : ℕ
port_cache_reg = 1

abbrev pub ct_zone : ℕ
ct_zone = 0xfff0

abbrev pub port_found_mark : ℕ
port_found_mark = 1

abbrev pub gateway_ct_mark : ℕ
gateway_ct_mark = 0x20

abbrev pub global_virtual_mac : Mac
global_virtual_mac = 0xaa ∷ 0xbb ∷ 0xcc ∷ 0xdd ∷ 0xee ∷ 0xff ∷ []

-- client.pipeline
abbrev pub Pipeline : Type 0
Pipeline = Dict ℕ Table

-- c.pipeline[id], to be used by a method call: the map answers nil for a number that it lacks, and a
-- method call on a nil interface panics.
unfoldable pub table : Pipeline → ℕ → Outcome Table
table p id = elim (lookup id p) [ none ↦ panic | some t ↦ ok t ]

-- the pipeline of NewClient, created on the bridge
unfoldable pub new_pipeline : Switch → Pipeline × Switch
unfolding create_table
new_pipeline s =
    let (classifier, s1) = create_table classifier_table cluster_forward_table miss_next s in
    let (forward, s2) = create_table cluster_forward_table last_table_id miss_normal s1 in
    let (snat, s3) = create_table core_dns_snat_table cluster_forward_table miss_next s2 in
    (
      (classifier_table, classifier)
          ∷ (cluster_forward_table, forward)
          ∷ (core_dns_snat_table, snat)
          ∷ [],
      s3,
    )
