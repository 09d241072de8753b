-- ===== src/Binding/Tests.antt =====
-- Runs of pkg/ovs/openflow at concrete inputs.
use ciccni.Base.{ℕ, ◌<◌, ◌≡◌, ◌↔◌, List, [], ◌∷◌, false, Bool, length, leb, ◌%◌, ◌+◌}
use ciccni.Binding.Switch.{
  Command, Switch, Table, miss_normal, new_bridge, connect, uint_mod, flow_count,
}
use ciccni.Binding.Switch.Connect.{answer, Ending, connect-Ending}
use ciccni.Binding.Flow.{Flow, match_string, section}
use ciccni.Binding.Flow.Format.{match_string-eq_iff}
use ciccni.Binding.Flow.Counts.{FlowCall, adds, deletes, calls, added, deleted, flow_count-calls}

-- a switch that comes up at the third command
abbrev slow_executor : List Command → Command → Bool
slow_executor log cmd = leb 2 (length log)

abbrev slow_switch : Switch
slow_switch = new_bridge slow_executor "br0"

abbrev forward_table : Table
forward_table = record { bridge = "br0"; id = 1; next = 255; miss_action = miss_normal }

abbrev arp_flow_1 : Flow
arp_flow_1 = record {
  table = forward_table;
  bridge = "br0";
  priority = 200;
  matchers = "arp" ∷ "arp_op=1" ∷ [];
  actions = "Normal" ∷ [];
}

abbrev arp_flow_2 : Flow
arp_flow_2 = record arp_flow_1 { priority = 80; actions = [] }

connect-Ending_example :
    (n : ℕ) × ((j : ℕ) → j < n → answer j slow_switch ≡ false)
    × Ending 5 slow_switch 5 n (connect 5 slow_switch)
connect-Ending_example = connect-Ending 5 slow_switch

match_string-eq_iff_example : (match_string arp_flow_1 ≡ match_string arp_flow_2) ↔ (
    (arp_flow_1.table.id ≡ arp_flow_2.table.id)
    × (section "" arp_flow_1.matchers ≡ section "" arp_flow_2.matchers))
match_string-eq_iff_example = match_string-eq_iff arp_flow_1 arp_flow_2

abbrev three_calls : List FlowCall
three_calls = adds arp_flow_1 ∷ adds arp_flow_2 ∷ deletes arp_flow_1 ∷ []

flow_count-calls_example :
    (flow_count 1 (calls three_calls slow_switch) + deleted 1 three_calls slow_switch) % uint_mod
    ≡ (flow_count 1 slow_switch + added 1 three_calls slow_switch) % uint_mod
flow_count-calls_example = flow_count-calls 1 three_calls slow_switch
