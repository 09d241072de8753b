-- ===== src/Binding/Flow/Counts.antt =====
-- The flow counters of pkg/ovs/openflow/cmd_table.go under Add, Modify and Delete of cmd_flow.go.
use ciccni.Base.{
  ℕ, ◌+◌, ◌-◌, ◌%◌, ◌≡◌, refl, List, [], ◌∷◌, if◌then◌else◌, ◌==◌, nat_eq, lookup-insert, arith,
  Outcome, ok, Done, Exec,
}
use ciccni.Binding.Switch.{Switch, uint_mod, flow_count}
use ciccni.Binding.Flow.{Flow, add_flow, modify_flow, delete_flow}

pub data FlowCall : Type 0 where
  adds modifies deletes : Flow → FlowCall

pub call : FlowCall → Exec Switch Done
call (adds f) = add_flow f
call (modifies f) = modify_flow f
call (deletes f) = delete_flow f

-- Any number of calls, whatever each of them answers.
pub calls : List FlowCall → Switch → Switch
calls [] s = s
calls (c ∷ cs) s = calls cs (call c s).1

-- one flow more, or one flow less, in the table of this number
abbrev one_more : ℕ → FlowCall → Outcome Done → ℕ
one_more id (adds f) (ok _) = if id == f.table.id then 1 else 0
one_more id _ _ = 0

abbrev one_less : ℕ → FlowCall → Outcome Done → ℕ
one_less id (deletes f) (ok _) = if id == f.table.id then 1 else 0
one_less id _ _ = 0

-- how many calls added a flow to the table, and how many deleted one from it
pub added : ℕ → List FlowCall → Switch → ℕ
added id [] s = 0
added id (c ∷ cs) s = one_more id c (call c s).0 + added id cs (call c s).1

pub deleted : ℕ → List FlowCall → Switch → ℕ
deleted id [] s = 0
deleted id (c ∷ cs) s = one_less id c (call c s).0 + deleted id cs (call c s).1

call-flow_count :
    (id : ℕ) (c : FlowCall) (s : Switch)
    → (flow_count id (call c s).1 + one_less id c (call c s).0) % uint_mod
      ≡ (flow_count id s + one_more id c (call c s).0) % uint_mod
unfolding call add_flow modify_flow delete_flow flow_count
call-flow_count id (adds f) s =
    ground
      (arith, lookup-insert id f.table.id ((flow_count f.table.id s + 1) % uint_mod) s.flow_counts)
call-flow_count id (modifies f) s =
    ground (arith, lookup-insert id f.table.id (flow_count f.table.id s) s.flow_counts)
call-flow_count id (deletes f) s = ground (
  arith,
  lookup-insert id f.table.id ((flow_count f.table.id s + uint_mod - 1) % uint_mod) s.flow_counts,
)

-- After any sequence of calls of Add, Modify and Delete, failed ones among them, the counter of a
-- table and the number of its successful deletions are together, modulo 2^64, what the counter was
-- before and the number of its successful additions.
pub flow_count-calls :
    (id : ℕ) (cs : List FlowCall) (s : Switch)
    → (flow_count id (calls cs s) + deleted id cs s) % uint_mod
      ≡ (flow_count id s + added id cs s) % uint_mod
unfolding calls added deleted
flow_count-calls id [] s = refl
flow_count-calls id (c ∷ cs) s =
    omega (arith, call-flow_count id c s, flow_count-calls id cs (call c s).1)
