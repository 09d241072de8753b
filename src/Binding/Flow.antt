-- ===== src/Binding/Flow.antt =====
-- pkg/ovs/openflow/cmd_flow.go. A flow does not change once it is built, so it is a value.
pub mod Counts
pub mod Format
use ciccni.Base.{
  ℕ, String, Bool, true, false, List, [], ◌∷◌, if◌then◌else◌, ◌<>◌, dec, join, Exec, Done, Error,
  add_failed, modify_failed, delete_failed, ok, err,
}
use ciccni.Binding.Switch.{
  Table, Command, Switch, Delta, plus_one, no_change, minus_one, execute, update_status,
}

-- commandFlow
pub record Flow : Type 0 where
  pub table : Table
  pub bridge : String
  pub priority : ℕ
  pub matchers : List String
  pub actions : List String

-- ",name" and the parts, or nothing where there are none
unfoldable pub section : String → List String → String
unfolding join
section name [] = ""
section name (p ∷ parts) = "," <> name <> join "," (p ∷ parts)

-- format(true)
unfoldable pub format_with_actions : Flow → String
unfolding dec section
format_with_actions f =
    "table="
    <> dec f.table.id
    <> ",priority="
    <> dec f.priority
    <> section "" f.matchers
    <> section "actions=" f.actions

-- format(false)
unfoldable pub format_matches : Flow → String
unfolding dec section
format_matches f = "table=" <> dec f.table.id <> section "" f.matchers

-- String and MatchString
abbrev pub show_flow : Flow → String
show_flow = format_with_actions

unfoldable pub match_string : Flow → String
unfolding format_matches
match_string = format_matches

abbrev version : String
version = "-OOpenflow13"

unfoldable pub add_command : Flow → Command
add_command f = "ovs-ofctl" ∷ "add-flow" ∷ f.bridge ∷ version ∷ format_with_actions f ∷ []

unfoldable pub modify_command : Flow → Command
modify_command f = "ovs-ofctl" ∷ "mod-flows" ∷ f.bridge ∷ version ∷ format_with_actions f ∷ []

unfoldable pub delete_command : Flow → Command
delete_command f = "ovs-ofctl" ∷ "del-flows" ∷ f.bridge ∷ version ∷ format_matches f ∷ []

-- Runs a command, then counts it if it succeeded.
unfoldable pub perform : Command → Error → Flow → Delta → Exec Switch Done
unfolding execute update_status
perform cmd failed f d s =
    let (fine, s') = execute cmd s in
    if fine then (ok tt, update_status f.table d s') else (err failed, s')

-- Add
unfoldable pub add_flow : Flow → Exec Switch Done
unfolding perform
add_flow f = perform (add_command f) (add_failed (format_with_actions f)) f plus_one

-- Modify
unfoldable pub modify_flow : Flow → Exec Switch Done
unfolding perform
modify_flow f = perform (modify_command f) (modify_failed (format_with_actions f)) f no_change

-- Delete
unfoldable pub delete_flow : Flow → Exec Switch Done
unfolding perform
delete_flow f = perform (delete_command f) (delete_failed (format_matches f)) f minus_one
