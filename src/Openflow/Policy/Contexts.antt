-- ===== src/Openflow/Policy/Contexts.antt =====
-- conjMatchFlowContext of pkg/openflow/network_policy.go: the one flow entry that the conjunctions
-- of a match condition share. A method acts on its context and on the client.
pub mod Updated
pub mod Invariant
use ciccni.Base.{
  ℕ, String, Bool, true, false, not, List, [], ◌∷◌, ◌++◌, map, Option, none, some, Dict, lookup,
  insert, erase, nat_eq, ◌==◌, ◌&&◌, if◌then◌else◌, length, nat_eqb, Outcome, ok, err, panic, Exec,
  Done, pure, ◌>>=◌, ◌>>◌, put_back,
}
use ciccni.Binding.Flow.{Flow}
use ciccni.Binding.Builder.{copy_to_builder}
use ciccni.Openflow.Match.{ConjunctiveMatch}
use ciccni.Openflow.State.{Client, Context, add, modify, delete}
use ciccni.Openflow.Flows.Conjunctions.{ConjunctiveAction, conjunctive_match_flow, conjunction_each}

-- the state of a method of a context
abbrev pub Act : Type 0 → Type 0
Act A = Exec (Context × Client) A

-- a call on the client
abbrev pub on_client : {A : Type 0} → Exec Client A → Act A
on_client m (ctx, c) = put_back (λ c'. (ctx, c')) (m c)

abbrev pub set_flow : Option Flow → Act Done
set_flow f (ctx, c) = (ok tt, (record ctx { flow = f }, c))

abbrev pub values : Dict ℕ ConjunctiveAction → List ConjunctiveAction
values = map (λ (_, a). a)

-- the flow that installOrUpdateFlow builds for a context with none
abbrev pub build_match_flow : List ConjunctiveAction → Act Flow
build_match_flow actions (ctx, c) = (
  conjunctive_match_flow c.pipeline ctx.conj_match.table_id ctx.conj_match.match_key
      ctx.conj_match.match_value actions,
  (ctx, c),
)

-- no flow yet: nothing to do if there are no actions
abbrev pub install_flow : List ConjunctiveAction → Act Done
install_flow [] = pure tt
install_flow (a ∷ actions) = do
  flow ← build_match_flow (a ∷ actions)
  on_client (add flow)
  set_flow (some flow)

-- the flow with the actions given anew
abbrev pub update_flow : Flow → List ConjunctiveAction → Act Done
update_flow flow actions = do
  on_client (modify (conjunction_each actions (copy_to_builder flow)))
  set_flow (some (conjunction_each actions (copy_to_builder flow)))

abbrev pub install_or_update : Option Flow → List ConjunctiveAction → Act Done
install_or_update none actions = install_flow actions
install_or_update (some flow) actions = update_flow flow actions

-- installOrUpdateFlow
unfoldable pub install_or_update_flow : List ConjunctiveAction → Act Done
install_or_update_flow actions (ctx, c) = install_or_update ctx.flow actions (ctx, c)

-- the actions of the other conjunctions
unfoldable pub other_actions : ℕ → List ConjunctiveAction → List ConjunctiveAction
other_actions conj_id [] = []
other_actions conj_id (a ∷ actions) =
    let rest = other_actions conj_id actions in if a.conj_id == conj_id then rest else a ∷ rest

abbrev pub remove_action : ℕ → Act Done
remove_action conj_id (ctx, c) = (ok tt, (record ctx { actions = erase conj_id ctx.actions }, c))

-- the first branch of deleteAction, which is taken if this is the last action and a flow is there
abbrev pub remove_or_update : ℕ → Bool → Option Flow → List ConjunctiveAction → Act Done
remove_or_update conj_id true (some flow) actions = do on_client (delete flow); set_flow none
remove_or_update conj_id _ _ actions = install_or_update_flow (other_actions conj_id actions)

-- deleteAction
unfoldable pub delete_action : ℕ → Act Done
unfolding install_or_update_flow other_actions
delete_action conj_id (ctx, c) =
    (remove_or_update conj_id (nat_eqb (length ctx.actions) 1) ctx.flow (values ctx.actions)
        >> remove_action conj_id)
      (ctx, c)

abbrev pub store_action : ConjunctiveAction → Act Done
store_action a (ctx, c) = (ok tt, (record ctx { actions = insert a.conj_id a ctx.actions }, c))

-- addAction
unfoldable pub add_action : ConjunctiveAction → Act Done
unfolding install_or_update_flow
add_action a (ctx, c) = elim (lookup a.conj_id ctx.actions) [
  | some _ ↦ (ok tt, (ctx, c))
  | none ↦ (install_or_update_flow (values ctx.actions ++ a ∷ []) >> store_action a) (ctx, c)
]

-- addDenyAllRule
unfoldable pub add_deny_all_rule : ℕ → Act Done
add_deny_all_rule rule_id (ctx, c) =
    (ok tt, (record ctx { deny_all_rules = insert rule_id true ctx.deny_all_rules }, c))

-- delete(context.denyAllRules, conjID), of a key that may be missing
unfoldable pub delete_deny_all_rule : ℕ → Act Done
delete_deny_all_rule rule_id (ctx, c) =
    (ok tt, (record ctx { deny_all_rules = erase rule_id ctx.deny_all_rules }, c))
