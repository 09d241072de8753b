-- ===== src/Openflow/Policy/Contexts/Invariant.antt =====
-- addAction and deleteAction of pkg/openflow/network_policy.go keep the flow of a context in step with
-- its actions.
use ciccni.Base.{
  ℕ, Bool, ◌≡◌, refl, sym, ap, ◌∙◌, subst, ◌≢◌, inl, inr, List, [], ◌∷◌, ◌++◌, Option, none, some,
  Option-cases, lookup, insert, erase, nat_eq, lookup-insert, lookup-erase, arith, Dict, All,
  Outcome, ok, err, panic, Error, Done, resume, ◌>>◌, length, nat_eqb, true, false,
  lookup-insert_self,
}
use ciccni.Binding.Flow.{Flow}
use ciccni.Openflow.State.{Client, Context}
use ciccni.Openflow.Flows.Conjunctions.{ConjunctiveAction}
use ciccni.Openflow.Policy.Contexts.{
  values, add_action, delete_action, store_action, remove_action, remove_or_update, other_actions,
  install_or_update_flow,
}
use ciccni.Openflow.Policy.Contexts.Updated.{
  Carries, Updated, updated, failed, panicked, Updated-flow, Updated-delete,
}

abbrev Actions : Type 0
Actions = Dict ℕ ConjunctiveAction

-- No number is there twice.
abbrev Unique : Actions → Type 0
Unique [] = Unit
Unique ((k, _) ∷ m) = (lookup k m ≡ none) × Unique m

-- Each action stands under the number of its conjunction.
abbrev Own : Actions → Type 0
Own = All (λ (k, a). k ≡ a.conj_id)

module _ (k : ℕ) where
  insert_new :
      (a : ConjunctiveAction) (m : Actions)
      → lookup k m ≡ none
      → values (insert k a m) ≡ values m ++ a ∷ []
  unfolding insert lookup
  insert_new a [] e = refl
  insert_new a (_ ∷ m) e = ground (arith, insert_new a m)

  Unique-insert : (a : ConjunctiveAction) (m : Actions) → Unique m → Unique (insert k a m)
  unfolding insert lookup
  Unique-insert a [] h = (refl, tt)
  Unique-insert a ((j, b) ∷ m) h = ground (arith, Unique-insert a m, lookup-insert j k a m)

  erase_absent : (m : Actions) → lookup k m ≡ none → erase k m ≡ m
  unfolding erase lookup
  erase_absent [] e = refl
  erase_absent (_ ∷ m) e = ground (arith, erase_absent m)

  Unique-erase : (m : Actions) → Unique m → Unique (erase k m)
  unfolding erase
  Unique-erase [] h = tt
  Unique-erase ((j, b) ∷ m) h = ground (arith, Unique-erase m, lookup-erase j k m)

  Own-insert : (a : ConjunctiveAction) (m : Actions) → k ≡ a.conj_id → Own m → Own (insert k a m)
  unfolding insert
  Own-insert a [] e h = (e, tt)
  Own-insert a (_ ∷ m) e h = ground (arith, Own-insert a m e)

  Own-erase : (m : Actions) → Own m → Own (erase k m)
  unfolding erase
  Own-erase [] h = tt
  Own-erase (_ ∷ m) h = ground (arith, Own-erase m)

  values-erase : (m : Actions) → Own m → values (erase k m) ≡ other_actions k (values m)
  unfolding erase other_actions
  values-erase [] h = refl
  values-erase ((j, a) ∷ m) h = ground (arith, values-erase m h.1, h.0)

  -- erasing leaves nothing only of one entry
  erase-nil : (m : Actions) → Unique m → erase k m ≡ [] → lookup k m ≢ none → length m ≡ 1
  unfolding erase lookup
  erase-nil [] u e h = absurd (h refl)
  erase-nil ((j, a) ∷ m) u e h = ground (arith, erase_absent m)

  length_one : (m : Actions) → length m ≡ 1 → lookup k m ≢ none → erase k m ≡ []
  unfolding erase lookup
  length_one [] e h = refl
  length_one ((j, a) ∷ []) e h = ground arith
  length_one (_ ∷ _ ∷ _) e h = absurd (omega arith)

append_ne : (xs : List ConjunctiveAction) (a : ConjunctiveAction) → xs ++ a ∷ [] ≢ []
append_ne [] a e = absurd (cc e)
append_ne (_ ∷ _) a e = absurd (cc e)

values_ne : (m : Actions) → m ≢ [] → values m ≢ []
values_ne [] h e = h refl
values_ne (_ ∷ _) h e = absurd (cc e)

-- The flow of the context has the actions of its conjunctions, in order, and no others; there is a
-- flow exactly where there is an action; and each action stands once, under its conjunction.
pub record Consistent (ctx : Context) : Type 0 where
  pub carries : Carries ctx.flow (values ctx.actions)
  pub own : Own ctx.actions
  pub unique : Unique ctx.actions

-- A call that succeeds leaves a consistent context of which `Q` holds, and one that fails or panics
-- leaves the context as it was.
pub data Kept (ctx : Context) (Q : Context → Type 0)
    : Outcome Done × (Context × Client) → Type 0 where
  done : (ctx' : Context) (c' : Client) → Consistent ctx' → Q ctx' → Kept ctx Q (ok tt, (ctx', c'))
  refused : (e : Error) (c' : Client) → Kept ctx Q (err e, (ctx, c'))
  crashed : (c' : Client) → Kept ctx Q (panic, (ctx, c'))

-- the context has the action, and the others as before
abbrev pub Added : ConjunctiveAction → Context → Context → Type 0
Added a ctx ctx' =
    (lookup a.conj_id ctx'.actions ≢ none)
    × ((j : ℕ) → j ≢ a.conj_id → lookup j ctx'.actions ≡ lookup j ctx.actions)

module _ (ctx : Context) (h : Consistent ctx) where
  Kept-store :
      (a : ConjunctiveAction) {r : Outcome Done × (Context × Client)}
      → lookup a.conj_id ctx.actions ≡ none
      → Updated ctx (values ctx.actions ++ a ∷ []) r
      → Kept ctx (Added a ctx) (resume r (λ _. store_action a))
  Kept-store a n (updated flow c' p) =
      let k = a.conj_id in
      done _ c'
        (record {
          carries = subst (Carries flow) (sym (insert_new k a ctx.actions n)) p;
          own = Own-insert k a ctx.actions refl h.own;
          unique = Unique-insert k a ctx.actions h.unique;
        })
        (
          λ e. absurd (cc (e, lookup-insert_self k a ctx.actions)),
          λ j d. ground (arith, lookup-insert j k a ctx.actions, d),
        )
  Kept-store a n (failed e c') = refused e c'
  Kept-store a n (panicked c') = crashed c'

  Kept-remove :
      (k : ℕ) {r : Outcome Done × (Context × Client)}
      → Updated ctx (other_actions k (values ctx.actions)) r
      → Kept ctx (λ ctx'. ctx'.actions ≡ erase k ctx.actions) (resume r (λ _. remove_action k))
  Kept-remove k (updated flow c' p) =
      done _ c'
        (record {
          carries = subst (Carries flow) (sym (values-erase k ctx.actions h.own)) p;
          own = Own-erase k ctx.actions h.own;
          unique = Unique-erase k ctx.actions h.unique;
        })
        refl
  Kept-remove k (failed e c') = refused e c'
  Kept-remove k (panicked c') = crashed c'

  add_action_present :
      (a b : ConjunctiveAction) (c : Client)
      → lookup a.conj_id ctx.actions ≡ some b
      → add_action a (ctx, c) ≡ (ok tt, (ctx, c))
  unfolding add_action
  add_action_present a b c e = rw (e, add_action) refl

  add_action_new :
      (a : ConjunctiveAction) (c : Client)
      → lookup a.conj_id ctx.actions ≡ none
      → add_action a (ctx, c)
        ≡ (install_or_update_flow (values ctx.actions ++ a ∷ []) >> store_action a) (ctx, c)
  unfolding add_action
  add_action_new a c e = rw (e, add_action) refl

  -- addAction on a consistent context, where it returns no error, leaves a consistent context that
  -- has an action of the conjunction and the actions of the others as they were. Where it returns an
  -- error or panics, the context is as it was.
  pub add_action-Kept :
      (a : ConjunctiveAction) (c : Client) → Kept ctx (Added a ctx) (add_action a (ctx, c))
  add_action-Kept a c = elim (Option-cases (lookup a.conj_id ctx.actions)) [
    | inr (b, e) ↦
        rw (add_action_present a b c e) (done ctx c h (λ n. absurd (cc (e, n)), λ j d. refl))
    | inl e ↦
        rw (add_action_new a c e)
          (Kept-store a e (Updated-flow _ ctx c (inr (append_ne (values ctx.actions) a))))
  ]

  module _ (k : ℕ) (present : lookup k ctx.actions ≢ none) where
    others-nil : length ctx.actions ≡ 1 → other_actions k (values ctx.actions) ≡ []
    others-nil e =
        sym (values-erase k ctx.actions h.own) ∙ ap values (length_one k ctx.actions e present)

    others_ne : length ctx.actions ≢ 1 → other_actions k (values ctx.actions) ≢ []
    others_ne d e =
        values_ne (erase k ctx.actions) (λ n. d (erase-nil k ctx.actions h.unique n present))
          (values-erase k ctx.actions h.own ∙ e)

    Updated-remove :
        (b : Bool) (flow : Option Flow) (c : Client)
        → nat_eqb (length ctx.actions) 1 ≡ b
        → ctx.flow ≡ flow
        → Updated ctx
            (other_actions k (values ctx.actions))
            (remove_or_update k b flow (values ctx.actions) (ctx, c))
    Updated-remove true (some f) c e p = Updated-delete f _ ctx c (others-nil (ground (arith, e)))
    Updated-remove true none c e p = Updated-flow _ ctx c (inl p)
    Updated-remove false none c e p = Updated-flow _ ctx c (inl p)
    Updated-remove false (some f) c e p =
        Updated-flow _ ctx c (inr (others_ne (λ q. ground (arith, e, q))))

    -- deleteAction, of a conjunction that has an action in a consistent context, where it returns no
    -- error, leaves a consistent context without that action and with the others. Where it returns
    -- an error or panics, the context is as it was.
    pub delete_action-Kept :
        (c : Client)
        → Kept ctx (λ ctx'. ctx'.actions ≡ erase k ctx.actions) (delete_action k (ctx, c))
    unfolding delete_action
    delete_action-Kept c = Kept-remove k (Updated-remove _ ctx.flow c refl refl)
