-- ===== src/Openflow/Caches/Installed.antt =====
-- What addMissingFlows of pkg/openflow/client.go does on every path, and that it is idempotent.
use ciccni.Base.{
  String, ◌≡◌, refl, sym, ap, ◌∙◌, subst, ◌≢◌, inl, inr, List, [], ◌∷◌, ◌++◌, map, append-nil, true,
  false, append_assoc, none, some, Option-cases, Bool-cases, lookup, insert, string_eq, Outcome, ok,
  err, add_failed, Done, resume, for_each, ◌>>◌,
}
use ciccni.Binding.Flow.{Flow, match_string, add_command, format_with_actions}
use ciccni.Binding.Switch.{Switch, Command}
use ciccni.Openflow.State.{Client, FlowCache, add}
use ciccni.Openflow.Caches.{
  Category, category, flow_cache, load_or_store, add_missing_flow, add_missing_flows, remember,
  set_flow_cache, or_empty,
}
use ciccni.Openflow.Caches.Laws.{
  log, accepts, Runs, Halts, Takes, Refuses, Takes-cons, Refuses-cons, add-accepted, add-refused,
  Moves, Moves-update, Moves-refused, log-with_category, flow_cache-set, lookup-set_ne,
}

-- the flows that a flow cache lacks, each match string once
unfoldable pub missing : FlowCache → List Flow → List Flow
missing m [] = []
missing m (f ∷ flows) = elim (lookup (match_string f) m) [
  | some _ ↦ missing m flows
  | none ↦ f ∷ missing (insert (match_string f) f m) flows
]

-- the flow cache with the flows stored, one after the other
unfoldable pub keep : List Flow → FlowCache → FlowCache
keep [] m = m
keep (f ∷ flows) m = keep flows (insert (match_string f) f m)

-- How a run over `todo`, the flows that the flow cache lacks, ends: all of them are added and
-- remembered, or the switch refuses one, and those before it are added and remembered.
pub data Ended (cat : Category) (key : String) (todo : List Flow) (c : Client)
    : Outcome Done × Client → Type 0 where
  completed :
      (c' : Client)
      → Takes c (map add_command todo)
      → log c' ≡ log c ++ map add_command todo
      → flow_cache cat key c' ≡ keep todo (flow_cache cat key c)
      → ((j : String) → j ≢ key → lookup j (category cat c') ≡ lookup j (category cat c))
      → Ended cat key todo c (ok tt, c')
  interrupted :
      (c' : Client) (before : List Flow) (f : Flow) (after : List Flow)
      → todo ≡ before ++ f ∷ after
      → Refuses c (map add_command before) (add_command f)
      → log c' ≡ log c ++ map add_command (before ++ f ∷ [])
      → flow_cache cat key c' ≡ keep before (flow_cache cat key c)
      → ((j : String) → j ≢ key → lookup j (category cat c') ≡ lookup j (category cat c))
      → Ended cat key todo c (err (add_failed (format_with_actions f)), c')

pub missing_cached :
    (f : Flow) (flows : List Flow) (m : FlowCache) {g : Flow}
    → lookup (match_string f) m ≡ some g
    → missing m (f ∷ flows) ≡ missing m flows
unfolding missing
missing_cached f flows m e = rw (e, missing) refl

pub missing_new :
    (f : Flow) (flows : List Flow) (m : FlowCache)
    → lookup (match_string f) m ≡ none
    → missing m (f ∷ flows) ≡ f ∷ missing (insert (match_string f) f m) flows
unfolding missing
missing_new f flows m e = rw (e, missing) refl

module _ (cat : Category) (key : String) where
  -- One round: the flow is cached, or it is added and remembered, or the switch refuses it.
  data Round (f : Flow) (c : Client) : Outcome Done × Client → Type 0 where
    cached :
        (g : Flow) → lookup (match_string f) (flow_cache cat key c) ≡ some g → Round f c (ok tt, c)
    added :
        (c' : Client)
        → lookup (match_string f) (flow_cache cat key c) ≡ none
        → accepts c (add_command f) ≡ true
        → Moves cat key (add_command f) (insert (match_string f) f (flow_cache cat key c)) c c'
        → Round f c (ok tt, c')
    denied :
        (c' : Client)
        → lookup (match_string f) (flow_cache cat key c) ≡ none
        → accepts c (add_command f) ≡ false
        → Moves cat key (add_command f) (flow_cache cat key c) c c'
        → Round f c (err (add_failed (format_with_actions f)), c')

  pub round_cached :
      (f : Flow) (c : Client) {g : Flow}
      → lookup (match_string f) (flow_cache cat key c) ≡ some g
      → add_missing_flow cat key f c ≡ (ok tt, c)
  unfolding add_missing_flow
  round_cached f c e = rw (e, add_missing_flow) refl

  round_new :
      (f : Flow) (c : Client)
      → lookup (match_string f) (flow_cache cat key c) ≡ none
      → add_missing_flow cat key f c ≡ (add f >> remember cat key f) c
  unfolding add_missing_flow
  round_new f c e = rw (e, add_missing_flow) refl

  round-Round : (f : Flow) (c : Client) → Round f c (add_missing_flow cat key f c)
  round-Round f c = elim (Option-cases (lookup (match_string f) (flow_cache cat key c))) [
    | inr (g, e) ↦ rw (round_cached f c e) (cached g e)
    | inl e ↦ elim (Bool-cases (accepts c (add_command f))) [
      | inl h ↦
          let (s, run, l, x) = add-accepted f c h in
          rw (round_new f c e, run)
            (added _ e h (Moves-update cat key (add_command f) c (insert (match_string f) f) s l x))
      | inr h ↦
          rw (round_new f c e, add-refused f c h)
            (denied _ e h (Moves-refused cat key (add_command f) c))
    ]
  ]

  -- an added flow, and then the rest
  Ended-cons :
      (f : Flow) (todo : List Flow) {c c' : Client} {r : Outcome Done × Client}
      → accepts c (add_command f) ≡ true
      → Moves cat key (add_command f) (insert (match_string f) f (flow_cache cat key c)) c c'
      → Ended cat key todo c' r
      → Ended cat key (f ∷ todo) c r
  unfolding keep
  Ended-cons f todo {c} {c'} a m (completed c'' t l k o) =
      completed c'' (Takes-cons (add_command f) c c' a m.executor m.commands _ t)
        (l ∙ ap (λ t. t ++ map add_command todo) m.commands ∙ append_assoc (log c) _ _)
        (k ∙ ap (keep todo) m.cached) (λ j h. o j h ∙ m.others j h)
  Ended-cons f todo {c} {c'} a m (interrupted c'' before g after e t l k o) =
      interrupted c'' (f ∷ before) g after (ap (◌∷◌ f) e)
        (Refuses-cons (add_command f) c c' a m.executor m.commands _ _ t)
        (l
          ∙ ap (λ t. t ++ map add_command (before ++ g ∷ [])) m.commands
          ∙ append_assoc (log c) _ _)
        (k ∙ ap (keep before) m.cached) (λ j h. o j h ∙ m.others j h)

  -- one round, and then the rest
  Ended-round :
      (f : Flow) (flows : List Flow) (c : Client) (r : Outcome Done × Client)
      → Round f c r
      → ((c' : Client)
          → Ended cat key
              (missing (flow_cache cat key c') flows)
              c'
              (for_each flows (add_missing_flow cat key) c'))
      → Ended cat key
          (missing (flow_cache cat key c) (f ∷ flows))
          c
          (resume r (λ _. for_each flows (add_missing_flow cat key)))
  unfolding keep
  Ended-round f flows c r (cached g e) rest = rw (missing_cached f flows _ e) (rest c)
  Ended-round f flows c r (added c' e a m) rest = rw (missing_new f flows _ e) (
      Ended-cons f _ a m (
        subst
          (λ t. Ended cat key (missing t flows) c' (for_each flows (add_missing_flow cat key) c'))
          m.cached (rest c')))
  Ended-round f flows c r (denied c' e a m) rest =
      rw (missing_new f flows _ e) (interrupted c' [] f _ refl a m.commands m.cached m.others)

  pub loop-Ended :
      (flows : List Flow) (c : Client)
      → Ended cat key
          (missing (flow_cache cat key c) flows)
          c
          (for_each flows (add_missing_flow cat key) c)
  unfolding for_each missing keep
  loop-Ended [] c = completed c tt (sym (append-nil (log c))) refl (λ j h. refl)
  loop-Ended (f ∷ flows) c =
      Ended-round f flows c (add_missing_flow cat key f c) (round-Round f c) (loop-Ended flows)

  pub load_or_store-present :
      (c : Client) {m : FlowCache}
      → lookup key (category cat c) ≡ some m
      → load_or_store cat key c ≡ c
  unfolding load_or_store
  load_or_store-present c e = rw (e, load_or_store) refl

  pub load_or_store-absent :
      (c : Client)
      → lookup key (category cat c) ≡ none
      → load_or_store cat key c ≡ set_flow_cache cat key [] c
  unfolding load_or_store
  load_or_store-absent c e = rw (e, load_or_store) refl

  -- LoadOrStore leaves what is cached, and runs no command.
  pub load_or_store-laws :
      (c : Client)
      → (log (load_or_store cat key c) ≡ log c)
        × (flow_cache cat key (load_or_store cat key c) ≡ flow_cache cat key c)
        × ((j : String)
            → j ≢ key
            → lookup j (category cat (load_or_store cat key c)) ≡ lookup j (category cat c))
  load_or_store-laws c = elim (Option-cases (lookup key (category cat c))) [
    | inl e ↦ rw (load_or_store-absent c e) (
      ap (λ (s : Switch). s.log) (log-with_category cat _ c),
      flow_cache-set cat key [] c ∙ sym (ap or_empty e),
      λ j h. lookup-set_ne cat key j [] c h,
    )
    | inr (m, e) ↦ rw (load_or_store-present c e) (refl, refl, λ j h. refl)
  ]

  load_or_store-switch : (c : Client) → (load_or_store cat key c).switch ≡ c.switch
  load_or_store-switch c = elim (Option-cases (lookup key (category cat c))) [
    | inl e ↦ rw (load_or_store-absent c e) (log-with_category cat _ c)
    | inr (m, e) ↦ rw (load_or_store-present c e) refl
  ]

  load_or_store-Takes :
      (c : Client) (cmds : List Command) → Takes (load_or_store cat key c) cmds → Takes c cmds
  load_or_store-Takes c cmds h =
      subst (λ (s : Switch). Runs s.executor s.log cmds) (load_or_store-switch c) h

  load_or_store-Refuses :
      (c : Client) (cmds : List Command) (last : Command)
      → Refuses (load_or_store cat key c) cmds last
      → Refuses c cmds last
  load_or_store-Refuses c cmds last h =
      subst (λ (s : Switch). Halts s.executor s.log cmds last) (load_or_store-switch c) h

  -- The loop after LoadOrStore, told from the client before it.
  Ended-load :
      (todo : List Flow) (c : Client) (r : Outcome Done × Client)
      → Ended cat key todo (load_or_store cat key c) r
      → Ended cat key todo c r
  Ended-load todo c r (completed c' t l k o) =
      let (same_log, same_cache, same_others) = load_or_store-laws c in
      completed c' (load_or_store-Takes c _ t) (l ∙ ap (λ t. t ++ map add_command todo) same_log)
        (k ∙ ap (keep todo) same_cache) (λ j h. o j h ∙ same_others j h)
  Ended-load todo c r (interrupted c' before f after e t l k o) =
      let (same_log, same_cache, same_others) = load_or_store-laws c in
      interrupted c' before f after e (load_or_store-Refuses c _ _ t)
        (l ∙ ap (λ t. t ++ map add_command (before ++ f ∷ [])) same_log)
        (k ∙ ap (keep before) same_cache) (λ j h. o j h ∙ same_others j h)

  -- addMissingFlows adds exactly the flows that the flow cache of the key lacks, each match string
  -- once and in order, and remembers each of them, and it returns no error just if the switch runs
  -- all of these commands. If the switch runs those before one and refuses that one, it returns the
  -- error of that one: the flows before it are added and remembered, and no later one is tried. It
  -- never panics, and the flow caches of the other keys stay as they are.
  pub add_missing_flows-Ended :
      (flows : List Flow) (c : Client)
      → Ended cat key (missing (flow_cache cat key c) flows) c (add_missing_flows cat key flows c)
  unfolding add_missing_flows
  add_missing_flows-Ended flows c = Ended-load _ c _ (
      subst
        (λ m.
          Ended cat key (missing m flows) (load_or_store cat key c)
            (for_each flows (add_missing_flow cat key) (load_or_store cat key c)))
        (load_or_store-laws c).1 (loop-Ended flows (load_or_store cat key c)))
