-- ===== src/Openflow/Caches/Idempotent.antt =====
-- A second call of addMissingFlows of pkg/openflow/client.go with the same flows.
use ciccni.Base.{
  String, ◌≡◌, refl, sym, ◌≢◌, ap, ◌∙◌, subst, inl, inr, List, [], ◌∷◌, some, Option-cases, lookup,
  insert, string_eq, lookup-insert, lookup-insert_self, Outcome, ok, lookup-nil, Done, for_each,
  All, Bool-cases, ◌==◌,
}
use ciccni.Binding.Flow.{Flow, match_string}
use ciccni.Openflow.State.{Client, FlowCache}
use ciccni.Openflow.Caches.{
  Category, category, flow_cache, load_or_store, add_missing_flow, add_missing_flows, or_empty,
}
use ciccni.Openflow.Caches.Laws.{category-with_category}
use ciccni.Openflow.Caches.Installed.{
  missing, keep, missing_cached, missing_new, Ended, completed, interrupted, round_cached,
  load_or_store-present, load_or_store-absent, add_missing_flows-Ended,
}

-- A flow is cached under the key.
abbrev pub HasKey : String → FlowCache → Type 0
HasKey k m = (g : Flow) × (lookup k m ≡ some g)

abbrev pub Covers : FlowCache → List Flow → Type 0
Covers m = All (λ f. HasKey (match_string f) m)

HasKey-insert :
    (k : String) (f : Flow) (m : FlowCache) → HasKey k m → HasKey k (insert (match_string f) f m)
HasKey-insert k f m (g, e) = elim (Bool-cases (k == match_string f)) [
  | inl h ↦ (f, lookup-insert k (match_string f) f m ∙ rw h refl)
  | inr h ↦ (g, lookup-insert k (match_string f) f m ∙ rw h e)
]

HasKey-keep : (k : String) (todo : List Flow) (m : FlowCache) → HasKey k m → HasKey k (keep todo m)
unfolding keep
HasKey-keep k [] m h = h
HasKey-keep k (f ∷ todo) m h = HasKey-keep k todo _ (HasKey-insert k f m h)

-- What lacked is there once it is kept.
Covers-keep-missing : (flows : List Flow) (m : FlowCache) → Covers (keep (missing m flows) m) flows
unfolding keep
Covers-keep-missing [] m = tt
Covers-keep-missing (f ∷ flows) m = elim (Option-cases (lookup (match_string f) m)) [
  | inr (g, e) ↦
      subst (λ t. Covers (keep t m) (f ∷ flows)) (sym (missing_cached f flows m e))
        (HasKey-keep _ (missing m flows) m (g, e), Covers-keep-missing flows m)
  | inl e ↦
      subst (λ t. Covers (keep t m) (f ∷ flows)) (sym (missing_new f flows m e))
        (
          HasKey-keep _ (missing (insert (match_string f) f m) flows) _
              (f, lookup-insert_self (match_string f) f m),
          Covers-keep-missing flows (insert (match_string f) f m),
        )
]

module _ (cat : Category) (key : String) where
  -- Nothing happens in a loop over flows that are cached.
  loop_cached :
      (flows : List Flow) (c : Client)
      → Covers (flow_cache cat key c) flows
      → for_each flows (add_missing_flow cat key) c ≡ (ok tt, c)
  unfolding for_each
  loop_cached [] c h = refl
  loop_cached (f ∷ flows) c h = rw (round_cached cat key f c h.0.1) (loop_cached flows c h.1)

  -- A key with a flow in its cache is not created anew.
  load_or_store-HasKey :
      (k : String) (c : Client) → HasKey k (flow_cache cat key c) → load_or_store cat key c ≡ c
  load_or_store-HasKey k c h = elim (Option-cases (lookup key (category cat c))) [
    | inl e ↦ absurd (cc (h.1, ap (λ o. lookup k (or_empty o)) e, lookup-nil k))
    | inr (m, e) ↦ load_or_store-present cat key c e
  ]

  load_or_store_idem :
      (c : Client) → load_or_store cat key (load_or_store cat key c) ≡ load_or_store cat key c
  load_or_store_idem c = elim (Option-cases (lookup key (category cat c))) [
    | inr (m, e) ↦ rw (load_or_store-present cat key c e) (load_or_store-present cat key c e)
    | inl e ↦ rw (load_or_store-absent cat key c e) (
        load_or_store-present cat key _ (
          ap (lookup key) (category-with_category cat _ c)
          ∙ lookup-insert_self key [] (category cat c)))
  ]

  completed-Covers :
      (flows : List Flow) {c c' : Client} {r : Outcome Done × Client}
      → Ended cat key (missing (flow_cache cat key c) flows) c r
      → r ≡ (ok tt, c')
      → Covers (flow_cache cat key c') flows
  completed-Covers flows {c} {c'} (completed d t l k o) e =
      subst (λ (x : Client). Covers (flow_cache cat key x) flows) (ap (λ r. r.1) e)
        (subst (λ m. Covers m flows) (sym k) (Covers-keep-missing flows _))
  completed-Covers flows {c} {c'} (interrupted d before f after s t l k o) e = absurd (cc e)

  -- What an addMissingFlows without an error has left: each of the flows is cached.
  pub add_missing_flows-Covers :
      (flows : List Flow) (c c' : Client)
      → add_missing_flows cat key flows c ≡ (ok tt, c')
      → Covers (flow_cache cat key c') flows
  add_missing_flows-Covers flows c c' e =
      completed-Covers flows (add_missing_flows-Ended cat key flows c) e

  -- It has left the flow caches of the other keys.
  pub add_missing_flows-others :
      (flows : List Flow) (c c' : Client)
      → add_missing_flows cat key flows c ≡ (ok tt, c')
      → (j : String) → j ≢ key
      → lookup j (category cat c') ≡ lookup j (category cat c)
  add_missing_flows-others flows c c' e j d = by_ending (add_missing_flows-Ended cat key flows c) e
    where
      by_ending :
          {todo : List Flow} {r : Outcome Done × Client}
          → Ended cat key todo c r
          → r ≡ (ok tt, c')
          → lookup j (category cat c') ≡ lookup j (category cat c)
      by_ending (completed x t l k o) p =
          subst (λ (y : Client). lookup j (category cat y) ≡ lookup j (category cat c))
            (ap (λ r. r.1) p) (o j d)
      by_ending (interrupted x before f after s t l k o) p = absurd (cc p)

  -- With flows that are cached addMissingFlows does nothing.
  pub add_missing_flows_cached :
      (f : Flow) (flows : List Flow) (c : Client)
      → Covers (flow_cache cat key c) (f ∷ flows)
      → add_missing_flows cat key (f ∷ flows) c ≡ (ok tt, c)
  unfolding add_missing_flows for_each
  add_missing_flows_cached f flows c h =
      rw (load_or_store-HasKey _ c h.0) (loop_cached (f ∷ flows) c h)

  -- Once addMissingFlows has returned no error, calling it again with the same flows runs no
  -- command and changes nothing.
  pub add_missing_flows_idem :
      (flows : List Flow) (c c' : Client)
      → add_missing_flows cat key flows c ≡ (ok tt, c')
      → add_missing_flows cat key flows c' ≡ (ok tt, c')
  unfolding add_missing_flows for_each
  add_missing_flows_idem [] c c' e =
      ap (λ (x : Client). (ok tt, x))
        (subst (λ (x : Client). load_or_store cat key x ≡ x) (ap (λ r. r.1) e)
          (load_or_store_idem c))
  add_missing_flows_idem (f ∷ flows) c c' e =
      add_missing_flows_cached f flows c' (add_missing_flows-Covers (f ∷ flows) c c' e)
