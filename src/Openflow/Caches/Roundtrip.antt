-- ===== src/Openflow/Caches/Roundtrip.antt =====
-- addMissingFlows and then deleteFlows of pkg/openflow/client.go under one key.
use mathlib.Core.List.Perm
use mathlib.Core.List.{Perm}
use ciccni.Base.{
  String, ◌≡◌, refl, sym, ap, ◌∙◌, subst, ◌≢◌, inl, inr, List, [], ◌∷◌, ◌++◌, map, append-nil,
  append_assoc, none, Option-cases, lookup, insert, string_eq, Outcome, ok, Done, arith,
}
use ciccni.Binding.Flow.{Flow, match_string, add_command, delete_command}
use ciccni.Openflow.State.{Client, FlowCache}
use ciccni.Openflow.Caches.{
  Category, category, flow_cache, add_missing_flows, delete_flows, or_empty, set_flow_cache,
}
use ciccni.Openflow.Caches.Laws.{log, log-with_category, flow_cache-set, lookup-set_ne}
use ciccni.Binding.Switch.{Switch}
use ciccni.Openflow.Caches.Installed.{
  missing, keep, missing_cached, missing_new, Ended, completed, interrupted,
  add_missing_flows-Ended,
}
use ciccni.Openflow.Caches.Deleted.{
  Removal, nothing, removed, broken, deletions, delete_flows-Removal,
}

abbrev entries : List Flow → FlowCache
entries = map (λ f. (match_string f, f))

insert_new :
    (k : String) (f : Flow) (m : FlowCache) → lookup k m ≡ none → insert k f m ≡ m ++ (k, f) ∷ []
unfolding insert lookup
insert_new k f [] e = refl
insert_new k f (_ ∷ m) e = ground (arith, insert_new k f m)

-- the flows that lacked stand after the others
keep-missing :
    (flows : List Flow) (m : FlowCache) → keep (missing m flows) m ≡ m ++ entries (missing m flows)
unfolding keep missing
keep-missing [] m = sym (append-nil m)
keep-missing (f ∷ flows) m = elim (Option-cases (lookup (match_string f) m)) [
  | inr (g, e) ↦
      subst (λ t. keep t m ≡ m ++ entries t) (sym (missing_cached f flows m e))
        (keep-missing flows m)
  | inl e ↦
      let m1 = insert (match_string f) f m in
      subst (λ t. keep t m ≡ m ++ entries t) (sym (missing_new f flows m e))
        (keep-missing flows m1
          ∙ ap (λ t. t ++ entries (missing m1 flows)) (insert_new (match_string f) f m e)
          ∙ append_assoc m _ _)
]

-- the flows of a flow cache
abbrev cached_flows : FlowCache → List Flow
cached_flows = map (λ (_, f). f)

cached_flows-entries : (flows : List Flow) → cached_flows (entries flows) ≡ flows
cached_flows-entries [] = refl
cached_flows-entries (f ∷ flows) = ap (◌∷◌ f) (cached_flows-entries flows)

deletions-cached_flows : (m : FlowCache) → deletions m ≡ map delete_command (cached_flows m)
deletions-cached_flows [] = refl
deletions-cached_flows ((k, f) ∷ m) = ap (◌∷◌ (delete_command f)) (deletions-cached_flows m)

module _ (cat : Category) (key : String) where
  -- what a deleteFlows without an error has done
  record Uninstalled (c c' : Client) : Type 0 where
    commands : log c' ≡ log c ++ deletions (flow_cache cat key c)
    gone : lookup key (category cat c') ≡ none
    others : (j : String) → j ≢ key → lookup j (category cat c') ≡ lookup j (category cat c)

  Removal-Uninstalled :
      {c c' : Client} {r : Outcome Done × Client}
      → Removal cat key c r
      → r ≡ (ok tt, c')
      → Uninstalled c c'
  Removal-Uninstalled {c} {c'} (nothing e) p =
      subst (λ (x : Client). Uninstalled c x) (ap (λ r. r.1) p)
        (record {
          commands = sym (append-nil (log c)) ∙ sym (ap (λ t. log c ++ deletions (or_empty t)) e);
          gone = e;
          others = λ j h. refl;
        })
  Removal-Uninstalled {c} {c'} (removed m d e t l g o) p =
      subst (λ (x : Client). Uninstalled c x) (ap (λ r. r.1) p)
        (record {
          commands = l ∙ sym (ap (λ t. log c ++ deletions (or_empty t)) e);
          gone = g;
          others = o;
        })
  Removal-Uninstalled (broken m d before k f after e s t l q o) p = absurd (cc p)

  -- what an addMissingFlows without an error has done
  record Installed (todo : List Flow) (c c' : Client) : Type 0 where
    commands : log c' ≡ log c ++ map add_command todo
    cached : flow_cache cat key c' ≡ keep todo (flow_cache cat key c)
    others : (j : String) → j ≢ key → lookup j (category cat c') ≡ lookup j (category cat c)

  Ended-Installed :
      {todo : List Flow} {c c' : Client} {r : Outcome Done × Client}
      → Ended cat key todo c r
      → r ≡ (ok tt, c')
      → Installed todo c c'
  Ended-Installed {todo} {c} {c'} (completed d t l k o) p =
      subst (λ (x : Client). Installed todo c x) (ap (λ r. r.1) p)
        (record { commands = l; cached = k; others = o })
  Ended-Installed (interrupted d before f after s t l k o) p = absurd (cc p)

  -- Where the key has no flow cache, addMissingFlows and then deleteFlows, both without an error,
  -- run exactly these commands: each match string's first flow is added, in order, and then each of
  -- these flows is deleted, once and in some order. That holds for every order in which deleteFlows
  -- may range over the flow cache. The key then has no flow cache again, and the flow caches of the
  -- other keys are as they were.
  pub delete_flows-add_missing_flows :
      (flows : List Flow) (c c1 c2 : Client) (order : FlowCache)
      → lookup key (category cat c) ≡ none
      → add_missing_flows cat key flows c ≡ (ok tt, c1)
      → Perm order (flow_cache cat key c1)
      → delete_flows cat key (set_flow_cache cat key order c1) ≡ (ok tt, c2)
      → ((deleted : List Flow) × Perm deleted (missing [] flows)
          × (log c2 ≡ log c ++ map add_command (missing [] flows) ++ map delete_command deleted))
        × (lookup key (category cat c2) ≡ none)
        × ((j : String) → j ≢ key → lookup j (category cat c2) ≡ lookup j (category cat c))
  delete_flows-add_missing_flows flows c c1 c2 order fresh e1 p e2 =
      let todo = missing [] flows in
      let i =
        Ended-Installed
          (subst (λ m. Ended cat key (missing m flows) c (add_missing_flows cat key flows c))
            (ap or_empty fresh) (add_missing_flows-Ended cat key flows c))
          e1 in
      let u =
        Removal-Uninstalled (delete_flows-Removal cat key (set_flow_cache cat key order c1)) e2 in
      let stored = i.cached ∙ ap (λ t. keep todo (or_empty t)) fresh ∙ keep-missing flows [] in
      let same_log : log (set_flow_cache cat key order c1) ≡ log c1 =
        ap (λ (s : Switch). s.log) (log-with_category cat _ c1) in
      (
        (
          cached_flows order,
          subst (Perm (cached_flows order)) (cached_flows-entries todo)
              (Perm.map (λ (_, f). f) (subst (Perm order) stored p)),
          u.commands
              ∙ ap (λ t. t ++ deletions (flow_cache cat key (set_flow_cache cat key order c1)))
                  (same_log ∙ i.commands)
              ∙ ap (λ t. (log c ++ map add_command todo) ++ deletions t)
                  (flow_cache-set cat key order c1)
              ∙ ap (λ t. (log c ++ map add_command todo) ++ t) (deletions-cached_flows order),
        ),
        u.gone,
        λ j h. u.others j h ∙ lookup-set_ne cat key j order c1 h ∙ i.others j h,
      )
