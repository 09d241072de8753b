-- ===== src/Openflow/Caches/Deleted.antt =====
-- What deleteFlows of pkg/openflow/client.go does on every path.
use ciccni.Base.{
  String, ◌≡◌, refl, sym, ap, ◌∙◌, ◌≢◌, inl, inr, List, [], ◌∷◌, ◌++◌, map, append-nil, true, false,
  append_assoc, none, some, Option-cases, Bool-cases, lookup, erase, lookup-erase,
  lookup-erase_self, string_eq, Outcome, ok, err, delete_failed, Done, resume, for_each, arith,
  ◌==◌, if◌then◌else◌,
}
use ciccni.Binding.Flow.{Flow, delete_command, format_matches}
use ciccni.Binding.Switch.{Switch, Command}
use ciccni.Openflow.State.{Client, FlowCache}
use ciccni.Openflow.Caches.{
  Category, category, with_category, flow_cache, delete_cached, drop_if_empty, delete_flows,
  or_empty,
}
use ciccni.Openflow.Caches.Laws.{
  log, accepts, Takes, Refuses, Takes-cons, Refuses-cons, delete-accepted, delete-refused, Moves,
  Moves-update, Moves-refused, log-with_category, category-with_category,
}

-- the flow cache without the keys of the entries
unfoldable pub erase_all : FlowCache → FlowCache → FlowCache
erase_all [] m = m
erase_all ((k, f) ∷ todo) m = erase_all todo (erase k m)

-- the commands that delete the entries
abbrev pub deletions : FlowCache → List Command
deletions = map (λ (_, f). delete_command f)

erase_comm : (j k : String) (m : FlowCache) → erase j (erase k m) ≡ erase k (erase j m)
unfolding erase
erase_comm j k [] = refl
erase_comm j k (_ ∷ m) = ground (arith, erase_comm j k m)

erase_all-erase :
    (todo : FlowCache) (k : String) (m : FlowCache)
    → erase_all todo (erase k m) ≡ erase k (erase_all todo m)
unfolding erase_all
erase_all-erase [] k m = refl
erase_all-erase ((j, f) ∷ todo) k m =
    ap (erase_all todo) (erase_comm j k m) ∙ erase_all-erase todo k (erase j m)

erase_head : (k : String) (f : Flow) (m : FlowCache) → erase k ((k, f) ∷ m) ≡ erase k m
unfolding erase
erase_head k f m = ground arith

abbrev no_flows : FlowCache
no_flows = []

erase-nil : (k : String) → erase k no_flows ≡ no_flows
unfolding erase
erase-nil k = refl

-- a cache without all of its own keys is empty
erase_all_self : (m : FlowCache) → erase_all m m ≡ []
unfolding erase_all
erase_all_self [] = refl
erase_all_self ((k, f) ∷ m) =
    ap (erase_all m) (erase_head k f m)
    ∙ erase_all-erase m k m
    ∙ ap (erase k) (erase_all_self m)
    ∙ erase-nil k

-- How the loop of deleteFlows ends.
data Loop (cat : Category) (key : String) (todo : FlowCache) (c : Client)
    : Outcome Done × Client → Type 0 where
  emptied :
      (c' : Client)
      → Takes c (deletions todo)
      → log c' ≡ log c ++ deletions todo
      → flow_cache cat key c' ≡ erase_all todo (flow_cache cat key c)
      → ((j : String) → j ≢ key → lookup j (category cat c') ≡ lookup j (category cat c))
      → Loop cat key todo c (ok tt, c')
  stopped :
      (c' : Client) (before : FlowCache) (k : String) (f : Flow) (after : FlowCache)
      → todo ≡ before ++ (k, f) ∷ after
      → Refuses c (deletions before) (delete_command f)
      → log c' ≡ log c ++ deletions (before ++ (k, f) ∷ [])
      → flow_cache cat key c' ≡ erase_all before (flow_cache cat key c)
      → ((j : String) → j ≢ key → lookup j (category cat c') ≡ lookup j (category cat c))
      → Loop cat key todo c (err (delete_failed (format_matches f)), c')

-- How deleteFlows ends: the key has no flow cache, or all its flows are deleted and the flow cache
-- is gone, or the switch refuses to delete one, and those before it are deleted and forgotten.
pub data Removal (cat : Category) (key : String) (c : Client) : Outcome Done × Client → Type 0 where
  nothing : lookup key (category cat c) ≡ none → Removal cat key c (ok tt, c)
  removed :
      (m : FlowCache) (c' : Client)
      → lookup key (category cat c) ≡ some m
      → Takes c (deletions m)
      → log c' ≡ log c ++ deletions m
      → lookup key (category cat c') ≡ none
      → ((j : String) → j ≢ key → lookup j (category cat c') ≡ lookup j (category cat c))
      → Removal cat key c (ok tt, c')
  broken :
      (m : FlowCache) (c' : Client) (before : FlowCache) (k : String) (f : Flow) (after : FlowCache)
      → lookup key (category cat c) ≡ some m
      → m ≡ before ++ (k, f) ∷ after
      → Refuses c (deletions before) (delete_command f)
      → log c' ≡ log c ++ deletions (before ++ (k, f) ∷ [])
      → flow_cache cat key c' ≡ erase_all before m
      → ((j : String) → j ≢ key → lookup j (category cat c') ≡ lookup j (category cat c))
      → Removal cat key c (err (delete_failed (format_matches f)), c')

module _ (cat : Category) (key : String) where
  -- one round
  data Round (k : String) (f : Flow) (c : Client) : Outcome Done × Client → Type 0 where
    deleted :
        (c' : Client)
        → accepts c (delete_command f) ≡ true
        → Moves cat key (delete_command f) (erase k (flow_cache cat key c)) c c'
        → Round k f c (ok tt, c')
    denied :
        (c' : Client)
        → accepts c (delete_command f) ≡ false
        → Moves cat key (delete_command f) (flow_cache cat key c) c c'
        → Round k f c (err (delete_failed (format_matches f)), c')

  round-Round : (k : String) (f : Flow) (c : Client) → Round k f c (delete_cached cat key (k, f) c)
  unfolding delete_cached
  round-Round k f c = elim (Bool-cases (accepts c (delete_command f))) [
    | inl h ↦
        let (s, run, l, x) = delete-accepted f c h in
        rw (run) (deleted _ h (Moves-update cat key (delete_command f) c (erase k) s l x))
    | inr h ↦ rw (delete-refused f c h) (denied _ h (Moves-refused cat key (delete_command f) c))
  ]

  Loop-cons :
      (k : String) (f : Flow) (todo : FlowCache) {c c' : Client} {r : Outcome Done × Client}
      → accepts c (delete_command f) ≡ true
      → Moves cat key (delete_command f) (erase k (flow_cache cat key c)) c c'
      → Loop cat key todo c' r
      → Loop cat key ((k, f) ∷ todo) c r
  unfolding erase_all
  Loop-cons k f todo {c} {c'} a m (emptied c'' t l e o) =
      emptied c'' (Takes-cons (delete_command f) c c' a m.executor m.commands _ t)
        (l ∙ ap (λ t. t ++ deletions todo) m.commands ∙ append_assoc (log c) _ _)
        (e ∙ ap (erase_all todo) m.cached) (λ j h. o j h ∙ m.others j h)
  Loop-cons k f todo {c} {c'} a m (stopped c'' before j g after e t l d o) =
      stopped c'' ((k, f) ∷ before) j g after (ap (◌∷◌ (k, f)) e)
        (Refuses-cons (delete_command f) c c' a m.executor m.commands _ _ t)
        (l ∙ ap (λ t. t ++ deletions (before ++ (j, g) ∷ [])) m.commands ∙ append_assoc (log c) _ _)
        (d ∙ ap (erase_all before) m.cached) (λ j h. o j h ∙ m.others j h)

  Loop-round :
      (k : String) (f : Flow) (todo : FlowCache) (c : Client) (r : Outcome Done × Client)
      → Round k f c r
      → ((c' : Client) → Loop cat key todo c' (for_each todo (delete_cached cat key) c'))
      → Loop cat key ((k, f) ∷ todo) c (resume r (λ _. for_each todo (delete_cached cat key)))
  unfolding erase_all
  Loop-round k f todo c r (deleted c' a m) rest = Loop-cons k f todo a m (rest c')
  Loop-round k f todo c r (denied c' a m) rest =
      stopped c' [] k f todo refl a m.commands m.cached m.others

  for_each-Loop :
      (todo : FlowCache) (c : Client)
      → Loop cat key todo c (for_each todo (delete_cached cat key) c)
  unfolding for_each erase_all
  for_each-Loop [] c = emptied c tt (sym (append-nil (log c))) refl (λ j h. refl)
  for_each-Loop ((k, f) ∷ todo) c =
      Loop-round k f todo c (delete_cached cat key (k, f) c) (round-Round k f c)
        (for_each-Loop todo)

  -- The deferred function changes no flow cache but an empty one, which is gone after it.
  record Dropped (c c' : Client) : Type 0 where
    same_log : log c' ≡ log c
    same_cache : flow_cache cat key c' ≡ flow_cache cat key c
    same_others : (j : String) → j ≢ key → lookup j (category cat c') ≡ lookup j (category cat c)
    gone : flow_cache cat key c ≡ [] → lookup key (category cat c') ≡ none

  drop-nil :
      (c : Client)
      → flow_cache cat key c ≡ []
      → drop_if_empty cat key c ≡ with_category cat (erase key (category cat c)) c
  unfolding drop_if_empty
  drop-nil c e = rw (e, drop_if_empty) refl

  drop-cons :
      (c : Client) {x : String × Flow} {m : FlowCache}
      → flow_cache cat key c ≡ x ∷ m
      → drop_if_empty cat key c ≡ c
  unfolding drop_if_empty
  drop-cons c e = rw (e, drop_if_empty) refl

  lookup-without :
      (j : String) (c : Client)
      → lookup j (category cat (with_category cat (erase key (category cat c)) c))
        ≡ (if j == key then none else lookup j (category cat c))
  lookup-without j c =
      ap (lookup j) (category-with_category cat _ c) ∙ lookup-erase j key (category cat c)

  absent_key :
      (c : Client)
      → lookup key (category cat (with_category cat (erase key (category cat c)) c)) ≡ none
  absent_key c =
      ap (lookup key) (category-with_category cat _ c) ∙ lookup-erase_self key (category cat c)

  drop-Dropped : (c : Client) → Dropped c (drop_if_empty cat key c)
  drop-Dropped c = by_cache (flow_cache cat key c) refl
    where
      by_cache : (m : FlowCache) → flow_cache cat key c ≡ m → Dropped c (drop_if_empty cat key c)
      by_cache [] e = rw (drop-nil c e) (record {
        same_log = ap (λ (s : Switch). s.log) (log-with_category cat _ c);
        same_cache = ap or_empty (absent_key c) ∙ sym e;
        same_others = λ j h. ground (arith, lookup-without j c, h);
        gone = λ _. absent_key c;
      })
      by_cache (x ∷ m) e = rw (drop-cons c e) (record {
        same_log = refl;
        same_cache = refl;
        same_others = λ j h. refl;
        gone = λ e'. absurd (cc (e, e'));
      })

  Removal-drop :
      {m : FlowCache} (c : Client) (r : Outcome Done × Client)
      → lookup key (category cat c) ≡ some m
      → Loop cat key m c r
      → Removal cat key c (r.0, drop_if_empty cat key r.1)
  Removal-drop {m} c r e (emptied c' t l k o) =
      let d = drop-Dropped c' in
      removed m _ e t (d.same_log ∙ l)
        (d.gone (k ∙ ap (λ t. erase_all m (or_empty t)) e ∙ erase_all_self m))
        (λ j h. d.same_others j h ∙ o j h)
  Removal-drop {m} c r e (stopped c' before k f after s t l q o) =
      let d = drop-Dropped c' in
      broken m _ before k f after e s t (d.same_log ∙ l)
        (d.same_cache ∙ q ∙ ap (λ t. erase_all before (or_empty t)) e)
        (λ j h. d.same_others j h ∙ o j h)

  delete_flows-none :
      (c : Client) → lookup key (category cat c) ≡ none → delete_flows cat key c ≡ (ok tt, c)
  unfolding delete_flows
  delete_flows-none c e = rw (e, delete_flows) refl

  delete_flows-some :
      (c : Client) {m : FlowCache}
      → lookup key (category cat c) ≡ some m
      → let (r, c') = for_each m (delete_cached cat key) c in
        delete_flows cat key c ≡ (r, drop_if_empty cat key c')
  unfolding delete_flows
  delete_flows-some c e = rw (e, delete_flows) refl

  -- deleteFlows does nothing for a key without a flow cache. Otherwise it deletes each flow of the
  -- flow cache, in the order of its list, and the flow cache is gone, just if the switch runs
  -- all of these commands; if it runs those before one and refuses that one, the error of that one is
  -- returned, and just the flows before it are forgotten. It never panics, and the flow caches of the
  -- other keys stay as they are.
  pub delete_flows-Removal : (c : Client) → Removal cat key c (delete_flows cat key c)
  delete_flows-Removal c = elim (Option-cases (lookup key (category cat c))) [
    | inl e ↦ rw (delete_flows-none c e) (nothing e)
    | inr (m, e) ↦ rw (delete_flows-some c e) (Removal-drop c _ e (for_each-Loop m c))
  ]
