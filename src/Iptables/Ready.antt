-- ===== src/Iptables/Ready.antt =====
-- SetUpRules of pkg/iptables/iptables.go: what is there once it returns no error, and that a second
-- call changes nothing.
use ciccni.Base.{
  String, ◌≡◌, refl, sym, ap, ◌∙◌, subst, Bool, true, false, List, [], ◌∷◌, Exec, Outcome, ok, err,
  panic, Done, All, resume-ok, for_each, if◌then◌else◌, pure,
}
use ciccni.Iptables.{
  Ops, Rule, rules, rule_spec, contains, explain, ensure_chain, ensure_rule, set_up_rules,
}

module _ {S : Type 0} (ops : Ops S) where
  -- the chain is in the list of its table, and the rule exists
  abbrev pub Listed : String → String → S → Type 0
  Listed t c s =
      (chains : List String) × (ops.list_chains t s ≡ (ok chains, s)) × (contains chains c ≡ true)

  abbrev pub Present : String → String → List String → S → Type 0
  Present t c spec s = ops.exists t c spec s ≡ (ok true, s)

  -- what is listed or present stays so
  pub record Keeps (s s' : S) : Type 0 where
    pub chains : (t c : String) → Listed t c s → Listed t c s'
    pub specs : (t c : String) (spec : List String) → Present t c spec s → Present t c spec s'

  -- What SetUpRules relies on: the two queries change nothing, a new chain is listed and an
  -- appended rule is present, and neither takes anything away.
  pub record Laws : Type 0 where
    pub list_reads : (t : String) (s : S) → (ops.list_chains t s).1 ≡ s
    pub exists_reads : (t c : String) (spec : List String) (s : S) → (ops.exists t c spec s).1 ≡ s
    pub created :
        (t c : String) (s s' : S) → ops.new_chain t c s ≡ (ok tt, s') → Listed t c s' × Keeps s s'
    pub appended :
        (t c : String) (spec : List String) (s s' : S)
        → ops.append t c spec s ≡ (ok tt, s')
        → Present t c spec s' × Keeps s s'

  Keeps-refl : {s s' : S} → s ≡ s' → Keeps s s'
  Keeps-refl e = record {
    chains = λ t c h. subst (Listed t c) e h;
    specs = λ t c spec h. subst (Present t c spec) e h;
  }

  Keeps-trans : {s s' s'' : S} → Keeps s s' → Keeps s' s'' → Keeps s s''
  Keeps-trans h k = record {
    chains = λ t c l. k.chains t c (h.chains t c l);
    specs = λ t c spec l. k.specs t c spec (h.specs t c spec l);
  }

  abbrev pub ChainReady : Rule → S → Type 0
  ChainReady r = Listed r.table r.chain

  abbrev pub RuleReady : Rule → S → Type 0
  RuleReady r = Present r.table r.chain (rule_spec r)

explain-ok :
    {S A : Type 0} (message : String) (m : Exec S A) {s s' : S} {a : A}
    → explain message m s ≡ (ok a, s')
    → m s ≡ (ok a, s')
explain-ok {S} {A} message m {s} {s'} {a} e = by_outcome (m s) e
  where
    by_outcome : (r : Outcome A × S) → explain message (λ _. r) s ≡ (ok a, s') → r ≡ (ok a, s')
    by_outcome (ok b, t) p = p
    by_outcome (err x, t) p = absurd (cc p)
    by_outcome (panic, t) p = absurd (cc p)

module _ {S : Type 0} (ops : Ops S) (laws : Laws ops) where
  Listed-decided :
      (t c message : String) (chains : List String) (b : Bool) (s s1 s' : S)
      → ops.list_chains t s ≡ (ok chains, s1)
      → contains chains c ≡ b
      → (if b then pure tt else explain message (ops.new_chain t c)) s1 ≡ (ok tt, s')
      → Listed ops t c s' × Keeps ops s s'
  Listed-decided t c message chains true s s1 s' found h e =
      let same : s ≡ s' = sym (laws.list_reads t s) ∙ ap (λ r. r.1) found ∙ ap (λ r. r.1) e in
      let listed : Listed ops t c s =
        (chains, found ∙ ap (λ x. (ok chains, x)) (ap (λ r. r.1) e ∙ sym same), h) in
      (subst (Listed ops t c) same listed, Keeps-refl ops same)
  Listed-decided t c message chains false s s1 s' found h e =
      let same : s ≡ s1 = sym (laws.list_reads t s) ∙ ap (λ r. r.1) found in
      let (listed, keeps) = laws.created t c s1 s' (explain-ok message (ops.new_chain t c) e) in
      (listed, Keeps-trans ops (Keeps-refl ops same) keeps)

  ensure_chain-Listed :
      (t c : String) (s s' : S)
      → ensure_chain ops t c s ≡ (ok tt, s')
      → Listed ops t c s' × Keeps ops s s'
  unfolding ensure_chain
  ensure_chain-Listed t c s s' e =
      let (chains, s1, listing, rest) = resume-ok (explain _ (ops.list_chains t) s) _ e in
      Listed-decided t c _ chains (contains chains c) s s1 s'
        (explain-ok _ (ops.list_chains t) listing) refl rest

  Present-decided :
      (t c message : String) (spec : List String) (b : Bool) (s s1 s' : S)
      → ops.exists t c spec s ≡ (ok b, s1)
      → (if b then pure tt else explain message (ops.append t c spec)) s1 ≡ (ok tt, s')
      → Present ops t c spec s' × Keeps ops s s'
  Present-decided t c message spec true s s1 s' found e =
      let same : s ≡ s' =
        sym (laws.exists_reads t c spec s) ∙ ap (λ r. r.1) found ∙ ap (λ r. r.1) e in
      let there : Present ops t c spec s =
        found ∙ ap (λ x. (ok true, x)) (ap (λ r. r.1) e ∙ sym same) in
      (subst (Present ops t c spec) same there, Keeps-refl ops same)
  Present-decided t c message spec false s s1 s' found e =
      let same : s ≡ s1 = sym (laws.exists_reads t c spec s) ∙ ap (λ r. r.1) found in
      let (there, keeps) =
        laws.appended t c spec s1 s' (explain-ok message (ops.append t c spec) e) in
      (there, Keeps-trans ops (Keeps-refl ops same) keeps)

  ensure_rule-Present :
      (t c : String) (spec : List String) (s s' : S)
      → ensure_rule ops t c spec s ≡ (ok tt, s')
      → Present ops t c spec s' × Keeps ops s s'
  unfolding ensure_rule
  ensure_rule-Present t c spec s s' e =
      let (b, s1, asking, rest) = resume-ok (explain _ (ops.exists t c spec) s) _ e in
      Present-decided t c _ spec b s s1 s' (explain-ok _ (ops.exists t c spec) asking) rest

  ensure_chain_again :
      (t c : String) (s : S) → Listed ops t c s → ensure_chain ops t c s ≡ (ok tt, s)
  unfolding ensure_chain
  ensure_chain_again t c s (chains, e, h) = rw (e, h) refl

  ensure_rule_again :
      (t c : String) (spec : List String) (s : S)
      → Present ops t c spec s
      → ensure_rule ops t c spec s ≡ (ok tt, s)
  unfolding ensure_rule
  ensure_rule_again t c spec s e = rw e refl

  -- A loop of calls each of which brings something about, and keeps what was there.
  module _ (P : Rule → S → Type 0) (body : Rule → Exec S Done)
      (keeps : (r : Rule) (s s' : S) → Keeps ops s s' → P r s → P r s')
      (brings : (r : Rule) (s s' : S) → body r s ≡ (ok tt, s') → P r s' × Keeps ops s s')
      (again : (r : Rule) (s : S) → P r s → body r s ≡ (ok tt, s)) where
    loop-All :
        (rs : List Rule) (s s' : S)
        → for_each rs body s ≡ (ok tt, s')
        → All (λ r. P r s') rs × Keeps ops s s'
    unfolding for_each
    loop-All [] s s' e = (tt, Keeps-refl ops (ap (λ r. r.1) e))
    loop-All (r ∷ rs) s s' e =
        let (_, s1, first, rest) = resume-ok (body r s) _ e in
        let (here, k1) = brings r s s1 first in
        let (others, k2) = loop-All rs s1 s' rest in
        ((keeps r s1 s' k2 here, others), Keeps-trans ops k1 k2)

    loop_again : (rs : List Rule) (s : S) → All (λ r. P r s) rs → for_each rs body s ≡ (ok tt, s)
    unfolding for_each
    loop_again [] s h = refl
    loop_again (r ∷ rs) s (here, others) = rw (again r s here) (loop_again rs s others)

  All-Keeps :
      (rs : List Rule) (s s' : S)
      → Keeps ops s s'
      → All (λ r. ChainReady ops r s) rs
      → All (λ r. ChainReady ops r s') rs
  All-Keeps [] s s' k h = tt
  All-Keeps (r ∷ rs) s s' k (here, others) =
      (k.chains r.table r.chain here, All-Keeps rs s s' k others)

  -- Once SetUpRules has returned no error, the chain of each of its rules is listed and each of its
  -- rules is present, and all chains and rules that were there still are.
  pub set_up_rules-Ready :
      (gateway : String) (s s' : S)
      → set_up_rules ops gateway s ≡ (ok tt, s')
      → All (λ r. ChainReady ops r s') (rules gateway)
        × All (λ r. RuleReady ops r s') (rules gateway)
        × Keeps ops s s'
  unfolding set_up_rules
  set_up_rules-Ready gateway s s' e =
      let (_, s1, first, rest) = resume-ok (for_each (rules gateway) _ s) _ e in
      let (chains, k1) =
        loop-All (ChainReady ops) _ (λ r s s' k h. k.chains r.table r.chain h)
          (λ r s s' p. ensure_chain-Listed r.table r.chain s s' p)
          (λ r s h. ensure_chain_again r.table r.chain s h) (rules gateway) s s1 first in
      let (specs, k2) =
        loop-All (RuleReady ops) _ (λ r s s' k h. k.specs r.table r.chain (rule_spec r) h)
          (λ r s s' p. ensure_rule-Present r.table r.chain (rule_spec r) s s' p)
          (λ r s h. ensure_rule_again r.table r.chain (rule_spec r) s h) (rules gateway) s1 s'
          rest in
      (All-Keeps (rules gateway) s1 s' k2 chains, specs, Keeps-trans ops k1 k2)

  -- Once SetUpRules has returned no error, a second call returns none either and changes nothing.
  pub set_up_rules_idem :
      (gateway : String) (s s' : S)
      → set_up_rules ops gateway s ≡ (ok tt, s')
      → set_up_rules ops gateway s' ≡ (ok tt, s')
  unfolding set_up_rules
  set_up_rules_idem gateway s s' e =
      let (chains, specs, _) = set_up_rules-Ready gateway s s' e in
      rw
        (loop_again (ChainReady ops) (λ r. ensure_chain ops r.table r.chain)
          (λ r s s' k h. k.chains r.table r.chain h)
          (λ r s s' p. ensure_chain-Listed r.table r.chain s s' p)
          (λ r s h. ensure_chain_again r.table r.chain s h) (rules gateway) s' chains)
        (loop_again (RuleReady ops) _ (λ r s s' k h. k.specs r.table r.chain (rule_spec r) h)
          (λ r s s' p. ensure_rule-Present r.table r.chain (rule_spec r) s s' p)
          (λ r s h. ensure_rule_again r.table r.chain (rule_spec r) s h) (rules gateway) s' specs)
