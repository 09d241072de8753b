-- ===== src/Openflow/Policy/Rules/Numbers.antt =====
-- InstallPolicyRuleFlows of pkg/openflow/network_policy.go: the numbers of a rule's clauses, and the
-- tables that it needs.
use ciccni.Base.{
  ℕ, ◌+◌, ◌≤◌, ◌<◌, ◌≡◌, ◌≢◌, ◌⊎◌, refl, ap, ◌∙◌, String, Bool, true, List, Option, none, some,
  lookup, nat_eq, ltb, arith, panic,
}
use ciccni.Binding.Switch.{Command}
use ciccni.Openflow.Tables.{Pipeline}
use ciccni.Openflow.State.{Client, new_client}
use ciccni.Openflow.Policy.Rules.{
  PolicyRule, Direction, egress, ingress, clause_numbers, rule_table_number,
  install_policy_rule_flows, get_policy_rule_conjunction, maybe_table, count_clause, install_rule,
  drop_table_number,
}

-- A part of the rule that is there has a number from 1 to `n`, and one that is not has 0.
abbrev pub Numbered {ℓ} : {A : Type ℓ} → Option A → ℕ → ℕ → Type 0
Numbered none id n = id ≡ 0
Numbered (some _) id n = (1 ≤ id) × (id ≤ n)

-- Two numbers are not one, unless they are of missing parts.
abbrev pub Apart : ℕ → ℕ → Type 0
Apart a b = (a ≡ 0) ⊎ (a ≢ b)

-- how many of the parts are there
abbrev pub present {ℓ} : {A : Type ℓ} → Option A → ℕ
present none = 0
present (some _) = 1

-- the same of any three parts, numbered one after the other
numbers_lem :
    {A B C : Type 0} (f : Option A) (t : Option B) (s : Option C)
    → let (from_id, n1) = count_clause f 0 in
      let (to_id, n2) = count_clause t n1 in
      let (service_id, n3) = count_clause s n2 in
      (n3 ≡ present f + present t + present s)
      × Numbered f from_id n3
      × Numbered t to_id n3
      × Numbered s service_id n3
      × Apart from_id to_id
      × Apart to_id service_id
      × Apart from_id service_id
numbers_lem none none none = ground arith
numbers_lem none none (some _) = ground arith
numbers_lem none (some _) none = ground arith
numbers_lem none (some _) (some _) = ground arith
numbers_lem (some _) none none = ground arith
numbers_lem (some _) none (some _) = ground arith
numbers_lem (some _) (some _) none = ground arith
numbers_lem (some _) (some _) (some _) = ground arith

-- Each of the three parts that a rule has gets a number of its own, from 1 to the number of those
-- parts, which is the rule's number of clauses; a part that is missing gets 0.
pub clause_numbers_lem :
    (rule : PolicyRule)
    → let n = clause_numbers rule in
      (n.n_clause ≡ present rule.from_addresses + present rule.to_addresses + present rule.service)
      × Numbered rule.from_addresses n.from_id n.n_clause
      × Numbered rule.to_addresses n.to_id n.n_clause
      × Numbered rule.service n.service_id n.n_clause
      × Apart n.from_id n.to_id
      × Apart n.to_id n.service_id
      × Apart n.from_id n.service_id
unfolding clause_numbers
clause_numbers_lem rule = numbers_lem rule.from_addresses rule.to_addresses rule.service

module _ (executor : List Command → Command → Bool) (bridge : String) where
  abbrev p0 : Pipeline
  p0 = (new_client executor bridge).pipeline

  no_rule_table : (d : Direction) → lookup (rule_table_number d) p0 ≡ none
  unfolding new_client lookup nat_eq
  no_rule_table egress = refl
  no_rule_table ingress = refl

  install_new :
      (c : Client) (rule : PolicyRule)
      → lookup rule.id c.policy_cache ≡ none
      → install_policy_rule_flows rule c
        ≡ install_rule rule
            (maybe_table (rule_table_number rule.direction) c)
            (maybe_table (drop_table_number rule.direction) c)
            c
  unfolding install_policy_rule_flows get_policy_rule_conjunction
  install_new c rule fresh = rw (fresh, install_policy_rule_flows, get_policy_rule_conjunction) refl

  -- On a client with the tables that NewClient creates, InstallPolicyRuleFlows of a rule that is not
  -- cached and has more than one clause panics before it runs a command.
  pub install_policy_rule_flows-panic :
      (c : Client) (rule : PolicyRule)
      → c.pipeline ≡ p0
      → lookup rule.id c.policy_cache ≡ none
      → 1 < (clause_numbers rule).n_clause
      → install_policy_rule_flows rule c ≡ (panic, c)
  install_policy_rule_flows-panic c rule e fresh many =
      let absent : lookup (rule_table_number rule.direction) c.pipeline ≡ none =
        ap (lookup (rule_table_number rule.direction)) e ∙ no_rule_table rule.direction in
      let several : ltb 1 (clause_numbers rule).n_clause ≡ true = ground (arith, many) in
      install_new c rule fresh ∙ rw (several, absent) refl
