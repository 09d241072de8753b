-- ===== src/Openflow/Policy/Rules.antt =====
-- The methods of the client on network policy rules, pkg/openflow/network_policy.go, with PolicyRule
-- of pkg/agent/types/networkpolicy.go.
pub mod Numbers
use ciccni.Base.{
  ℕ, ◌+◌, List, [], ◌∷◌, ◌++◌, Option, none, some, lookup, insert, erase, nat_eq, ltb,
  if◌then◌else◌, ok, err, panic, Exec, Done, pure, for_each, ◌>>=◌, ◌>>◌, resume, put_back,
  conjunction_not_found, no_clause,
}
use ciccni.Binding.Switch.{Table}
use ciccni.Binding.Flow.{Flow}
use ciccni.Openflow.Tables.{
  egress_rule_table, egress_default_table, ingress_rule_table, ingress_default_table,
}
use ciccni.Openflow.Match.{
  AddressType, src_address, dst_address, other_address, address_type_number, Address,
  NetworkPolicyPort, get_match_key, get_value,
}
use ciccni.Openflow.State.{Client, Clause, Conjunction, add, delete, generate}
use ciccni.Openflow.Flows.Conjunctions.{conjunction_action_flow, conjunction_exception_flow}
use ciccni.Openflow.Policy.Clauses.{
  Step, new_clause, add_addr_flows, add_service_flows, delete_addr_flows, delete_all_matches,
}

-- v1.PolicyType: every text but "Egress" is handled as ingress
pub data Direction : Type 0 where
  egress ingress : Direction

-- PolicyRule. From, To and Service may be nil, which the code tells from an empty list.
pub record PolicyRule : Type 0 where
  pub id : ℕ
  pub direction : Direction
  pub from_addresses : Option (List Address)
  pub except_from : List Address
  pub to_addresses : Option (List Address)
  pub except_to : List Address
  pub service : Option (List NetworkPolicyPort)

-- getPolicyRuleConjunction
unfoldable pub get_policy_rule_conjunction : ℕ → Client → Option Conjunction
get_policy_rule_conjunction rule_id c = lookup rule_id c.policy_cache

-- the number of a clause, if the rule has it, and how many there are then
abbrev pub count_clause {ℓ} : {A : Type ℓ} → Option A → ℕ → ℕ × ℕ
count_clause none n = (0, n)
count_clause (some _) n = (n + 1, n + 1)

pub record ClauseNumbers : Type 0 where
  pub from_id : ℕ
  pub to_id : ℕ
  pub service_id : ℕ
  pub n_clause : ℕ

-- "Calculate clause ID" of InstallPolicyRuleFlows
unfoldable pub clause_numbers : PolicyRule → ClauseNumbers
clause_numbers rule =
    let (from_id, n1) = count_clause rule.from_addresses 0 in
    let (to_id, n2) = count_clause rule.to_addresses n1 in
    let (service_id, n3) = count_clause rule.service n2 in
    record { from_id = from_id; to_id = to_id; service_id = service_id; n_clause = n3 }

abbrev pub rule_table_number : Direction → ℕ
rule_table_number egress = egress_rule_table
rule_table_number ingress = ingress_rule_table

abbrev pub drop_table_number : Direction → ℕ
drop_table_number egress = egress_default_table
drop_table_number ingress = ingress_default_table

-- c.pipeline[id], where nil is no fault yet
abbrev pub maybe_table : ℕ → Client → Option Table
maybe_table id c = lookup id c.pipeline

-- a method call on a table that may be nil
abbrev pub not_nil : Option Table → Exec Client Table
not_nil none c = (panic, c)
not_nil (some t) c = (ok t, c)

-- The exception flows of one of the two lists of excepts, appended to the flows so far.
abbrev pub except_flows :
    ℕ → ℕ → ℕ → AddressType → List Address → List Flow → Exec Client (List Flow)
except_flows id rule_table drop_table addr_type [] flows = pure flows
except_flows id rule_table drop_table addr_type (addr ∷ addresses) flows = do
  flow ← generate (λ p.
      conjunction_exception_flow p id rule_table drop_table (get_match_key addr addr_type)
        (get_value addr))
  except_flows id rule_table drop_table addr_type addresses (flows ++ flow ∷ [])

-- The action flows of a rule with more than one clause: built first, then added.
abbrev pub install_action_flows : PolicyRule → Option Table → Option Table → Exec Client (List Flow)
install_action_flows rule rule_table drop_table = do
  r ← not_nil rule_table
  d ← not_nil drop_table
  flow ← generate (λ p. conjunction_action_flow p rule.id r.id d.next)
  flows ← except_flows rule.id r.id d.id src_address rule.except_from (flow ∷ [])
  action_flows ← except_flows rule.id r.id d.id dst_address rule.except_to flows
  for_each action_flows add
  pure action_flows

-- A new clause and the method that fills it; the clause is returned as the method leaves it.
abbrev pub fill_clause : Clause → Step Done → Exec Client (Option Clause)
fill_clause cl m c = let (r, (cl', c')) = m (cl, c) in resume (r, c') (λ _. pure (some cl'))

abbrev pub install_addresses :
    Option (List Address) → Clause → AddressType → Exec Client (Option Clause)
install_addresses none cl addr_type = pure none
install_addresses (some addresses) cl addr_type =
    fill_clause cl (add_addr_flows addr_type addresses)

abbrev pub install_services : Option (List NetworkPolicyPort) → Clause → Exec Client (Option Clause)
install_services none cl = pure none
install_services (some ports) cl = fill_clause cl (add_service_flows ports)

-- defaultTable for From and for To
abbrev from_drop_table : Direction → Option Table → Option Table
from_drop_table egress t = t
from_drop_table ingress t = none

abbrev to_drop_table : Direction → Option Table → Option Table
to_drop_table egress t = none
to_drop_table ingress t = t

abbrev pub store_conjunction : Conjunction → Exec Client Done
store_conjunction conj c = (ok tt, record c { policy_cache = insert conj.id conj c.policy_cache })

-- InstallPolicyRuleFlows for a rule that is not in the cache
abbrev pub install_rule : PolicyRule → Option Table → Option Table → Exec Client Done
install_rule rule rule_table drop_table = do
  let n = clause_numbers rule
  action_flows ←
      if ltb 1 n.n_clause then install_action_flows rule rule_table drop_table else pure []
  from_clause ←
      install_addresses rule.from_addresses
        (new_clause rule.id n.from_id n.n_clause rule_table
          (from_drop_table rule.direction drop_table))
        src_address
  to_clause ←
      install_addresses rule.to_addresses
        (new_clause rule.id n.to_id n.n_clause rule_table (to_drop_table rule.direction drop_table))
        dst_address
  service_clause ←
      install_services rule.service (new_clause rule.id n.service_id n.n_clause rule_table none)
  store_conjunction (record {
    id = rule.id;
    from_clause = from_clause;
    to_clause = to_clause;
    service_clause = service_clause;
    action_flows = action_flows;
  })

-- InstallPolicyRuleFlows
unfoldable pub install_policy_rule_flows : PolicyRule → Exec Client Done
unfolding get_policy_rule_conjunction clause_numbers new_clause
install_policy_rule_flows rule c = elim (get_policy_rule_conjunction rule.id c) [
  | some _ ↦ (ok tt, c)
  | none ↦
      install_rule rule (maybe_table (rule_table_number rule.direction) c)
        (maybe_table (drop_table_number rule.direction) c) c
]

-- the three clauses of a conjunction
pub data ClauseName : Type 0 where
  from_name to_name service_name : ClauseName

abbrev pub get_clause : ClauseName → Conjunction → Option Clause
get_clause from_name conj = conj.from_clause
get_clause to_name conj = conj.to_clause
get_clause service_name conj = conj.service_clause

abbrev pub set_clause : ClauseName → Clause → Conjunction → Conjunction
set_clause from_name cl conj = record conj { from_clause = some cl }
set_clause to_name cl conj = record conj { to_clause = some cl }
set_clause service_name cl conj = record conj { service_clause = some cl }

-- A method on a clause of the conjunction in the policy cache. The cache holds a pointer, so the
-- clause is as the method leaves it, whether it fails or not.
abbrev pub on_clause : ClauseName → Conjunction → Clause → Step Done → Exec Client Done
on_clause name conj cl m c =
    put_back
      (λ (cl', c'). record c' {
        policy_cache = insert conj.id (set_clause name cl' conj) c'.policy_cache;
      })
      (m (cl, c))

-- `if conj.xClause != nil { err := conj.xClause.deleteAllMatches() … }`
abbrev pub delete_clause_matches : ℕ → ClauseName → Exec Client Done
delete_clause_matches rule_id name c = elim (lookup rule_id c.policy_cache) [
  | none ↦ (ok tt, c)
  | some conj ↦ elim (get_clause name conj) [
    | none ↦ (ok tt, c)
    | some cl ↦ on_clause name conj cl delete_all_matches c
  ]
]

abbrev pub forget_conjunction : ℕ → Exec Client Done
forget_conjunction rule_id c = (ok tt, record c { policy_cache = erase rule_id c.policy_cache })

-- UninstallPolicyRuleFlows
unfoldable pub uninstall_policy_rule_flows : ℕ → Exec Client Done
unfolding get_policy_rule_conjunction
uninstall_policy_rule_flows rule_id c = elim (get_policy_rule_conjunction rule_id c) [
  | none ↦ (ok tt, c)
  | some conj ↦
      (do
        for_each conj.action_flows delete
        delete_clause_matches rule_id from_name
        delete_clause_matches rule_id to_name
        delete_clause_matches rule_id service_name
        forget_conjunction rule_id)
        c
]

-- getAddressClause, as the name of the clause
abbrev pub address_clause : AddressType → Conjunction → Option (ClauseName × Clause)
address_clause src_address conj = elim conj.from_clause [
  | none ↦ none
  | some cl ↦ some (from_name, cl)
]
address_clause dst_address conj = elim conj.to_clause [ none ↦ none | some cl ↦ some (to_name, cl) ]
address_clause (other_address _) conj = none

-- AddPolicyRuleAddress and DeletePolicyRuleAddress differ in the method that they end with.
abbrev pub on_address_clause : ℕ → AddressType → Step Done → Exec Client Done
on_address_clause rule_id addr_type m c = elim (lookup rule_id c.policy_cache) [
  | none ↦ (err (conjunction_not_found rule_id), c)
  | some conj ↦ elim (address_clause addr_type conj) [
    | none ↦ (err (no_clause (address_type_number addr_type)), c)
    | some (name, cl) ↦ on_clause name conj cl m c
  ]
]

-- AddPolicyRuleAddress
unfoldable pub add_policy_rule_address : ℕ → AddressType → List Address → Exec Client Done
add_policy_rule_address rule_id addr_type addresses =
    on_address_clause rule_id addr_type (add_addr_flows addr_type addresses)

-- DeletePolicyRuleAddress
unfoldable pub delete_policy_rule_address : ℕ → AddressType → List Address → Exec Client Done
delete_policy_rule_address rule_id addr_type addresses =
    on_address_clause rule_id addr_type (delete_addr_flows addr_type addresses)
