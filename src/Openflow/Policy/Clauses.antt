-- ===== src/Openflow/Policy/Clauses.antt =====
-- clause of pkg/openflow/network_policy.go: the match conditions of one dimension of a rule. A
-- method acts on its clause and on the client; it holds the client's lock from the first use of a
-- context on, so it is one step.
use ciccni.Base.{
  ℕ, ◌+◌, ◌%◌, ◌^◌, String, List, [], ◌∷◌, map, Option, none, some, lookup, insert, erase, nat_eq,
  string_eq, ltb, if◌then◌else◌, ok, panic, Exec, Done, pure, for_each, ◌>>=◌, ◌>>◌, put_back,
}
use ciccni.Binding.Switch.{Table}
use ciccni.Binding.Flow.{Flow}
use ciccni.Openflow.Match.{
  ConjunctiveMatch, port_value, AddressType, Address, get_match_key, get_value, NetworkPolicyPort,
  get_service_match_type, generate_global_map_key,
}
use ciccni.Openflow.State.{Client, Clause, Context, add, delete, generate}
use ciccni.Openflow.Flows.Conjunctions.{ConjunctiveAction, default_drop_flow}
use ciccni.Openflow.Policy.Contexts.{
  Act, on_client, add_action, delete_action, add_deny_all_rule, delete_deny_all_rule,
}

-- the state of a method of a clause
abbrev pub Step : Type 0 → Type 0
Step A = Exec (Clause × Client) A

-- newClause
unfoldable pub new_clause : ℕ → ℕ → ℕ → Option Table → Option Table → Clause
new_clause conj_id clause_id n_clause rule_table drop_table = record {
  action = record { conj_id = conj_id; clause_id = clause_id; n_clause = n_clause };
  matches = [];
  rule_table = rule_table;
  drop_table = drop_table;
}

abbrev pub store_context : ℕ → Context → Client → Client
store_context a ctx c = record c { contexts = insert a ctx c.contexts }

-- a method of the context at an address; no context is ever missing from the store
abbrev pub on_context : {A : Type 0} → ℕ → Act A → Step A
on_context a m (cl, c) = elim (lookup a c.contexts) [
  | none ↦ (panic, (cl, c))
  | some ctx ↦ put_back (λ (ctx', c'). (cl, store_context a ctx' c')) (m (ctx, c))
]

-- a new context in the store and in the global cache
abbrev pub allocate : String → Context → Step ℕ
allocate key ctx (cl, c) = (
  ok c.next_context,
  (
    cl,
    record c {
      contexts = insert c.next_context ctx c.contexts;
      global_conj_match_flow_cache = insert key c.next_context c.global_conj_match_flow_cache;
      next_context = c.next_context + 1;
    },
  ),
)

abbrev pub fresh_context : ConjunctiveMatch → Option Flow → Context
fresh_context m drop_flow = record {
  conj_match = m;
  actions = [];
  deny_all_rules = [];
  flow = none;
  drop_flow = drop_flow;
}

-- the drop flow of a new context, installed if the clause has a drop table
abbrev pub install_drop_flow : Option Table → ConjunctiveMatch → Exec Client (Option Flow)
install_drop_flow none m = pure none
install_drop_flow (some t) m = do
  flow ← generate (λ p. default_drop_flow p t.id m.match_key m.match_value)
  add flow
  pure (some flow)

-- a call on the client
abbrev pub on_client_of : {A : Type 0} → (Clause → Exec Client A) → Step A
on_client_of m (cl, c) = put_back (λ c'. (cl, c')) (m cl c)

-- the context of a key: the one in the global cache, or a new one
abbrev pub get_context : String → ConjunctiveMatch → Step ℕ
get_context key m (cl, c) = elim (lookup key c.global_conj_match_flow_cache) [
  | some a ↦ (ok a, (cl, c))
  | none ↦
      (do
        drop_flow ← on_client_of (λ cl'. install_drop_flow cl'.drop_table m)
        allocate key (fresh_context m drop_flow))
        (cl, c)
]

-- the conjunctive action of the clause is added, or its DENY-ALL rule
abbrev pub enlist : ConjunctiveAction → Act Done
enlist action =
    if ltb 1 action.n_clause then add_action action else add_deny_all_rule action.conj_id

abbrev pub remember_match : String → ℕ → Step Done
remember_match key a (cl, c) = (ok tt, (record cl { matches = insert key a cl.matches }, c))

-- addConjunctiveMatchFlow behind its first test
abbrev pub add_new_match : String → ConjunctiveMatch → ConjunctiveAction → Step Done
add_new_match key m action = do
  a ← get_context key m
  on_context a (enlist action)
  remember_match key a

-- addConjunctiveMatchFlow
unfoldable pub add_conjunctive_match_flow : ConjunctiveMatch → Step Done
unfolding generate_global_map_key add_action add_deny_all_rule
add_conjunctive_match_flow m (cl, c) = elim (lookup (generate_global_map_key m) cl.matches) [
  | some _ ↦ (ok tt, (cl, c))
  | none ↦ add_new_match (generate_global_map_key m) m cl.action (cl, c)
]

-- c.ruleTable.GetID(), which panics on a nil table
abbrev pub rule_table_id : Step ℕ
rule_table_id (cl, c) = elim cl.rule_table [ none ↦ (panic, (cl, c)) | some t ↦ (ok t.id, (cl, c)) ]

-- generateAddressConjMatch
abbrev pub generate_address_conj_match : Address → AddressType → Step ConjunctiveMatch
generate_address_conj_match addr addr_type = do
  table_id ← rule_table_id
  pure (record {
    table_id = table_id;
    match_key = get_match_key addr addr_type;
    match_value = get_value addr;
  })

-- generateServicePortConjMatch; the port is cut to 16 bits
abbrev pub generate_service_port_conj_match : NetworkPolicyPort → Step ConjunctiveMatch
generate_service_port_conj_match port = do
  table_id ← rule_table_id
  pure (record {
    table_id = table_id;
    match_key = get_service_match_type port.protocol;
    match_value = port_value (port.int_val % 2 ^ 16);
  })

-- addAddrFlows
unfoldable pub add_addr_flows : AddressType → List Address → Step Done
add_addr_flows addr_type addresses =
    for_each addresses
      λ addr. do m ← generate_address_conj_match addr addr_type; add_conjunctive_match_flow m

-- addServiceFlows
unfoldable pub add_service_flows : List NetworkPolicyPort → Step Done
add_service_flows ports =
    for_each ports
      λ port. do m ← generate_service_port_conj_match port; add_conjunctive_match_flow m

-- the conjunctive action of the clause is deleted, or its DENY-ALL rule
abbrev pub delist : ConjunctiveAction → Act Done
delist action (ctx, c) =
    if ltb 1 action.n_clause
    then (elim (lookup action.conj_id ctx.actions) [
      | some _ ↦ delete_action action.conj_id (ctx, c)
      | none ↦ (ok tt, (ctx, c))
    ])
    else delete_deny_all_rule action.conj_id (ctx, c)

abbrev clear_drop_flow : Act Done
clear_drop_flow (ctx, c) = (ok tt, (record ctx { drop_flow = none }, c))

-- uninstalls the default drop flow, if there is one
abbrev pub delete_drop_flow : Option Flow → Act Done
delete_drop_flow none = pure tt
delete_drop_flow (some flow) = do on_client (delete flow); clear_drop_flow

-- takes the context out of the global cache
abbrev pub drop_context : Act Done
drop_context (ctx, c) = (
  ok tt,
  (
    ctx,
    record c {
      global_conj_match_flow_cache =
          erase (generate_global_map_key ctx.conj_match) c.global_conj_match_flow_cache;
    },
  ),
)

-- the end of a context that has neither actions nor DENY-ALL rules
abbrev pub retire_if_unused : Act Done
retire_if_unused (ctx, c) = elim ctx.actions [
  | _ ∷ _ ↦ (ok tt, (ctx, c))
  | [] ↦ elim ctx.deny_all_rules [
    | _ ∷ _ ↦ (ok tt, (ctx, c))
    | [] ↦ (delete_drop_flow ctx.drop_flow >> drop_context) (ctx, c)
  ]
]

abbrev pub forget_match : String → Step Done
forget_match key (cl, c) = (ok tt, (record cl { matches = erase key cl.matches }, c))

-- deleteConjunctiveMatchFlow
unfoldable pub delete_conjunctive_match_flow : String → Step Done
unfolding delete_action delete_deny_all_rule
delete_conjunctive_match_flow key (cl, c) = elim (lookup key cl.matches) [
  | none ↦ (ok tt, (cl, c))
  | some a ↦ (do on_context a (delist cl.action >> retire_if_unused); forget_match key) (cl, c)
]

-- deleteAddrFlows
unfoldable pub delete_addr_flows : AddressType → List Address → Step Done
delete_addr_flows addr_type addresses = for_each addresses λ addr. do
  m ← generate_address_conj_match addr addr_type
  delete_conjunctive_match_flow (generate_global_map_key m)

-- deleteAllMatches
unfoldable pub delete_all_matches : Step Done
delete_all_matches (cl, c) =
    for_each (map (λ (key, _). key) cl.matches) delete_conjunctive_match_flow (cl, c)
