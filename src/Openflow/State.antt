-- ===== src/Openflow/State.antt =====
-- The state of pkg/openflow: `client` of pipeline.go and the caches of network_policy.go. A context
-- is shared by the global cache and the clauses, so contexts stand in a store of their own and are
-- named by an address; a flow cache, a clause and a conjunction have one owner and are values.
use ciccni.Base.{ℕ, String, Bool, List, [], Option, Dict, string_eq, Outcome, Exec, Done, put_back}
use ciccni.Binding.Switch.{Table, Switch, Command, new_bridge}
use ciccni.Binding.Flow.{Flow, add_flow, modify_flow, delete_flow}
use ciccni.Openflow.Tables.{Pipeline, new_pipeline}
use ciccni.Openflow.Match.{ConjunctiveMatch}
use ciccni.Openflow.Flows.Conjunctions.{ConjunctiveAction}

-- flowCache
abbrev pub FlowCache : Type 0
FlowCache = Dict String Flow

-- flowCategoryCache
abbrev pub FlowCategoryCache : Type 0
FlowCategoryCache = Dict String FlowCache

-- conjMatchFlowContext, with its conjunctiveMatch. A nil map of deny-all rules is an empty one.
pub record Context : Type 0 where
  pub conj_match : ConjunctiveMatch
  pub actions : Dict ℕ ConjunctiveAction
  pub deny_all_rules : Dict ℕ Bool
  pub flow : Option Flow
  pub drop_flow : Option Flow

-- clause; `matches` leads to the addresses of contexts, and a nil table is `none`
pub record Clause : Type 0 where
  pub action : ConjunctiveAction
  pub matches : Dict String ℕ
  pub rule_table : Option Table
  pub drop_table : Option Table

-- policyRuleConjunction
pub record Conjunction : Type 0 where
  pub id : ℕ
  pub from_clause : Option Clause
  pub to_clause : Option Clause
  pub service_clause : Option Clause
  pub action_flows : List Flow

-- client. `contexts` is the memory that the pointers to contexts lead to.
pub record Client : Type 0 where
  pub switch : Switch
  pub pipeline : Pipeline
  pub node_flow_cache : FlowCategoryCache
  pub pod_flow_cache : FlowCategoryCache
  pub service_cache : FlowCategoryCache
  pub general_cache : FlowCategoryCache
  pub policy_cache : Dict ℕ Conjunction
  pub global_conj_match_flow_cache : Dict String ℕ
  pub contexts : Dict ℕ Context
  pub next_context : ℕ

-- NewClient
unfoldable pub new_client : (List Command → Command → Bool) → String → Client
unfolding new_pipeline
new_client executor bridge_name =
    let (pipeline, switch) = new_pipeline (new_bridge executor bridge_name) in
    record {
      switch = switch;
      pipeline = pipeline;
      node_flow_cache = [];
      pod_flow_cache = [];
      service_cache = [];
      general_cache = [];
      policy_cache = [];
      global_conj_match_flow_cache = [];
      contexts = [];
      next_context = 0;
    }

abbrev pub with_switch : Client → Switch → Client
with_switch c s = record c { switch = s }

-- Add, Modify and Delete of the client: the flow's own
unfoldable pub add : Flow → Exec Client Done
add f c = put_back (with_switch c) (add_flow f c.switch)

unfoldable pub modify : Flow → Exec Client Done
modify f c = put_back (with_switch c) (modify_flow f c.switch)

unfoldable pub delete : Flow → Exec Client Done
delete f c = put_back (with_switch c) (delete_flow f c.switch)

-- a flow that is generated from the pipeline
abbrev pub generate : {A : Type 0} → (Pipeline → Outcome A) → Exec Client A
generate f c = (f c.pipeline, c)
