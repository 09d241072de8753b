-- ===== src/Openflow/Caches.antt =====
-- addMissingFlows and deleteFlows of pkg/openflow/client.go, over the flow caches of the client.
pub mod Laws
pub mod Installed
pub mod Idempotent
pub mod Deleted
pub mod Roundtrip
use ciccni.Base.{
  String, List, [], ◌∷◌, Option, none, some, lookup, insert, erase, string_eq, Outcome, ok, Exec,
  Done, for_each, ◌>>=◌, ◌>>◌,
}
use ciccni.Binding.Flow.{Flow, match_string}
use ciccni.Openflow.State.{Client, FlowCache, FlowCategoryCache, add, delete}

-- the caches of the client, by name
pub data Category : Type 0 where
  node_flows pod_flows service_flows general_flows : Category

abbrev pub category : Category → Client → FlowCategoryCache
category node_flows c = c.node_flow_cache
category pod_flows c = c.pod_flow_cache
category service_flows c = c.service_cache
category general_flows c = c.general_cache

abbrev pub with_category : Category → FlowCategoryCache → Client → Client
with_category node_flows m c = record c { node_flow_cache = m }
with_category pod_flows m c = record c { pod_flow_cache = m }
with_category service_flows m c = record c { service_cache = m }
with_category general_flows m c = record c { general_cache = m }

abbrev pub or_empty : Option FlowCache → FlowCache
or_empty none = []
or_empty (some m) = m

-- the flow cache of a key
abbrev pub flow_cache : Category → String → Client → FlowCache
flow_cache cat key c = or_empty (lookup key (category cat c))

abbrev pub set_flow_cache : Category → String → FlowCache → Client → Client
set_flow_cache cat key m c = with_category cat (insert key m (category cat c)) c

-- cache.LoadOrStore(flowCacheKey, flowCache{})
unfoldable pub load_or_store : Category → String → Client → Client
load_or_store cat key c = elim (lookup key (category cat c)) [
  | none ↦ set_flow_cache cat key [] c
  | some _ ↦ c
]

-- fCache[flow.MatchString()] = flow
abbrev pub remember : Category → String → Flow → Exec Client Done
remember cat key f c =
    (ok tt, set_flow_cache cat key (insert (match_string f) f (flow_cache cat key c)) c)

-- one round of the loop of addMissingFlows
unfoldable pub add_missing_flow : Category → String → Flow → Exec Client Done
add_missing_flow cat key f c = elim (lookup (match_string f) (flow_cache cat key c)) [
  | some _ ↦ (ok tt, c)
  | none ↦ (add f >> remember cat key f) c
]

-- addMissingFlows
unfoldable pub add_missing_flows : Category → String → List Flow → Exec Client Done
add_missing_flows cat key flows c =
    for_each flows (add_missing_flow cat key) (load_or_store cat key c)

-- delete(fCache, flowKey)
abbrev pub forget : Category → String → String → Exec Client Done
forget cat key flow_key c =
    (ok tt, set_flow_cache cat key (erase flow_key (flow_cache cat key c)) c)

-- one round of the loop of deleteFlows
unfoldable pub delete_cached : Category → String → String × Flow → Exec Client Done
delete_cached cat key (flow_key, f) = do delete f; forget cat key flow_key

-- the deferred function of deleteFlows: an empty flow cache is dropped
unfoldable pub drop_if_empty : Category → String → Client → Client
drop_if_empty cat key c = elim (flow_cache cat key c) [
  | [] ↦ with_category cat (erase key (category cat c)) c
  | _ ∷ _ ↦ c
]

-- deleteFlows
unfoldable pub delete_flows : Category → String → Exec Client Done
unfolding drop_if_empty
delete_flows cat key c = elim (lookup key (category cat c)) [
  | none ↦ (ok tt, c)
  | some m ↦ let (r, c') = for_each m (delete_cached cat key) c in (r, drop_if_empty cat key c')
]
