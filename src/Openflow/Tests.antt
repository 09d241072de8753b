-- ===== src/Openflow/Tests.antt =====
-- Runs of pkg/openflow at concrete inputs.
use mathlib.Core.List.Perm
use mathlib.Core.List.{Perm}
use ciccni.Base.{
  ℕ, ◌<◌, ◌≡◌, ◌≢◌, ◌⊎◌, ◌↔◌, refl, List, [], ◌∷◌, ◌++◌, map, Bool, true, false, String, none, some,
  ok, err, panic, suc, lookup, insert, erase, for_each, string_eq, nat_eq, connect_failed, dec,
}
use ciccni.Net.{v4}
use ciccni.Binding.Switch.{Command, miss_next}
use ciccni.Binding.Switch.Connect.{answer, after_tries}
use ciccni.Binding.Flow.{Flow, add_flow, delete_flow, add_command, delete_command, match_string}
use ciccni.Openflow.Match.{
  ConjunctiveMatch, match_src_ip, match_dst_ip, ip_value, show_value, generate_global_map_key,
}
use ciccni.Openflow.Match.Key.{generate_global_map_key-eq_iff}
use ciccni.Openflow.State.{FlowCache, Client, Context, new_client, with_switch, add, delete}
use ciccni.Openflow.Flows.Forwarding.{gateway_classifier_flow, tunnel_classifier_flow}
use ciccni.Openflow.Flows.Cluster.{
  arp_normal_flow, classifier_default_flow, core_dns_snat_default_flow,
  cluster_forward_default_flow,
}
use ciccni.Openflow.Flows.Conjunctions.{ConjunctiveAction}
use ciccni.Openflow.Caches.{
  pod_flows, category, flow_cache, set_flow_cache, add_missing_flow, load_or_store,
  add_missing_flows, delete_cached, delete_flows,
}
use ciccni.Openflow.Caches.Laws.{log}
use ciccni.Openflow.Caches.Installed.{missing, Ended, add_missing_flows-Ended}
use ciccni.Openflow.Caches.Idempotent.{add_missing_flows_idem}
use ciccni.Openflow.Caches.Deleted.{Removal, delete_flows-Removal}
use ciccni.Openflow.Caches.Roundtrip.{delete_flows-add_missing_flows}
use ciccni.Openflow.Client.{
  initialize, install_node_flows, install_pod_flows, install_cluster_service_cidr_flows,
  install_gateway_flows, install_tunnel_flows,
}
use ciccni.Openflow.Client.Started.{Staged, defaults, initialize-Staged}
use ciccni.Openflow.Client.Missing.{AddsAndPanics, install-panic, install-AddsAndPanics}
use ciccni.Openflow.Policy.Contexts.{add_action, delete_action}
use ciccni.Openflow.Policy.Contexts.Invariant.{
  Consistent, Kept, Added, add_action-Kept, delete_action-Kept,
}

-- a switch that takes every command
abbrev willing : List Command → Command → Bool
willing log cmd = true

abbrev client0 : Client
client0 = new_client willing "br0"

-- the flow that resubmits to the table of the given number
abbrev flow_to : String → Flow
flow_to next = record {
  table = record { bridge = "br0"; id = 0; next = 1; miss_action = miss_next };
  bridge = "br0";
  priority = 200;
  matchers = "in_port=5" ∷ [];
  actions = "resubmit(," ∷ next ∷ ")" ∷ [];
}

abbrev two_flows : List Flow
two_flows = flow_to "1" ∷ record (flow_to "2") { matchers = [] } ∷ []

add_missing_flows-Ended_example :
    Ended pod_flows "c1"
      (missing (flow_cache pod_flows "c1" client0) two_flows)
      client0
      (add_missing_flows pod_flows "c1" two_flows client0)
add_missing_flows-Ended_example = add_missing_flows-Ended pod_flows "c1" two_flows client0

-- the client with the two flows
abbrev client1 : Client
client1 = (add_missing_flows pod_flows "c1" two_flows client0).1

installs : add_missing_flows pod_flows "c1" two_flows client0 ≡ (ok tt, client1)
unfolding add_missing_flows for_each new_client match_string add_missing_flow lookup load_or_store
    string_eq add add_flow insert
installs = refl

add_missing_flows_idem_example :
    add_missing_flows pod_flows "c1" two_flows client1 ≡ (ok tt, client1)
add_missing_flows_idem_example =
    add_missing_flows_idem pod_flows "c1" two_flows client0 client1 installs

delete_flows-Removal_example : Removal pod_flows "c1" client1 (delete_flows pod_flows "c1" client1)
delete_flows-Removal_example = delete_flows-Removal pod_flows "c1" client1

-- the two flows, in the order in which deleteFlows may visit them as well
abbrev other_order : FlowCache
other_order =
    (match_string (record (flow_to "2") { matchers = [] }), record (flow_to "2") { matchers = [] })
    ∷ (match_string (flow_to "1"), flow_to "1")
    ∷ []

other_order-Perm : Perm other_order (flow_cache pod_flows "c1" client1)
unfolding add_missing_flows for_each new_client match_string add_missing_flow lookup load_or_store
    string_eq add add_flow insert
other_order-Perm = Perm.swap _ _ []

-- the client without them again
abbrev client2 : Client
client2 = (delete_flows pod_flows "c1" (set_flow_cache pod_flows "c1" other_order client1)).1

uninstalls :
    delete_flows pod_flows "c1" (set_flow_cache pod_flows "c1" other_order client1)
    ≡ (ok tt, client2)
unfolding delete_flows lookup add_missing_flows for_each add_missing_flow load_or_store new_client
    string_eq add add_flow match_string delete_cached delete delete_flow insert
uninstalls = refl

fresh : lookup "c1" (category pod_flows client0) ≡ none
unfolding new_client lookup
fresh = refl

delete_flows-add_missing_flows_example :
    ((deleted : List Flow) × Perm deleted (missing [] two_flows)
      × (log client2
          ≡ log client0 ++ map add_command (missing [] two_flows) ++ map delete_command deleted))
    × (lookup "c1" (category pod_flows client2) ≡ none)
    × ((j : String)
        → j ≢ "c1"
        → lookup j (category pod_flows client2) ≡ lookup j (category pod_flows client0))
delete_flows-add_missing_flows_example =
    delete_flows-add_missing_flows pod_flows "c1" two_flows client0 client1 client2 other_order
      fresh installs other_order-Perm uninstalls

install-panic_example :
    (install_node_flows "n1" [] (v4 1) (record { ip = v4 0; ones = 24 }) (v4 2) client0
      ≡ (panic, client0))
    × (install_pod_flows "n1" (v4 1) [] [] 3 client0 ≡ (panic, client0))
    × (install_cluster_service_cidr_flows (record { ip = v4 0; ones = 24 }) 3 client0
        ≡ (panic, client0))
install-panic_example =
    install-panic willing "br0" client0 refl "n1" [] [] (v4 1) (v4 2)
      (record { ip = v4 0; ones = 24 }) 3

install-AddsAndPanics_example :
    AddsAndPanics client0
      (gateway_classifier_flow client0.pipeline 2)
      (install_gateway_flows (v4 1) [] 2 client0)
    × AddsAndPanics client0
        (tunnel_classifier_flow client0.pipeline 2)
        (install_tunnel_flows 2 client0)
install-AddsAndPanics_example = install-AddsAndPanics willing "br0" client0 refl (v4 1) [] 2

generate_global_map_key-eq_iff_example :
    let m : ConjunctiveMatch = record {
      table_id = 50;
      match_key = match_src_ip;
      match_value = ip_value (v4 7);
    } in
    let n : ConjunctiveMatch = record {
      table_id = 50;
      match_key = match_dst_ip;
      match_value = ip_value (v4 7);
    } in
    (generate_global_map_key m ≡ generate_global_map_key n) ↔ (
      (m.table_id ≡ n.table_id)
      × (m.match_key ≡ n.match_key)
      × (show_value m.match_value ≡ show_value n.match_value))
generate_global_map_key-eq_iff_example = generate_global_map_key-eq_iff _ _

abbrev matched : ConjunctiveMatch
matched = record { table_id = 1; match_key = match_src_ip; match_value = ip_value (v4 7) }

-- a context without an action, one action, and the context with it
abbrev context0 : Context
context0 = record {
  conj_match = matched;
  actions = [];
  deny_all_rules = [];
  flow = none;
  drop_flow = none;
}

context0-Consistent : Consistent context0
context0-Consistent = record { carries = refl; own = tt; unique = tt }

abbrev action1 : ConjunctiveAction
action1 = record { conj_id = 11; clause_id = 1; n_clause = 2 }

abbrev context1 : Context
context1 = record context0 {
  actions = (11, action1) ∷ [];
  flow = some (record (flow_to "1") { actions = "conjunction(11,1/2)" ∷ [] });
}

context1-Consistent : Consistent context1
unfolding lookup dec
context1-Consistent = record {
  carries = (refl, λ e. absurd (cc e));
  own = (refl, tt);
  unique = (refl, tt);
}

add_action-Kept_example :
    Kept context0 (Added action1 context0) (add_action action1 (context0, client0))
add_action-Kept_example = add_action-Kept context0 context0-Consistent action1 client0

present : lookup 11 context1.actions ≢ none
unfolding lookup nat_eq
present e = absurd (cc e)

delete_action-Kept_example :
    Kept context1
      (λ ctx'. ctx'.actions ≡ erase 11 context1.actions)
      (delete_action 11 (context1, client0))
delete_action-Kept_example = delete_action-Kept context1 context1-Consistent 11 present client0

-- the default flows of a new client
default_arp : (f : Flow) × (arp_normal_flow client0.pipeline ≡ ok f)
unfolding arp_normal_flow lookup nat_eq new_client
default_arp = (_, refl)

default_classifier : (f : Flow) × (classifier_default_flow client0.pipeline ≡ ok f)
unfolding classifier_default_flow lookup nat_eq new_client
default_classifier = (_, refl)

default_snat : (f : Flow) × (core_dns_snat_default_flow client0.pipeline ≡ ok f)
unfolding core_dns_snat_default_flow lookup nat_eq new_client
default_snat = (_, refl)

default_forward : (f : Flow) × (cluster_forward_default_flow client0.pipeline ≡ ok f)
unfolding cluster_forward_default_flow lookup nat_eq new_client
default_forward = (_, refl)

initialize-Staged_example :
    (n : ℕ) × ((j : ℕ) → j < n → answer j client0.switch ≡ false)
    × (((n < 5)
          × (answer n client0.switch ≡ true)
          × Staged
              (defaults default_arp.0 default_classifier.0 default_snat.0 default_forward.0)
              (with_switch client0 (after_tries (suc n) client0.switch))
              (initialize client0))
        ⊎ ((n ≡ 5)
            × (initialize client0
                ≡ (err (connect_failed 5), with_switch client0 (after_tries 5 client0.switch)))))
initialize-Staged_example =
    initialize-Staged client0 default_arp.0 default_classifier.0 default_snat.0 default_forward.0
      default_arp.1 default_classifier.1 default_snat.1 default_forward.1
