-- ===== src/Openflow/Policy/Tests.antt =====
-- A network policy rule at concrete inputs.
use ciccni.Base.{
  ◌+◌, ◌<◌, ◌≡◌, refl, List, [], ◌∷◌, Bool, true, none, some, lookup, nat_eq, panic, arith,
}
use ciccni.Net.{v4}
use ciccni.Binding.Switch.{Command}
use ciccni.Openflow.Match.{ip_address}
use ciccni.Openflow.State.{Client, new_client}
use ciccni.Openflow.Policy.Rules.{PolicyRule, ingress, clause_numbers, install_policy_rule_flows}
use ciccni.Openflow.Policy.Rules.Numbers.{
  Numbered, Apart, present, clause_numbers_lem, install_policy_rule_flows-panic,
}

abbrev willing : List Command → Command → Bool
willing log cmd = true

abbrev client0 : Client
client0 = new_client willing "br0"

-- from one address to another, on any port
abbrev two_addresses : PolicyRule
two_addresses = record {
  id = 11;
  direction = ingress;
  from_addresses = some (ip_address (v4 1) ∷ []);
  except_from = [];
  to_addresses = some (ip_address (v4 2) ∷ []);
  except_to = [];
  service = none;
}

clause_numbers_lem_example :
    let n = clause_numbers two_addresses in
    (n.n_clause
      ≡ present two_addresses.from_addresses
        + present two_addresses.to_addresses
        + present two_addresses.service)
    × Numbered two_addresses.from_addresses n.from_id n.n_clause
    × Numbered two_addresses.to_addresses n.to_id n.n_clause
    × Numbered two_addresses.service n.service_id n.n_clause
    × Apart n.from_id n.to_id
    × Apart n.to_id n.service_id
    × Apart n.from_id n.service_id
clause_numbers_lem_example = clause_numbers_lem two_addresses

uncached : lookup 11 client0.policy_cache ≡ none
unfolding new_client lookup
uncached = refl

several : 1 < (clause_numbers two_addresses).n_clause
unfolding clause_numbers
several = omega arith

install_policy_rule_flows-panic_example :
    install_policy_rule_flows two_addresses client0 ≡ (panic, client0)
install_policy_rule_flows-panic_example =
    install_policy_rule_flows-panic willing "br0" client0 two_addresses refl uncached several
