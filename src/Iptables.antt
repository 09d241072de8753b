-- ===== src/Iptables.antt =====
-- pkg/iptables/iptables.go: the chains and rules that the agent puts on the host. The go-iptables
-- package is a parameter, the operations of `Ops` on a state that is theirs.
pub mod Ready
mod Tests
use ciccni.Base.{
  String, Bool, true, false, List, [], ◌∷◌, ◌++◌, Exec, Outcome, ok, err, panic, Error, wrapped,
  Done, pure, for_each, ◌>>=◌, ◌>>◌, if◌then◌else◌, ◌==◌, string_eq, ◌||◌, ◌<>◌, join,
}

-- iptables.IPTables: ListChains, NewChain, Exists and Append
pub record Ops (S : Type 0) : Type 0 where
  pub list_chains : String → Exec S (List String)
  pub new_chain : String → String → Exec S Done
  pub exists : String → String → List String → Exec S Bool
  pub append : String → String → List String → Exec S Done

abbrev pub nat_table : String
nat_table = "nat"

abbrev pub filter_table : String
filter_table = "filter"

abbrev pub external_pkg_mark : String
external_pkg_mark = "0x40/0x40"

-- rule
pub record Rule : Type 0 where
  pub table : String
  pub chain : String
  pub parameters : List String
  pub target : String
  pub target_options : List String
  pub comment : String

-- the rules of SetUpRules, for the name of the host gateway
unfoldable pub rules : String → List Rule
rules gateway =
    record {
      table = filter_table;
      chain = "FORWARD";
      parameters = [];
      target = "CICCNI-FORWARD";
      target_options = [];
      comment = "ciccni: 跳转至CICCNI-FORWARD链";
    }
    ∷ record {
      table = filter_table;
      chain = "CICCNI-FORWARD";
      parameters = "-i" ∷ gateway ∷ "!" ∷ "-o" ∷ gateway ∷ [];
      target = "MARK";
      target_options = "--set-xmark" ∷ external_pkg_mark ∷ [];
      comment = "ciccni: 标记位0x40/0x40";
    }
    ∷ record {
      table = filter_table;
      chain = "CICCNI-FORWARD";
      parameters = "-i" ∷ gateway ∷ "!" ∷ "-o" ∷ gateway ∷ [];
      target = "ACCEPT";
      target_options = [];
      comment = "ciccni: 接收pod to External包";
    }
    ∷ record {
      table = filter_table;
      chain = "CICCNI-FORWARD";
      parameters = "!" ∷ "-i" ∷ gateway ∷ "-o" ∷ gateway ∷ [];
      target = "ACCEPT";
      target_options = [];
      comment = "ciccni: 接收external to pod traffic";
    }
    ∷ record {
      table = nat_table;
      chain = "POSTROUTING";
      parameters = [];
      target = "CICCNI-POSTROUTING";
      target_options = [];
      comment = "ciccni: 跳转至CICCNI-POSTROUTING链";
    }
    ∷ record {
      table = nat_table;
      chain = "CICCNI-POSTROUTING";
      parameters = "-m" ∷ "mark" ∷ "--mark" ∷ external_pkg_mark ∷ [];
      target = "MASQUERADE";
      target_options = [];
      comment = "ciccni: for host gateway";
    }
    ∷ record {
      table = filter_table;
      chain = "CICCNI-FORWARD";
      parameters = [];
      target = "ACCEPT";
      target_options = [];
      comment = "ciccni: 默认接受";
    }
    ∷ []

-- ruleSpec
unfoldable pub rule_spec : Rule → List String
rule_spec r =
    r.parameters
    ++ "-j" ∷ r.target ∷ []
    ++ r.target_options
    ++ "-m" ∷ "comment" ∷ "--comment" ∷ r.comment ∷ []

-- contains
unfoldable pub contains : List String → String → Bool
contains [] target = false
contains (c ∷ chains) target = if c == target then true else contains chains target

-- fmt.Errorf(message, err)
abbrev explained {ℓ} : {A : Type ℓ} → String → Outcome A → Outcome A
explained message (ok a) = ok a
explained message (err e) = err (wrapped message e)
explained message panic = panic

abbrev pub explain {ℓ} : {S : Type 0} {A : Type ℓ} → String → Exec S A → Exec S A
explain message m s = let (r, s') = m s in (explained message r, s')

module _ {S : Type 0} (ops : Ops S) where
  -- ensureChain
  unfoldable pub ensure_chain : String → String → Exec S Done
  unfolding contains
  ensure_chain table chain = do
    chains ← explain ("error listing exsiting chains in table " <> table) (ops.list_chains table)
    if contains chains chain
        then pure tt
        else explain ("error creating chain " <> chain <> " in table " <> table)
            (ops.new_chain table chain)

  -- ensureRule
  unfoldable pub ensure_rule : String → String → List String → Exec S Done
  unfolding join
  ensure_rule table chain spec = do
    exist ←
        explain
          ("error checking if rule ["
            <> join " " spec
            <> "] exists in table "
            <> table
            <> " chain "
            <> chain)
          (ops.exists table chain spec)
    if exist
        then pure tt
        else explain
            ("error appending rule ["
              <> join " " spec
              <> "] to table "
              <> table
              <> " chain "
              <> chain)
            (ops.append table chain spec)

  -- SetUpRules
  unfoldable pub set_up_rules : String → Exec S Done
  unfolding rules rule_spec ensure_chain ensure_rule
  set_up_rules gateway = do
    for_each (rules gateway) (λ r. ensure_chain r.table r.chain)
    for_each (rules gateway) (λ r. ensure_rule r.table r.chain (rule_spec r))
