-- ===== src/Iptables/Tests.antt =====
-- SetUpRules of pkg/iptables/iptables.go on a small host, which shows that the laws can hold.
use ciccni.Base.{
  String, ◌≡◌, refl, ap, subst, inl, inr, true, Bool-cases, List, [], ◌∷◌, ok, All, arith, ◌<>◌,
  join, if◌then◌else◌, ◌==◌, string_eq, for_each,
}
use ciccni.Iptables.{Ops, rules, contains, set_up_rules}
use ciccni.Iptables.Ready.{
  Listed, Present, Keeps, Laws, ChainReady, RuleReady, set_up_rules-Ready, set_up_rules_idem,
}

-- the chains by table, and the rules as texts
record Host : Type 0 where
  chains : List (String × String)
  specs : List String

abbrev names : String → List (String × String) → List String
names t [] = []
names t ((u, c) ∷ m) = let rest = names t m in if u == t then c ∷ rest else rest

abbrev text : String → String → List String → String
text t c spec = t <> " " <> c <> " " <> join " " spec

abbrev host_ops : Ops Host
host_ops = record {
  list_chains = λ t s. (ok (names t s.chains), s);
  new_chain = λ t c s. (ok tt, record s { chains = (t, c) ∷ s.chains });
  exists = λ t c spec s. (ok (contains s.specs (text t c spec)), s);
  append = λ t c spec s. (ok tt, record s { specs = text t c spec ∷ s.specs });
}

contains_head : (x : String) (xs : List String) → contains (x ∷ xs) x ≡ true
unfolding contains
contains_head x xs = ground arith

contains_tail :
    (x y : String) (xs : List String) → contains xs y ≡ true → contains (x ∷ xs) y ≡ true
unfolding contains
contains_tail x y xs h = ground (arith, h)

names_head : (t c : String) (m : List (String × String)) → names t ((t, c) ∷ m) ≡ c ∷ names t m
names_head t c m = ground arith

names_tail :
    (t u c d : String) (m : List (String × String))
    → contains (names u m) d ≡ true
    → contains (names u ((t, c) ∷ m)) d ≡ true
names_tail t u c d m h = elim (Bool-cases (t == u)) [
  | inl e ↦ rw e (contains_tail c d (names u m) h)
  | inr e ↦ rw e h
]

listed : (t c : String) (s : Host) → Listed host_ops t c s → contains (names t s.chains) c ≡ true
listed t c s (l, p, h) = cc (p, h)

present :
    (t c : String) (spec : List String) (s : Host)
    → Present host_ops t c spec s
    → contains s.specs (text t c spec) ≡ true
present t c spec s p = cc p

host_laws : Laws host_ops
host_laws = record {
  list_reads = λ t s. refl;
  exists_reads = λ t c spec s. refl;
  created = λ t c s s' e.
      let after = record s { chains = (t, c) ∷ s.chains } in
      subst (λ z. Listed host_ops t c z × Keeps host_ops s z) (ap (λ r. r.1) e)
        (
          (_, refl, rw (names_head t c s.chains) (contains_head c (names t s.chains))),
          record {
            chains = λ u d h. (_, refl, names_tail t u c d s.chains (listed u d s h));
            specs = λ u d spec p. ap (λ b. (ok b, after)) (present u d spec s p);
          },
        );
  appended = λ t c spec s s' e.
      let after = record s { specs = text t c spec ∷ s.specs } in
      subst (λ z. Present host_ops t c spec z × Keeps host_ops s z) (ap (λ r. r.1) e)
        (
          ap (λ b. (ok b, after)) (contains_head (text t c spec) s.specs),
          record {
            chains = λ u d h. (_, refl, listed u d s h);
            specs = λ u d spec' p.
                ap (λ b. (ok b, after))
                  (contains_tail (text t c spec) (text u d spec') s.specs (present u d spec' s p));
          },
        );
}

abbrev bare_host : Host
bare_host = record { chains = ("filter", "FORWARD") ∷ ("nat", "POSTROUTING") ∷ []; specs = [] }

abbrev ready_host : Host
ready_host = (set_up_rules host_ops "gw0" bare_host).1

sets_up : set_up_rules host_ops "gw0" bare_host ≡ (ok tt, ready_host)
unfolding set_up_rules for_each string_eq
sets_up = refl

set_up_rules-Ready_example :
    All (λ r. ChainReady host_ops r ready_host) (rules "gw0")
    × All (λ r. RuleReady host_ops r ready_host) (rules "gw0")
    × Keeps host_ops bare_host ready_host
set_up_rules-Ready_example =
    set_up_rules-Ready host_ops host_laws "gw0" bare_host ready_host sets_up

set_up_rules_idem_example : set_up_rules host_ops "gw0" ready_host ≡ (ok tt, ready_host)
set_up_rules_idem_example = set_up_rules_idem host_ops host_laws "gw0" bare_host ready_host sets_up
