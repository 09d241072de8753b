-- ===== src/Openflow/Client/Started.antt =====
-- Initialize of pkg/openflow/client.go.
use ciccni.Base.{
  ℕ, String, ◌≡◌, refl, ap, ◌∙◌, inl, inr, List, [], ◌∷◌, ◌++◌, map, append_assoc, true, false,
  Bool-cases, suc, ◌<◌, ◌⊎◌, connect_failed, Outcome, ok, err, wrapped, add_failed, Exec, Done,
  resume, nat_eq,
}
use ciccni.Binding.Switch.{Command, Switch}
use ciccni.Binding.Switch.Connect.{answer, after_tries, connect-Ending}
use ciccni.Binding.Flow.{Flow, add_command, format_with_actions}
use ciccni.Openflow.State.{Client, with_switch, add}
use ciccni.Openflow.Caches.Laws.{
  log, accepts, Takes, Refuses, Takes-cons, Refuses-cons, add-accepted, add-refused,
}
use ciccni.Openflow.Flows.Cluster.{
  arp_normal_flow, classifier_default_flow, core_dns_snat_default_flow,
  cluster_forward_default_flow,
}
use ciccni.Openflow.Client.{initialize, explain}

abbrev commands : List (String × Flow) → List Command
commands = map (λ (_, f). add_command f)

-- How the flows are installed, each with the message for its failure: all of them, or those before
-- one that the switch refuses, whose error is returned under its message.
pub data Staged (todo : List (String × Flow)) (c : Client) : Outcome Done × Client → Type 0 where
  complete :
      (c' : Client)
      → Takes c (commands todo)
      → log c' ≡ log c ++ commands todo
      → Staged todo c (ok tt, c')
  incomplete :
      (c' : Client) (before : List (String × Flow)) (message : String) (f : Flow)
      (after : List (String × Flow))
      → todo ≡ before ++ (message, f) ∷ after
      → Refuses c (commands before) (add_command f)
      → log c' ≡ log c ++ commands (before ++ (message, f) ∷ [])
      → Staged todo c (err (wrapped message (add_failed (format_with_actions f))), c')

Staged-cons :
    (m : String) (f : Flow) (todo : List (String × Flow)) (c c' : Client)
    {r : Outcome Done × Client}
    → accepts c (add_command f) ≡ true
    → c'.switch.executor ≡ c.switch.executor
    → log c' ≡ log c ++ add_command f ∷ []
    → Staged todo c' r
    → Staged ((m, f) ∷ todo) c r
Staged-cons m f todo c c' a x e (complete d t l) =
    complete d (Takes-cons (add_command f) c c' a x e _ t)
      (l ∙ ap (λ t. t ++ commands todo) e ∙ append_assoc (log c) _ _)
Staged-cons m f todo c c' a x e (incomplete d before n g after s t l) =
    incomplete d ((m, f) ∷ before) n g after (ap (◌∷◌ (m, f)) s)
      (Refuses-cons (add_command f) c c' a x e _ _ t)
      (l ∙ ap (λ t. t ++ commands (before ++ (n, g) ∷ [])) e ∙ append_assoc (log c) _ _)

-- one installation, and then the others
Staged-step :
    (m : String) (f : Flow) (todo : List (String × Flow)) (c : Client) (k : Done → Exec Client Done)
    → ((s : Switch) → Staged todo (with_switch c s) (k tt (with_switch c s)))
    → Staged ((m, f) ∷ todo) c (resume (explain m (add f) c) k)
Staged-step m f todo c k rest = elim (Bool-cases (accepts c (add_command f))) [
  | inl h ↦
      let (s, run, l, x) = add-accepted f c h in
      rw run (Staged-cons m f todo c (with_switch c s) h x l (rest s))
  | inr h ↦ rw (add-refused f c h) (incomplete _ [] m f todo refl h refl)
]

Staged-last : (m : String) (f : Flow) (c : Client) → Staged ((m, f) ∷ []) c (explain m (add f) c)
Staged-last m f c = elim (Bool-cases (accepts c (add_command f))) [
  | inl h ↦ let (s, run, l, x) = add-accepted f c h in rw run (complete _ (h, tt) l)
  | inr h ↦ rw (add-refused f c h) (incomplete _ [] m f [] refl h refl)
]

-- the four installations of Initialize
abbrev pub defaults : Flow → Flow → Flow → Flow → List (String × Flow)
defaults arp classifier snat forward =
    ("failed to install arp normal flow", arp)
    ∷ ("failed to install classifier default resubmit flow", classifier)
    ∷ ("failed to install coreDNSSNAT default resubmit flow", snat)
    ∷ ("failed to install clusterForward default normal flow", forward)
    ∷ []

module _ (c : Client) (arp classifier snat forward : Flow)
    (arp_eq : arp_normal_flow c.pipeline ≡ ok arp)
    (classifier_eq : classifier_default_flow c.pipeline ≡ ok classifier)
    (snat_eq : core_dns_snat_default_flow c.pipeline ≡ ok snat)
    (forward_eq : cluster_forward_default_flow c.pipeline ≡ ok forward) where
  -- Initialize tries to connect at most five times, stops at the first try that succeeds, and then
  -- installs the four default flows of the client's tables in order: all of them, just if the switch
  -- runs all of the commands, or else those before the one that the switch then refuses, whose error
  -- is returned under the message of that flow. If all
  -- five tries fail it returns the error of Connect and installs nothing.
  pub initialize-Staged :
      (n : ℕ) × ((j : ℕ) → j < n → answer j c.switch ≡ false)
      × (((n < 5)
            × (answer n c.switch ≡ true)
            × Staged
                (defaults arp classifier snat forward)
                (with_switch c (after_tries (suc n) c.switch))
                (initialize c))
          ⊎ ((n ≡ 5)
              × (initialize c ≡ (err (connect_failed 5), with_switch c (after_tries 5 c.switch)))))
  unfolding initialize
  initialize-Staged =
      let (n, before, end) = connect-Ending 5 c.switch in
      (
        n,
        before,
        elim end [
          | inl (h, up, e) ↦ inl (
            h,
            up,
            rw (e, arp_eq)
                (Staged-step _ arp _ _ _ (λ s1. rw classifier_eq (
                  Staged-step _ classifier _ _ _ (λ s2.
                    rw snat_eq (
                      Staged-step _ snat _ _ _ (λ s3. rw forward_eq (Staged-last _ forward _))))))),
          )
          | inr (h, e) ↦ inr (h, rw e refl)
        ],
      )
