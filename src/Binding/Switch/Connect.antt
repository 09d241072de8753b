-- ===== src/Binding/Switch/Connect.antt =====
-- Connect of pkg/ovs/openflow/cmd_bridge.go: how often it tries, and what it answers.
use ciccni.Base.{
  ℕ, zero, suc, ◌<◌, ◌≡◌, refl, sym, ap, ◌∙◌, ◌⊎◌, inl, inr, Bool, true, false, List, [], ◌∷◌, ◌++◌,
  append_assoc, append-nil, arith, Bool-cases, Outcome, ok, err, Done, connect_failed,
}
use ciccni.Binding.Switch.{Command, Switch, show_command, connect_loop, connect}

-- `n` tries, one after the other
abbrev pub tries : ℕ → Command → List Command
tries zero cmd = []
tries (suc n) cmd = cmd ∷ tries n cmd

-- the switch after `n` tries, and what it answers to the next
abbrev pub after_tries : ℕ → Switch → Switch
after_tries n s = record s { log = s.log ++ tries n (show_command s) }

abbrev pub answer : ℕ → Switch → Bool
answer n s = s.executor (s.log ++ tries n (show_command s)) (show_command s)

-- How Connect ends: after `n` failed tries with a success, or after `left` failed tries with an
-- error.
abbrev pub Ending : ℕ → Switch → ℕ → ℕ → Outcome Done × Switch → Type 0
Ending max s left n r =
    ((n < left) × (answer n s ≡ true) × (r ≡ (ok tt, after_tries (suc n) s)))
    ⊎ ((n ≡ left) × (r ≡ (err (connect_failed max), after_tries left s)))

module _ (s : Switch) where
  after_tries-zero : after_tries 0 s ≡ s
  after_tries-zero = ap (λ l. record s { log = l }) (append-nil s.log)

  answer-zero : answer 0 s ≡ s.executor s.log (show_command s)
  answer-zero = ap (λ l. s.executor l (show_command s)) (append-nil s.log)

  log-suc :
      (n : ℕ)
      → (s.log ++ show_command s ∷ []) ++ tries n (show_command s)
        ≡ s.log ++ tries (suc n) (show_command s)
  log-suc n = append_assoc s.log (show_command s ∷ []) (tries n (show_command s))

  after_tries-suc : (n : ℕ) → after_tries n (after_tries 1 s) ≡ after_tries (suc n) s
  after_tries-suc n = ap (λ l. record s { log = l }) (log-suc n)

  answer-suc : (n : ℕ) → answer n (after_tries 1 s) ≡ answer (suc n) s
  answer-suc n = ap (λ l. s.executor l (show_command s)) (log-suc n)

-- a first failed try, and then the rest
Ending-suc :
    (max : ℕ) (s : Switch) (left n : ℕ) (r : Outcome Done × Switch)
    → Ending max (after_tries 1 s) left n r
    → Ending max s (suc left) (suc n) r
Ending-suc max s left n r (inl (h, up, e)) =
    inl
      (omega arith, sym (answer-suc s n) ∙ up, e ∙ ap (λ t. (ok tt, t)) (after_tries-suc s (suc n)))
Ending-suc max s left n r (inr (h, e)) =
    inr (ap suc h, e ∙ ap (λ t. (err (connect_failed max), t)) (after_tries-suc s left))

before-suc :
    (s : Switch) (n : ℕ)
    → answer 0 s ≡ false
    → ((j : ℕ) → j < n → answer j (after_tries 1 s) ≡ false)
    → (j : ℕ) → j < suc n
    → answer j s ≡ false
before-suc s n down before zero h = down
before-suc s n down before (suc j) h = sym (answer-suc s j) ∙ before j (omega arith)

loop-Ending :
    (max left : ℕ) (s : Switch)
    → (n : ℕ) × ((j : ℕ) → j < n → answer j s ≡ false)
      × Ending max s left n (connect_loop max left s)
unfolding connect_loop
loop-Ending max zero s = (
  0,
  λ j h. absurd (omega arith),
  inr (refl, ap (λ t. (err (connect_failed max), t)) (sym (after_tries-zero s))),
)
loop-Ending max (suc left) s = elim (Bool-cases (s.executor s.log (show_command s))) [
  | inl up ↦ (0, λ j h. absurd (omega arith), inl (omega arith, answer-zero s ∙ up, rw up refl))
  | inr down ↦
      let (n, before, end) = loop-Ending max left (after_tries 1 s) in
      (suc n, before-suc s n (answer-zero s ∙ down) before, rw down (Ending-suc max s left n _ end))
]

-- Connect tries at most `max_retry` times and stops at the first try that succeeds: either some
-- number of tries below `max_retry` failed, the next one succeeded and Connect returns no error, or
-- all `max_retry` tries failed and it returns the error that names their number. In both cases the
-- commands run are exactly those tries.
pub connect-Ending :
    (max_retry : ℕ) (s : Switch)
    → (n : ℕ) × ((j : ℕ) → j < n → answer j s ≡ false)
      × Ending max_retry s max_retry n (connect max_retry s)
unfolding connect
connect-Ending max_retry s = loop-Ending max_retry max_retry s
