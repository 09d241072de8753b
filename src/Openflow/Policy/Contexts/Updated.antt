-- ===== src/Openflow/Policy/Contexts/Updated.antt =====
-- installOrUpdateFlow of pkg/openflow/network_policy.go: the flow that it leaves in the context.
use ciccni.Base.{
  ℕ, String, ◌≡◌, refl, sym, subst, ap, ◌∙◌, ◌≢◌, ◌⊎◌, inl, inr, List, [], ◌∷◌, ◌++◌, map,
  append-nil, append_assoc, Option, none, some, Bool-cases, Outcome, ok, err, panic, Error, Done,
  resume, ◌>>◌, dec, ◌<>◌, ◌▷◌, Exec,
}
use ciccni.Base.Partial
use ciccni.Binding.Flow.{Flow, add_command, modify_command, delete_command, modify_flow}
use ciccni.Binding.Builder.{build_flow, priority, copy_to_builder}
use ciccni.Openflow.Tables.{Pipeline, table, priority_normal}
use ciccni.Openflow.Match.{
  MatchKey, MatchValue, match_dst_ip, match_src_ip, match_dst_ip_net, match_src_ip_net,
  match_dst_of_port, match_src_of_port, match_tcp_dst_port, match_udp_dst_port, match_sctp_dst_port,
  unsupported, as_ip, as_ip_net, as_of_port, as_port,
}
use ciccni.Openflow.State.{Client, Context, add, modify, delete, with_switch}
use ciccni.Openflow.Caches.Laws.{
  accepts, add-accepted, add-refused, delete-accepted, delete-refused,
}
use ciccni.Openflow.Flows.Conjunctions.{
  ConjunctiveAction, add_flow_match, conjunctive_match_flow, conjunction_each,
}
use ciccni.Openflow.Policy.Contexts.{install_or_update_flow, install_or_update, on_client, set_flow}

-- the text of the conjunction action of an OpenFlow entry
abbrev pub conjunction_text : ConjunctiveAction → String
conjunction_text a =
    "conjunction(" <> dec a.conj_id <> "," <> dec a.clause_id <> "/" <> dec a.n_clause <> ")"

abbrev pub texts : List ConjunctiveAction → List String
texts = map conjunction_text

conjunction_each-actions :
    (actions : List ConjunctiveAction) (b : Flow)
    → (conjunction_each actions b).actions ≡ b.actions ++ texts actions
conjunction_each-actions [] b = sym (append-nil b.actions)
conjunction_each-actions (a ∷ actions) b =
    conjunction_each-actions actions _ ∙ append_assoc b.actions _ _

-- the actions of the flow, if there is one
abbrev actions_of : Outcome Flow → List String → List String
actions_of (ok g) d = g.actions
actions_of (err _) d = d
actions_of panic d = d

actions_of-bind {ℓ} :
    {A : Type ℓ} {d : List String} (o : Outcome A) (k : A → Outcome Flow)
    → ((a : A) → o ≡ ok a → actions_of (k a) d ≡ d)
    → actions_of (Partial.◌>>=◌ o k) d ≡ d
actions_of-bind (ok a) k h = h a refl
actions_of-bind (err _) k h = refl
actions_of-bind panic k h = refl

-- addFlowMatch leaves the actions of the builder, if it does not panic
add_flow_match-actions :
    (fb : Flow) (key : MatchKey) (v : MatchValue)
    → actions_of (add_flow_match fb key v) fb.actions ≡ fb.actions
unfolding add_flow_match
add_flow_match-actions fb match_dst_ip v = actions_of-bind (as_ip v) _ (λ _ _. refl)
add_flow_match-actions fb match_src_ip v = actions_of-bind (as_ip v) _ (λ _ _. refl)
add_flow_match-actions fb match_dst_ip_net v = actions_of-bind (as_ip_net v) _ (λ _ _. refl)
add_flow_match-actions fb match_src_ip_net v = actions_of-bind (as_ip_net v) _ (λ _ _. refl)
add_flow_match-actions fb match_dst_of_port v = actions_of-bind (as_of_port v) _ (λ _ _. refl)
add_flow_match-actions fb match_src_of_port v = actions_of-bind (as_of_port v) _ (λ _ _. refl)
add_flow_match-actions fb match_tcp_dst_port v = actions_of-bind (as_port v) _ (λ _ _. refl)
add_flow_match-actions fb match_udp_dst_port v = actions_of-bind (as_port v) _ (λ _ _. refl)
add_flow_match-actions fb match_sctp_dst_port v = actions_of-bind (as_port v) _ (λ _ _. refl)
add_flow_match-actions fb unsupported v = refl

conjunctive_match_flow-actions :
    (p : Pipeline) (id : ℕ) (key : MatchKey) (v : MatchValue) (actions : List ConjunctiveAction)
    → actions_of (conjunctive_match_flow p id key v actions) (texts actions) ≡ texts actions
unfolding conjunctive_match_flow
conjunctive_match_flow-actions p id key v actions = actions_of-bind (table p id) _ (λ t _.
    let start = build_flow t ▷ priority priority_normal in
    actions_of-bind (add_flow_match start key v) (λ fb. ok (conjunction_each actions fb))
      (λ fb e.
        conjunction_each-actions actions fb
        ∙ ap (λ r. actions_of r [] ++ texts actions) (sym e)
        ∙ ap (λ l. l ++ texts actions) (add_flow_match-actions start key v)))

-- The flow, if there is one, has the actions, and there is an action; if there is none, there are no
-- actions.
abbrev pub Carries : Option Flow → List ConjunctiveAction → Type 0
Carries none actions = actions ≡ []
Carries (some f) actions = (f.actions ≡ texts actions) × (actions ≢ [])

-- The context's flow was brought to the actions, or the context stays as it was.
pub data Updated (ctx : Context) (actions : List ConjunctiveAction)
    : Outcome Done × (Context × Client) → Type 0 where
  updated :
      (flow : Option Flow) (c' : Client)
      → Carries flow actions
      → Updated ctx actions (ok tt, (record ctx { flow = flow }, c'))
  failed : (e : Error) (c' : Client) → Updated ctx actions (err e, (ctx, c'))
  panicked : (c' : Client) → Updated ctx actions (panic, (ctx, c'))

-- what a call on the switch comes back with
abbrev pub Answered : Outcome Done × Client → Type 0
Answered r = ((c' : Client) × (r ≡ (ok tt, c'))) ⊎ ((e : Error) × (c' : Client) × (r ≡ (err e, c')))

add-Answered : (f : Flow) (c : Client) → Answered (add f c)
add-Answered f c = elim (Bool-cases (accepts c (add_command f))) [
  | inl h ↦ let (s, run, l, x) = add-accepted f c h in inl (with_switch c s, run)
  | inr h ↦ inr (_, _, add-refused f c h)
]

delete-Answered : (f : Flow) (c : Client) → Answered (delete f c)
delete-Answered f c = elim (Bool-cases (accepts c (delete_command f))) [
  | inl h ↦ let (s, run, l, x) = delete-accepted f c h in inl (with_switch c s, run)
  | inr h ↦ inr (_, _, delete-refused f c h)
]

modify-Answered : (f : Flow) (c : Client) → Answered (modify f c)
unfolding modify modify_flow
modify-Answered f c = elim (Bool-cases (accepts c (modify_command f))) [
  | inl h ↦ rw h (inl (_, refl))
  | inr h ↦ rw h (inr (_, _, refl))
]

-- a call on the switch, and the flow then set
Updated-call :
    (ctx : Context) (actions : List ConjunctiveAction) (flow : Option Flow)
    (call : Exec Client Done) (c : Client)
    → Carries flow actions
    → Answered (call c)
    → Updated ctx actions ((on_client call >> set_flow flow) (ctx, c))
Updated-call ctx actions flow call c h (inl (c', e)) = rw e (updated flow c' h)
Updated-call ctx actions flow call c h (inr (x, c', e)) = rw e (failed x c')

Updated-built :
    (ctx : Context) (actions : List ConjunctiveAction) (c : Client) (r : Outcome Flow)
    → actions_of r (texts actions) ≡ texts actions
    → actions ≢ []
    → Updated ctx actions
        (resume (r, (ctx, c)) (λ flow. on_client (add flow) >> set_flow (some flow)))
Updated-built ctx actions c (ok flow) h n =
    Updated-call ctx actions (some flow) (add flow) c (h, n) (add-Answered flow c)
Updated-built ctx actions c (err e) h n = failed e c
Updated-built ctx actions c panic h n = panicked c

Updated-install_or_update :
    (flow : Option Flow) (actions : List ConjunctiveAction) (ctx : Context) (c : Client)
    → ctx.flow ≡ flow
    → (ctx.flow ≡ none) ⊎ (actions ≢ [])
    → Updated ctx actions (install_or_update flow actions (ctx, c))
Updated-install_or_update none [] ctx c e n =
    updated ctx.flow c (subst (λ o. Carries o []) (sym e) refl)
Updated-install_or_update none (a ∷ actions) ctx c e n =
    Updated-built ctx (a ∷ actions) c _
      (conjunctive_match_flow-actions c.pipeline _ _ _ (a ∷ actions)) (λ p. absurd (cc p))
Updated-install_or_update (some f) actions ctx c e (inl n) = absurd (cc (e, n))
Updated-install_or_update (some f) actions ctx c e (inr n) =
    let flow = conjunction_each actions (copy_to_builder f) in
    Updated-call ctx actions (some flow) (modify flow) c
      (conjunction_each-actions actions (copy_to_builder f), n) (modify-Answered flow c)

pub Updated-flow :
    (actions : List ConjunctiveAction) (ctx : Context) (c : Client)
    → (ctx.flow ≡ none) ⊎ (actions ≢ [])
    → Updated ctx actions (install_or_update_flow actions (ctx, c))
unfolding install_or_update_flow
Updated-flow actions ctx c n = Updated-install_or_update ctx.flow actions ctx c refl n

-- The flow is deleted, and there are no actions to carry.
pub Updated-delete :
    (f : Flow) (actions : List ConjunctiveAction) (ctx : Context) (c : Client)
    → actions ≡ []
    → Updated ctx actions ((on_client (delete f) >> set_flow none) (ctx, c))
Updated-delete f actions ctx c e =
    Updated-call ctx actions none (delete f) c e (delete-Answered f c)
