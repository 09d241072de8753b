-- ===== src/Openflow/Client/Arp.antt =====
-- InstallARPFlow of pkg/openflow/client.go when it is called once more, with other destinations.
use text.Mathlib.TextEquality.{eq_iff}
use ciccni.Base.{
  ℕ, String, ◌≡◌, refl, sym, ap, ◌∙◌, subst, List, [], ◌∷◌, map, Outcome, ok, err, panic, ◌▷◌, ◌≢◌,
  Done, resume, resume-ok,
}
use ciccni.Base.Partial
use ciccni.Net.{Ip, parse_ip}
use ciccni.Binding.Flow.{Flow, match_string}
use ciccni.Binding.Builder.{build_flow, priority, match_protocol, protocol_arp, match_arp_op}
use ciccni.Openflow.Tables.{Pipeline, table, cluster_forward_table, priority_normal}
use ciccni.Openflow.State.{Client}
use ciccni.Openflow.Caches.{general_flows, flow_cache, or_empty, add_missing_flows}
use ciccni.Openflow.Caches.Idempotent.{
  HasKey, add_missing_flows-Covers, add_missing_flows-others, add_missing_flows_cached,
}
use ciccni.Openflow.Flows.Cluster.{arp_flow, tunnel_each}
use ciccni.Openflow.Client.{arp_request, arp_response, install_arp_flow}
use ciccni.Openflow.Client.Steady.{Steady, Steady-missing}

-- The actions of a flow are no part of its key.
tunnel_each-match_string :
    (ips : List Ip) (b : Flow) → match_string (tunnel_each ips b) ≡ match_string b
unfolding match_string
tunnel_each-match_string [] b = refl
tunnel_each-match_string (ip ∷ ips) b = tunnel_each-match_string ips _

-- the keys of the two flows
abbrev keys : Outcome (Flow × Flow) → Outcome (String × String)
keys (ok (request, response)) = ok (match_string request, match_string response)
keys (err e) = err e
keys panic = panic

keys-bind {ℓ} :
    {A : Type ℓ} (o : Outcome A) (j k : A → Outcome (Flow × Flow))
    → ((a : A) → keys (j a) ≡ keys (k a))
    → keys (Partial.◌>>=◌ o j) ≡ keys (Partial.◌>>=◌ o k)
keys-bind (ok a) j k h = h a
keys-bind (err e) j k h = refl
keys-bind panic j k h = refl

keys-arp_flow : (p : Pipeline) (xs : List Ip) → keys (arp_flow p xs) ≡ keys (arp_flow p [])
unfolding arp_flow
keys-arp_flow p xs = keys-bind (table p cluster_forward_table) _ _ (λ t.
    let start : ℕ → Flow =
      λ n. build_flow t ▷ priority priority_normal ▷ match_protocol protocol_arp ▷ match_arp_op n in
    rw (tunnel_each-match_string xs (start 1), tunnel_each-match_string xs (start 2)) refl)

keys_differ : arp_request ≢ arp_response
keys_differ e = absurd (cc ((eq_iff arp_request arp_response).1 e))

-- the two calls of addMissingFlows, for other destinations
add_missing_flows-arp_flow :
    (p : Pipeline) (xs ys : List Ip) (request response request' response' : Flow) (c c1 c2 : Client)
    → arp_flow p xs ≡ ok (request, response)
    → arp_flow p ys ≡ ok (request', response')
    → add_missing_flows general_flows arp_request (request ∷ []) c ≡ (ok tt, c1)
    → add_missing_flows general_flows arp_response (response ∷ []) c1 ≡ (ok tt, c2)
    → (add_missing_flows general_flows arp_request (request' ∷ []) c2 ≡ (ok tt, c2))
      × (add_missing_flows general_flows arp_response (response' ∷ []) c2 ≡ (ok tt, c2))
add_missing_flows-arp_flow p xs ys request response request' response' c c1 c2 ex ey e1 e2 =
    let same : keys (ok (request, response)) ≡ keys (ok (request', response')) =
      sym (ap keys ex) ∙ keys-arp_flow p xs ∙ sym (keys-arp_flow p ys) ∙ ap keys ey in
    let same_request : match_string request ≡ match_string request' = cc same in
    let same_response : match_string response ≡ match_string response' = cc same in
    let kept =
      add_missing_flows-others general_flows arp_response (response ∷ []) c1 c2 e2 arp_request
        keys_differ in
    (
      add_missing_flows_cached general_flows arp_request request' [] c2 (
        subst (HasKey (match_string request')) (sym (ap or_empty kept)) (
            subst (λ k. HasKey k (flow_cache general_flows arp_request c1)) same_request
              (add_missing_flows-Covers general_flows arp_request (request ∷ []) c c1 e1).0),
        tt,
      ),
      add_missing_flows_cached general_flows arp_response response' [] c2 (
        subst (λ k. HasKey k (flow_cache general_flows arp_response c2)) same_response
            (add_missing_flows-Covers general_flows arp_response (response ∷ []) c1 c2 e2).0,
        tt,
      ),
    )

keys-ok :
    (o : Outcome (Flow × Flow)) {k : String × String}
    → keys o ≡ ok k
    → (flows : Flow × Flow) × (o ≡ ok flows)
keys-ok (ok flows) e = (flows, refl)
keys-ok (err x) e = absurd (cc e)
keys-ok panic e = absurd (cc e)

pipeline-Steady :
    (p : Pipeline) {r : Outcome Done × Client} {c : Client}
    → Steady p r
    → r ≡ (ok tt, c)
    → c.pipeline ≡ p
pipeline-Steady p h e = subst (Steady p) e h

-- InstallARPFlow once the two flows are made
install_arp_flow-made :
    (dsts : List String) (c c' : Client) (request response : Flow)
    → arp_flow c.pipeline (map parse_ip dsts) ≡ ok (request, response)
    → add_missing_flows general_flows arp_request (request ∷ []) c ≡ (ok tt, c')
    → add_missing_flows general_flows arp_response (response ∷ []) c' ≡ (ok tt, c')
    → install_arp_flow dsts c ≡ (ok tt, c')
unfolding install_arp_flow
install_arp_flow-made dsts c c' request response made e1 e2 = rw (made, e1, e2) refl

-- An InstallARPFlow without an error has made the two flows and installed them.
install_arp_flow-steps :
    (dsts : List String) (c c' : Client)
    → install_arp_flow dsts c ≡ (ok tt, c')
    → (request : Flow) × (response : Flow) × (c1 : Client) × (arp_flow c.pipeline
          (map parse_ip dsts)
        ≡ ok (request, response))
      × (add_missing_flows general_flows arp_request (request ∷ []) c ≡ (ok tt, c1))
      × (add_missing_flows general_flows arp_response (response ∷ []) c1 ≡ (ok tt, c'))
unfolding install_arp_flow
install_arp_flow-steps dsts c c' e =
    let (flows, c0, made, rest) =
      resume-ok (arp_flow c.pipeline (map parse_ip dsts), c)
        (λ (request, response) c0.
          resume (add_missing_flows general_flows arp_request (request ∷ []) c0)
            (λ _. add_missing_flows general_flows arp_response (response ∷ [])))
        e in
    let (_, c1, e1, e2) =
      resume-ok (add_missing_flows general_flows arp_request (flows.0 ∷ []) c0)
        (λ _. add_missing_flows general_flows arp_response (flows.1 ∷ [])) rest in
    (
      flows.0,
      flows.1,
      c1,
      ap (λ r. r.0) made,
      ap (add_missing_flows general_flows arp_request (flows.0 ∷ [])) (ap (λ r. r.1) made) ∙ e1,
      e2,
    )

-- After an InstallARPFlow without an error for one list of destinations, InstallARPFlow for any other
-- list returns no error either, runs no command and changes nothing: the flows keep the destinations
-- of the first list.
pub install_arp_flow-again :
    (dsts others : List String) (c c' : Client)
    → install_arp_flow dsts c ≡ (ok tt, c')
    → install_arp_flow others c' ≡ (ok tt, c')
install_arp_flow-again dsts others c c' e =
    let (request, response, c1, made, e1, e2) = install_arp_flow-steps dsts c c' e in
    let p = c.pipeline in
    let kept1 : c1.pipeline ≡ p =
      pipeline-Steady p (Steady-missing p general_flows arp_request (request ∷ []) c refl) e1 in
    let kept : c'.pipeline ≡ p =
      pipeline-Steady p (Steady-missing p general_flows arp_response (response ∷ []) c1 kept1) e2 in
    let ((request', response'), made') = keys-ok (arp_flow p (map parse_ip others)) (
      keys-arp_flow p (map parse_ip others)
      ∙ sym (keys-arp_flow p (map parse_ip dsts))
      ∙ ap keys made) in
    let (f1, f2) =
      add_missing_flows-arp_flow p (map parse_ip dsts) (map parse_ip others) request response
        request' response' c c1 c' made made' e1 e2 in
    install_arp_flow-made others c' c' request' response'
      (ap (λ q. arp_flow q (map parse_ip others)) kept ∙ made') f1 f2
