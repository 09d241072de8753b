-- ===== src/Openflow/Client/Steady.antt =====
-- The Install methods of pkg/openflow/client.go that use only the table of NewClient for forwarding.
use ciccni.Base.{
  ℕ, String, ◌≡◌, refl, sym, subst, ◌∙◌, Bool, true, false, inl, inr, List, [], ◌∷◌, none, some,
  Option-cases, lookup, string_eq, if◌then◌else◌, Outcome, ok, err, panic, Error, Exec, Done,
  resume, for_each, put_back, ◌<>◌,
}
use ciccni.Base.Partial
use ciccni.Net.{Ip, nil, v4, parse_ip, parse_cidr}
use ciccni.Binding.Switch.{Table, Switch, execute}
use ciccni.Binding.Flow.{Flow, match_string, add_flow, add_command, perform}
use ciccni.Openflow.Tables.{Pipeline, table, cluster_forward_table}
use ciccni.Openflow.State.{Client, FlowCategoryCache, add, with_switch}
use ciccni.Openflow.Caches.{
  Category, node_flows, pod_flows, service_flows, general_flows, category, with_category,
  flow_cache, load_or_store, remember, add_missing_flow, add_missing_flows,
}
use ciccni.Openflow.Flows.Cluster.{
  arp_flow, ip_tun_flow_without_in_port, ip_tun_flow_match_ip, local_ip_flow_with_ip_net,
  local_ip_flow_with_ip,
}
use ciccni.Openflow.Client.{
  Destination, to_ip, to_ip_net, found_ip, parse_dst_ip, install_arp_flow, install_tun_flow,
  install_local_ip_flow, tun_flow, local_ip_flow, ip_connection_vxlan, arp_request, arp_response,
}

-- It is no panic, and the client has the pipeline.
abbrev pub Steady : {A : Type 0} → Pipeline → Outcome A × Client → Type 0
Steady p (ok a, c) = c.pipeline ≡ p
Steady p (err e, c) = c.pipeline ≡ p
Steady p (panic, c) = ⊥

module _ (p : Pipeline) where
  Steady-resume :
      {A B : Type 0} (r : Outcome A × Client) (k : A → Exec Client B)
      → Steady p r
      → ((a : A) (c : Client) → c.pipeline ≡ p → Steady p (k a c))
      → Steady p (resume r k)
  Steady-resume (ok a, c) k h next = next a c h
  Steady-resume (err e, c) k h next = h
  Steady-resume (panic, c) k h next = absurd h

  Steady-performed :
      (c : Client) (e : Error) (f g : Switch) (fine : Bool)
      → c.pipeline ≡ p
      → Steady p (put_back (with_switch c) (if fine then (ok tt, f) else (err e, g)))
  Steady-performed c e f g true h = h
  Steady-performed c e f g false h = h

  Steady-add : (f : Flow) (c : Client) → c.pipeline ≡ p → Steady p (add f c)
  unfolding add add_flow perform
  Steady-add f c h = Steady-performed c _ _ _ (execute (add_command f) c.switch).0 h

  with_category-pipeline :
      (cat : Category) (m : FlowCategoryCache) (c : Client)
      → (with_category cat m c).pipeline ≡ c.pipeline
  with_category-pipeline node_flows m c = refl
  with_category-pipeline pod_flows m c = refl
  with_category-pipeline service_flows m c = refl
  with_category-pipeline general_flows m c = refl

  round_old :
      (cat : Category) (key : String) (f : Flow) (c : Client) {old : Flow}
      → lookup (match_string f) (flow_cache cat key c) ≡ some old
      → add_missing_flow cat key f c ≡ (ok tt, c)
  unfolding add_missing_flow
  round_old cat key f c e = rw (e, add_missing_flow) refl

  round_new :
      (cat : Category) (key : String) (f : Flow) (c : Client)
      → lookup (match_string f) (flow_cache cat key c) ≡ none
      → add_missing_flow cat key f c ≡ resume (add f c) (λ _. remember cat key f)
  unfolding add_missing_flow
  round_new cat key f c e = rw (e, add_missing_flow) refl

  Steady-round :
      (cat : Category) (key : String) (f : Flow) (c : Client)
      → c.pipeline ≡ p
      → Steady p (add_missing_flow cat key f c)
  Steady-round cat key f c h =
      elim (Option-cases (lookup (match_string f) (flow_cache cat key c))) [
        | inr (old, e) ↦ subst (Steady p) (sym (round_old cat key f c e)) h
        | inl e ↦ subst (Steady p) (sym (round_new cat key f c e)) (
            Steady-resume (add f c) (λ _. remember cat key f) (Steady-add f c h)
              (λ _ c1 h1. with_category-pipeline cat _ c1 ∙ h1))
      ]

  Steady-for_each :
      {A : Type 0} (xs : List A) (body : A → Exec Client Done) (c : Client)
      → ((x : A) (c : Client) → c.pipeline ≡ p → Steady p (body x c))
      → c.pipeline ≡ p
      → Steady p (for_each xs body c)
  unfolding for_each
  Steady-for_each [] body c keep h = h
  Steady-for_each (x ∷ xs) body c keep h =
      Steady-resume (body x c) (λ _. for_each xs body) (keep x c h)
        (λ _ c1 h1. Steady-for_each xs body c1 keep h1)

  load_or_store-pipeline :
      (cat : Category) (key : String) (c : Client) → (load_or_store cat key c).pipeline ≡ c.pipeline
  unfolding load_or_store
  load_or_store-pipeline cat key c = elim (Option-cases (lookup key (category cat c))) [
    | inl e ↦ rw (e, load_or_store) (with_category-pipeline cat _ c)
    | inr (m, e) ↦ rw (e, load_or_store) refl
  ]

  pub Steady-missing :
      (cat : Category) (key : String) (flows : List Flow) (c : Client)
      → c.pipeline ≡ p
      → Steady p (add_missing_flows cat key flows c)
  unfolding add_missing_flows
  Steady-missing cat key flows c h =
      Steady-for_each flows (add_missing_flow cat key) (load_or_store cat key c)
        (λ f c1 h1. Steady-round cat key f c1 h1) (load_or_store-pipeline cat key c ∙ h)

  -- a flow that is made from a table of the pipeline
  Steady-made :
      {A B C : Type 0} (o : Outcome A) (a : A) (make : A → B) (k : B → Exec Client C) (c : Client)
      → o ≡ ok a
      → ((b : B) → Steady p (k b c))
      → Steady p (resume (Partial.◌>>=◌ o (λ x. ok (make x)), c) k)
  Steady-made o a make k c e next = rw e (next (make a))

  module _ (t : Table) (created : table p cluster_forward_table ≡ ok t) where
    there : (c : Client) → c.pipeline ≡ p → table c.pipeline cluster_forward_table ≡ ok t
    there c h = subst (λ q. table q cluster_forward_table ≡ ok t) (sym h) created

    Steady-destination :
        (d : Destination) (c : Client) (key : String)
        → c.pipeline ≡ p
        → Steady p (resume (local_ip_flow d c) (λ f. add_missing_flows general_flows key (f ∷ [])))
    unfolding local_ip_flow_with_ip_net local_ip_flow_with_ip
    Steady-destination (to_ip ip) c key h =
        Steady-made (table c.pipeline cluster_forward_table) t _ _ c (there c h)
          (λ f. Steady-missing general_flows key (f ∷ []) c h)
    Steady-destination (to_ip_net net) c key h =
        Steady-made (table c.pipeline cluster_forward_table) t _ _ c (there c h)
          (λ f. Steady-missing general_flows key (f ∷ []) c h)

    Steady-tunnel :
        (d : Destination) (in_port : ℕ) (dst : Ip) (c : Client)
        → c.pipeline ≡ p
        → Steady p (
            resume
              (tun_flow d in_port dst c)
              (λ f. add_missing_flows general_flows ip_connection_vxlan (f ∷ [])))
    unfolding ip_tun_flow_without_in_port ip_tun_flow_match_ip
    Steady-tunnel (to_ip ip) in_port dst c h =
        Steady-made (table c.pipeline cluster_forward_table) t _ _ c (there c h)
          (λ f. Steady-missing general_flows ip_connection_vxlan (f ∷ []) c h)
    Steady-tunnel (to_ip_net net) in_port dst c h =
        Steady-made (table c.pipeline cluster_forward_table) t _ _ c (there c h)
          (λ f. Steady-missing general_flows ip_connection_vxlan (f ∷ []) c h)

    -- the text of a destination, or a failure to read it
    Steady-parsed :
        (text : String) (c : Client) (k : Destination → Exec Client Done)
        → c.pipeline ≡ p
        → ((d : Destination) → Steady p (k d c))
        → Steady p (resume (parse_dst_ip text, c) k)
    unfolding parse_dst_ip
    Steady-parsed text c k h next = elim (Option-cases (parse_cidr text)) [
      | inr ((ip, net), e) ↦ rw (e, parse_dst_ip) (next (to_ip_net net))
      | inl e ↦ rw (e, parse_dst_ip) (found (parse_ip text))
    ]
      where
        found : (ip : Ip) → Steady p (resume (found_ip text ip, c) k)
        found nil = h
        found (v4 n) = next (to_ip (v4 n))

    pub install_local_ip_flow-Steady :
        (node_name local_ip : String) (c : Client)
        → c.pipeline ≡ p
        → Steady p (install_local_ip_flow node_name local_ip c)
    unfolding install_local_ip_flow
    install_local_ip_flow-Steady node_name local_ip c h =
        Steady-parsed local_ip c _ h (λ d. Steady-destination d c (node_name <> "-localIP") h)

    pub install_tun_flow-Steady :
        (dst_ip_net : String) (in_port : ℕ) (dst : Ip) (c : Client)
        → c.pipeline ≡ p
        → Steady p (install_tun_flow dst_ip_net in_port dst c)
    unfolding install_tun_flow
    install_tun_flow-Steady dst_ip_net in_port dst c h =
        Steady-parsed dst_ip_net c _ h (λ d. Steady-tunnel d in_port dst c h)

    pub install_arp_flow-Steady :
        (dsts : List String) (c : Client) → c.pipeline ≡ p → Steady p (install_arp_flow dsts c)
    unfolding install_arp_flow arp_flow
    install_arp_flow-Steady dsts c h =
        Steady-made (table c.pipeline cluster_forward_table) t _ _ c (there c h)
          (λ (request, response).
            Steady-resume (add_missing_flows general_flows arp_request (request ∷ []) c)
              (λ _. add_missing_flows general_flows arp_response (response ∷ []))
              (Steady-missing general_flows arp_request (request ∷ []) c h)
              (λ _ c1 h1. Steady-missing general_flows arp_response (response ∷ []) c1 h1))
