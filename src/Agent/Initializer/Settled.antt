-- ===== src/Agent/Initializer/Settled.antt =====
-- initOpenFlow of pkg/agent/agentFunc.go: the errors of the flows that it installs are dropped.
use ciccni.Base.{
  String, ◌≡◌, refl, ◌∙◌, List, [], ◌∷◌, some, Bool-cases, inl, inr, string_eq, ◌==◌, Outcome, ok,
  err, panic, Exec, Done, resume, for_each, put_back,
}
use ciccni.Net.{Ip, nil, v4, IpNet, show_ip_net}
use ciccni.Binding.Switch.{Table}
use ciccni.Openflow.Tables.{Pipeline, table, cluster_forward_table}
use ciccni.Openflow.State.{Client}
use ciccni.Openflow.Client.Steady.{
  Steady, install_arp_flow-Steady, install_local_ip_flow-Steady, install_tun_flow-Steady,
}
use ciccni.Ovs.Database.{Library}
use ciccni.Agent.Nodes.{
  KubeNode, internal_ip, arp_destinations, unless_panic, address_of, install_tun_if_any,
  install_if_any, construct_arp_openflow, install_node_flow, construct_ip_tun_flow,
}
use ciccni.Agent.Initializer.{Host, NodeConfig, Initializer, config_of}
use ciccni.Agent.Initializer.SetUp.{install_for_nodes, init_openflow}

-- It returns no error, and the client has the pipeline.
abbrev Fine : Pipeline → Outcome Done × Client → Type 0
Fine p (ok _, c) = c.pipeline ≡ p
Fine p (err _, c) = ⊥
Fine p (panic, c) = ⊥

module _ (p : Pipeline) where
  Fine-unless_panic : (r : Outcome Done × Client) → Steady p r → Fine p (unless_panic r)
  Fine-unless_panic (ok _, c) h = h
  Fine-unless_panic (err _, c) h = h
  Fine-unless_panic (panic, c) h = absurd h

  Fine-resume :
      (r : Outcome Done × Client) (k : Exec Client Done)
      → Fine p r
      → ((c : Client) → c.pipeline ≡ p → Fine p (k c))
      → Fine p (resume r (λ _. k))
  Fine-resume (ok _, c) k h next = next c h
  Fine-resume (err _, c) k h next = absurd h
  Fine-resume (panic, c) k h next = absurd h

  Fine-for_each :
      {A : Type 0} (xs : List A) (body : A → Exec Client Done) (c : Client)
      → ((x : A) (c : Client) → c.pipeline ≡ p → Fine p (body x c))
      → c.pipeline ≡ p
      → Fine p (for_each xs body c)
  unfolding for_each
  Fine-for_each [] body c keep h = h
  Fine-for_each (x ∷ xs) body c keep h =
      Fine-resume (body x c) (for_each xs body) (keep x c h)
        (λ c1 h1. Fine-for_each xs body c1 keep h1)

  module _ (t : Table) (created : table p cluster_forward_table ≡ ok t) where
    Fine-arp : (dsts : List String) (c : Client) → c.pipeline ≡ p → Fine p (install_if_any dsts c)
    Fine-arp [] c h = h
    Fine-arp (dst ∷ dsts) c h =
        Fine-unless_panic _ (install_arp_flow-Steady p t created (dst ∷ dsts) c h)

    Fine-tun :
        (pod_cidr : String) (ip : Ip) (c : Client)
        → c.pipeline ≡ p
        → Fine p (install_tun_if_any pod_cidr ip c)
    Fine-tun pod_cidr nil c h = h
    Fine-tun pod_cidr (v4 n) c h =
        Fine-unless_panic _ (install_tun_flow-Steady p t created pod_cidr 0 (v4 n) c h)

    Fine-node :
        (own : String) (pod_cidr : IpNet) (node : KubeNode) (c : Client)
        → c.pipeline ≡ p
        → Fine p (install_node_flow own pod_cidr node c)
    unfolding install_node_flow
    Fine-node own pod_cidr node c h = elim (Bool-cases (node.name == own)) [
      | inl same ↦ rw same (
          Fine-unless_panic _
            (install_local_ip_flow-Steady p t created node.name (show_ip_net pod_cidr) c h))
      | inr other ↦ rw other (Fine-tun node.pod_cidr (address_of (internal_ip node.addresses)) c h)
    ]

    -- the two calls, one after the other
    Fine-both :
        (config : NodeConfig) (nodes : List KubeNode) (c : Client)
        → c.pipeline ≡ p
        → Fine p (
            resume
              (construct_arp_openflow config.node_name nodes c)
              (λ _. construct_ip_tun_flow config.node_name config.pod_cidr nodes))
    unfolding construct_arp_openflow construct_ip_tun_flow
    Fine-both config nodes c h =
        Fine-resume _ _ (Fine-arp (arp_destinations config.node_name nodes) c h) (λ c1 h1.
          Fine-for_each nodes (install_node_flow config.node_name config.pod_cidr) c1
            (Fine-node config.node_name config.pod_cidr) h1)

Fine-ok : (p : Pipeline) (r : Outcome Done × Client) → Fine p r → r.0 ≡ ok tt
Fine-ok p (ok _, c) h = refl
Fine-ok p (err _, c) h = absurd h
Fine-ok p (panic, c) h = absurd h

-- an error or a panic of the listing, or a nil error
abbrev pub settled : Outcome (List KubeNode) → Outcome Done
settled (ok _) = ok tt
settled (err e) = err e
settled panic = panic

module _ {H W : Type 0} (ops : Host H) (lib : Library W) where
  outcome-installed :
      (config : NodeConfig) (nodes : List KubeNode) (s : Initializer H W)
      → (install_for_nodes ops lib config nodes s).0
        ≡ (resume
            (construct_arp_openflow config.node_name nodes s.of_client)
            (λ _. construct_ip_tun_flow config.node_name config.pod_cidr nodes)).0
  outcome-installed config nodes s =
      from (construct_arp_openflow config.node_name nodes s.of_client)
    where
      from :
          (r : Outcome Done × Client)
          → (resume (put_back (λ c. record s { of_client = c }) r) (λ _ s1.
              put_back
                (λ c. record s1 { of_client = c })
                (construct_ip_tun_flow config.node_name config.pod_cidr nodes s1.of_client))).0
            ≡ (resume r (λ _. construct_ip_tun_flow config.node_name config.pod_cidr nodes)).0
      from (ok _, c) = refl
      from (err e, c) = refl
      from (panic, c) = refl

-- On an agent with its node's configuration and a client that has its table for forwarding,
-- initOpenFlow comes back with what listing the nodes comes back with: its error or panic, and
-- otherwise no error. Whatever the nodes are, and also if the bridge refuses every flow for them, no
-- flow makes it fail or panic.
pub init_openflow-settled :
    {H W : Type 0} (ops : Host H) (lib : Library W) (s : Initializer H W) (config : NodeConfig)
    (t : Table)
    → s.node_config ≡ some config
    → table s.of_client.pipeline cluster_forward_table ≡ ok t
    → (init_openflow ops lib s).0 ≡ settled (ops.list_nodes s.host).0
unfolding init_openflow
init_openflow-settled {H} {W} ops lib s config t configured created = from (ops.list_nodes s.host)
  where
    from :
        (r : Outcome (List KubeNode) × H)
        → (resume (put_back (λ h. record s { host = h }) r) (λ nodes s1.
            resume
              (config_of ops lib s1.node_config s1)
              (λ c. install_for_nodes ops lib c nodes))).0
          ≡ settled r.0
    from (err e, h) = refl
    from (panic, h) = refl
    from (ok nodes, h) = rw configured (
        outcome-installed ops lib config nodes (record s { host = h; node_config = some config })
        ∙ Fine-ok _ _ (Fine-both s.of_client.pipeline t created config nodes s.of_client refl))
