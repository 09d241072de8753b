-- ===== src/Openflow/Client/Missing.antt =====
-- The Install methods of pkg/openflow/client.go that reach for a table that NewClient did not create.
use ciccni.Base.{
  ℕ, String, ◌≡◌, refl, ◌∷◌, [], ◌++◌, List, Bool, ok, panic, err, add_failed, Outcome, Done,
  lookup, nat_eq, subst, sym, inl, inr, Bool-cases, if◌then◌else◌,
}
use ciccni.Net.{Ip, IpNet, Mac}
use ciccni.Binding.Switch.{Command}
use ciccni.Binding.Flow.{Flow, add_command, format_with_actions}
use ciccni.Openflow.Tables.{Pipeline}
use ciccni.Openflow.State.{Client, new_client}
use ciccni.Openflow.Caches.Laws.{log, accepts, add-accepted, add-refused}
use ciccni.Openflow.Flows.Forwarding.{
  tunnel_classifier_flow, gateway_classifier_flow, pod_classifier_flow, l2_forward_calc_flow,
  service_cidr_dnat_flow,
}
use ciccni.Openflow.Flows.Guards.{
  arp_responder_flow, pod_ip_spoof_guard_flow, gateway_ip_spoof_guard_flow,
}
use ciccni.Openflow.Tables.{global_virtual_mac}
use ciccni.Openflow.Client.{
  install_node_flows, install_pod_flows, install_cluster_service_cidr_flows, install_gateway_flows,
  install_tunnel_flows,
}

-- The call adds the flow; if the switch takes it the call panics, and if not it returns that error.
abbrev pub AddsAndPanics : Client → Outcome Flow → Outcome Done × Client → Type 0
AddsAndPanics c flow (r, c') =
    (f : Flow) × (flow ≡ ok f)
    × (log c' ≡ log c ++ add_command f ∷ [])
    × (r ≡ (if accepts c (add_command f) then panic else err (add_failed (format_with_actions f))))

module _ (executor : List Command → Command → Bool) (bridge : String) where
  abbrev p0 : Pipeline
  p0 = (new_client executor bridge).pipeline

  module _ (c : Client) (e : c.pipeline ≡ p0) where
    node_panics : (ip : Ip) → arp_responder_flow p0 ip ≡ panic
    unfolding new_client arp_responder_flow lookup nat_eq
    node_panics ip = refl

    dnat_panics : (net : IpNet) (port : ℕ) → service_cidr_dnat_flow p0 net port ≡ panic
    unfolding new_client service_cidr_dnat_flow lookup nat_eq
    dnat_panics net port = refl

    pod_classifies : (port : ℕ) → (f : Flow) × (pod_classifier_flow p0 port ≡ ok f)
    unfolding new_client pod_classifier_flow lookup nat_eq
    pod_classifies port = (_, refl)

    guard_panics : (ip : Ip) (mac : Mac) (port : ℕ) → pod_ip_spoof_guard_flow p0 ip mac port ≡ panic
    unfolding new_client pod_ip_spoof_guard_flow lookup nat_eq
    guard_panics ip mac port = refl

    -- On a client with the tables that NewClient creates, InstallNodeFlows, InstallPodFlows and
    -- InstallClusterServiceCIDRFlows panic before they run a command, whatever they are given: they
    -- use flow tables that were not created.
    pub install-panic :
        (name : String) (mac mac' : Mac) (ip ip' : Ip) (net : IpNet) (port : ℕ)
        → (install_node_flows name mac ip net ip' c ≡ (panic, c))
          × (install_pod_flows name ip mac mac' port c ≡ (panic, c))
          × (install_cluster_service_cidr_flows net port c ≡ (panic, c))
    unfolding install_node_flows install_pod_flows install_cluster_service_cidr_flows
    install-panic name mac mac' ip ip' net port = (
      rw (e, node_panics ip) refl,
      rw (e, (pod_classifies port).1, guard_panics ip mac port) refl,
      rw (e, dnat_panics net port) refl,
    )

    gateway_classifies : (port : ℕ) → (f : Flow) × (gateway_classifier_flow c.pipeline port ≡ ok f)
    unfolding new_client gateway_classifier_flow lookup nat_eq
    gateway_classifies port =
        subst (λ p. (f : Flow) × (gateway_classifier_flow p port ≡ ok f)) (sym e) (_, refl)

    gateway_guard_panics : (port : ℕ) → gateway_ip_spoof_guard_flow c.pipeline port ≡ panic
    unfolding new_client gateway_ip_spoof_guard_flow lookup nat_eq
    gateway_guard_panics port = subst (λ p. gateway_ip_spoof_guard_flow p port ≡ panic) (sym e) refl

    tunnel_classifies : (port : ℕ) → (f : Flow) × (tunnel_classifier_flow c.pipeline port ≡ ok f)
    unfolding new_client tunnel_classifier_flow lookup nat_eq
    tunnel_classifies port =
        subst (λ p. (f : Flow) × (tunnel_classifier_flow p port ≡ ok f)) (sym e) (_, refl)

    l2_panics : (port : ℕ) → l2_forward_calc_flow c.pipeline global_virtual_mac port ≡ panic
    unfolding new_client l2_forward_calc_flow lookup nat_eq
    l2_panics port =
        subst (λ p. l2_forward_calc_flow p global_virtual_mac port ≡ panic) (sym e) refl

    gateway-AddsAndPanics :
        (ip : Ip) (mac : Mac) (port : ℕ)
        → AddsAndPanics c
            (gateway_classifier_flow c.pipeline port)
            (install_gateway_flows ip mac port c)
    unfolding install_gateway_flows
    gateway-AddsAndPanics ip mac port =
        let (f, ef) = gateway_classifies port in
        elim (Bool-cases (accepts c (add_command f))) [
          | inl h ↦
              let (s, run, l, x) = add-accepted f c h in
              rw (ef, run, gateway_guard_panics port) (f, refl, l, rw h refl)
          | inr h ↦ rw (ef, add-refused f c h) (f, refl, refl, rw h refl)
        ]

    tunnel-AddsAndPanics :
        (port : ℕ)
        → AddsAndPanics c (tunnel_classifier_flow c.pipeline port) (install_tunnel_flows port c)
    unfolding install_tunnel_flows
    tunnel-AddsAndPanics port =
        let (f, ef) = tunnel_classifies port in
        elim (Bool-cases (accepts c (add_command f))) [
          | inl h ↦
              let (s, run, l, x) = add-accepted f c h in
              rw (ef, run, l2_panics port) (f, refl, l, rw h refl)
          | inr h ↦ rw (ef, add-refused f c h) (f, refl, refl, rw h refl)
        ]

    -- On a client with the tables that NewClient creates, InstallGatewayFlows and
    -- InstallTunnelFlows each run one command, which adds their classifier flow. If the switch takes
    -- it they then panic for want of a table; if the switch refuses it they return its error.
    pub install-AddsAndPanics :
        (ip : Ip) (mac : Mac) (port : ℕ)
        → AddsAndPanics c
            (gateway_classifier_flow c.pipeline port)
            (install_gateway_flows ip mac port c)
          × AddsAndPanics c (tunnel_classifier_flow c.pipeline port) (install_tunnel_flows port c)
    install-AddsAndPanics ip mac port =
        (gateway-AddsAndPanics ip mac port, tunnel-AddsAndPanics port)
