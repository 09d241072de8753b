-- ===== src/Cniserver/Configured.antt =====
-- What configureInterface of pkg/cniserver/cniserver.go leaves in the store of interfaces.
use ciccni.Base.{
  ℕ, String, ◌≡◌, refl, ap, inl, inr, Bool, true, false, Bool-cases, [], ◌∷◌, Option, none, some,
  insert, string_eq, Option-cases, Outcome, ok, err, panic, Error, Exec, Done, resume,
}
use ciccni.Net.{Ip, parse_ip}
use ciccni.Agent.InterfaceStore.{
  InterfaceConfig, InterfaceStore, container_interface, add_interface,
  new_container_interface_config,
}
use ciccni.Cniserver.Interfaces.{
  Interface, Ops, Request, Node, parse_container_ip, build_container_config, is_coredns, on_world,
  unless_success, without_flag, setup_container_ovs_port, cache_interface, finish, after_coredns,
  plugged, configure_steps, configure_interface, tolerate,
}

-- The entry is the container interface of the request's pod.
abbrev pub Owned : Request → InterfaceConfig → Type 0
Owned q c =
    (c.id ≡ q.container_id)
    × (c.pod_name ≡ q.pod_name)
    × (c.pod_namespace ≡ q.pod_namespace)
    × (c.interface_type ≡ container_interface)

abbrev OwnedIfAny : Request → Option InterfaceConfig → Type 0
OwnedIfAny q none = Unit
OwnedIfAny q (some c) = Owned q c

build_container_config-OwnedIfAny :
    (q : Request) (iface : Interface)
    → OwnedIfAny q (build_container_config q.container_id q.pod_name q.pod_namespace iface q.ips)
unfolding build_container_config new_container_interface_config
build_container_config-OwnedIfAny q iface = elim (Option-cases (parse_container_ip q.ips)) [
  | inl e ↦ rw (e, OwnedIfAny) tt
  | inr (ip, e) ↦ rw (e, OwnedIfAny) (refl, refl, refl, refl)
]

-- the entry of a port in the store
abbrev pub with_port : InterfaceConfig → String → String → ℕ → InterfaceConfig
with_port c name uuid of_port = record c {
  port = some (record { iface_name = name; port_uuid = uuid; of_port = of_port });
}

-- InstallCorednsFlow has returned an error for the request's container.
abbrev pub Uninstalled : {W : Type 0} → Ops W → Request → Type 0
Uninstalled {W} ops q =
    (of_port : ℕ) × (ip : Ip) × (e : Error) × (w : W) × (w' : W) × (ops.install_coredns_flow of_port
        q.container_id ip w
      ≡ (err e, w'))

-- How configureInterface ends, for the store `st` before it.
pub data Configured {W : Type 0} (ops : Ops W) (q : Request) (st : InterfaceStore)
    : Outcome Done × Node W → Type 0 where
  cached :
      (s : Node W) (name uuid : String) (of_port : ℕ) (c : InterfaceConfig)
      → Owned q c
      → s.store ≡ insert name (with_port c name uuid of_port) st
      → Configured ops q st (ok tt, s)
  swallowed :
      (s : Node W)
      → is_coredns q ≡ true
      → Uninstalled ops q
      → s.store ≡ st
      → Configured ops q st (ok tt, s)
  failed : (e : Error) (s : Node W) → s.store ≡ st → Configured ops q st (err e, s)
  crashed : (s : Node W) → s.store ≡ st → Configured ops q st (panic, s)

-- the same of its steps, where the flag says whether `success` is set
data Stepped {W : Type 0} (ops : Ops W) (q : Request) (st : InterfaceStore)
    : Outcome Bool × Node W → Type 0 where
  stored :
      (s : Node W) (name uuid : String) (of_port : ℕ) (c : InterfaceConfig)
      → Owned q c
      → s.store ≡ insert name (with_port c name uuid of_port) st
      → Stepped ops q st (ok true, s)
  silent :
      (s : Node W)
      → is_coredns q ≡ true
      → Uninstalled ops q
      → s.store ≡ st
      → Stepped ops q st (ok false, s)
  erred : (e : Error) (s : Node W) → s.store ≡ st → Stepped ops q st (err e, s)
  died : (s : Node W) → s.store ≡ st → Stepped ops q st (panic, s)

module _ {W : Type 0} (ops : Ops W) (q : Request) (st : InterfaceStore) where
  -- a call that leaves the store, and what follows it
  Stepped-resume :
      {A : Type 0} (r : Outcome A × Node W) (k : A → Exec (Node W) Bool)
      → r.1.store ≡ st
      → ((a : A) (s : Node W) → s.store ≡ st → Stepped ops q st (k a s))
      → Stepped ops q st (resume r k)
  Stepped-resume (ok a, s) k h rest = rest a s h
  Stepped-resume (err e, s) k h rest = erred e s h
  Stepped-resume (panic, s) k h rest = died s h

  Stepped-call :
      {A : Type 0} (call : Exec W A) {k : A → Exec (Node W) Bool} (s : Node W)
      → s.store ≡ st
      → ((a : A) (s : Node W) → s.store ≡ st → Stepped ops q st (k a s))
      → Stepped ops q st (resume (on_world ops call s) k)
  Stepped-call call {k} s h rest = Stepped-resume (on_world ops call s) k h rest

  Stepped-deferred :
      (undo : Exec W Done) {r : Outcome Bool × Node W}
      → Stepped ops q st r
      → Stepped ops q st (unless_success ops undo r)
  Stepped-deferred undo (stored s name uuid of_port c o e) = stored s name uuid of_port c o e
  Stepped-deferred undo (silent s c u e) = silent _ c u e
  Stepped-deferred undo (erred x s e) = erred x _ e
  Stepped-deferred undo (died s e) = died _ e

  Stepped-cache :
      (config : Option InterfaceConfig) (name uuid : String) (of_port : ℕ) (s : Node W)
      → OwnedIfAny q config
      → s.store ≡ st
      → Stepped ops q st (cache_interface ops config name uuid of_port s)
  unfolding add_interface
  Stepped-cache none name uuid of_port s o h = died s h
  Stepped-cache (some c) name uuid of_port s o h =
      stored _ name uuid of_port c o (ap (insert name (with_port c name uuid of_port)) h)

  Stepped-finish :
      (host container : Interface) (config : Option InterfaceConfig) (uuid : String) (s : Node W)
      → OwnedIfAny q config
      → s.store ≡ st
      → Stepped ops q st (finish ops q host container config uuid s)
  Stepped-finish host container config uuid s o h =
      Stepped-call (ops.configure_container_addr q.container_net_ns container q.ips) s h (λ _ s1 h1.
        Stepped-call (ops.get_of_port host.name) s1 h1
          (λ of_port s2 h2. Stepped-cache config host.name uuid of_port s2 o h2))

  Stepped-after :
      (rest : Exec (Node W) Bool) (of_port : ℕ) (ip : Ip) (w : W) (r : Outcome Done × W)
      (s : Node W)
      → ops.install_coredns_flow of_port q.container_id ip w ≡ r
      → is_coredns q ≡ true
      → ((s : Node W) → s.store ≡ st → Stepped ops q st (rest s))
      → s.store ≡ st
      → Stepped ops q st (after_coredns ops q rest r s)
  Stepped-after rest of_port ip w0 (ok _, w) s i c k h =
      Stepped-deferred (ops.uninstall_coredns_flow q.container_id) (k _ h)
  Stepped-after rest of_port ip w0 (err e, w) s i c k h = silent _ c (of_port, ip, e, w0, w, i) h
  Stepped-after rest of_port ip w0 (panic, w) s i c k h = died _ h

  Stepped-plugged :
      (host container : Interface) (config : Option InterfaceConfig) (uuid : String) (s : Node W)
      → OwnedIfAny q config
      → s.store ≡ st
      → Stepped ops q st (plugged ops q host container config uuid s)
  Stepped-plugged host container config uuid s o h = elim (Bool-cases (is_coredns q)) [
    | inr other ↦ rw other (Stepped-finish host container config uuid s o h)
    | inl dns ↦ rw dns (
        Stepped-call (ops.get_of_port host.name) s h (λ of_port s1 h1.
          Stepped-call (tolerate ops "" ops.kube_dns_cluster_ip) s1 h1 (λ ip s2 h2.
            Stepped-after (finish ops q host container config uuid) of_port (parse_ip ip) s2.world _
              s2 refl dns (λ s3 h3. Stepped-finish host container config uuid s3 o h3) h2)))
  ]

  Stepped-steps : (s : Node W) → s.store ≡ st → Stepped ops q st (configure_steps ops q s)
  Stepped-steps s h = Stepped-call (ops.get_ns q.container_net_ns) s h (λ _ s1 h1.
      Stepped-call (tolerate ops none (ops.construct_tc_config q.pod_name q.pod_namespace)) s1 h1
        (λ tc s2 h2.
          Stepped-call
            (ops.setup_veth_pair q.pod_name q.pod_namespace q.ifname q.container_net_ns q.mtu tc) s2
            h2
            (λ (host, container) s3 h3.
              let config =
                build_container_config q.container_id q.pod_name q.pod_namespace container q.ips in
              Stepped-call (setup_container_ovs_port ops config host.name)
                (record s3 { interfaces = host ∷ container ∷ [] }) h3
                (λ uuid s4 h4. Stepped-deferred (ops.delete_port uuid) (
                  Stepped-plugged host container config uuid s4
                    (build_container_config-OwnedIfAny q container) h4)))))

  Configured-flag :
      {r : Outcome Bool × Node W} → Stepped ops q st r → Configured ops q st (without_flag ops r)
  Configured-flag (stored s name uuid of_port c o e) = cached s name uuid of_port c o e
  Configured-flag (silent s c u e) = swallowed s c u e
  Configured-flag (erred x s e) = failed x s e
  Configured-flag (died s e) = crashed s e

pub configure_interface-Configured :
    {W : Type 0} (ops : Ops W) (q : Request) (s : Node W)
    → Configured ops q s.store (configure_interface ops q s)
unfolding configure_interface
configure_interface-Configured ops q s = Configured-flag ops q s.store (
    Stepped-deferred ops q s.store
      (ops.remove_container_link q.container_id q.container_net_ns q.ifname)
      (Stepped-steps ops q s.store s refl))
