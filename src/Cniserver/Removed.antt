-- ===== src/Cniserver/Removed.antt =====
-- What removeInterfaces of pkg/cniserver/cniserver.go leaves in the store of interfaces.
use ciccni.Base.{
  ℕ, String, ◌≡◌, ◌≢◌, refl, sym, ap, ◌∙◌, subst, inl, inr, Bool-cases, Option, none, some, lookup,
  insert, lookup-insert, lookup-insert_self, lookup-erase, lookup-erase_self, string_eq, ◌==◌,
  arith, Outcome, ok, err, panic, Error, Done, resume,
}
use ciccni.Agent.Names.{generate_container_interface_name}
use ciccni.Agent.InterfaceStore.{
  InterfaceConfig, InterfaceStore, OvsPortConfig, get_container_interface, delete_interface,
}
use ciccni.Cniserver.Interfaces.{
  Ops, Node, Request, on_world, remove_entry, remove_interfaces, configure_interface,
}
use ciccni.Cniserver.Configured.{
  Configured, cached, swallowed, failed, crashed, with_port, configure_interface-Configured,
}

-- Each entry has a port and stands under its name.
abbrev pub Keyed : InterfaceStore → Type 0
Keyed m =
    (k : String) (c : InterfaceConfig)
    → lookup k m ≡ some c
    → (p : OvsPortConfig) × (c.port ≡ some p) × (p.iface_name ≡ k)

-- How removeInterfaces ends, for the store `st` before it: there is no entry under the name, or an
-- error or a panic of one of the calls on the host came up and the store is as it was.
pub data Removal {W : Type 0} (name : String) (st : InterfaceStore)
    : Outcome Done × Node W → Type 0 where
  gone :
      (s : Node W)
      → lookup name s.store ≡ none
      → ((j : String) → j ≢ name → lookup j s.store ≡ lookup j st)
      → Removal name st (ok tt, s)
  unremoved : (e : Error) (s : Node W) → s.store ≡ st → Removal name st (err e, s)
  died : (s : Node W) → s.store ≡ st → Removal name st (panic, s)

Keyed-insert :
    (m : InterfaceStore) (name uuid : String) (of_port : ℕ) (c : InterfaceConfig)
    → Keyed m
    → Keyed (insert name (with_port c name uuid of_port) m)
Keyed-insert m name uuid of_port c h k d e = elim (string_eq.dec k name) [
  | yes p ↦
      let new = with_port c name uuid of_port in
      let same : new ≡ d = cc (e, p, lookup-insert_self name new m) in
      (
        record { iface_name = name; port_uuid = uuid; of_port = of_port },
        sym (ap (λ (x : InterfaceConfig). x.port) same),
        sym p,
      )
  | no n ↦ h k d (ground (arith, lookup-insert k name (with_port c name uuid of_port) m, e))
]

module _ {W : Type 0} (ops : Ops W) (name : String) (st : InterfaceStore) (keyed : Keyed st) where
  Removal-port :
      (p : OvsPortConfig) (s : Node W) (r : Outcome Done × W)
      → p.iface_name ≡ name
      → s.store ≡ st
      → Removal name st (
          resume
            (r.0, record s { world = r.1 })
            (λ _ t. (ok tt, record t { store = delete_interface p.iface_name t.store })))
  unfolding delete_interface
  Removal-port p s (ok _, w) k h =
      gone _ (ground (arith, k, lookup-erase_self name s.store))
        (λ j d. ground (arith, k, h, lookup-erase j name s.store, d))
  Removal-port p s (err e, w) k h = unremoved e _ h
  Removal-port p s (panic, w) k h = died _ h

  Removal-entry :
      (o : Option InterfaceConfig) (s : Node W)
      → lookup name st ≡ o
      → s.store ≡ st
      → Removal name st (remove_entry ops o s)
  Removal-entry none s e h = gone s (ap (lookup name) h ∙ e) (λ j d. ap (lookup j) h)
  Removal-entry (some c) s e h =
      let (p, q, k) = keyed name c e in
      rw q (Removal-port p s (ops.delete_port p.port_uuid s.world) k h)

  Removal-found :
      (sha1_hex : String → String) (pod_name pod_namespace : String) (s : Node W)
      → generate_container_interface_name sha1_hex pod_name pod_namespace ≡ ok name
      → s.store ≡ st
      → Removal name st (
          resume
            (get_container_interface sha1_hex pod_name pod_namespace s.store, s)
            (remove_entry ops))
  unfolding get_container_interface
  Removal-found sha1_hex pod_name pod_namespace s g h =
      rw g (Removal-entry (lookup name s.store) s (ap (lookup name) (sym h)) h)

  Removal-rest :
      (sha1_hex : String → String) (pod_name pod_namespace : String) (r : Outcome Done × Node W)
      → generate_container_interface_name sha1_hex pod_name pod_namespace ≡ ok name
      → r.1.store ≡ st
      → Removal name st (
          resume r (λ _ s.
            resume
              (get_container_interface sha1_hex pod_name pod_namespace s.store, s)
              (remove_entry ops)))
  Removal-rest sha1_hex pod_name pod_namespace (ok _, s) g h =
      Removal-found sha1_hex pod_name pod_namespace s g h
  Removal-rest sha1_hex pod_name pod_namespace (err e, s) g h = unremoved e s h
  Removal-rest sha1_hex pod_name pod_namespace (panic, s) g h = died s h

-- removeInterfaces, on a store whose entries stand under the names of their ports, where it returns
-- no error, leaves no entry under the name of the pod's interface and the others as they were. Where
-- it returns an error or panics, the store is as it was.
pub remove_interfaces-Removal :
    {W : Type 0} (ops : Ops W) (sha1_hex : String → String)
    (pod_name pod_namespace container_id net_ns ifname name : String) (s : Node W)
    → Keyed s.store
    → generate_container_interface_name sha1_hex pod_name pod_namespace ≡ ok name
    → Removal name s.store
        (remove_interfaces ops sha1_hex pod_name pod_namespace container_id net_ns ifname s)
unfolding remove_interfaces
remove_interfaces-Removal ops sha1_hex pod_name pod_namespace container_id net_ns ifname name s h
      g =
    elim (Bool-cases (net_ns == "")) [
      | inl e ↦
          rw e (Removal-rest ops name s.store h sha1_hex pod_name pod_namespace (ok tt, s) g refl)
      | inr e ↦ rw e (
          Removal-rest ops name s.store h sha1_hex pod_name pod_namespace
            (on_world ops (ops.remove_container_link container_id net_ns ifname) s) g refl)
    ]

-- configureInterface keeps every entry of the store under the name of its port, whatever it answers.
pub configure_interface-Keyed :
    {W : Type 0} (ops : Ops W) (q : Request) (s : Node W)
    → Keyed s.store
    → Keyed (configure_interface ops q s).1.store
configure_interface-Keyed {W} ops q s h = kept (configure_interface-Configured ops q s)
  where
    kept : {r : Outcome Done × Node W} → Configured ops q s.store r → Keyed r.1.store
    kept (cached t name uuid of_port c o e) =
        subst Keyed (sym e) (Keyed-insert s.store name uuid of_port c h)
    kept (swallowed t c u e) = subst Keyed (sym e) h
    kept (failed x t e) = subst Keyed (sym e) h
    kept (crashed t e) = subst Keyed (sym e) h
