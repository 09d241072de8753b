-- ===== src/Agent/Initializer/Restart.antt =====
-- setUpOVSBridge of pkg/agent/agentFunc.go when the bridge has its ports from an earlier run.
use ciccni.Base.{
  String, ◌≡◌, refl, sym, ap, ◌∙◌, subst, resume, false, Bool, List, [], none, some, lookup,
  string_eq, lookup-nil, ◌==◌, ==-eq, ok, err, transaction,
}
use ciccni.Ovs.PortData.{OvsPortData}
use ciccni.Ovs.Database.{refused, Library, OvsBridge}
use ciccni.Ovs.Ports.{get_port_list, create_port_request, create_internal_port}
use ciccni.Agent.InterfaceStore
use ciccni.Agent.InterfaceStore.{InterfaceConfig, InterfaceStore, tunnel_config, get_interface}
use ciccni.Agent.InterfaceStore.Start.{last_named, initialize-lookup}
use ciccni.Agent.Initializer.{Host, Initializer, tun_port_name, host_gateway_of_port}
use ciccni.Agent.Initializer.SetUp.{
  gateway_interface, request_mtu, configure_gateway, create_tunnel, init_store,
  set_up_tunnel_interface, set_up_gateway_interface, set_up_ovs_bridge,
}

module _ {H W : Type 0} (ops : Host H) (lib : Library W) where
  -- the state after the store has been filled
  abbrev filled : Initializer H W → OvsBridge W → InterfaceStore → Initializer H W
  filled s b m = record s { ovs_bridge = b; iface_store = m }

  init_store_lem :
      (s : Initializer H W) (b : OvsBridge W) (ports : List OvsPortData) (m : InterfaceStore)
      → get_port_list lib s.ovs_bridge ≡ (ok ports, b)
      → InterfaceStore.initialize (ok ports) tun_port_name s.iface_store ≡ (ok tt, m)
      → init_store ops lib s ≡ (ok tt, filled s b m)
  unfolding init_store
  init_store_lem s b ports m listed stored = rw (listed, stored)

  tunnel_there :
      (s : Initializer H W) (m : InterfaceStore) (c : InterfaceConfig)
      → lookup tun_port_name s.iface_store ≡ some c
      → set_up_tunnel_interface ops lib tun_port_name s ≡ (ok tt, s)
  unfolding set_up_tunnel_interface get_interface
  tunnel_there s m c there =
      subst (λ o. create_tunnel ops lib tun_port_name o s ≡ (ok tt, s)) (sym there) refl

  port_refused :
      (s : Initializer H W) (e : String) (t : Bool) (w : W)
      → lib.commit
          (create_port_request lib s.ovs_bridge.name s.host_gateway s.host_gateway "internal"
            host_gateway_of_port none none)
          s.ovs_bridge.ovsdb
        ≡ (refused e t, w)
      → create_internal_port lib s.host_gateway host_gateway_of_port none s.ovs_bridge
        ≡ (err (transaction e t), record s.ovs_bridge { ovsdb = w })
  unfolding create_internal_port
  port_refused s e t w exists = rw exists

  gateway_refused :
      (s : Initializer H W) (e : String) (t : Bool) (w : W)
      → lookup s.host_gateway s.iface_store ≡ none
      → lib.commit
          (create_port_request lib s.ovs_bridge.name s.host_gateway s.host_gateway "internal"
            host_gateway_of_port none none)
          s.ovs_bridge.ovsdb
        ≡ (refused e t, w)
      → (set_up_gateway_interface ops lib s).0 ≡ err (transaction e t)
  unfolding set_up_gateway_interface get_interface
  gateway_refused s e t w absent exists =
      subst
        (λ o.
          (resume (gateway_interface ops lib s.host_gateway o s) (λ iface s1.
            resume (request_mtu ops lib s1)
              (λ _. configure_gateway ops lib s.host_gateway iface))).0
          ≡ err (transaction e t))
        (sym absent) (rw (port_refused s e t w exists) refl)

-- The store starts empty, the bridge has a port for the tunnel and the gateway is not named like the
-- tunnel. Filling the store passes over the gateway's port, so setUpOVSBridge asks for that port once
-- more; if the database refuses it, as it does when the port is there, then setUpOVSBridge returns
-- the database's error.
pub set_up_ovs_bridge-restart :
    {H W : Type 0} (ops : Host H) (lib : Library W) (s : Initializer H W) (b : OvsBridge W)
    (ports : List OvsPortData) (p : OvsPortData) (e : String) (t : Bool) (w : W)
    → s.iface_store ≡ []
    → (s.host_gateway == tun_port_name) ≡ false
    → get_port_list lib s.ovs_bridge ≡ (ok ports, b)
    → last_named tun_port_name ports ≡ some p
    → lib.commit
        (create_port_request lib b.name s.host_gateway s.host_gateway "internal"
          host_gateway_of_port none none)
        b.ovsdb
      ≡ (refused e t, w)
    → (set_up_ovs_bridge ops lib s).0 ≡ err (transaction e t)
unfolding set_up_ovs_bridge
set_up_ovs_bridge-restart ops lib s b ports p e t w empty other listed tunnel exists =
    let (m, stored, looks) = initialize-lookup ports tun_port_name s.iface_store in
    let there : lookup tun_port_name m ≡ some (tunnel_config tun_port_name p) =
      looks tun_port_name ∙ rw (==-eq tun_port_name tun_port_name refl, tunnel) refl in
    let absent : lookup s.host_gateway m ≡ none =
      looks s.host_gateway
      ∙ rw other (ap (lookup s.host_gateway) empty ∙ lookup-nil s.host_gateway) in
    rw
      (
        init_store_lem ops lib s b ports m listed stored,
        tunnel_there ops lib (filled ops lib s b m) m (tunnel_config tun_port_name p) there,
      )
      (gateway_refused ops lib (filled ops lib s b m) e t w absent exists)
