-- ===== src/Cniserver/Responded.antt =====
-- What the handlers of pkg/cniserver/cniserver.go answer, and what they leave in the store.
use ciccni.Net.{Ip}
use ciccni.Base.{
  String, ◌≡◌, refl, Option, none, some, List, Outcome, ok, err, panic, Error, Exec, Done, resume,
  lift,
}
use ciccni.Agent.Initializer.{Gateway}
use ciccni.Cniserver.Routes.{update_result_iface_config}
use ciccni.Cniserver.Routes.Updated.{NotErr, update_result_iface_config-NotErr}
use ciccni.Cniserver.Interfaces.{Ops, Node, configure_interface}
use ciccni.Cniserver.Configured.{
  Configured, cached, swallowed, failed, crashed, configure_interface-Configured,
}
use ciccni.Cniserver.Ipam.{IpConfig, Route, IpamResult, CniCmdArgs, Plugins, Drivers, exec_ipam_add}
use ciccni.Cniserver.Requests.{CniConfig, Codec, CniServer, load_network_config}
use ciccni.Cniserver.Handlers.{
  Response, cni_result, failure, decoding_failure, ipam_failure, config_interface_failure,
  gateway_ip, answered, encoded, result_text, request_of, printed, add_interface_of, add_steps,
  checked, cmd_add, configure_interface_failure_response, ipam_failure_response,
}

module _ {W : Type 0} (codec : Codec) (server : CniServer) (ops : Ops W) (plugins : Plugins W)
    (drivers : Drivers) (sha1_hex : String → String) where
  -- the address that the request's IPAM driver gives
  abbrev pub lease : CniConfig → Node W → Outcome IpamResult × W
  lease config s = exec_ipam_add plugins drivers config.cmd_args config.network.ipam.type s.world

  -- From `s` CmdAdd has come to configureInterface, which came back with `r`.
  pub record Reached (args : CniCmdArgs) (s : Node W) (config : CniConfig) (ips : List IpConfig)
      (routes : List Route) (r : Outcome Done × Node W) : Type 0 where
    pub decoded : load_network_config codec server args ≡ ok config
    pub found : IpamResult
    pub world : W
    pub leased : lease config s ≡ (ok found, world)
    pub gateway : Gateway
    pub known : server.node_config.gateway ≡ some gateway
    pub updated :
        update_result_iface_config codec.next_ip gateway.ip server.node_config.cluster_pod_cidr
          found.ips found.routes
        ≡ ok (ips, routes)
    pub called :
        configure_interface ops (request_of server config ips) (record s { world = world }) ≡ r

  abbrev pub text_of : CniConfig → List IpConfig → List Route → Node W → Option String
  text_of config ips routes s =
      result_text codec server ops plugins drivers sha1_hex config ips routes s

  -- How CmdAdd ends, for the node `s` before it.
  pub data Added (args : CniCmdArgs) (s : Node W) : Outcome Response × Node W → Type 0 where
    undecoded :
        (e : Error) (text : String)
        → load_network_config codec server args ≡ err e
        → Added args s (ok (failure decoding_failure text none), s)
    unaddressed :
        (config : CniConfig) (e : Error) (text : String) (w : W)
        → load_network_config codec server args ≡ ok config
        → lease config s ≡ (err e, w)
        → Added args s (ok (failure ipam_failure text (some e)), record s { world = w })
    unconfigured :
        (config : CniConfig) (ips : List IpConfig) (routes : List Route) (e : Error) (text : String)
        (s' : Node W)
        → Reached args s config ips routes (err e, s')
        → s'.store ≡ s.store
        → Added args s (ok (failure config_interface_failure text (some e)), s')
    configured :
        (config : CniConfig) (ips : List IpConfig) (routes : List Route) (text : String)
        (s' : Node W)
        → Reached args s config ips routes (ok tt, s')
        → Configured ops (request_of server config ips) s.store (ok tt, s')
        → text_of config ips routes s' ≡ some text
        → Added args s (ok (cni_result text), s')
    unprinted :
        (config : CniConfig) (ips : List IpConfig) (routes : List Route) (s' : Node W)
        → Reached args s config ips routes (ok tt, s')
        → Configured ops (request_of server config ips) s.store (ok tt, s')
        → text_of config ips routes s' ≡ none
        → Added args s (panic, s')
    died : (s' : Node W) → s'.store ≡ s.store → Added args s (panic, s')

  module _ (args : CniCmdArgs) (s : Node W) where
    -- configureInterface has returned no error, and the result is printed
    Added-encoded :
        (config : CniConfig) (ips : List IpConfig) (routes : List Route) (s' : Node W)
        (o : Option String)
        → Reached args s config ips routes (ok tt, s')
        → Configured ops (request_of server config ips) s.store (ok tt, s')
        → text_of config ips routes s' ≡ o
        → Added args s (encoded codec server ops plugins drivers sha1_hex o, s')
    Added-encoded config ips routes s' none l c e = unprinted config ips routes s' l c e
    Added-encoded config ips routes s' (some text) l c e =
        configured config ips routes text s' l c e

    Added-printed :
        (config : CniConfig) (ips : List IpConfig) (routes : List Route) (r : Outcome Done × Node W)
        → Reached args s config ips routes r
        → Configured ops (request_of server config ips) s.store r
        → Added args s (
            answered codec server ops plugins drivers sha1_hex configure_interface_failure_response
              (λ _. printed codec server ops plugins drivers sha1_hex config ips routes)
              r)
    Added-printed config ips routes r l (cached s' name uuid of_port c o e) =
        Added-encoded config ips routes s' _ l (cached s' name uuid of_port c o e) refl
    Added-printed config ips routes r l (swallowed s' c u e) =
        Added-encoded config ips routes s' _ l (swallowed s' c u e) refl
    Added-printed config ips routes r l (failed x s' e) = unconfigured config ips routes x _ s' l e
    Added-printed config ips routes r l (crashed s' e) = died s' e

    -- CmdAdd from the updated addresses and routes on
    abbrev configuring : CniConfig → List IpConfig × List Route → Exec (Node W) Response
    configuring config (ips, routes) = λ s1.
        answered codec server ops plugins drivers sha1_hex configure_interface_failure_response
          (λ _. printed codec server ops plugins drivers sha1_hex config ips routes)
          (configure_interface ops (request_of server config ips) s1)

    Added-updated :
        (config : CniConfig) (found : IpamResult) (w : W) (gateway : Gateway)
        (o : Outcome (List IpConfig × List Route))
        → load_network_config codec server args ≡ ok config
        → lease config s ≡ (ok found, w)
        → server.node_config.gateway ≡ some gateway
        → update_result_iface_config codec.next_ip gateway.ip server.node_config.cluster_pod_cidr
            found.ips found.routes
          ≡ o
        → NotErr o
        → Added args s (resume (lift o (record s { world = w })) (configuring config))
    Added-updated config found w gateway (ok (ips, routes)) l a g e n =
        let s1 = record s { world = w } in
        Added-printed config ips routes (configure_interface ops (request_of server config ips) s1)
          (record {
            decoded = l;
            found = found;
            world = w;
            leased = a;
            gateway = gateway;
            known = g;
            updated = e;
            called = refl;
          })
          (configure_interface-Configured ops (request_of server config ips) s1)
    Added-updated config found w gateway (err x) l a g e n = absurd n
    Added-updated config found w gateway panic l a g e n = died _ refl

    -- CmdAdd from the gateway's address on
    abbrev updating : CniConfig → IpamResult → Ip → Exec (Node W) Response
    updating config found ip = λ s1.
        resume
          (lift
            (update_result_iface_config codec.next_ip ip server.node_config.cluster_pod_cidr
              found.ips found.routes)
            s1)
          (configuring config)

    Added-gateway :
        (config : CniConfig) (found : IpamResult) (w : W) (g : Option Gateway)
        → load_network_config codec server args ≡ ok config
        → lease config s ≡ (ok found, w)
        → server.node_config.gateway ≡ g
        → Added args s (
            resume
              (lift
                (gateway_ip codec server ops plugins drivers sha1_hex g)
                (record s { world = w }))
              (updating config found))
    Added-gateway config found w none l a e = died _ refl
    Added-gateway config found w (some gateway) l a e =
        Added-updated config found w gateway _ l a e refl (
          update_result_iface_config-NotErr codec.next_ip gateway.ip
            server.node_config.cluster_pod_cidr found.ips found.routes)

    Added-found :
        (config : CniConfig) (r : Outcome IpamResult × W)
        → load_network_config codec server args ≡ ok config
        → lease config s ≡ r
        → Added args s (
            answered codec server ops plugins drivers sha1_hex ipam_failure_response
              (add_interface_of codec server ops plugins drivers sha1_hex config)
              (r.0, record s { world = r.1 }))
    Added-found config (ok found, w) l e =
        Added-gateway config found w server.node_config.gateway l e refl
    Added-found config (err x, w) l e = unaddressed config x _ w l e
    Added-found config (panic, w) l e = died _ refl

    Added-checked :
        (loaded : Outcome CniConfig)
        → load_network_config codec server args ≡ loaded
        → Added args s
            (checked codec server (add_steps codec server ops plugins drivers sha1_hex) (loaded, s))
    Added-checked (ok config) l = Added-found config (lease config s) l refl
    Added-checked (err x) l = undecoded x _ l
    Added-checked panic l = died s refl

-- CmdAdd answers with a result only if the request was decoded, the IPAM driver gave an address and
-- configureInterface returned no error; the store is then as configureInterface leaves it, and so it
-- is where the result cannot be printed in the version of the request, in which case CmdAdd panics.
-- If one of the three calls fails, CmdAdd answers with that call's own code, and the store is as it
-- was, as it is after any other panic.
pub cmd_add-Added :
    {W : Type 0} (codec : Codec) (server : CniServer) (ops : Ops W) (plugins : Plugins W)
    (drivers : Drivers) (sha1_hex : String → String) (args : CniCmdArgs) (s : Node W)
    → Added codec server ops plugins drivers sha1_hex args s
        (cmd_add codec server ops plugins drivers sha1_hex args s)
unfolding cmd_add
cmd_add-Added codec server ops plugins drivers sha1_hex args s =
    Added-checked codec server ops plugins drivers sha1_hex args s
      (load_network_config codec server args) refl
