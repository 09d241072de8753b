-- ===== src/Cni/Served.antt =====
-- The plugin of pkg/cni/client.go connected to the server of pkg/cniserver/cniserver.go.
use ciccni.Base.{
  String, ◌≡◌, refl, List, [], ◌∷◌, ◌++◌, Option, none, some, Outcome, ok, err, panic, Error,
}
use ciccni.Cniserver.Interfaces.{Ops, Node}
use ciccni.Cniserver.Configured.{Configured}
use ciccni.Cniserver.Ipam.{IpConfig, Route, CniCmdArgs, Plugins, Drivers}
use ciccni.Cniserver.Requests.{CniConfig, Codec, CniServer}
use ciccni.Cniserver.Handlers.{Response, request_of, cmd_add, cmd_del, cmd_check}
use ciccni.Cniserver.Responded.{
  Added, Reached, text_of, undecoded, unaddressed, unconfigured, configured, died, cmd_add-Added,
}
use ciccni.Cni.{
  Action, action_add, action_check, action_del, CmdArgs, Code, RpcReply, replied, rpc_error, Rpc,
  PluginError, dial_error, Plugin, cni_args, rpc_failure, handle, request,
}

-- A handler that panics ends the agent, and the RPC with an error, whose code and text are gRPC's.
abbrev pub reply_of : {S : Type 0} → Code → String → Outcome Response × S → RpcReply × S
reply_of lost why (ok response, s) = (replied response, s)
reply_of lost why (err _, s) = (rpc_error lost why, s)
reply_of lost why (panic, s) = (rpc_error lost why, s)

module _ {W : Type 0} (codec : Codec) (server : CniServer) (ops : Ops W) (plugins : Plugins W)
    (drivers : Drivers) (sha1_hex : String → String) (dial : Node W → Option Error) (lost : Code)
    (why : String) where
  abbrev pub handler : Action → CniCmdArgs → Node W → Outcome Response × Node W
  handler action_add args = cmd_add codec server ops plugins drivers sha1_hex args
  handler action_del args = cmd_del codec server ops plugins drivers sha1_hex args
  handler action_check args = cmd_check codec server args

  -- the server's handlers behind the connection
  abbrev pub served : Rpc (Node W)
  served = record { dial = dial; call = λ a args s. reply_of lost why (handler a args s) }

  -- How the plugin's ADD ends, for what was written before and the server's node `s` before it.
  pub data Returned (arg : CmdArgs) (before : List String) (s : Node W)
      : Option PluginError × Plugin (Node W) → Type 0 where
    printed :
        (config : CniConfig) (ips : List IpConfig) (routes : List Route) (text : String)
        (s' : Node W)
        → Reached codec server ops plugins drivers sha1_hex
            (cni_args arg)
            s
            config
            ips
            routes
            (ok tt, s')
        → Configured ops (request_of server config ips) s.store (ok tt, s')
        → text_of codec server ops plugins drivers sha1_hex config ips routes s' ≡ some text
        → Returned arg before s (none, record { remote = s'; stdout = before ++ text ∷ [] })
    unprinted :
        (config : CniConfig) (ips : List IpConfig) (routes : List Route) (s' : Node W)
        → Reached codec server ops plugins drivers sha1_hex
            (cni_args arg)
            s
            config
            ips
            routes
            (ok tt, s')
        → Configured ops (request_of server config ips) s.store (ok tt, s')
        → text_of codec server ops plugins drivers sha1_hex config ips routes s' ≡ none
        → Returned arg before s
            (some (rpc_failure lost why), record { remote = s'; stdout = before })
    reported :
        (e : PluginError) (s' : Node W)
        → s'.store ≡ s.store
        → Returned arg before s (some e, record { remote = s'; stdout = before })

  Returned-handle :
      (arg : CmdArgs) (before : List String) (s : Node W) {r : Outcome Response × Node W}
      → Added codec server ops plugins drivers sha1_hex (cni_args arg) s r
      → Returned arg before s (handle served before (reply_of lost why r))
  Returned-handle arg before s (undecoded e text l) = reported _ s refl
  Returned-handle arg before s (unaddressed config e text w l a) = reported _ _ refl
  Returned-handle arg before s (unconfigured config ips routes e text s' l h) = reported _ s' h
  Returned-handle arg before s (configured config ips routes text s' l c t) =
      printed config ips routes text s' l c t
  Returned-handle arg before s (Added.unprinted config ips routes s' l c t) =
      unprinted config ips routes s' l c t
  Returned-handle arg before s (died s' h) = reported _ s' h

  Returned-dial :
      (arg : CmdArgs) (p : Plugin (Node W)) (o : Option Error)
      → Returned arg p.stdout p.remote (elim o [
        | some e ↦ (some (dial_error e), p)
        | none ↦
            handle served p.stdout (reply_of lost why (handler action_add (cni_args arg) p.remote))
      ])
  Returned-dial arg p none =
      Returned-handle arg p.stdout p.remote
        (cmd_add-Added codec server ops plugins drivers sha1_hex (cni_args arg) p.remote)
  Returned-dial arg p (some e) = reported (dial_error e) p.remote refl

-- The plugin's command ADD, connected to the server, returns no error and writes one result to stdout
-- only if the server decoded the request, IPAM gave an address, configureInterface returned no error
-- and its result could be printed; the agent's store of interfaces is then as configureInterface
-- leaves it. If only the printing fails, the store is so, too, but the agent has died and the plugin
-- returns the error for that and writes nothing. Otherwise it returns an error, writes nothing, and
-- the store is as it was.
pub request-Returned :
    {W : Type 0} (codec : Codec) (server : CniServer) (ops : Ops W) (plugins : Plugins W)
    (drivers : Drivers) (sha1_hex : String → String) (dial : Node W → Option Error) (lost : Code)
    (why : String) (arg : CmdArgs) (p : Plugin (Node W))
    → Returned codec server ops plugins drivers sha1_hex dial lost why arg p.stdout p.remote
        (request (served codec server ops plugins drivers sha1_hex dial lost why) action_add arg p)
unfolding request
request-Returned codec server ops plugins drivers sha1_hex dial lost why arg p =
    Returned-dial codec server ops plugins drivers sha1_hex dial lost why arg p (dial p.remote)
