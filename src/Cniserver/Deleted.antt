-- ===== src/Cniserver/Deleted.antt =====
-- What CmdDel of pkg/cniserver/cniserver.go answers, and what it leaves in the store.
use ciccni.Base.{
  String, ◌≡◌, ◌≢◌, none, some, lookup, string_eq, Outcome, ok, err, panic, Error, Done,
}
use ciccni.Agent.Names.{generate_container_interface_name}
use ciccni.Cniserver.Interfaces.{Ops, Node, remove_interfaces}
use ciccni.Cniserver.Ipam.{CniCmdArgs, Plugins, Drivers, exec_ipam_delete}
use ciccni.Cniserver.Requests.{CniConfig, Codec, CniServer, load_network_config, host_net_ns_path}
use ciccni.Cniserver.Handlers.{
  Response, cni_result, failure, decoding_failure, ipam_failure, config_interface_failure,
}

module _ {W : Type 0} (codec : Codec) (server : CniServer) (sha1_hex : String → String)
    (ops : Ops W) (plugins : Plugins W) (drivers : Drivers) where
  -- the two calls of CmdDel, for the request's configuration
  abbrev pub release : CniConfig → Node W → Outcome Done × W
  release config s =
      exec_ipam_delete plugins drivers config.cmd_args config.network.ipam.type s.world

  abbrev pub removal : CniConfig → Node W → Outcome Done × Node W
  removal config s =
      remove_interfaces ops sha1_hex config.k8s.pod_name config.k8s.pod_namespace
        config.cmd_args.container_id (host_net_ns_path server config.cmd_args.netns)
        config.cmd_args.ifname s

  -- How CmdDel ends, for the node `s` before it.
  pub data Deleted (args : CniCmdArgs) (s : Node W) : Outcome Response × Node W → Type 0 where
    undecoded :
        (e : Error) (text : String)
        → load_network_config codec server args ≡ err e
        → Deleted args s (ok (failure decoding_failure text none), s)
    unreleased :
        (config : CniConfig) (e : Error) (text : String) (w : W)
        → load_network_config codec server args ≡ ok config
        → release config s ≡ (err e, w)
        → Deleted args s (ok (failure ipam_failure text (some e)), record s { world = w })
    kept :
        (config : CniConfig) (e : Error) (text : String) (w : W) (s' : Node W)
        → load_network_config codec server args ≡ ok config
        → release config s ≡ (ok tt, w)
        → removal config (record s { world = w }) ≡ (err e, s')
        → s'.store ≡ s.store
        → Deleted args s (ok (failure config_interface_failure text (some e)), s')
    deleted :
        (config : CniConfig) (name : String) (w : W) (s' : Node W)
        → load_network_config codec server args ≡ ok config
        → release config s ≡ (ok tt, w)
        → removal config (record s { world = w }) ≡ (ok tt, s')
        → generate_container_interface_name sha1_hex config.k8s.pod_name config.k8s.pod_namespace
          ≡ ok name
        → lookup name s'.store ≡ none
        → ((j : String) → j ≢ name → lookup j s'.store ≡ lookup j s.store)
        → Deleted args s (ok (cni_result ""), s')
    died : (s' : Node W) → s'.store ≡ s.store → Deleted args s (panic, s')
