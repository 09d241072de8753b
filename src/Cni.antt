-- ===== src/Cni.antt =====
-- pkg/cni/client.go: the CNI plugin, which hands a command to the agent over gRPC. The connection is
-- a parameter, the operations of `Rpc` on the state behind it.
pub mod Served
mod Tests
use ciccni.Base.{
  String, List, [], ◌∷◌, ◌++◌, Option, none, some, Outcome, ok, err, panic, Error, ◌<>◌,
}
use ciccni.Cniserver.Ipam.{CniCmdArgs}
use ciccni.Cniserver.Handlers.{
  Response, ErrorCode, cni_result, failure, try_again_later, unknown_rpc_error,
  incompatible_api_version,
}

pub data Action : Type 0 where
  action_add action_check action_del : Action

-- skel.CmdArgs
pub record CmdArgs : Type 0 where
  pub container_id : String
  pub netns : String
  pub if_name : String
  pub args : String
  pub path : String
  pub stdin_data : String

-- the status codes that are told apart, of an RPC that returns an error
pub data Code : Type 0 where
  unimplemented unavailable deadline_exceeded other_code : Code

pub data RpcReply : Type 0 where
  replied : Response → RpcReply
  rpc_error : Code → String → RpcReply

-- grpc.Dial, and the methods of pb.CniClient
pub record Rpc (R : Type 0) : Type 0 where
  pub dial : R → Option Error
  pub call : Action → CniCmdArgs → R → RpcReply × R

-- an error that the plugin returns: the dial's, or a types.Error
pub data PluginError : Type 0 where
  dial_error : Error → PluginError
  cni_error : ErrorCode → String → Option Error → PluginError

-- what is behind the connection, and what has been written to stdout
pub record Plugin (R : Type 0) : Type 0 where
  pub remote : R
  pub stdout : List String

abbrev pub cni_args : CmdArgs → CniCmdArgs
cni_args arg = record {
  container_id = arg.container_id;
  netns = arg.netns;
  ifname = arg.if_name;
  args = arg.args;
  path = arg.path;
  network_configuration = arg.stdin_data;
}

-- the error for a status code
abbrev pub rpc_failure : Code → String → PluginError
rpc_failure unimplemented message =
    cni_error incompatible_api_version
      "incompatible CNI API version between client (antrea-cni) and server (antrea-agent)" none
rpc_failure unavailable message = cni_error try_again_later message none
rpc_failure deadline_exceeded message = cni_error try_again_later message none
rpc_failure other_code message = cni_error unknown_rpc_error message none

module _ {R : Type 0} (rpc : Rpc R) where
  -- what Request does about the reply
  abbrev pub handle : List String → RpcReply × R → Option PluginError × Plugin R
  handle stdout (rpc_error code message, r) =
      (some (rpc_failure code message), record { remote = r; stdout = stdout })
  handle stdout (replied (failure code message cause), r) =
      (some (cni_error code message cause), record { remote = r; stdout = stdout })
  handle stdout (replied (cni_result text), r) =
      (none, record { remote = r; stdout = stdout ++ text ∷ [] })

  -- rpcClient
  abbrev pub with_client :
      (Plugin R → Option PluginError × Plugin R) → Plugin R → Option PluginError × Plugin R
  with_client f p = elim (rpc.dial p.remote) [ some e ↦ (some (dial_error e), p) | none ↦ f p ]

  -- Request
  unfoldable pub request : Action → CmdArgs → Plugin R → Option PluginError × Plugin R
  request a arg = with_client (λ p. handle p.stdout (rpc.call a (cni_args arg) p.remote))

  -- CmdAdd
  unfoldable pub plugin_add : CmdArgs → Plugin R → Option PluginError × Plugin R
  plugin_add arg = with_client (λ p. handle p.stdout (rpc.call action_add (cni_args arg) p.remote))

  -- CmdDel
  unfoldable pub plugin_del : CmdArgs → Plugin R → Option PluginError × Plugin R
  plugin_del arg p = (none, p)
