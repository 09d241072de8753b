-- ===== src/Cniserver/Ipam.antt =====
-- pkg/cniserver/ipam: the registry of drivers, and the delegator that runs an external plugin. The
-- invoke package is a parameter, the operations of `Plugins` on a state of theirs.
use ciccni.Base.{
  ℕ, String, List, [], ◌∷◌, Option, none, some, Dict, lookup, insert, string_eq, Outcome, ok, err,
  panic, external, Exec, Done, ◌>>=◌,
}
use ciccni.Net.{Ip, IpNet}

-- types100.IPConfig, types.Route and types100.Result, as far as they are read and written
pub record IpConfig : Type 0 where
  pub interface : Option ℕ
  pub address : IpNet
  pub gateway : Ip

pub record Route : Type 0 where
  pub dst : IpNet
  pub gw : Ip

pub record IpamResult : Type 0 where
  pub ips : List IpConfig
  pub routes : List Route

-- CniCmdArgs
pub record CniCmdArgs : Type 0 where
  pub container_id : String
  pub netns : String
  pub ifname : String
  pub args : String
  pub path : String
  pub network_configuration : String

-- invoke.Args
pub record InvokeArgs : Type 0 where
  pub command : String
  pub container_id : String
  pub net_ns : String
  pub if_name : String
  pub path : String

-- FindInPath, ExecPluginWithResult, whose result is nil with an error, NewResultFromResult, and
-- ExecPluginWithoutResult
pub record Plugins (P : Type 0) : Type 0 where
  pub find_in_path : String → String → Exec P String
  pub exec_with_result : String → String → InvokeArgs → P → Option IpamResult × P
  pub new_result_from_result : Option IpamResult → Outcome IpamResult
  pub exec_without_result : String → String → InvokeArgs → Exec P Done

-- argsFromEnv
unfoldable pub args_from_env : CniCmdArgs → InvokeArgs
args_from_env cni_args = record {
  command = "";
  container_id = cni_args.container_id;
  net_ns = cni_args.netns;
  if_name = cni_args.ifname;
  path = cni_args.path;
}

-- the registry: the type of each driver and the plugin of its delegator
abbrev pub Drivers : Type 0
Drivers = Dict String String

-- RegisterIPAMDriver
unfoldable pub register_ipam_driver : String → String → Exec Drivers Done
register_ipam_driver ipam_type plugin drivers = elim (lookup ipam_type drivers) [
  | some _ ↦ (err (external "already registered"), drivers)
  | none ↦ (ok tt, insert ipam_type plugin drivers)
]

-- the registry after init
abbrev pub ipam_drivers : Drivers
ipam_drivers = ("host-local", "host-local") ∷ []

abbrev pub with_command : String → InvokeArgs → InvokeArgs
with_command command args = record args { command = command }

module _ {P : Type 0} (plugins : Plugins P) where
  -- the result of ExecPluginWithResult, whose error is overwritten by the next one
  abbrev converted : Option IpamResult × P → Outcome IpamResult × P
  converted (res, p) = (plugins.new_result_from_result res, p)

  -- delegateWithResult, with delegateCommon
  unfoldable pub delegate_with_result : String → String → InvokeArgs → Exec P IpamResult
  delegate_with_result delegate_plugin network_config args = do
    path ← plugins.find_in_path delegate_plugin args.path
    λ p. converted (plugins.exec_with_result path network_config args p)

  -- delegateNoResult, with delegateCommon
  unfoldable pub delegate_no_result : String → String → InvokeArgs → Exec P Done
  delegate_no_result delegate_plugin network_config args = do
    path ← plugins.find_in_path delegate_plugin args.path
    plugins.exec_without_result path network_config args

  -- the deferred function of Add, whose error is only logged
  abbrev pub unless_added : Exec P Done → Outcome IpamResult × P → Outcome IpamResult × P
  unless_added undo (ok r, p) = (ok r, p)
  unless_added undo (err e, p) = (err e, (undo p).1)
  unless_added undo (panic, p) = (panic, (undo p).1)

  -- Add
  unfoldable pub delegator_add : String → InvokeArgs → String → Exec P IpamResult
  unfolding delegate_with_result delegate_no_result
  delegator_add plugin args network_config p =
      unless_added (delegate_no_result plugin network_config (with_command "DEL" args))
        (delegate_with_result plugin network_config (with_command "ADD" args) p)

  -- Del
  unfoldable pub delegator_del : String → InvokeArgs → String → Exec P Done
  unfolding delegate_no_result
  delegator_del plugin args network_config =
      delegate_no_result plugin network_config (with_command "DEL" args)

  -- Check
  unfoldable pub delegator_check : String → InvokeArgs → String → Exec P Done
  unfolding delegate_no_result
  delegator_check plugin args network_config =
      delegate_no_result plugin network_config (with_command "CHECK" args)

  -- a method of the driver of a type, which is a nil interface if none is registered
  abbrev pub on_driver : {A : Type 0} → Drivers → String → (String → Exec P A) → Exec P A
  on_driver drivers ipam_type method p = elim (lookup ipam_type drivers) [
    | none ↦ (panic, p)
    | some plugin ↦ method plugin p
  ]

  -- ExecIPAMAdd
  unfoldable pub exec_ipam_add : Drivers → CniCmdArgs → String → Exec P IpamResult
  unfolding delegator_add args_from_env
  exec_ipam_add drivers cni_args ipam_type =
      on_driver drivers ipam_type
        (λ plugin. delegator_add plugin (args_from_env cni_args) cni_args.network_configuration)

  -- ExecIPAMDelete
  unfoldable pub exec_ipam_delete : Drivers → CniCmdArgs → String → Exec P Done
  unfolding delegator_del args_from_env
  exec_ipam_delete drivers cni_args ipam_type =
      on_driver drivers ipam_type
        (λ plugin. delegator_del plugin (args_from_env cni_args) cni_args.network_configuration)

  -- ExecIPAMCheck
  unfoldable pub exec_ipam_check : Drivers → CniCmdArgs → String → Exec P Done
  unfolding delegator_check args_from_env
  exec_ipam_check drivers cni_args ipam_type =
      on_driver drivers ipam_type
        (λ plugin. delegator_check plugin (args_from_env cni_args) cni_args.network_configuration)
