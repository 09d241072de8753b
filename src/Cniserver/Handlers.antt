-- ===== src/Cniserver/Handlers.antt =====
-- The RPC handlers of pkg/cniserver/cniserver.go.
use ciccni.Base.{
  String, Bool, true, List, map, Option, none, some, string_eq, if◌then◌else◌, Outcome, ok, err,
  panic, Error, Exec, pure, lift, ◌>>=◌, ◌<>◌,
}
use ciccni.Net.{Ip}
use ciccni.Agent.Initializer.{Gateway}
use ciccni.Cniserver.Ipam.{
  IpConfig, Route, IpamResult, CniCmdArgs, Plugins, Drivers, exec_ipam_add, exec_ipam_delete,
}
use ciccni.Cniserver.Requests.{CniConfig, Codec, CniServer, host_net_ns_path, load_network_config}
use ciccni.Cniserver.Routes.{update_result_iface_config}
use ciccni.Cniserver.Interfaces.{
  Ops, Request, Node, on_world, configure_interface, remove_interfaces,
}

-- the codes of pb.ErrorCode that are used
pub data ErrorCode : Type 0 where
  unsupported_field decoding_failure try_again_later ipam_failure config_interface_failure
        unknown_rpc_error incompatible_api_version :
      ErrorCode

-- CniCmdResponse: a result's text, or a code with the message's text and the error that it quotes
pub data Response : Type 0 where
  cni_result : String → Response
  failure : ErrorCode → String → Option Error → Response

-- generateCNIErrorResponse, ipamFailureResponse and configureInterfaceFailureResponse
abbrev pub generate_cni_error_response : ErrorCode → String → Option Error → Response
generate_cni_error_response code message cause = failure code message cause

abbrev pub ipam_failure_response : Error → Response
ipam_failure_response e = generate_cni_error_response ipam_failure "无法生成ip address, err=" (some e)

abbrev pub configure_interface_failure_response : Error → Response
configure_interface_failure_response e =
    generate_cni_error_response config_interface_failure "配置网络ip异常, err=" (some e)

-- isCNIVersionSupported
abbrev pub is_cni_version_supported : String → Bool
is_cni_version_supported cni_version = true

-- the arguments of configureInterface in CmdAdd
abbrev pub request_of : CniServer → CniConfig → List IpConfig → Request
request_of server config ips = record {
  pod_name = config.k8s.pod_name;
  pod_namespace = config.k8s.pod_namespace;
  container_id = config.cmd_args.container_id;
  container_net_ns = host_net_ns_path server config.cmd_args.netns;
  ifname = config.cmd_args.ifname;
  mtu = config.network.mtu;
  ips = map (λ ipc. ipc.address.ip) ips;
}

module _ (codec : Codec) (server : CniServer) where
  -- checkReuquestMessage and what a handler does about its answer
  abbrev pub checked :
      {S : Type 0} → (CniConfig → Exec S Response) → Outcome CniConfig × S → Outcome Response × S
  checked rest (ok config, s) =
      if is_cni_version_supported config.network.cni_version then rest config s else (
        ok (
            generate_cni_error_response unsupported_field
              ("unsupprted cniVersion provided: " <> config.network.cni_version) none),
        s,
      )
  checked rest (err e, s) =
      (ok (generate_cni_error_response decoding_failure "fail to decode network config" none), s)
  checked rest (panic, s) = (panic, s)

  abbrev pub check_request_message :
      {S : Type 0} → CniCmdArgs → (CniConfig → Exec S Response) → Exec S Response
  check_request_message args rest s = checked rest (load_network_config codec server args, s)

  -- CmdCheck
  unfoldable pub cmd_check : {S : Type 0} → CniCmdArgs → Exec S Response
  unfolding load_network_config
  cmd_check args = check_request_message args (λ config. pure (cni_result ""))

  module _ {W : Type 0} (ops : Ops W) (plugins : Plugins W) (drivers : Drivers)
      (sha1_hex : String → String) where
    -- a call whose error is answered by a response
    abbrev pub answered :
        {A : Type 0}
        → (Error → Response)
        → (A → Exec (Node W) Response)
        → Outcome A × Node W
        → Outcome Response × Node W
    answered response rest (ok a, s) = rest a s
    answered response rest (err e, s) = (ok (response e), s)
    answered response rest (panic, s) = (panic, s)

    abbrev pub gateway_ip : Option Gateway → Outcome Ip
    gateway_ip none = panic
    gateway_ip (some gateway) = ok gateway.ip

    -- GetAsVersion's error is dropped, and PrintTo panics on the nil result
    abbrev pub encoded : Option String → Outcome Response
    encoded none = panic
    encoded (some text) = ok (cni_result text)

    -- the text of CmdAdd's result, with the interfaces that configureInterface has put into it
    abbrev pub result_text : CniConfig → List IpConfig → List Route → Node W → Option String
    result_text config ips routes s =
        codec.print config.network.cni_version (record {
          interfaces = s.interfaces;
          ips = ips;
          routes = routes;
          dns = config.network.dns;
        })

    abbrev pub printed : CniConfig → List IpConfig → List Route → Exec (Node W) Response
    printed config ips routes s = (encoded (result_text config ips routes s), s)

    -- CmdAdd from the addresses on
    abbrev pub add_interface_of : CniConfig → IpamResult → Exec (Node W) Response
    add_interface_of config found = do
      gateway ← lift (gateway_ip server.node_config.gateway)
      (ips, routes) ← lift (
          update_result_iface_config codec.next_ip gateway server.node_config.cluster_pod_cidr
            found.ips found.routes)
      λ s.
          answered configure_interface_failure_response (λ _. printed config ips routes)
            (configure_interface ops (request_of server config ips) s)

    abbrev pub add_steps : CniConfig → Exec (Node W) Response
    add_steps config s =
        answered ipam_failure_response (add_interface_of config)
          (on_world ops (exec_ipam_add plugins drivers config.cmd_args config.network.ipam.type) s)

    -- CmdAdd
    unfoldable pub cmd_add : CniCmdArgs → Exec (Node W) Response
    cmd_add args = check_request_message args add_steps

    -- CmdDel from the IPAM driver on
    abbrev pub remove_interface_of : CniConfig → Exec (Node W) Response
    remove_interface_of config s =
        answered configure_interface_failure_response (λ _. pure (cni_result ""))
          (remove_interfaces ops sha1_hex config.k8s.pod_name config.k8s.pod_namespace
            config.cmd_args.container_id (host_net_ns_path server config.cmd_args.netns)
            config.cmd_args.ifname s)

    abbrev pub del_steps : CniConfig → Exec (Node W) Response
    del_steps config s =
        answered ipam_failure_response (λ _. remove_interface_of config)
          (on_world ops (exec_ipam_delete plugins drivers config.cmd_args config.network.ipam.type)
            s)

    -- CmdDel
    unfoldable pub cmd_del : CniCmdArgs → Exec (Node W) Response
    cmd_del args = check_request_message args del_steps
