-- ===== src/Cniserver/Requests.antt =====
-- loadNetworkConfig of pkg/cniserver/cniserver.go. Reading the network configuration and the
-- arguments, and printing a result, are parameters, the operations of `Codec`.
use ciccni.Base.{
  ℕ, String, List, Option, none, some, string_eq, nat_eqb, ◌==◌, if◌then◌else◌, Outcome, ok, panic,
  ◌<>◌,
}
use ciccni.Base.Partial.{◌>>=◌}
use ciccni.Net.{Ip, show_ip_net}
use ciccni.Agent.Initializer.{NodeConfig}
use ciccni.Cniserver.Ipam.{IpConfig, Route, CniCmdArgs}
use ciccni.Cniserver.Interfaces.{Interface}

-- types.DNS
pub record Dns : Type 0 where
  pub nameservers : List String
  pub domain : String
  pub search : List String
  pub options : List String

-- IPAMConfig and NetworkConfig, without the previous result, which is not read
pub record IpamConfig : Type 0 where
  pub type : String
  pub subnet : String
  pub gateway : String

pub record NetworkConfig : Type 0 where
  pub cni_version : String
  pub name : String
  pub type : String
  pub mtu : ℕ
  pub dns : Dns
  pub ipam : IpamConfig

-- k8sArgs
pub record K8sArgs : Type 0 where
  pub pod_name : String
  pub pod_namespace : String
  pub infra_container_id : String

-- CNIConfig
pub record CniConfig : Type 0 where
  pub network : NetworkConfig
  pub cmd_args : CniCmdArgs
  pub k8s : K8sArgs

-- types100.Result
pub record CniResult : Type 0 where
  pub interfaces : List Interface
  pub ips : List IpConfig
  pub routes : List Route
  pub dns : Dns

-- json.Unmarshal into a NetworkConfig, whose pointer stays nil if the text has none of its fields;
-- types.LoadArgs; json.Marshal; ip.NextIP; GetAsVersion, which may fail, and PrintTo on its result
pub record Codec : Type 0 where
  pub unmarshal : String → Outcome (Option NetworkConfig)
  pub load_args : String → Outcome K8sArgs
  pub marshal : NetworkConfig → String
  pub next_ip : Ip → Ip
  pub print : String → CniResult → Option String

-- CniServer, without the clients
pub record CniServer : Type 0 where
  pub node_config : NodeConfig
  pub default_mtu : ℕ
  pub host_proc_path_prefix : String

-- hostNetNSPath
unfoldable pub host_net_ns_path : CniServer → String → String
host_net_ns_path server ns_path =
    if ns_path == "" then "" else server.host_proc_path_prefix <> ns_path

-- what loadNetworkConfig fills in
unfoldable pub filled_config : CniServer → NetworkConfig → NetworkConfig
filled_config server network =
    let i = network.ipam in
    record network {
      ipam = record i { subnet = show_ip_net server.node_config.pod_cidr };
      mtu = if nat_eqb network.mtu 0 then server.default_mtu else network.mtu;
    }

abbrev need {ℓ} : {A : Type ℓ} → Option A → Outcome A
need none = panic
need (some a) = ok a

module _ (codec : Codec) (server : CniServer) where
  -- loadNetworkConfig; the text that is marshalled still has the MTU of the request
  abbrev pub cni_config : CniCmdArgs → K8sArgs → NetworkConfig → CniConfig
  cni_config args k8s network =
      let i = network.ipam in
      record {
        network = filled_config server network;
        cmd_args = record args {
          network_configuration = codec.marshal (record network {
            ipam = record i { subnet = show_ip_net server.node_config.pod_cidr };
          });
        };
        k8s = k8s;
      }

  unfoldable pub load_network_config : CniCmdArgs → Outcome CniConfig
  unfolding filled_config
  load_network_config args = do
    pointer ← codec.unmarshal args.network_configuration
    k8s ← codec.load_args args.args
    network ← need pointer
    ok (cni_config args k8s network)
