-- ===== src/Agent/InterfaceStore.antt =====
-- pkg/agent/interface_cache.go: the store of the interfaces of a node. What the store holds is not
-- changed through its pointers, so configurations are values.
pub mod Start
use ciccni.Base.{
  ℕ, ◌+◌, String, Bool, List, [], ◌∷◌, map, Option, none, some, Dict, lookup, insert, erase,
  string_eq, ◌==◌, if◌then◌else◌, Outcome, ok, err, panic, Exec, Done, length,
}
use ciccni.Base.Partial.{◌>>=◌}
use ciccni.Net.{Ip, nil, Mac, show_ip, show_mac}
use ciccni.Ovs.PortData.{OvsPortData}
use ciccni.Agent.Names.{generate_container_interface_name}

pub data InterfaceType : Type 0 where
  container_interface tunnel_interface gateway_interface : InterfaceType

-- OVSPortConfig; OFPort is the 32-bit pattern
pub record OvsPortConfig : Type 0 where
  pub iface_name : String
  pub port_uuid : String
  pub of_port : ℕ

-- InterfaceConfig; the embedded pointer may be nil
pub record InterfaceConfig : Type 0 where
  pub id : String
  pub interface_type : InterfaceType
  pub ip : Ip
  pub mac : Mac
  pub pod_name : String
  pub pod_namespace : String
  pub net_ns : String
  pub port : Option OvsPortConfig

abbrev pub InterfaceStore : Type 0
InterfaceStore = Dict String InterfaceConfig

abbrev bare_config : String → InterfaceType → Option OvsPortConfig → InterfaceConfig
bare_config id type port = record {
  id = id;
  interface_type = type;
  ip = nil;
  mac = [];
  pod_name = "";
  pod_namespace = "";
  net_ns = "";
  port = port;
}

unfoldable pub new_tunnel_interface : String → InterfaceConfig
new_tunnel_interface name = bare_config name tunnel_interface none

unfoldable pub new_gateway_interface : String → InterfaceConfig
new_gateway_interface name = bare_config name gateway_interface none

-- NewInterfaceStore
abbrev pub new_interface_store : InterfaceStore
new_interface_store = []

-- the configuration that Initialize stores for the tunnel's port
abbrev pub tunnel_config : String → OvsPortData → InterfaceConfig
tunnel_config tunnel_port port =
    bare_config tunnel_port tunnel_interface
      (some (record { iface_name = port.name; port_uuid = port.uuid; of_port = port.of_port }))

-- The loop of Initialize. A port other than the tunnel's is passed over, whether it has external ids
-- or not.
unfoldable pub store_ports : String → List OvsPortData → InterfaceStore → InterfaceStore
store_ports tunnel_port [] m = m
store_ports tunnel_port (port ∷ ports) m =
    store_ports tunnel_port ports
      (if port.name == tunnel_port then insert port.name (tunnel_config tunnel_port port) m else m)

-- Initialize, given what GetPortList answers
unfoldable pub initialize : Outcome (List OvsPortData) → String → Exec InterfaceStore Done
unfolding store_ports
initialize (ok ports) tunnel_port m = (ok tt, store_ports tunnel_port ports m)
initialize (err e) tunnel_port m = (err e, m)
initialize panic tunnel_port m = (panic, m)

unfoldable pub add_interface : String → InterfaceConfig → InterfaceStore → InterfaceStore
add_interface iface_id config m = insert iface_id config m

unfoldable pub delete_interface : String → InterfaceStore → InterfaceStore
delete_interface iface_id m = erase iface_id m

unfoldable pub get_interface : String → InterfaceStore → Option InterfaceConfig
get_interface iface_id m = lookup iface_id m

abbrev container_one : InterfaceType → ℕ
container_one container_interface = 1
container_one _ = 0

unfoldable pub get_container_interface_num : InterfaceStore → ℕ
get_container_interface_num [] = 0
get_container_interface_num ((_, config) ∷ m) =
    container_one config.interface_type + get_container_interface_num m

unfoldable pub len : InterfaceStore → ℕ
len m = length m

unfoldable pub get_interface_ids : InterfaceStore → List String
get_interface_ids m = map (λ (id, _). id) m

-- NewContainerInterfaceConfig
unfoldable pub new_container_interface_config :
    String → String → String → String → Mac → Ip → InterfaceConfig
new_container_interface_config container_id pod_name pod_namespace net_ns mac ip = record {
  id = container_id;
  interface_type = container_interface;
  ip = ip;
  mac = mac;
  pod_name = pod_name;
  pod_namespace = pod_namespace;
  net_ns = net_ns;
  port = none;
}

-- BuildOVSPortExternalIDs
unfoldable pub build_ovs_port_external_ids : InterfaceConfig → Dict String String
build_ovs_port_external_ids config =
    ("attached-mac", show_mac config.mac)
    ∷ ("container-id", config.id)
    ∷ ("ip-address", show_ip config.ip)
    ∷ ("pod-name", config.pod_name)
    ∷ ("pod-namespace", config.pod_namespace)
    ∷ []

-- GetContainerInterface
unfoldable pub get_container_interface :
    (String → String) → String → String → InterfaceStore → Outcome (Option InterfaceConfig)
get_container_interface sha1_hex pod_name pod_namespace m = do
  ovs_port_name ← generate_container_interface_name sha1_hex pod_name pod_namespace
  ok (lookup ovs_port_name m)
