-- ===== src/Cni/Tests.antt =====
-- A pod of another namespace than CoreDNS's is added through the plugin, and deleted.
use ciccni.Base.{ℕ, ◌+◌, panic, if◌then◌else◌, ◌≡◌, [], ◌∷◌, map, none, some, string_eq, ok, Exec}
use ciccni.Net.{Ip, nil, v4}
use ciccni.Agent.Tests.{zeros}
use ciccni.Cniserver.Interfaces.{Interface, Ops, Request, Node, configure_interface}
use ciccni.Cniserver.Ipam.{IpConfig, Plugins, ipam_drivers}
use ciccni.Cniserver.Routes.{has_default_route, update_ip, update_result_iface_config}
use ciccni.Cniserver.Routes.Updated.{extended, update_result_iface_config_lem}
use ciccni.Cniserver.Requests.{NetworkConfig, Codec, CniServer}
use ciccni.Cniserver.Deleted.{Deleted}
use ciccni.Cni.{CmdArgs, Plugin, unavailable, action_add, request}
use ciccni.Cni.Served.{served, Returned, request-Returned}

abbrev next : Ip → Ip
next nil = nil
next (v4 n) = v4 (n + 1)

abbrev network : NetworkConfig
network = record {
  cni_version = "0.3.0";
  name = "ciccni";
  type = "cic-cni";
  mtu = 0;
  dns = record { nameservers = []; domain = ""; search = []; options = [] };
  ipam = record { type = "host-local"; subnet = ""; gateway = "" };
}

abbrev codec : Codec
codec = record {
  unmarshal = λ text. ok (some network);
  load_args = λ text.
      ok (record { pod_name = "web-7d"; pod_namespace = "default"; infra_container_id = "c7" });
  marshal = λ network. "{}";
  next_ip = next;
  print = λ version result. some version;
}

abbrev server : CniServer
server = record {
  node_config = record {
    node_name = "n1";
    pod_cidr = record { ip = v4 0x0af40100; ones = 24 };
    cluster_pod_cidr = some (record { ip = v4 0x0af40000; ones = 16 });
    gateway = some (record { ip = v4 0x0af40101; mac = []; name = "gw0" });
  };
  default_mtu = 1450;
  host_proc_path_prefix = "/host";
}

abbrev host_end : Interface
host_end = record { name = "web7d-000000000"; mac = []; sandbox = "" }

abbrev pod_end : Interface
pod_end = record { name = "eth0"; mac = []; sandbox = "/proc/7/ns" }

abbrev calm {ℓ} : {A : Type ℓ} → A → Exec ℕ A
calm a w = (ok a, w)

abbrev host : Ops ℕ
host = record {
  get_ns = λ path. calm tt;
  construct_tc_config = λ pod space. calm none;
  setup_veth_pair = λ pod space ifname net_ns mtu tc. calm (host_end, pod_end);
  create_port = λ name ifname ids. calm "u1";
  delete_port = λ uuid. calm tt;
  get_of_port = λ name. calm 5;
  kube_dns_cluster_ip = calm "10.96.0.10";
  install_coredns_flow = λ of_port id ip. calm tt;
  uninstall_coredns_flow = λ id. calm tt;
  configure_container_addr = λ net_ns iface ips. calm tt;
  remove_container_link = λ id net_ns ifname. calm tt;
}

abbrev lease : IpConfig
lease = record {
  interface = none;
  address = record { ip = v4 0x0af40107; ones = 24 };
  gateway = nil;
}

abbrev host_local : Plugins ℕ
host_local = record {
  find_in_path = λ plugin path. calm "/opt/cni/bin/host-local";
  exec_with_result = λ path config args p. (some (record { ips = lease ∷ []; routes = [] }), p);
  new_result_from_result = λ res. elim res [ none ↦ panic | some r ↦ ok r ];
  exec_without_result = λ path config args. calm tt;
}

abbrev node0 : Node ℕ
node0 = record { world = 0; store = []; interfaces = [] }

abbrev web_pod : Request
web_pod = record {
  pod_name = "web-7d";
  pod_namespace = "default";
  container_id = "c7";
  container_net_ns = "/host/proc/7/ns";
  ifname = "eth0";
  mtu = 1450;
  ips = v4 0x0af40107 ∷ [];
}

abbrev arg : CmdArgs
arg = record {
  container_id = "c7";
  netns = "/proc/7/ns";
  if_name = "eth0";
  args = "K8S_POD_NAME=web-7d";
  path = "/opt/cni/bin";
  stdin_data = "{}";
}

-- the node after the pod has been added
abbrev node1 : Node ℕ
node1 = (configure_interface host web_pod node0).1

abbrev plugin : Plugin (Node ℕ)
plugin = record { remote = node0; stdout = [] }

request-Returned_example :
    Returned codec server host host_local ipam_drivers zeros
      (λ s. none)
      unavailable
      "EOF"
      arg
      []
      node0
      (request
        (served codec server host host_local ipam_drivers zeros (λ s. none) unavailable "EOF")
        action_add
        arg
        plugin)
request-Returned_example =
    request-Returned codec server host host_local ipam_drivers zeros (λ s. none) unavailable "EOF"
      arg plugin

update_result_iface_config_lem_example :
    update_result_iface_config next
      (v4 0x0af40101)
      (some (record { ip = v4 0x0af40000; ones = 16 }))
      (lease ∷ [])
      []
    ≡ ok (
      map (update_ip next) (lease ∷ []),
      if has_default_route []
          then []
          else extended (v4 0x0af40101) (record { ip = v4 0x0af40000; ones = 16 }) [],
    )
update_result_iface_config_lem_example =
    update_result_iface_config_lem next (v4 0x0af40101) (record { ip = v4 0x0af40000; ones = 16 })
      lease [] []
