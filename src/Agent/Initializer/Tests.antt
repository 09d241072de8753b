-- ===== src/Agent/Initializer/Tests.antt =====
-- A node whose link for the gateway comes up after two tries, and whose bridge has the ports of an
-- earlier run.
use ciccni.Base.{
  ℕ, ◌+◌, String, true, false, ◌≡◌, refl, List, [], ◌∷◌, none, some, ltb, string_eq, lookup, insert,
  ◌==◌, if◌then◌else◌, nat_eq, arith, Outcome, ok, err, external, transaction,
}
use ciccni.Net.{Ip, nil, v4}
use ciccni.Iptables
use ciccni.Ovs.PortData.{OvsPortData}
use ciccni.Ovs.Values.{Items, text, no_items, item}
use ciccni.Ovs.Database.{Operation, select, Reply, refused, Library, OvsBridge}
use ciccni.Ovs.Ports.{get_port_list}
use ciccni.Ovs.Ports.Listed.{PortRow, InterfaceRow, port_list_reply}
use ciccni.Openflow.State.{new_client}
use ciccni.Agent.InterfaceStore.Start.{last_named}
use ciccni.Agent.Nodes.{KubeNode, arp_destinations}
use ciccni.Agent.Initializer.{Host, Link, link, missing, Initializer, wait_for_link, tun_port_name}
use ciccni.Agent.Initializer.SetUp.{set_up_gateway_interface, set_up_ovs_bridge, init_openflow}
use ciccni.Agent.Initializer.Links.{Misses, none_yet, missed, wait_for_link-link}
use ciccni.Agent.Initializer.Ready.{GatewaySetUp, set_up_gateway_interface-GatewaySetUp}
use ciccni.Agent.Initializer.Restart.{set_up_ovs_bridge-restart}
use ciccni.Agent.Initializer.Settled.{init_openflow-settled}
use ciccni.Binding.Switch.{Table, miss_normal, last_table_id, create_table}
use ciccni.Openflow.Tables.{table, cluster_forward_table, new_pipeline}

abbrev gw0 : Link
gw0 = record { name = "gw0"; hardware_addr = 2 ∷ 0 ∷ 0 ∷ 0 ∷ 0 ∷ 1 ∷ [] }

abbrev next : Ip → Ip
next nil = nil
next (v4 n) = v4 (n + 1)

abbrev two_nodes : List KubeNode
two_nodes =
    record {
      name = "n1";
      pod_cidr = "10.244.1.0/24";
      addresses = record { type = "InternalIP"; address = "192.168.0.1" } ∷ [];
    }
    ∷ record {
      name = "n2";
      pod_cidr = "10.244.2.0/24";
      addresses =
          record { type = "Hostname"; address = "n2" }
          ∷ record { type = "InternalIP"; address = "192.168.0.2" }
          ∷ [];
    }
    ∷ []

abbrev no_firewall : Iptables.Ops ℕ
no_firewall = record {
  list_chains = λ table h. (ok [], h);
  new_chain = λ table chain h. (ok tt, h);
  exists = λ table chain rule h. (ok true, h);
  append = λ table chain rule h. (ok tt, h);
}

-- The state counts the pauses.
abbrev node : Host ℕ
node = record {
  getenv = λ key h. "n1";
  hostname = λ h. (ok "n1", h);
  get_node = λ name h. (err (external "not found"), h);
  cluster_configuration = λ h. (ok "podSubnet: 10.244.0.0/16", h);
  unmarshal_pod_subnet = λ text. ok "10.244.0.0/16";
  list_nodes = λ h. (err (external "forbidden"), h);
  get_default_interface = λ h. (ok "eth0", h);
  link_by_name = λ name h. if ltb h 2 then (missing, h) else (link gw0, h);
  sleep = λ h. h + 1;
  link_set_up = λ l h. (ok tt, h);
  addr_list = λ l h. (ok [], h);
  addr_add = λ l net h. (ok tt, h);
  next_ip = next;
  new_iptables = λ h. (ok tt, h);
  iptables = no_firewall;
}

two-Misses : Misses node "gw0" 2 0 2
two-Misses = missed 1 0 0 2 refl (missed 0 1 1 2 refl (none_yet 2))

wait_for_link-link_example : wait_for_link node 5 "gw0" 0 ≡ (ok gw0, 2)
wait_for_link-link_example = wait_for_link-link node "gw0" 2 (omega arith) two-Misses refl

abbrev id_set : List String → Items
id_set [] = no_items
id_set (id ∷ ids) = item (text id) (id_set ids)

abbrev ids_of : Items → Outcome (List String)
ids_of no_items = ok []
ids_of (item (text id) rest) = elim (ids_of rest) [ ok ids ↦ ok (id ∷ ids) | other ↦ other ]
ids_of (item _ rest) = ok []

abbrev old_ports : List PortRow
old_ports =
    record { uuid = "p1"; name = "tun0"; external_ids = []; interfaces = "i1" ∷ [] }
    ∷ record { uuid = "p2"; name = "gw0"; external_ids = []; interfaces = "i2" ∷ [] }
    ∷ []

abbrev old_interfaces : List InterfaceRow
old_interfaces =
    record { uuid = "i1"; name = "tun0"; of_port = some 1 }
    ∷ record { uuid = "i2"; name = "gw0"; of_port = some 2 }
    ∷ []

abbrev old_commit : List Operation → ℕ → Reply × ℕ
old_commit (select _ _ _ ∷ _) w =
    (port_list_reply id_set ("p1" ∷ "p2" ∷ []) old_ports old_interfaces, w)
old_commit _ w = (refused "constraint violation" false, w)

abbrev old_database : Library ℕ
old_database = record {
  named_uuid = λ ops. "row1";
  commit = old_commit;
  make_ovsdb_set = λ m. no_items;
  make_ovsdb_map = λ m. no_items;
  get_id_list = ids_of;
}

abbrev br0 : OvsBridge ℕ
br0 = record { ovsdb = 0; name = "br0"; datapath_type = ""; uuid = "b1" }

abbrev started : Initializer ℕ ℕ
started = record {
  host = 0;
  node_config = some (record {
    node_name = "n1";
    pod_cidr = record { ip = v4 0x0af40100; ones = 24 };
    cluster_pod_cidr = some (record { ip = v4 0x0af40000; ones = 16 });
    gateway = none;
  });
  ovs_bridge = br0;
  iface_store = [];
  of_client = new_client (λ log c. true) "br0";
  host_gateway = "gw0";
  mtu = 1450;
}

set_up_gateway_interface-GatewaySetUp_example :
    GatewaySetUp node old_database started (set_up_gateway_interface node old_database started)
set_up_gateway_interface-GatewaySetUp_example =
    set_up_gateway_interface-GatewaySetUp node old_database started

abbrev port_data : String → String → ℕ → OvsPortData
port_data uuid name n = record {
  uuid = uuid;
  name = name;
  external_ids = [];
  if_name = name;
  of_port = n;
}

old_list :
    get_port_list old_database br0
    ≡ (ok (port_data "p1" "tun0" 1 ∷ port_data "p2" "gw0" 2 ∷ []), br0)
unfolding get_port_list string_eq lookup insert
old_list = refl

old_tunnel :
    last_named tun_port_name (port_data "p1" "tun0" 1 ∷ port_data "p2" "gw0" 2 ∷ [])
    ≡ some (port_data "p1" "tun0" 1)
unfolding string_eq
old_tunnel = refl

other_name : ("gw0" == tun_port_name) ≡ false
unfolding string_eq
other_name = refl

set_up_ovs_bridge-restart_example :
    (set_up_ovs_bridge node old_database started).0 ≡ err (transaction "constraint violation" false)
set_up_ovs_bridge-restart_example =
    set_up_ovs_bridge-restart node old_database started br0
      (port_data "p1" "tun0" 1 ∷ port_data "p2" "gw0" 2 ∷ []) (port_data "p1" "tun0" 1)
      "constraint violation" false 0 refl other_name old_list old_tunnel refl

abbrev listing : Host ℕ
listing = record node { list_nodes = λ h. (ok two_nodes, h) }

-- a bridge that refuses every command
abbrev refusing : Initializer ℕ ℕ
refusing = record started { of_client = new_client (λ log c. false) "br0" }

abbrev forward_table : Table
forward_table = record { bridge = "br0"; id = 1; next = last_table_id; miss_action = miss_normal }

forward_created : table refusing.of_client.pipeline cluster_forward_table ≡ ok forward_table
unfolding new_client new_pipeline table lookup create_table nat_eq
forward_created = refl

init_openflow-settled_example : (init_openflow listing old_database refusing).0 ≡ ok tt
init_openflow-settled_example =
    init_openflow-settled listing old_database refusing _ forward_table refl forward_created

other_node : arp_destinations "n1" two_nodes ≡ "192.168.0.2" ∷ []
unfolding arp_destinations string_eq
other_node = refl
