-- ===== src/Ovs/Ports.antt =====
-- The methods of OVSBridge in pkg/ovs/ovs-client.go about ports and interfaces.
pub mod Listed
pub mod Named
use ciccni.Base.{
  ℕ, String, Bool, true, false, List, [], ◌∷◌, Option, none, some, Dict, ◌==◌, string_eq,
  if◌then◌else◌, Outcome, ok, Error, Exec, Done, pure, fail, lift, ◌>>=◌, ◌>>◌,
}
use ciccni.Base.Partial
use ciccni.Ovs.Values.{
  Value, Items, Fields, text, number, texts, array, object, no_fields, field, column, as_text,
  as_items, as_fields, element_at, row_uuid,
}
use ciccni.Ovs.Errors.{new_transaction_error}
use ciccni.Ovs.PortData.{OvsPortData}
use ciccni.Ovs.Database.{
  Operation, select, insert_row, update, mutate, wait, Result, Library, OvsBridge, port_row,
  interface_row, by_name, transact, perform, bridge_name,
}
use ciccni.Ovs.Bridge.{single}
use ciccni.Ovs.Results.{second_of_port, build_port_data_common, ports_of_bridge}

-- errPortNotFound
abbrev pub err_port_not_found : Error
err_port_not_found = new_transaction_error "未查询到对应的port" false

-- the options of a tunnel's interface
unfoldable pub tunnel_options : String → Dict String Value
tunnel_options remote_ip =
    if remote_ip == ""
    then ("key", text "flow") ∷ ("remote_ip", text "flow") ∷ []
    else ("remote_ip", text remote_ip) ∷ []

-- the loop of GetPortData over the UUIDs of a port's interfaces
unfoldable pub attached : String → List String → Bool
attached if_uuid [] = false
attached if_uuid (uuid ∷ uuids) = if uuid == if_uuid then true else attached if_uuid uuids

-- the loop of GetPortUUIDByIfName
unfoldable pub port_of_interface : String → List OvsPortData → Option String
port_of_interface if_name [] = none
port_of_interface if_name (each ∷ ports) =
    if each.if_name == if_name then some each.uuid else port_of_interface if_name ports

abbrev pub or_not_found {ℓ} : {S : Type ℓ} → Option String → Exec S String
or_not_found none = fail err_port_not_found
or_not_found (some uuid) = pure uuid

module _ {W : Type 0} (lib : Library W) where
  abbrev pub delete_ports_request : List String → List Operation
  delete_ports_request port_uuid_list =
      mutate "Bridge"
        (record {
          column = "ports";
          mutator = "delete";
          set = lib.make_ovsdb_set (("uuid", texts port_uuid_list) ∷ []);
        }
          ∷ [])
        []
      ∷ []

  -- DeletePorts
  unfoldable pub delete_ports : List String → Exec (OvsBridge W) Done
  unfolding perform
  delete_ports port_uuid_list = perform lib (delete_ports_request port_uuid_list)

  -- DeletePort
  unfoldable pub delete_port : String → Exec (OvsBridge W) Done
  unfolding perform
  delete_port port_uuid = perform lib (delete_ports_request (port_uuid ∷ []))

  abbrev made : Option (Dict String Value) → Option Items
  made none = none
  made (some m) = some (lib.make_ovsdb_map m)

  abbrev interface_insert : String → String → ℕ → Option (Dict String Value) → Operation
  interface_insert if_name if_type of_port_request options = insert_row "Interface" (
      interface_row (record {
        name = if_name;
        type = if_type;
        of_port_request = of_port_request;
        options = made options;
      }))

  abbrev port_insert : String → List Operation → Option (Dict String Value) → Operation
  port_insert name before external_ids = insert_row "Port" (
      port_row (record {
        name = name;
        interfaces = lib.make_ovsdb_set (single "named-uuid" (lib.named_uuid before));
        external_ids = made external_ids;
      }))

  abbrev pub create_port_request :
      String
      → String
      → String
      → String
      → ℕ
      → Option (Dict String Value)
      → Option (Dict String Value)
      → List Operation
  create_port_request bridge name if_name if_type of_port_request external_ids options =
      let iface = interface_insert if_name if_type of_port_request options in
      let port = port_insert name [] external_ids in
      iface
      ∷ port
      ∷ mutate "Bridge"
          (record {
            column = "ports";
            mutator = "insert";
            set = lib.make_ovsdb_set (single "named-uuid" (lib.named_uuid (iface ∷ [])));
          }
            ∷ [])
          (by_name bridge)
      ∷ []

  -- createPort
  unfoldable pub create_port_row :
      String
      → String
      → String
      → ℕ
      → Option (Dict String Value)
      → Option (Dict String Value)
      → Exec (OvsBridge W) String
  unfolding transact
  create_port_row name if_name if_type of_port_request external_ids options = do
    bridge ← bridge_name
    res ←
        transact lib
          (create_port_request bridge name if_name if_type of_port_request external_ids options)
    port ← lift (element_at 1 res)
    lift (element_at 1 port.uuid)

  -- CreatePort
  unfoldable pub create_port :
      String → String → Option (Dict String Value) → Exec (OvsBridge W) String
  unfolding create_port_row
  create_port name if_dev external_ids = create_port_row name if_dev "" 0 external_ids none

  -- CreateInternalPort
  unfoldable pub create_internal_port :
      String → ℕ → Option (Dict String Value) → Exec (OvsBridge W) String
  unfolding create_port_row
  create_internal_port name of_port_request external_ids =
      create_port_row name name "internal" of_port_request external_ids none

  -- createTunnelPort
  unfoldable pub create_tunnel_port : String → String → ℕ → String → Exec (OvsBridge W) String
  unfolding create_port_row tunnel_options
  create_tunnel_port name if_type of_port_request remote_ip =
      create_port_row name name if_type of_port_request none (some (tunnel_options remote_ip))

  -- CreateVXLANPort
  unfoldable pub create_vxlan_port : String → ℕ → String → Exec (OvsBridge W) String
  unfolding create_tunnel_port
  create_vxlan_port name of_port_request remote_ip =
      create_tunnel_port name "vxlan" of_port_request remote_ip

  -- CreateGenevePort
  unfoldable pub create_geneve_port : String → ℕ → String → Exec (OvsBridge W) String
  unfolding create_tunnel_port
  create_geneve_port name of_port_request remote_ip =
      create_tunnel_port name "geneve" of_port_request remote_ip

  abbrev of_port_request : String → List Operation
  of_port_request if_name =
      wait "Interface" 1000 ("ofport" ∷ []) "!="
        (object (field "ofport" (array (lib.make_ovsdb_set [])) no_fields) ∷ []) (by_name if_name)
      ∷ select "Interface" ("ofport" ∷ []) (by_name if_name)
      ∷ []

  -- GetOFPort
  unfoldable pub get_of_port : String → Exec (OvsBridge W) ℕ
  unfolding transact second_of_port
  get_of_port if_name = do res ← transact lib (of_port_request if_name); lift (second_of_port res)

  abbrev port_data_request : String → String → List Operation
  port_data_request port_uuid if_name =
      select "Port" ("name" ∷ "external_ids" ∷ "interfaces" ∷ [])
        (record { column = "_uuid"; equals = texts ("uuid" ∷ port_uuid ∷ []) } ∷ [])
      ∷ select "Interface" ("_uuid" ∷ "ofport" ∷ []) (by_name if_name)
      ∷ []

  -- GetPortData once both rows are there
  unfoldable pub port_data_of :
      String → String → Value → Value → Exec (OvsBridge W) (Option OvsPortData)
  unfolding attached row_uuid build_port_data_common column
  port_data_of port_uuid if_name port_value if_value = do
    port ← lift (as_fields port_value)
    intf ← lift (as_fields if_value)
    if_uuid ← lift (row_uuid intf)
    interfaces ← lift (as_items (column "interfaces" port))
    if_uuids ← lift (lib.get_id_list interfaces)
    if attached if_uuid if_uuids
        then (do
          found ← lift (
              build_port_data_common port intf (record {
                uuid = port_uuid;
                name = "";
                external_ids = [];
                if_name = if_name;
                of_port = 0;
              }))
          pure (some found))
        else fail (new_transaction_error "Interface is not attached to the port" false)

  -- the rows of the interface: an error if there is none
  unfoldable pub with_interface :
      String → String → Value → List Value → Exec (OvsBridge W) (Option OvsPortData)
  unfolding port_data_of
  with_interface port_uuid if_name port [] =
      fail (new_transaction_error "Interface not exists" false)
  with_interface port_uuid if_name port (intf ∷ _) = port_data_of port_uuid if_name port intf

  -- the rows of the port: a nil pointer if there is none
  unfoldable pub port_data_from :
      String → String → List Value → List Result → Exec (OvsBridge W) (Option OvsPortData)
  unfolding with_interface
  port_data_from port_uuid if_name [] res = pure none
  port_data_from port_uuid if_name (port ∷ _) res = do
    interfaces ← lift (element_at 1 res)
    with_interface port_uuid if_name port interfaces.rows

  -- GetPortData
  unfoldable pub get_port_data : String → String → Exec (OvsBridge W) (Option OvsPortData)
  unfolding transact port_data_from
  get_port_data port_uuid if_name = do
    res ← transact lib (port_data_request port_uuid if_name)
    ports ← lift (element_at 0 res)
    port_data_from port_uuid if_name ports.rows res

  abbrev pub port_list_request : String → List Operation
  port_list_request name =
      select "Bridge" ("ports" ∷ []) (by_name name)
      ∷ select "Port" ("_uuid" ∷ "name" ∷ "external_ids" ∷ "interfaces" ∷ []) []
      ∷ select "Interface" ("_uuid" ∷ "name" ∷ "ofport" ∷ []) []
      ∷ []

  -- GetPortList
  unfoldable pub get_port_list : Exec (OvsBridge W) (List OvsPortData)
  unfolding transact ports_of_bridge
  get_port_list = do
    name ← bridge_name
    res ← transact lib (port_list_request name)
    bridges ← lift (element_at 0 res)
    lift (ports_of_bridge lib bridges.rows res)

  -- SetInterfaceMTU
  unfoldable pub set_interface_mtu : String → ℕ → Exec (OvsBridge W) Done
  unfolding perform
  set_interface_mtu name mtu =
      perform lib (update "Interface" (by_name name) (("mtu_request", number mtu) ∷ []) ∷ [])

  -- GetPortUUIDByIfName
  unfoldable pub get_port_uuid_by_if_name : String → Exec (OvsBridge W) String
  unfolding get_port_list port_of_interface
  get_port_uuid_by_if_name if_name = do
    ports ← get_port_list
    or_not_found (port_of_interface if_name ports)
