-- ===== src/Ovs/Bridge.antt =====
-- The methods of OVSBridge in pkg/ovs/ovs-client.go about the bridge itself and its external ids.
pub mod Created
use ciccni.Base.{
  String, Bool, true, false, List, [], ◌∷◌, Dict, ok, Exec, Done, pure, lift, ◌>>=◌, ◌>>◌,
}
use ciccni.Ovs.Values.{
  Value, Items, texts, array, as_fields, element_at, row_uuid, make_ovsdb_set_from_list,
  build_map_from_ovsdb_map,
}
use ciccni.Ovs.Database.{
  Operation, select, insert_row, update, mutate, Library, OvsBridge, bridge_row, by_name, transact,
  perform, bridge_name,
}
use ciccni.Ovs.Results.{first_array}

-- NewOVSBridge
unfoldable pub new_ovs_bridge : {W : Type 0} → String → String → W → OvsBridge W
new_ovs_bridge bridge_name ovs_datapath_type ovsdb = record {
  ovsdb = ovsdb;
  name = bridge_name;
  datapath_type = ovs_datapath_type;
  uuid = "";
}

abbrev pub protocols : Items
protocols = make_ovsdb_set_from_list ("OpenFlow10" ∷ "OpenFlow13" ∷ [])

-- a set of the one UUID or name, before the library encodes it
abbrev pub single : String → String → Dict String Value
single kind id = (kind, texts (id ∷ [])) ∷ []

module _ {W : Type 0} (lib : Library W) where
  abbrev pub set_uuid : String → Exec (OvsBridge W) Done
  set_uuid uuid b = (ok tt, record b { uuid = uuid })

  -- the rows of the first result: none, or those from which the first one's UUID is taken
  unfoldable pub found : List Value → Exec (OvsBridge W) Bool
  found [] = pure false
  found (first ∷ _) = do
    row ← lift (as_fields first)
    uuid ← lift (row_uuid row)
    set_uuid uuid
    pure true

  abbrev pub lookup_request : String → List Operation
  lookup_request name = select "Bridge" ("_uuid" ∷ []) (by_name name) ∷ []

  -- lookupByName
  unfoldable pub lookup_by_name : Exec (OvsBridge W) Bool
  unfolding transact found
  lookup_by_name = do
    name ← bridge_name
    res ← transact lib (lookup_request name)
    first ← lift (element_at 0 res)
    found first.rows

  abbrev pub protocols_request : String → List Operation
  protocols_request name = update "Bridge" (by_name name) (("protocols", array protocols) ∷ []) ∷ []

  -- updateProtocols
  unfoldable pub update_protocols : Exec (OvsBridge W) Done
  unfolding perform
  update_protocols = do name ← bridge_name; perform lib (protocols_request name)

  abbrev bridge_insert : String → String → Operation
  bridge_insert name datapath_type =
      insert_row "Bridge"
        (bridge_row (record { name = name; protocols = protocols; datapath_type = datapath_type }))

  abbrev pub create_request : String → String → List Operation
  create_request name datapath_type =
      bridge_insert name datapath_type
      ∷ mutate "Open_vSwitch"
          (record {
            column = "bridges";
            mutator = "insert";
            set = lib.make_ovsdb_set (single "named-uuid" (lib.named_uuid []));
          }
            ∷ [])
          []
      ∷ []

  -- create
  unfoldable pub create_bridge : Exec (OvsBridge W) Done
  unfolding transact
  create_bridge b =
      (do
        res ← transact lib (create_request b.name b.datapath_type)
        first ← lift (element_at 0 res)
        uuid ← lift (element_at 1 first.uuid)
        set_uuid uuid)
        b

  -- Create, after lookupByName
  abbrev pub create_unless : Bool → Exec (OvsBridge W) Done
  create_unless true = update_protocols
  create_unless false = create_bridge

  -- Create
  unfoldable pub create : Exec (OvsBridge W) Done
  unfolding lookup_by_name update_protocols create_bridge
  create = do exists ← lookup_by_name; create_unless exists

  abbrev pub delete_request : String → List Operation
  delete_request uuid =
      mutate "Open_vSwitch"
        (record {
          column = "bridges";
          mutator = "delete";
          set = lib.make_ovsdb_set (single "uuid" uuid);
        }
          ∷ [])
        []
      ∷ []

  -- Delete
  unfoldable pub delete_bridge : Exec (OvsBridge W) Done
  unfolding perform
  delete_bridge b = perform lib (delete_request b.uuid) b

  -- GetExternalIDs
  unfoldable pub get_external_ids : Exec (OvsBridge W) (Dict String String)
  unfolding transact first_array build_map_from_ovsdb_map
  get_external_ids = do
    name ← bridge_name
    res ← transact lib (select "Bridge" ("external_ids" ∷ []) (by_name name) ∷ [])
    ids ← lift (first_array "external_ids" res)
    lift (build_map_from_ovsdb_map ids)

  -- SetExternalIDs
  unfoldable pub set_external_ids : Dict String Value → Exec (OvsBridge W) Done
  unfolding perform
  set_external_ids ids = do
    name ← bridge_name
    perform lib (
        update "Bridge" (by_name name) (("external_ids", array (lib.make_ovsdb_map ids)) ∷ []) ∷ [])

  -- GetPortUUIDList
  unfoldable pub get_port_uuid_list : Exec (OvsBridge W) (List String)
  unfolding transact first_array
  get_port_uuid_list = do
    name ← bridge_name
    res ← transact lib (select "Bridge" ("ports" ∷ []) (by_name name) ∷ [])
    ports ← lift (first_array "ports" res)
    lift (lib.get_id_list ports)
