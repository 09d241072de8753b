-- ===== src/Ovs/Results.antt =====
-- Reading the results of a transaction in pkg/ovs/ovs-client.go.
use ciccni.Base.{
  ℕ, ◌%◌, ◌^◌, String, List, [], ◌∷◌, none, some, Dict, lookup, insert, string_eq, Outcome, ok,
  panic,
}
use ciccni.Base.Partial.{◌>>=◌}
use ciccni.Ovs.Values.{
  Value, Items, Fields, number, no_fields, column, as_text, as_items, as_fields, element_at,
  row_uuid, build_map_from_ovsdb_map,
}
use ciccni.Ovs.PortData.{OvsPortData}
use ciccni.Ovs.Database.{Result, Library}

-- res[0].Rows[0].(map[string]interface{})[name].([]interface{})
unfoldable pub first_array : String → List Result → Outcome Items
unfolding column
first_array name res = do
  first ← element_at 0 res
  row ← element_at 0 first.rows
  entries ← as_fields row
  as_items (column name entries)

-- int32(res[1].Rows[0].(map[string]interface{})["ofport"].(float64))
abbrev as_number : Value → Outcome ℕ
as_number (number n) = ok (n % 2 ^ 32)
as_number _ = panic

unfoldable pub second_of_port : List Result → Outcome ℕ
unfolding column
second_of_port res = do
  second ← element_at 1 res
  row ← element_at 0 second.rows
  entries ← as_fields row
  as_number (column "ofport" entries)

-- `if ofPort, ok := intf["ofport"].(float64); ok`, and int32(ofPort)
abbrev pub assigned : Value → ℕ
assigned (number n) = n % 2 ^ 32
assigned _ = 0

-- buildPortDataCommon, which gives the changed data
unfoldable pub build_port_data_common : Fields → Fields → OvsPortData → Outcome OvsPortData
unfolding column build_map_from_ovsdb_map
build_port_data_common port intf port_data = do
  name ← as_text (column "name" port)
  ids ← as_items (column "external_ids" port)
  external_ids ← build_map_from_ovsdb_map ids
  ok (record port_data {
    name = name;
    external_ids = external_ids;
    of_port = assigned (column "ofport" intf);
  })

-- portMap and ifMap of GetPortList
unfoldable pub index_rows : List Value → Dict String Fields → Outcome (Dict String Fields)
unfolding row_uuid
index_rows [] m = ok m
index_rows (v ∷ vs) m = do row ← as_fields v; uuid ← row_uuid row; index_rows vs (insert uuid row m)

-- portMap[uuid], a nil map if there is none
unfoldable pub row_at : String → Dict String Fields → Fields
row_at uuid m = elim (lookup uuid m) [ none ↦ no_fields | some row ↦ row ]

module _ {W : Type 0} (lib : Library W) where
  -- a port of the list, from the rows by UUID
  unfoldable pub describe_port :
      Dict String Fields → Dict String Fields → String → Outcome OvsPortData
  unfolding row_at column build_port_data_common
  describe_port port_map if_map uuid = do
    let port = row_at uuid port_map
    interfaces ← as_items (column "interfaces" port)
    if_uuids ← lib.get_id_list interfaces
    if_uuid ← element_at 0 if_uuids
    let intf = row_at if_uuid if_map
    if_name ← as_text (column "name" intf)
    build_port_data_common port intf
        (record { uuid = uuid; name = ""; external_ids = []; if_name = if_name; of_port = 0 })

  unfoldable pub describe_ports :
      Dict String Fields → Dict String Fields → List String → Outcome (List OvsPortData)
  unfolding describe_port
  describe_ports port_map if_map [] = ok []
  describe_ports port_map if_map (uuid ∷ uuids) = do
    port ← describe_port port_map if_map uuid
    ports ← describe_ports port_map if_map uuids
    ok (port ∷ ports)

  -- GetPortList after its transaction and the test for a bridge, whose row is given
  unfoldable pub list_ports : Value → List Value → List Value → Outcome (List OvsPortData)
  unfolding index_rows describe_ports column
  list_ports bridge port_rows if_rows = do
    entries ← as_fields bridge
    ports ← as_items (column "ports" entries)
    uuids ← lib.get_id_list ports
    port_map ← index_rows port_rows []
    if_map ← index_rows if_rows []
    describe_ports port_map if_map uuids

  -- GetPortList after its transaction: no bridge, no ports
  unfoldable pub ports_of_bridge : List Value → List Result → Outcome (List OvsPortData)
  unfolding list_ports
  ports_of_bridge [] res = ok []
  ports_of_bridge (bridge ∷ _) res = do
    ports ← element_at 1 res
    interfaces ← element_at 2 res
    list_ports bridge ports.rows interfaces.rows
