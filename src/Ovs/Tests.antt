-- ===== src/Ovs/Tests.antt =====
-- A bridge br0 in a small database, which keeps the UUIDs of bridges by name.
use ciccni.Base.{
  String, true, false, ◌≡◌, refl, inl, List, [], ◌∷◌, Option, none, some, Dict, lookup, insert,
  lookup-insert, string_eq, ◌==◌, if◌then◌else◌, Outcome, ok,
}
use ciccni.Ovs.Values.{Value, Items, text, no_items, item}
use ciccni.Ovs.PortData.{OvsPortData}
use ciccni.Ovs.Errors.{timeout}
use ciccni.Ovs.Database.{
  Operation, select, insert_row, update, bridge_row, Reply, committed, refused, Library, OvsBridge,
}
use ciccni.Ovs.Bridge.{
  create, delete_bridge, get_external_ids, set_external_ids, get_port_uuid_list,
}
use ciccni.Ovs.Bridge.Created.{rows_of, BridgeTable, Created, create-Created}
use ciccni.Ovs.Ports.{
  delete_ports, delete_port, create_port, create_internal_port, create_vxlan_port,
  create_geneve_port, get_of_port, get_port_data, get_port_list, set_interface_mtu,
  get_port_uuid_by_if_name,
}
use ciccni.Ovs.Ports.Listed.{
  PortRow, InterfaceRow, port_list_reply, Entries, done, entry, get_port_list-Entries,
}
use ciccni.Ovs.Ports.Named.{Named, get_port_uuid_by_if_name-Named}
use ciccni.Ovs.Refused.{Fails, methods-Fails}

abbrev uuid_for : Value → Dict String String → Option String
uuid_for (text name) w = lookup name w
uuid_for _ w = none

-- selections and updates by name, and the insertion of a bridge
abbrev small_commit : List Operation → Dict String String → Reply × Dict String String
small_commit (select table columns (c ∷ []) ∷ []) w =
    (committed (record { rows = rows_of (uuid_for c.equals w); uuid = [] } ∷ []), w)
small_commit (update table conditions row ∷ []) w = (committed [], w)
small_commit (insert_row table (bridge_row bridge) ∷ ops) w = (
  committed (record { rows = []; uuid = "uuid" ∷ "7a31" ∷ [] } ∷ []),
  insert bridge.name "7a31" w,
)
small_commit _ w = (refused "timed out: no answer" true, w)

abbrev id_set : List String → Items
id_set [] = no_items
id_set (id ∷ ids) = item (text id) (id_set ids)

abbrev ids_of : Items → Outcome (List String)
ids_of no_items = ok []
ids_of (item (text id) rest) = elim (ids_of rest) [ ok ids ↦ ok (id ∷ ids) | other ↦ other ]
ids_of (item _ rest) = ok []

abbrev small : Library (Dict String String)
small = record {
  named_uuid = λ ops. "row1";
  commit = small_commit;
  make_ovsdb_set = λ m. no_items;
  make_ovsdb_map = λ m. no_items;
  get_id_list = ids_of;
}

small_inserted :
    (name j : String) (w : Dict String String)
    → lookup j (insert name "7a31" w) ≡ (if j == name then some "7a31" else lookup j w)
small_inserted name j w = lookup-insert j name "7a31" w

abbrev small_table : BridgeTable small
small_table = record {
  uuid_of = λ w name. lookup name w;
  looked = λ name w. inl refl;
  updated = λ name w. inl ([], w, refl, λ j. refl);
  inserted = λ name type w missing. inl ("7a31", [], _, refl, λ j. small_inserted name j w);
}

abbrev br0 : OvsBridge (Dict String String)
br0 = record { ovsdb = ("br1", "5c02") ∷ []; name = "br0"; datapath_type = "system"; uuid = "" }

create-Created_example : Created small small_table br0 (create small br0)
create-Created_example = create-Created small small_table br0

created_uuid : (create small br0).1.uuid ≡ "7a31"
unfolding create string_eq lookup
created_uuid = refl

abbrev silent : Library (Dict String String)
silent = record {
  named_uuid = λ ops. "row1";
  commit = λ ops w. (refused "timed out: no answer" true, w);
  make_ovsdb_set = λ m. no_items;
  make_ovsdb_map = λ m. no_items;
  get_id_list = ids_of;
}

methods-Fails_example :
    Fails "timed out: no answer" true br0 (create silent)
    × Fails "timed out: no answer" true br0 (delete_bridge silent)
    × Fails "timed out: no answer" true br0 (get_external_ids silent)
    × Fails "timed out: no answer" true br0 (set_external_ids silent [])
    × Fails "timed out: no answer" true br0 (get_port_uuid_list silent)
    × Fails "timed out: no answer" true br0 (delete_ports silent ("5c02" ∷ []))
    × Fails "timed out: no answer" true br0 (delete_port silent "5c02")
    × Fails "timed out: no answer" true br0 (create_port silent "p0" "veth0" none)
    × Fails "timed out: no answer" true br0 (create_internal_port silent "p0" 1450 none)
    × Fails "timed out: no answer" true br0 (create_vxlan_port silent "p0" 1450 "")
    × Fails "timed out: no answer" true br0 (create_geneve_port silent "p0" 1450 "")
    × Fails "timed out: no answer" true br0 (get_of_port silent "p0")
    × Fails "timed out: no answer" true br0 (get_port_data silent "5c02" "p0")
    × Fails "timed out: no answer" true br0 (get_port_list silent)
    × Fails "timed out: no answer" true br0 (get_port_uuid_by_if_name silent "p0")
    × Fails "timed out: no answer" true br0 (set_interface_mtu silent "p0" 1450)
methods-Fails_example =
    methods-Fails silent "timed out: no answer" true br0 (λ ops. br0.ovsdb) (λ ops. refl) "p0"
      "veth0" "5c02" "" 1450 ("5c02" ∷ []) [] none

timed_out : timeout (record { text = "timed out: no answer"; temporary = false }) ≡ true
unfolding timeout
timed_out = refl

-- two ports of br0, and two interfaces, the first without a number
abbrev rows_port : PortRow
rows_port = record {
  uuid = "p1";
  name = "tun0";
  external_ids = ("k", "v") ∷ [];
  interfaces = "i1" ∷ [];
}

abbrev rows_interface : InterfaceRow
rows_interface = record { uuid = "i1"; name = "tun0"; of_port = none }

abbrev gw0_port : PortRow
gw0_port = record { uuid = "p2"; name = "gw0"; external_ids = []; interfaces = "i2" ∷ [] }

abbrev gw0_row : InterfaceRow
gw0_row = record { uuid = "i2"; name = "gw0"; of_port = some 2 }

abbrev port_rows : List PortRow
port_rows = rows_port ∷ gw0_port ∷ []

abbrev interface_rows : List InterfaceRow
interface_rows = rows_interface ∷ gw0_row ∷ []

abbrev listing : Library (Dict String String)
listing = record {
  named_uuid = λ ops. "row1";
  commit = λ ops w. (port_list_reply id_set ("p1" ∷ "p2" ∷ []) port_rows interface_rows, w);
  make_ovsdb_set = λ m. no_items;
  make_ovsdb_map = λ m. no_items;
  get_id_list = ids_of;
}

ids_of-id_set : (ids : List String) → ids_of (id_set ids) ≡ ok ids
ids_of-id_set [] = refl
ids_of-id_set (id ∷ ids) = rw (ids_of-id_set ids)

abbrev tun0_data : OvsPortData
tun0_data = record {
  uuid = "p1";
  name = "tun0";
  external_ids = ("k", "v") ∷ [];
  if_name = "tun0";
  of_port = 0;
}

abbrev gw0_data : OvsPortData
gw0_data = record { uuid = "p2"; name = "gw0"; external_ids = []; if_name = "gw0"; of_port = 2 }

both_Entries : Entries port_rows interface_rows ("p1" ∷ "p2" ∷ []) (tun0_data ∷ gw0_data ∷ [])
unfolding string_eq lookup
both_Entries =
    entry "p1" "i1" [] ("p2" ∷ []) rows_port rows_interface (gw0_data ∷ []) refl refl refl
      (refl, tt) (entry "p2" "i2" [] [] gw0_port gw0_row [] refl refl refl tt done)

get_port_list-Entries_example : get_port_list listing br0 ≡ (ok (tun0_data ∷ gw0_data ∷ []), br0)
get_port_list-Entries_example =
    get_port_list-Entries listing id_set ids_of-id_set br0 br0.ovsdb port_rows interface_rows refl
      both_Entries

get_port_uuid_by_if_name-Named_example :
    Named "tun0" (get_port_list listing br0) (get_port_uuid_by_if_name listing "tun0" br0)
get_port_uuid_by_if_name-Named_example = get_port_uuid_by_if_name-Named listing "tun0" br0
