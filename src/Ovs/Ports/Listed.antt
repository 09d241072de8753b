-- ===== src/Ovs/Ports/Listed.antt =====
-- GetPortList of pkg/ovs/ovs-client.go on the rows that the database sends. A row is the JSON text of
-- a record: a UUID is ["uuid", id] and a map is ["map", [[key, value], ...]].
use ciccni.Base.{
  ℕ, ◌%◌, ◌^◌, String, ◌≡◌, refl, List, [], ◌∷◌, ◌++◌, append-nil, append_assoc, map, Option, none,
  some, Dict, lookup, insert, string_eq, lookup-insert, ap, ◌==◌, if◌then◌else◌, arith, ok, ◌∙◌,
}
use ciccni.Ovs.Values.{
  Value, Items, Fields, text, number, array, object, no_items, item, fields, row_uuid, add_pairs,
  build_map_from_ovsdb_map,
}
use ciccni.Ovs.PortData.{OvsPortData}
use ciccni.Ovs.Database.{Result, Library, OvsBridge, Reply, committed}
use ciccni.Ovs.Results.{assigned, index_rows, row_at, describe_port, describe_ports}
use ciccni.Ovs.Ports.{port_list_request, get_port_list}

-- a port and an interface of the database; the number of the latter may not be assigned
pub record PortRow : Type 0 where
  pub uuid : String
  pub name : String
  pub external_ids : Dict String String
  pub interfaces : List String

pub record InterfaceRow : Type 0 where
  pub uuid : String
  pub name : String
  pub of_port : Option ℕ

abbrev pair_of : String → String → Value
pair_of k v = array (item (text k) (item (text v) no_items))

abbrev pub pairs_of : Dict String String → Items
pairs_of [] = no_items
pairs_of ((k, v) ∷ m) = item (pair_of k v) (pairs_of m)

abbrev pub map_of : Dict String String → Items
map_of m = item (text "map") (item (array (pairs_of m)) no_items)

abbrev of_port_value : Option ℕ → Value
of_port_value none = array (item (text "set") (item (array no_items) no_items))
of_port_value (some n) = number n

-- the rows, where `set` is how the database writes a set of UUIDs
abbrev pub port_fields : (List String → Items) → PortRow → Fields
port_fields set p = fields (
    ("_uuid", pair_of "uuid" p.uuid)
    ∷ ("name", text p.name)
    ∷ ("external_ids", array (map_of p.external_ids))
    ∷ ("interfaces", array (set p.interfaces))
    ∷ [])

abbrev pub interface_fields : InterfaceRow → Fields
interface_fields i = fields (
    ("_uuid", pair_of "uuid" i.uuid)
    ∷ ("name", text i.name)
    ∷ ("ofport", of_port_value i.of_port)
    ∷ [])

abbrev pub bridge_fields : (List String → Items) → List String → Fields
bridge_fields set ports = fields (("ports", array (set ports)) ∷ [])

-- No key occurs twice.
abbrev pub Distinct : Dict String String → Type 0
Distinct [] = Unit {0}
Distinct ((k, v) ∷ m) = (lookup k m ≡ none) × Distinct m

abbrev Fresh : Dict String String → Dict String String → Type 0
Fresh [] acc = Unit {0}
Fresh ((k, v) ∷ m) acc = (lookup k acc ≡ none) × Fresh m acc

insert-fresh :
    (k v : String) (m : Dict String String) → lookup k m ≡ none → insert k v m ≡ m ++ (k, v) ∷ []
unfolding insert lookup
insert-fresh k v [] h = refl
insert-fresh k v ((j, w) ∷ m) h = ground (arith, insert-fresh k v m)

Fresh-insert :
    (k v : String) (m acc : Dict String String)
    → lookup k m ≡ none
    → Fresh m acc
    → Fresh m (insert k v acc)
unfolding lookup
Fresh-insert k v [] acc h f = tt
Fresh-insert k v ((j, w) ∷ m) acc h f =
    (ground (arith, lookup-insert j k v acc), Fresh-insert k v m acc (ground arith) f.1)

add_pairs-pairs_of :
    (m acc : Dict String String)
    → Distinct m
    → Fresh m acc
    → add_pairs (pairs_of m) acc ≡ ok (acc ++ m)
unfolding add_pairs
add_pairs-pairs_of [] acc d f = rw (append-nil acc)
add_pairs-pairs_of ((k, v) ∷ m) acc d f =
    add_pairs-pairs_of m (insert k v acc) d.1 (Fresh-insert k v m acc d.0 f.1)
    ∙ rw (insert-fresh k v acc f.0, append_assoc)

Fresh-nil : (m : Dict String String) → Fresh m []
unfolding lookup
Fresh-nil [] = tt
Fresh-nil ((k, v) ∷ m) = (refl, Fresh-nil m)

-- Reading a map with distinct keys gives it back.
pub build_map_from_ovsdb_map-map_of :
    (m : Dict String String) → Distinct m → build_map_from_ovsdb_map (map_of m) ≡ ok m
unfolding build_map_from_ovsdb_map string_eq
build_map_from_ovsdb_map-map_of m d = add_pairs-pairs_of m [] d (Fresh-nil m)

-- the last row with the UUID
abbrev pub latest {ℓ} : {A : Type ℓ} → (A → String) → String → List A → Option A
latest id uuid [] = none
latest id uuid (a ∷ rows) = elim (latest id uuid rows) [
  | some later ↦ some later
  | none ↦ if uuid == id a then some a else none
]

module _ {A : Type 0} (id : A → String) (row : A → Fields)
    (identified : (a : A) → row_uuid (row a) ≡ ok (id a)) where
  abbrev tabled : List A → Dict String Fields → Dict String Fields
  tabled [] m = m
  tabled (a ∷ rows) m = tabled rows (insert (id a) (row a) m)

  index_rows-tabled :
      (rows : List A) (m : Dict String Fields)
      → index_rows (map (λ a. object (row a)) rows) m ≡ ok (tabled rows m)
  unfolding index_rows
  index_rows-tabled [] m = refl
  index_rows-tabled (a ∷ rows) m =
      rw (identified a) (index_rows-tabled rows (insert (id a) (row a) m))

  abbrev row_or : Option Fields → Option A → Option Fields
  row_or before none = before
  row_or before (some a) = some (row a)

  lookup-tabled :
      (uuid : String) (rows : List A) (m : Dict String Fields)
      → lookup uuid (tabled rows m) ≡ row_or (lookup uuid m) (latest id uuid rows)
  lookup-tabled uuid [] m = refl
  lookup-tabled uuid (a ∷ rows) m = ground (
    arith,
    lookup-tabled uuid rows (insert (id a) (row a) m),
    lookup-insert uuid (id a) (row a) m,
  )

  row_at-tabled :
      (uuid : String) (a : A) (rows : List A)
      → latest id uuid rows ≡ some a
      → row_at uuid (tabled rows []) ≡ row a
  unfolding row_at
  row_at-tabled uuid a rows h = rw (lookup-tabled uuid rows [], h, row_at)

abbrev or_zero : Option ℕ → ℕ
or_zero none = 0
or_zero (some n) = n % 2 ^ 32

assigned-of_port : (n : Option ℕ) → assigned (of_port_value n) ≡ or_zero n
assigned-of_port none = refl
assigned-of_port (some n) = refl

-- What the list says of each port of the bridge, by the rows of ports and of interfaces: the port's
-- name and external ids, and the name and number of its first interface.
pub data Entries (ports : List PortRow) (ifs : List InterfaceRow)
    : List String → List OvsPortData → Type 0 where
  done : Entries ports ifs [] []
  entry :
      (uuid if_uuid : String) (others uuids : List String) (p : PortRow) (i : InterfaceRow)
      (entries : List OvsPortData)
      → latest (λ (p : PortRow). p.uuid) uuid ports ≡ some p
      → p.interfaces ≡ if_uuid ∷ others
      → latest (λ (i : InterfaceRow). i.uuid) if_uuid ifs ≡ some i
      → Distinct p.external_ids
      → Entries ports ifs uuids entries
      → Entries ports ifs (uuid ∷ uuids) (
          record {
            uuid = uuid;
            name = p.name;
            external_ids = p.external_ids;
            if_name = i.name;
            of_port = or_zero i.of_port;
          }
          ∷ entries)

module _ {W : Type 0} (lib : Library W) (set : List String → Items)
    (read_back : (ids : List String) → lib.get_id_list (set ids) ≡ ok ids) where
  port_identified : (p : PortRow) → row_uuid (port_fields set p) ≡ ok p.uuid
  unfolding row_uuid string_eq
  port_identified p = refl

  interface_identified : (i : InterfaceRow) → row_uuid (interface_fields i) ≡ ok i.uuid
  unfolding row_uuid string_eq
  interface_identified i = refl

  describe_entry :
      (port_map if_map : Dict String Fields) (uuid if_uuid : String) (others : List String)
      (p : PortRow) (i : InterfaceRow)
      → row_at uuid port_map ≡ port_fields set p
      → p.interfaces ≡ if_uuid ∷ others
      → row_at if_uuid if_map ≡ interface_fields i
      → Distinct p.external_ids
      → describe_port lib port_map if_map uuid
        ≡ ok (record {
          uuid = uuid;
          name = p.name;
          external_ids = p.external_ids;
          if_name = i.name;
          of_port = or_zero i.of_port;
        })
  unfolding describe_port string_eq
  describe_entry port_map if_map uuid if_uuid others p i hp hi hf d =
      rw (hp, read_back p.interfaces, hi, hf, build_map_from_ovsdb_map-map_of p.external_ids d)
        (ap
          (λ n. ok (record {
            uuid = uuid;
            name = p.name;
            external_ids = p.external_ids;
            if_name = i.name;
            of_port = n;
          }))
          (assigned-of_port i.of_port))

  Entries-describe_ports :
      (ports : List PortRow) (ifs : List InterfaceRow) {uuids : List String}
      {entries : List OvsPortData}
      → Entries ports ifs uuids entries
      → describe_ports lib
          (tabled (λ (p : PortRow). p.uuid) (port_fields set) port_identified ports [])
          (tabled (λ (i : InterfaceRow). i.uuid) interface_fields interface_identified ifs [])
          uuids
        ≡ ok entries
  unfolding describe_ports
  Entries-describe_ports ports ifs done = refl
  Entries-describe_ports ports ifs (entry uuid if_uuid others uuids p i entries hp hi hf d rest) =
      rw (
        describe_entry _ _ uuid if_uuid others p i
            (row_at-tabled (λ (p : PortRow). p.uuid) (port_fields set) port_identified uuid p ports
              hp)
            hi
            (row_at-tabled (λ (i : InterfaceRow). i.uuid) interface_fields interface_identified
              if_uuid i ifs hf)
            d,
        Entries-describe_ports ports ifs rest,
      )

abbrev result_of : List Value → Result
result_of rows = record { rows = rows; uuid = [] }

-- what the database answers to GetPortList: the bridge's row, and the rows of all ports and interfaces
abbrev pub port_list_reply :
    (List String → Items) → List String → List PortRow → List InterfaceRow → Reply
port_list_reply set uuids ports ifs = committed (
    result_of (object (bridge_fields set uuids) ∷ [])
    ∷ result_of (map (λ p. object (port_fields set p)) ports)
    ∷ result_of (map (λ i. object (interface_fields i)) ifs)
    ∷ [])

-- If the database answers with the row of the bridge, whose ports are `uuids`, and with rows of ports
-- and interfaces that hold those ports and their first interfaces, then GetPortList returns one entry
-- for each of `uuids`, in their order, with the port's name and external ids and the name and number
-- of its first interface, cut to 32 bits, and with the number 0 if the
-- interface has the empty set for its number, as none is assigned. The library is supposed to read
-- a set of UUIDs back as the database writes it, and a port's external ids to have distinct keys.
pub get_port_list-Entries :
    {W : Type 0} (lib : Library W) (set : List String → Items)
    (read_back : (ids : List String) → lib.get_id_list (set ids) ≡ ok ids) (b : OvsBridge W) (w : W)
    (ports : List PortRow) (ifs : List InterfaceRow) {uuids : List String}
    {entries : List OvsPortData}
    → lib.commit (port_list_request lib b.name) b.ovsdb ≡ (port_list_reply set uuids ports ifs, w)
    → Entries ports ifs uuids entries
    → get_port_list lib b ≡ (ok entries, record b { ovsdb = w })
unfolding get_port_list string_eq
get_port_list-Entries lib set read_back b w ports ifs {uuids} reply e = rw (
  reply,
  read_back uuids,
  index_rows-tabled (λ (p : PortRow). p.uuid) (port_fields set) (port_identified lib set read_back)
      ports [],
  index_rows-tabled (λ (i : InterfaceRow). i.uuid) interface_fields
      (interface_identified lib set read_back) ifs [],
  Entries-describe_ports lib set read_back ports ifs e,
)
