-- ===== src/Ovs/Bridge/Created.antt =====
-- Create of pkg/ovs/ovs-client.go, on a database that keeps a table of bridges by name.
use ciccni.Base.{
  String, ◌≡◌, refl, ◌⊎◌, inl, inr, List, [], ◌∷◌, Option, none, some, Option-cases, Bool,
  string_eq, ◌==◌, if◌then◌else◌, Outcome, ok, err, transaction, Done, resume, pure,
}
use ciccni.Ovs.Values.{Value, text, array, object, fields, no_items, item, row_uuid}
use ciccni.Ovs.Database.{Reply, committed, refused, Result, Library, OvsBridge, answer}
use ciccni.Ovs.Bridge.{
  lookup_request, protocols_request, create_request, lookup_by_name, update_protocols,
  create_bridge, create,
}

-- the row of a bridge with the UUID, with its one column
abbrev pub uuid_row : String → Value
uuid_row uuid =
    object (fields (("_uuid", array (item (text "uuid") (item (text uuid) no_items))) ∷ []))

abbrev pub rows_of : Option String → List Value
rows_of none = []
rows_of (some uuid) = uuid_row uuid ∷ []

abbrev pub Refusal : {W : Type 0} → Reply × W → W → Type 0
Refusal r w = (e : String) × (t : Bool) × (r ≡ (refused e t, w))

-- The database: the UUID of each bridge by its name. It answers a transaction, or refuses it and
-- stays as it is. Selecting a bridge by name gives the row of that bridge, an update of its protocols
-- keeps the UUIDs, and the insertion of a new name adds one bridge and answers its UUID.
pub record BridgeTable {W : Type 0} (lib : Library W) : Type 0 where
  pub uuid_of : W → String → Option String
  pub looked :
      (name : String) (w : W)
      → (lib.commit (lookup_request lib name) w
          ≡ (committed (record { rows = rows_of (uuid_of w name); uuid = [] } ∷ []), w))
        ⊎ Refusal (lib.commit (lookup_request lib name) w) w
  pub updated :
      (name : String) (w : W)
      → ((rs : List Result) × (w' : W) × (lib.commit (protocols_request lib name) w
            ≡ (committed rs, w'))
          × ((j : String) → uuid_of w' j ≡ uuid_of w j))
        ⊎ Refusal (lib.commit (protocols_request lib name) w) w
  pub inserted :
      (name type : String) (w : W)
      → uuid_of w name ≡ none
      → ((u : String) × (rs : List Result) × (w' : W) × (lib.commit (create_request lib name type) w
            ≡ (committed (record { rows = []; uuid = "uuid" ∷ u ∷ [] } ∷ rs), w'))
          × ((j : String) → uuid_of w' j ≡ (if j == name then some u else uuid_of w j)))
        ⊎ Refusal (lib.commit (create_request lib name type) w) w

module _ {W : Type 0} (lib : Library W) (table : BridgeTable lib) where
  open table use {uuid_of, looked, updated, inserted}

  -- the database has answered the selection of the bridge
  abbrev pub Looked : OvsBridge W → Type 0
  Looked b =
      lib.commit (lookup_request lib b.name) b.ovsdb
      ≡ (committed (record { rows = rows_of (uuid_of b.ovsdb b.name); uuid = [] } ∷ []), b.ovsdb)

  -- How Create ends, for the bridge `b` before it.
  pub data Created (b : OvsBridge W) : Outcome Done × OvsBridge W → Type 0 where
    existed :
        (b' : OvsBridge W) (rs : List Result)
        → Looked b
        → uuid_of b.ovsdb b.name ≡ some b'.uuid
        → lib.commit (protocols_request lib b.name) b.ovsdb ≡ (committed rs, b'.ovsdb)
        → ((j : String) → uuid_of b'.ovsdb j ≡ uuid_of b.ovsdb j)
        → Created b (ok tt, b')
    added :
        (b' : OvsBridge W) (rs : List Result)
        → Looked b
        → uuid_of b.ovsdb b.name ≡ none
        → lib.commit (create_request lib b.name b.datapath_type) b.ovsdb
          ≡ (committed (record { rows = []; uuid = "uuid" ∷ b'.uuid ∷ [] } ∷ rs), b'.ovsdb)
        → ((j : String)
            → uuid_of b'.ovsdb j ≡ (if j == b.name then some b'.uuid else uuid_of b.ovsdb j))
        → Created b (ok tt, b')
    unanswered :
        (e : String) (t : Bool)
        → lib.commit (lookup_request lib b.name) b.ovsdb ≡ (refused e t, b.ovsdb)
        → Created b (err (transaction e t), b)
    outdated :
        (u e : String) (t : Bool)
        → Looked b
        → uuid_of b.ovsdb b.name ≡ some u
        → lib.commit (protocols_request lib b.name) b.ovsdb ≡ (refused e t, b.ovsdb)
        → Created b (err (transaction e t), record b { uuid = u })
    unadded :
        (e : String) (t : Bool)
        → Looked b
        → uuid_of b.ovsdb b.name ≡ none
        → lib.commit (create_request lib b.name b.datapath_type) b.ovsdb ≡ (refused e t, b.ovsdb)
        → Created b (err (transaction e t), b)

  lookup_missing :
      (b : OvsBridge W)
      → uuid_of b.ovsdb b.name ≡ none
      → lib.commit (lookup_request lib b.name) b.ovsdb
        ≡ (committed (record { rows = rows_of (uuid_of b.ovsdb b.name); uuid = [] } ∷ []), b.ovsdb)
      → create lib b ≡ create_bridge lib b
  unfolding create lookup_by_name
  lookup_missing b e r = rw (r, e) refl

  lookup_present :
      (b : OvsBridge W) (u : String)
      → uuid_of b.ovsdb b.name ≡ some u
      → lib.commit (lookup_request lib b.name) b.ovsdb
        ≡ (committed (record { rows = rows_of (uuid_of b.ovsdb b.name); uuid = [] } ∷ []), b.ovsdb)
      → create lib b ≡ update_protocols lib (record b { uuid = u })
  unfolding create lookup_by_name string_eq row_uuid
  lookup_present b u e r = rw (r, e) refl

  lookup_refused :
      (b : OvsBridge W) (e : String) (t : Bool)
      → lib.commit (lookup_request lib b.name) b.ovsdb ≡ (refused e t, b.ovsdb)
      → create lib b ≡ (err (transaction e t), b)
  unfolding create lookup_by_name
  lookup_refused b e t r = rw r refl

  protocols_lem :
      (b : OvsBridge W) {r : Reply} {w : W}
      → lib.commit (protocols_request lib b.name) b.ovsdb ≡ (r, w)
      → update_protocols lib b ≡ resume (answer b (r, w)) (λ _. pure tt)
  unfolding update_protocols
  protocols_lem b r = rw r refl

  create_bridge_lem :
      (b : OvsBridge W) {u : String} {rs : List Result} {w : W}
      → lib.commit (create_request lib b.name b.datapath_type) b.ovsdb
        ≡ (committed (record { rows = []; uuid = "uuid" ∷ u ∷ [] } ∷ rs), w)
      → create_bridge lib b ≡ (ok tt, record b { ovsdb = w; uuid = u })
  unfolding create_bridge
  create_bridge_lem b r = rw r refl

  create_bridge-refused :
      (b : OvsBridge W) {e : String} {t : Bool} {w : W}
      → lib.commit (create_request lib b.name b.datapath_type) b.ovsdb ≡ (refused e t, w)
      → create_bridge lib b ≡ (err (transaction e t), record b { ovsdb = w })
  unfolding create_bridge
  create_bridge-refused b r = rw r refl

  Created-present :
      (b : OvsBridge W) (u : String)
      → Looked b
      → uuid_of b.ovsdb b.name ≡ some u
      → Created b (update_protocols lib (record b { uuid = u }))
  Created-present b u l e = elim (updated b.name b.ovsdb) [
    | inl (rs, w', r, same) ↦ rw (protocols_lem (record b { uuid = u }) r) (existed _ rs l e r same)
    | inr (x, t, r) ↦ rw (protocols_lem (record b { uuid = u }) r) (outdated u x t l e r)
  ]

  Created-missing :
      (b : OvsBridge W) → Looked b → uuid_of b.ovsdb b.name ≡ none → Created b (create_bridge lib b)
  Created-missing b l e = elim (inserted b.name b.datapath_type b.ovsdb e) [
    | inl (u, rs, w', r, grown) ↦ rw (create_bridge_lem b r) (added _ rs l e r grown)
    | inr (x, t, r) ↦ rw (create_bridge-refused b r) (unadded x t l e r)
  ]

-- On a database that keeps a table of bridges by name, Create looks the bridge up, and does not panic.
-- If one of that name is there, it takes over its UUID and commits the update of its protocols, and
-- no bridge's UUID changes. If none is there, it commits the insertion of one under the name, with the
-- UUID that it takes over, and the others stay. If the database refuses the selection, or the
-- transaction that is due then, Create returns that transaction's error, and the database is as it
-- was.
pub create-Created :
    {W : Type 0} (lib : Library W) (table : BridgeTable lib) (b : OvsBridge W)
    → Created lib table b (create lib b)
create-Created lib table b = elim (table.looked b.name b.ovsdb) [
  | inr (x, t, r) ↦ rw (lookup_refused lib table b x t r) (unanswered x t r)
  | inl r ↦ elim (Option-cases (table.uuid_of b.ovsdb b.name)) [
    | inl e ↦ rw (lookup_missing lib table b e r) (Created-missing lib table b r e)
    | inr (u, e) ↦ rw (lookup_present lib table b u e r) (Created-present lib table b u r e)
  ]
]
