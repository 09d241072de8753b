-- ===== src/Binding/Switch.antt =====
-- pkg/ovs/openflow/cmd_bridge.go and cmd_table.go, and the types of interfaces.go. A table's
-- counter stands in the state, since every flow of the table shares it through a pointer; its
-- fields that never change are a value. The time stamps of tables are not modelled.
pub mod Connect
use ciccni.Base.{
  ℕ, zero, suc, ◌+◌, ◌-◌, ◌%◌, ◌^◌, String, Bool, true, false, List, [], ◌∷◌, ◌++◌, map, Option,
  none, some, if◌then◌else◌, Dict, lookup, insert, Exec, Done, pure, connect_failed, ok, err,
  nat_eq,
}

-- MissActionType
pub data MissAction : Type 0 where
  miss_drop miss_normal miss_next : MissAction

-- LastTableID
abbrev pub last_table_id : ℕ
last_table_id = 0xff

-- commandTable
pub record Table : Type 0 where
  pub bridge : String
  pub id : ℕ
  pub next : ℕ
  pub miss_action : MissAction

-- TableStatus
pub record TableStatus : Type 0 where
  pub id : ℕ
  pub flow_count : ℕ

-- A command line: the program's name and its arguments.
abbrev pub Command : Type 0
Command = List String

-- `executor` answers whether a command succeeds, given the commands run before it. `log` holds the
-- commands run so far, the oldest first. `table_cache` is the bridge's, `flow_counts` the counters.
pub record Switch : Type 0 where
  pub executor : List Command → Command → Bool
  pub log : List Command
  pub name : String
  pub table_cache : Dict ℕ Table
  pub flow_counts : Dict ℕ ℕ

-- executor(name, args...).CombinedOutput(), and whether its error is nil
unfoldable pub execute : Command → Switch → Bool × Switch
execute cmd s = (s.executor s.log cmd, record s { log = s.log ++ cmd ∷ [] })

-- NewBridge
abbrev pub new_bridge : (List Command → Command → Bool) → String → Switch
new_bridge executor name = record {
  executor = executor;
  log = [];
  name = name;
  table_cache = [];
  flow_counts = [];
}

-- CreateTable
unfoldable pub create_table : ℕ → ℕ → MissAction → Switch → Table × Switch
create_table id next miss_action s =
    let t : Table = record { bridge = s.name; id = id; next = next; miss_action = miss_action } in
    (
      t,
      record s { table_cache = insert id t s.table_cache; flow_counts = insert id 0 s.flow_counts },
    )

-- the counter of a table; a new table's is zero
unfoldable pub flow_count : ℕ → Switch → ℕ
flow_count id s = elim (lookup id s.flow_counts) [ none ↦ 0 | some n ↦ n ]

-- uint arithmetic, 64 bits wide
abbrev pub uint_mod : ℕ
uint_mod = 2 ^ 64

-- the deltas that the program passes to UpdateStatus: 1, 0 and -1
pub data Delta : Type 0 where
  plus_one no_change minus_one : Delta

-- UpdateStatus
unfoldable pub counted : Delta → ℕ → ℕ
counted plus_one n = (n + 1) % uint_mod
counted no_change n = n
counted minus_one n = (n + uint_mod - 1) % uint_mod

unfoldable pub update_status : Table → Delta → Switch → Switch
unfolding flow_count counted
update_status t d s = record s {
  flow_counts = insert t.id (counted d (flow_count t.id s)) s.flow_counts;
}

-- Status
unfoldable pub status : Switch → Table → TableStatus
unfolding flow_count
status s t = record { id = t.id; flow_count = flow_count t.id s }

-- DumpTableStatus
unfoldable pub dump_table_status : Switch → List TableStatus
unfolding status
dump_table_status s = map (λ (_, t). status s t) s.table_cache

-- DeleteTable keeps the table and answers true.
unfoldable pub delete_table : ℕ → Switch → Bool × Switch
delete_table id s = (true, s)

abbrev pub show_command : Switch → Command
show_command s = "ovs-ofctl" ∷ "show" ∷ s.name ∷ []

-- the loop of Connect with `left` rounds to go; the sleep between two rounds is not modelled
unfoldable pub connect_loop : ℕ → ℕ → Exec Switch Done
unfolding execute
connect_loop max_retry zero s = (err (connect_failed max_retry), s)
connect_loop max_retry (suc left) s =
    let (fine, s') = execute (show_command s) s in
    let again = connect_loop max_retry left s' in if fine then (ok tt, s') else again

-- Connect
unfoldable pub connect : ℕ → Exec Switch Done
unfolding connect_loop
connect max_retry = connect_loop max_retry max_retry

-- Disconnect
unfoldable pub disconnect : Exec Switch Done
disconnect = pure tt
