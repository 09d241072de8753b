-- ===== src/Ovs/Database.antt =====
-- What pkg/ovs/ovs-client.go uses of OVSDB-golang-lib, and the rows of pkg/ovs/ovs_schema.go. The
-- library is a parameter: a transaction is the list of its operations.
use ciccni.Base.{
  ℕ, String, Bool, List, [], ◌∷◌, Option, Dict, Outcome, ok, err, Exec, Done, pure, ◌>>=◌,
}
use ciccni.Ovs.Values.{Value, Items, text}
use ciccni.Ovs.Errors.{new_transaction_error}

-- Bridge, Port and Interface of ovs_schema.go; a field that is left out of the JSON text when it is
-- empty is `none`, "" or 0
pub record Bridge : Type 0 where
  pub name : String
  pub protocols : Items
  pub datapath_type : String

pub record Port : Type 0 where
  pub name : String
  pub interfaces : Items
  pub external_ids : Option Items

pub record Interface : Type 0 where
  pub name : String
  pub type : String
  pub of_port_request : ℕ
  pub options : Option Items

pub data Row : Type 0 where
  bridge_row : Bridge → Row
  port_row : Port → Row
  interface_row : Interface → Row

-- {column, "==", value}
pub record Condition : Type 0 where
  pub column : String
  pub equals : Value

-- {column, mutator, set}
pub record Mutation : Type 0 where
  pub column : String
  pub mutator : String
  pub set : Items

-- dbtransaction.Select, Insert, Update, Mutate and Wait
pub data Operation : Type 0 where
  select : String → List String → List Condition → Operation
  insert_row : String → Row → Operation
  update : String → List Condition → Dict String Value → Operation
  mutate : String → List Mutation → List Condition → Operation
  wait : String → ℕ → List String → String → List Value → List Condition → Operation

pub record Result : Type 0 where
  pub rows : List Value
  pub uuid : List String

-- what Commit returns: the results, or an error's text and whether it is temporary
pub data Reply : Type 0 where
  committed : List Result → Reply
  refused : String → Bool → Reply

-- The library on a database of type `W`: the name that a row gets which is inserted after some
-- operations of its transaction, Commit, and helpers.MakeOVSDBSet, MakeOVSDBMap and
-- GetIdListFromOVSDBSet
pub record Library (W : Type 0) : Type 0 where
  pub named_uuid : List Operation → String
  pub commit : List Operation → W → Reply × W
  pub make_ovsdb_set : Dict String Value → Items
  pub make_ovsdb_map : Dict String Value → Items
  pub get_id_list : Items → Outcome (List String)

-- OVSBridge, with the database that its connection leads to
pub record OvsBridge (W : Type 0) : Type 0 where
  pub ovsdb : W
  pub name : String
  pub datapath_type : String
  pub uuid : String

abbrev pub by_name : String → List Condition
by_name name = record { column = "name"; equals = text name } ∷ []

module _ {W : Type 0} where
  abbrev pub answer : OvsBridge W → Reply × W → Outcome (List Result) × OvsBridge W
  answer b (committed results, w) = (ok results, record b { ovsdb = w })
  answer b (refused e temporary, w) =
      (err (new_transaction_error e temporary), record b { ovsdb = w })

  -- tx.Commit() of a transaction, and NewTransactionError if it fails
  unfoldable pub transact : Library W → List Operation → Exec (OvsBridge W) (List Result)
  transact lib ops b = answer b (lib.commit ops b.ovsdb)

  -- a transaction whose results are not read
  unfoldable pub perform : Library W → List Operation → Exec (OvsBridge W) Done
  unfolding transact
  perform lib ops = do _ ← transact lib ops; pure tt

  abbrev pub bridge_name : Exec (OvsBridge W) String
  bridge_name b = (ok b.name, b)
