-- ===== src/Ovs/Errors.antt =====
-- pkg/ovs/errors.go: the error of a transaction, with its text and whether the library says that it
-- is temporary.
use ciccni.Base.{String, Bool, ◌||◌, Error, transaction}
use ciccni.Base.Text.{has_prefix}

pub record TransactionError : Type 0 where
  pub text : String
  pub temporary : Bool

-- NewTransactionError, as the methods return it
abbrev pub new_transaction_error : String → Bool → Error
new_transaction_error text temporary = transaction text temporary

-- Timeout
unfoldable pub timeout : TransactionError → Bool
unfolding has_prefix
timeout e = has_prefix e.text "timed out:"

-- Temporary
unfoldable pub is_temporary : TransactionError → Bool
unfolding timeout
is_temporary e = e.temporary || timeout e
