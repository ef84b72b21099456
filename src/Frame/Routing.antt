-- ===== src/Frame/Routing.antt =====
-- Which dispatcher takes a command.
use zydecodb.Prelude.{◌≡◌, refl, Bool, true, false, ◌||◌, not, arith}
use zydecodb.Frame.Command.{
  Command, put, schema_def, is_kv_command, is_document_command, is_transaction_command,
  is_transaction_allowed,
}

-- The command is `SchemaDef`, the one reserved code.
unfoldable pub is_reserved : Command → Bool
is_reserved schema_def = true
is_reserved _ = false

abbrev one_of : Bool → Bool → Bool → Bool → Bool
one_of true b c d = not (b || c || d)
one_of false true c d = not (c || d)
one_of false false true d = not d
one_of false false false d = d

-- Every command goes to exactly one of the key-value dispatcher, the document layer and the
-- transaction control, except `SchemaDef`, which goes to none.
pub one_dispatcher :
    (c : Command)
    → one_of (is_kv_command c) (is_document_command c) (is_transaction_command c) (is_reserved c)
      ≡ true
unfolding is_kv_command is_document_command is_transaction_command is_reserved
one_dispatcher put = refl
one_dispatcher _ = refl

-- What may be staged or read in a transaction is a key-value or a document command, and never
-- transaction control itself.
pub allowed_in_transaction :
    (c : Command)
    → is_transaction_allowed c ≡ true
    → ((is_kv_command c || is_document_command c) ≡ true) × (is_transaction_command c ≡ false)
unfolding is_kv_command is_document_command is_transaction_command is_transaction_allowed
allowed_in_transaction put h = (refl, refl)
allowed_in_transaction _ h = ground arith
