-- ===== src/Frame/Command.antt =====
-- The command byte of a request: crates/zydecodb-engine/src/frame.rs.
use zydecodb.Prelude.{ℕ, Bool, true, false, Option, none, some, ◌==◌, if◌then◌else◌}

-- `enum Command`.
pub data Command : Type 0 where
  put get del begin commit rollback query doc_put doc_del find update delete count : Command
  doc_get_rev find_rev doc_put_if_match doc_update_if_match aggregate watch index_def : Command
  schema_def session_init set_context admin_drop_tenant admin_seal_wal ping stats : Command

-- `Command::as_u8`.
unfoldable pub as_u8 : Command → ℕ
as_u8 put = 0x01
as_u8 get = 0x02
as_u8 del = 0x03
as_u8 begin = 0x10
as_u8 commit = 0x11
as_u8 rollback = 0x12
as_u8 query = 0x20
as_u8 doc_put = 0x21
as_u8 doc_del = 0x22
as_u8 find = 0x23
as_u8 update = 0x24
as_u8 delete = 0x25
as_u8 count = 0x26
as_u8 doc_get_rev = 0x27
as_u8 find_rev = 0x28
as_u8 doc_put_if_match = 0x29
as_u8 doc_update_if_match = 0x2a
as_u8 aggregate = 0x2b
as_u8 watch = 0x2c
as_u8 index_def = 0x30
as_u8 schema_def = 0x31
as_u8 session_init = 0x40
as_u8 set_context = 0x41
as_u8 admin_drop_tenant = 0x42
as_u8 admin_seal_wal = 0x43
as_u8 ping = 0xf0
as_u8 stats = 0xf1

-- `Command::from_u8`.
unfoldable pub from_u8 : ℕ → Option Command
from_u8 b =
    if b == 0x01
    then some put
    else if b == 0x02
    then some get
    else if b == 0x03
    then some del
    else if b == 0x10
    then some begin
    else if b == 0x11
    then some commit
    else if b == 0x12
    then some rollback
    else if b == 0x20
    then some query
    else if b == 0x21
    then some doc_put
    else if b == 0x22
    then some doc_del
    else if b == 0x23
    then some find
    else if b == 0x24
    then some update
    else if b == 0x25
    then some delete
    else if b == 0x26
    then some count
    else if b == 0x27
    then some doc_get_rev
    else if b == 0x28
    then some find_rev
    else if b == 0x29
    then some doc_put_if_match
    else if b == 0x2a
    then some doc_update_if_match
    else if b == 0x2b
    then some aggregate
    else if b == 0x2c
    then some watch
    else if b == 0x30
    then some index_def
    else if b == 0x31
    then some schema_def
    else if b == 0x40
    then some session_init
    else if b == 0x41
    then some set_context
    else if b == 0x42
    then some admin_drop_tenant
    else if b == 0x43
    then some admin_seal_wal
    else if b == 0xf0
    then some ping
    else if b == 0xf1
    then some stats
    else none

-- `Command::is_kv_command`.
unfoldable pub is_kv_command : Command → Bool
is_kv_command put = true
is_kv_command get = true
is_kv_command del = true
is_kv_command session_init = true
is_kv_command set_context = true
is_kv_command admin_drop_tenant = true
is_kv_command admin_seal_wal = true
is_kv_command ping = true
is_kv_command stats = true
is_kv_command _ = false

-- `Command::is_document_command`.
unfoldable pub is_document_command : Command → Bool
is_document_command query = true
is_document_command doc_put = true
is_document_command doc_del = true
is_document_command find = true
is_document_command update = true
is_document_command delete = true
is_document_command count = true
is_document_command doc_get_rev = true
is_document_command find_rev = true
is_document_command doc_put_if_match = true
is_document_command doc_update_if_match = true
is_document_command aggregate = true
is_document_command watch = true
is_document_command index_def = true
is_document_command _ = false

-- `Command::is_transaction_command`.
unfoldable pub is_transaction_command : Command → Bool
is_transaction_command begin = true
is_transaction_command commit = true
is_transaction_command rollback = true
is_transaction_command _ = false

-- `Command::is_transaction_allowed`.
unfoldable pub is_transaction_allowed : Command → Bool
is_transaction_allowed put = true
is_transaction_allowed get = true
is_transaction_allowed del = true
is_transaction_allowed doc_put = true
is_transaction_allowed doc_del = true
is_transaction_allowed doc_get_rev = true
is_transaction_allowed doc_put_if_match = true
is_transaction_allowed doc_update_if_match = true
is_transaction_allowed ping = true
is_transaction_allowed stats = true
is_transaction_allowed _ = false
