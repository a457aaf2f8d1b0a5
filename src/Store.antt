-- ===== src/Store.antt =====
-- internal/store/sqlite.go: chat messages are buffered and written in batches, each in one
-- transaction.
pub mod Refinement
use snipr.Base.{
  ℕ, suc, zero, ◌+◌, Bool, true, false, not, Option, none, some, List, [], ◌∷◌, ◌++◌, ltb,
  if◌then◌else◌, length, Result, ok, err,
}
use snipr.Base.Int.{ℤ, pos, negsuc}
use snipr.Models.{ChatMessage}
use snipr.Text.{Text, eq_text, is_empty}

-- A row of `chat_messages`. The emotes and the time are kept before they are put into JSON and
-- RFC 3339 text.
pub record Row : Type 0 where
  pub id : Text
  pub channel : Text
  pub user_id : Text
  pub user_name : Text
  pub content : Text
  pub emotes : List Text
  pub bits : ℤ
  pub timestamp : ℤ

abbrev pub row_of : ChatMessage → Row
row_of msg = record {
  id = msg.id;
  channel = msg.channel;
  user_id = msg.user_id;
  user_name = msg.user_name;
  content = msg.content;
  emotes = msg.emotes;
  bits = msg.bits;
  timestamp = msg.timestamp;
}

unfoldable pub has_id : Text → List Row → Bool
unfolding eq_text
has_id k [] = false
has_id k (r ∷ rows) = if eq_text r.id k then true else has_id k rows

-- `INSERT OR IGNORE` into a table whose primary key is `id`.
unfoldable pub insert_or_ignore : Row → List Row → List Row
unfolding has_id
insert_or_ignore r rows = if has_id r.id rows then rows else rows ++ r ∷ []

pub data StoreError : Type 0 where
  begin_tx prepare_insert insert_message commit_tx : StoreError

-- How the driver answers the calls of one flush; `exec_fails i` is about the i-th insert.
pub record Driver : Type 0 where
  pub begin_fails : Bool
  pub prepare_fails : Bool
  pub exec_fails : ℕ → Bool
  pub commit_fails : Bool

pub record SqliteStore : Type 0 where
  pub rows : List Row
  pub batch_size : ℕ
  pub buf : List ChatMessage

abbrev pub default_batch_size : ℕ
default_batch_size = 30

-- The size that `Open` settles on, and the store that it returns over the rows of the file.
unfoldable pub open_size : ℤ → ℕ
open_size (pos (suc n)) = suc n
open_size _ = default_batch_size

unfoldable pub open_store : List Row → ℤ → SqliteStore
unfolding open_size
open_store rows batch_size = record { rows = rows; batch_size = open_size batch_size; buf = [] }

-- How the driver answers the calls of one `Open`, and the rows of the file.
pub record Database : Type 0 where
  pub opens : Bool
  pub answers : Bool
  pub migrates : Bool
  pub rows : List Row

pub data OpenError : Type 0 where
  open_sqlite ping_sqlite migrate_schema : OpenError

-- `Open`: whether a handle of the file is left open, and the result.
unfoldable pub open_path : Database → ℤ → Bool × Result OpenError SqliteStore
unfolding open_store
open_path db batch_size =
    if not db.opens
    then (false, err open_sqlite)
    else if not db.answers
    then (false, err ping_sqlite)
    else if not db.migrates
    then (false, err migrate_schema)
    else (true, ok (open_store db.rows batch_size))

-- The loop of `stmt.ExecContext`: the table inside the transaction, or `none` after a rollback.
unfoldable pub exec_all : Driver → ℕ → List Row → List ChatMessage → Option (List Row)
unfolding insert_or_ignore
exec_all d i rows [] = some rows
exec_all d i rows (msg ∷ msgs) =
    let rest = exec_all d (i + 1) (insert_or_ignore (row_of msg) rows) msgs in
    if d.exec_fails i then none else rest

abbrev pub commit : Driver → SqliteStore → Option (List Row) → SqliteStore × Option StoreError
commit d s none = (s, some insert_message)
commit d s (some rows) =
    if d.commit_fails then (s, some commit_tx) else (record s { rows = rows; buf = [] }, none)

-- `flushLocked`
unfoldable pub flush_locked : Driver → SqliteStore → SqliteStore × Option StoreError
unfolding exec_all
flush_locked d s =
    if is_empty s.buf
    then (s, none)
    else if d.begin_fails
    then (s, some begin_tx)
    else if d.prepare_fails
    then (s, some prepare_insert)
    else commit d s (exec_all d 0 s.rows s.buf)

-- `Enqueue`
unfoldable pub enqueue : Driver → ChatMessage → SqliteStore → SqliteStore × Option StoreError
unfolding flush_locked
enqueue d msg s =
    let s' = record s { buf = s.buf ++ msg ∷ [] } in
    if ltb (length s'.buf) s.batch_size then (s', none) else flush_locked d s'

-- `Flush`; `Close` makes the same call and drops its error.
abbrev pub flush : Driver → SqliteStore → SqliteStore × Option StoreError
flush = flush_locked

-- `Count`
abbrev pub count : SqliteStore → ℕ
count s = length s.rows

pub data Call : Type 0 where
  call_enqueue : Driver → ChatMessage → Call
  call_flush : Driver → Call

unfoldable pub call : Call → SqliteStore → SqliteStore × Option StoreError
unfolding enqueue flush_locked
call (call_enqueue d msg) s = enqueue d msg s
call (call_flush d) s = flush d s

unfoldable pub run : List Call → SqliteStore → SqliteStore
unfolding call
run [] s = s
run (c ∷ cs) s = run cs (call c s).0
