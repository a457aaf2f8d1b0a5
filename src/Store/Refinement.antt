-- ===== src/Store/Refinement.antt =====
-- The table and the buffer together stand for the messages that were enqueued.
use snipr.Base.{
  true, false, Bool, if◌then◌else◌, ℕ, ◌+◌, ◌<◌, ◌≡◌, refl, Option, none, some, List, [], ◌∷◌, ◌++◌,
  arith, ap, ◌∙◌, sym, length,
}
use snipr.Models.{ChatMessage}
use snipr.Store.{
  open_store, Row, row_of, insert_or_ignore, StoreError, Driver, SqliteStore, exec_all, commit,
  flush_locked, enqueue, flush, Call, call_enqueue, call_flush, call, run,
}
use snipr.Text.{is_empty}
use snipr.Base.Int.{ℤ}

-- What a promise of persistence means: each message in turn, the first one of an id counting.
pub insert_all : List Row → List ChatMessage → List Row
insert_all rows [] = rows
insert_all rows (m ∷ ms) = insert_all (insert_or_ignore (row_of m) rows) ms

-- The messages that the calls enqueue.
abbrev pub enqueued : List Call → List ChatMessage
enqueued [] = []
enqueued (call_enqueue d msg ∷ cs) = msg ∷ enqueued cs
enqueued (call_flush d ∷ cs) = enqueued cs

-- The table as it would be with the buffer written.
abbrev pub view : SqliteStore → List Row
view s = insert_all s.rows s.buf

insert_all-append :
    (rows : List Row) (ms ns : List ChatMessage)
    → insert_all rows (ms ++ ns) ≡ insert_all (insert_all rows ms) ns
unfolding insert_all
insert_all-append rows [] ns = refl
insert_all-append rows (m ∷ ms) ns = insert_all-append (insert_or_ignore (row_of m) rows) ms ns

exec_all-insert_all :
    (d : Driver) (i : ℕ) (rows : List Row) (ms : List ChatMessage) {out : List Row}
    → exec_all d i rows ms ≡ some out
    → out ≡ insert_all rows ms
unfolding exec_all insert_all
exec_all-insert_all d i rows [] h = cc
exec_all-insert_all d i rows (m ∷ ms) h =
    exec_all-insert_all d (i + 1) (insert_or_ignore (row_of m) rows) ms (ground arith)

commit-view :
    (d : Driver) (s : SqliteStore) (o : Option (List Row))
    → ((out : List Row) → o ≡ some out → out ≡ view s)
    → view (commit d s o).0 ≡ view s
unfolding insert_all
commit-view d s none h = refl
commit-view d s (some out) h = ground (arith, h out refl)

view-flush_locked : (d : Driver) (s : SqliteStore) → view (flush_locked d s).0 ≡ view s
unfolding flush_locked
view-flush_locked d s = ground (
  arith,
  commit-view d s (exec_all d 0 s.rows s.buf) (λ out h. exec_all-insert_all d 0 s.rows s.buf h),
)

-- What a flush of a store may come to.
abbrev pub Settles : SqliteStore → SqliteStore × Option StoreError → Type 0
Settles s (s', some e) = s' ≡ s
Settles s (s', none) = s'.buf ≡ []

cond-Settles :
    (s : SqliteStore) (b : Bool) (r q : SqliteStore × Option StoreError)
    → Settles s r
    → Settles s q
    → Settles s (if b then r else q)
cond-Settles s true r q h k = h
cond-Settles s false r q h k = k

commit-Settles : (d : Driver) (s : SqliteStore) (o : Option (List Row)) → Settles s (commit d s o)
commit-Settles d s none = refl
commit-Settles d s (some rows) = cond-Settles s d.commit_fails _ _ refl refl

by_buffer-Settles :
    (s : SqliteStore) (msgs : List ChatMessage)
    → s.buf ≡ msgs
    → (r : SqliteStore × Option StoreError) → Settles s r
    → Settles s (if is_empty msgs then (s, none) else r)
by_buffer-Settles s [] e r h = e
by_buffer-Settles s (m ∷ msgs) e r h = h

-- A flush that reports an error has changed neither the table nor the buffer, and one that reports
-- none has emptied the buffer.
pub flush_outcome : (d : Driver) (s : SqliteStore) → Settles s (flush d s)
unfolding flush_locked
flush_outcome d s = by_buffer-Settles s s.buf refl _ (
    cond-Settles s d.begin_fails _ _ refl
      (cond-Settles s d.prepare_fails _ _ refl (commit-Settles d s (exec_all d 0 s.rows s.buf))))

emptied :
    (s : SqliteStore) (r : SqliteStore × Option StoreError)
    → Settles s r
    → r.1 ≡ none
    → r.0.buf ≡ []
emptied s (s', some e) h k = absurd (ground (arith, k))
emptied s (s', none) h k = h

view-enqueue :
    (d : Driver) (msg : ChatMessage) (s : SqliteStore)
    → view (enqueue d msg s).0 ≡ insert_all (view s) (msg ∷ [])
unfolding enqueue
view-enqueue d msg s = ground (
  arith,
  insert_all-append s.rows s.buf (msg ∷ []),
  view-flush_locked d (record s { buf = s.buf ++ msg ∷ [] }),
)

view-call :
    (c : Call) (cs : List Call) (s : SqliteStore)
    → insert_all (view (call c s).0) (enqueued cs) ≡ insert_all (view s) (enqueued (c ∷ cs))
unfolding call
view-call (call_flush d) cs s = ap (λ r. insert_all r (enqueued cs)) (view-flush_locked d s)
view-call (call_enqueue d msg) cs s =
    ap (λ r. insert_all r (enqueued cs)) (view-enqueue d msg s)
    ∙ sym (insert_all-append (view s) (msg ∷ []) (enqueued cs))

-- Over any calls, whatever the driver refuses in any of them: the table with the buffer written is
-- what one gets by inserting the enqueued messages in order, the first of an id counting.
pub view-run :
    (cs : List Call) (s : SqliteStore) → view (run cs s) ≡ insert_all (view s) (enqueued cs)
unfolding run
view-run [] s = unfold insert_all in refl
view-run (c ∷ cs) s = view-run cs (call c s).0 ∙ view-call c cs s

-- A driver that refuses nothing.
pub record Works (d : Driver) : Type 0 where
  pub begins : d.begin_fails ≡ false
  pub prepares : d.prepare_fails ≡ false
  pub execs : (i : ℕ) → d.exec_fails i ≡ false
  pub commits : d.commit_fails ≡ false

exec_all-Works :
    (d : Driver) (i : ℕ) (rows : List Row) (ms : List ChatMessage)
    → Works d
    → exec_all d i rows ms ≡ some (insert_all rows ms)
unfolding exec_all insert_all
exec_all-Works d i rows [] w = refl
exec_all-Works d i rows (m ∷ ms) w =
    rw (w.execs i) (exec_all-Works d (i + 1) (insert_or_ignore (row_of m) rows) ms w)

flush-Works :
    (d : Driver) (s : SqliteStore)
    → Works d
    → flush d s ≡ (record s { rows = view s; buf = [] }, none)
unfolding flush_locked insert_all
flush-Works d s w = ground (arith, exec_all-Works d 0 s.rows s.buf w)

view-open_store : (rows : List Row) (size : ℤ) → view (open_store rows size) ≡ rows
unfolding open_store insert_all
view-open_store rows size = refl

-- Over any calls of a store just opened, whatever the driver refused in them: one flush that it
-- does not refuse leaves an empty buffer and a table with every enqueued message in order behind the
-- rows of the file, the first of an id counting.
pub run-then-flush :
    (cs : List Call) (rows : List Row) (size : ℤ) (d : Driver)
    → Works d
    → let s = run cs (open_store rows size) in
      flush d s ≡ (record s { rows = insert_all rows (enqueued cs); buf = [] }, none)
run-then-flush cs rows size d w =
    flush-Works d (run cs (open_store rows size)) w
    ∙ ap (λ r. (record (run cs (open_store rows size)) { rows = r; buf = [] }, none))
        (view-run cs (open_store rows size)
          ∙ ap (λ r. insert_all r (enqueued cs)) (view-open_store rows size))

-- Behind an `Enqueue` that reports no error the buffer is shorter than the batch size.
pub enqueue_bound :
    (d : Driver) (msg : ChatMessage) (s : SqliteStore)
    → 0 < s.batch_size
    → (enqueue d msg s).1 ≡ none
    → length (enqueue d msg s).0.buf < s.batch_size
unfolding enqueue
enqueue_bound d msg s h k =
    let s' = record s { buf = s.buf ++ msg ∷ [] } in
    ground (arith, emptied s' (flush d s') (flush_outcome d s'))
