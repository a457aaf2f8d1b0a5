-- ===== src/Cli/Startup/Shutdown.antt =====
-- A whole run of the chat program: its start, a session, and its end.
use snipr.Analytics.Setup.{Mappings}
use snipr.Base.{
  ℕ, ◌≡◌, refl, sym, ap, ◌∙◌, subst, Bool, true, Option, List, [], ◌∷◌, ◌++◌, map, ok, arith,
}
use snipr.Base.Int.{ℤ, pos}
use snipr.Bus.{nothing}
use snipr.Cli.{Event, Output, Shell, View, finish, loop}
use snipr.Cli.Session
use snipr.Cli.Session.{loop-Ends}
use snipr.Cli.Startup.{Outside, Started, Remains, start_up, shut_down}
use snipr.Cli.Startup.Wiring.{IsWired, StartsAs, start_up-StartsAs}
use snipr.Float.{Float64}
use snipr.Ingest.Client.{Client, close}
use snipr.Ingest.Client.Membership.{Agrees, close-Agrees}
use snipr.Store.{
  Call, Driver, SqliteStore, StoreError, Row, call, call_enqueue, call_flush, flush, open_store,
  run,
}
use snipr.Store.Refinement.{Works, enqueued, insert_all, run-then-flush}
use snipr.Text.{Text}

run-append : (cs ds : List Call) (s : SqliteStore) → run (cs ++ ds) s ≡ run ds (run cs s)
unfolding run
run-append [] ds s = refl
run-append (c ∷ cs) ds s = run-append cs ds (call c s).0

run-call_flush :
    (d : Driver) (cs : List Call) (s : SqliteStore)
    → run (call_flush d ∷ cs) s ≡ run cs (flush d s).0
unfolding run call
run-call_flush d cs s = refl

enqueued-append : (cs ds : List Call) → enqueued (cs ++ ds) ≡ enqueued cs ++ enqueued ds
enqueued-append [] ds = refl
enqueued-append (call_enqueue d msg ∷ cs) ds = ap (◌∷◌ msg) (enqueued-append cs ds)
enqueued-append (call_flush d ∷ cs) ds = enqueued-append cs ds

close-closed : (fails : Bool) (c : Client) → (close fails c).0.closed ≡ true
unfolding close
close-closed fails c = ground arith

-- The calls of the store, those behind the flush of `main` included, and the flush of `Close`.
closing-store :
    (first last : Driver) (during late : List Call) (rows : List Row)
    → Works last
    → let s = run during (open_store rows (pos 30)) in
      let left = (flush last (run late (flush first s).0)).0 in
      (left.rows ≡ insert_all rows (enqueued (during ++ late))) × (left.buf ≡ [])
closing-store first last during late rows works =
    let calls = during ++ call_flush first ∷ late in
    let as_one = run-append during (call_flush first ∷ late) (open_store rows (pos 30)) in
    let flushed = run-then-flush calls rows (pos 30) last works in
    let stored =
      enqueued-append during (call_flush first ∷ late) ∙ sym (enqueued-append during late) in
    let whole =
      ap (flush last)
        (sym (as_one ∙ run-call_flush first late (run during (open_store rows (pos 30)))))
      ∙ flushed in
    (
      ap (λ (x : SqliteStore × Option StoreError). x.0.rows) whole ∙ ap (insert_all rows) stored,
      ap (λ (x : SqliteStore × Option StoreError). x.0.buf) whole,
    )

module _ {F : Type 0} (lower : ℕ → ℕ) where
  -- The state with which the loop begins, and the one in which it ends.
  abbrev pub first_shell : Started F → Shell
  first_shell s = record { client = s.client; show_chat = s.show_chat; running = true }

  abbrev pub session : Started F → List (View F × Event) → Shell × List (Output F)
  session s es = loop lower es (first_shell s)

  -- What is left when `main` returns: `during` are the calls that the consumers make of the store
  -- while the loop runs, and `late` those that they make behind its flush.
  abbrev pub left_by :
      Started F → List (View F × Event) → List Call → Bool → Driver → List Call → Driver → Remains F
  left_by s es during fails first late last = shut_down fails first late last (record {
    client = (session s es).0.client;
    store = run during s.store;
    elastic = s.elastic;
    running = s.running;
    subscriptions = s.subscriptions;
  })

  -- The end of a run.
  pub record IsOver (o : Outside F) (s : Started F) (es : List (View F × Event))
      (stored : List Call) (r : Remains F) : Type 0 where
    pub session_ends : Session.Ends lower (map (λ x. x.1) es) (first_shell s) (session s es)
    pub agrees : Agrees r.client
    pub client_closed : r.client.closed ≡ true
    pub rows_are : r.store.rows ≡ insert_all o.database.rows (enqueued stored)
    pub buffer_empty : r.store.buf ≡ []
    pub elastic_closed : r.elastic.closed ≡ true
    pub bus_down : r.running ≡ nothing
    pub unsubscribed : r.subscriptions.subs ≡ []

module _ (fl : Float64) (parse_float : Text → Option fl.F) (port_text : ℤ → Text) (m : Mappings)
    (lower : ℕ → ℕ) where
  open fl use {F}

  shut_down-IsOver :
      (o : Outside F) (s : Started F) (es : List (View F × Event)) (during : List Call)
      (fails : Bool) (first : Driver) (late : List Call) (last : Driver)
      → IsWired fl parse_float port_text m lower o s
      → Works last
      → IsOver lower o s es (during ++ late) (left_by lower s es during fails first late last)
  unfolding shut_down finish
  shut_down-IsOver o s es during fails first late last wired works =
      let ends = loop-Ends lower es (first_shell lower s) refl in
      let stored = closing-store first last during late o.database.rows works in
      record {
        session_ends = ends;
        agrees = close-Agrees (session lower s es).0.client (ends.2 wired.agrees) fails;
        client_closed = close-closed fails (session lower s es).0.client;
        rows_are = rw wired.store_is stored.0;
        buffer_empty = rw wired.store_is stored.1;
        elastic_closed = refl;
        bus_down = refl;
        unsubscribed = refl;
      }

  -- A whole run, from a start that comes to the loop, with the calls that the consumers make of the
  -- store until they are stopped, where the driver refuses nothing of the last flush, the one of
  -- `Close`: the session goes as one does; the table has every message that was enqueued, those
  -- behind the flush of `main` included, in order behind the rows of the file, the first of an id
  -- counting, and the buffer is empty; the channels agree with the lines sent; the client and the
  -- indexer are closed, the bus is down, and nothing is subscribed.
  pub main-IsOver :
      (o : Outside F) (s : Started F) (es : List (View F × Event)) (during : List Call)
      (fails : Bool) (first : Driver) (late : List Call) (last : Driver)
      → start_up fl parse_float port_text m lower o ≡ ok s
      → Works last
      → IsOver lower o s es (during ++ late) (left_by lower s es during fails first late last)
  main-IsOver o s es during fails first late last started works =
      shut_down-IsOver o s es during fails first late last
        (subst (StartsAs fl parse_float port_text m lower o) started
          (start_up-StartsAs fl parse_float port_text m lower o))
        works
