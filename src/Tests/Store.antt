-- ===== src/Tests/Store.antt =====
-- internal/store/sqlite.go: a store of batch size 2, whose driver refuses the first commit.
use snipr.Base.{◌<◌, ◌≡◌, refl, true, false, none, List, [], ◌∷◌, length, arith}
use snipr.Store.Refinement.{
  insert_all, enqueued, view, Works, run-then-flush, view-run, enqueue_bound,
}
use snipr.Store.{
  Driver, SqliteStore, Call, call_enqueue, call_flush, run, open_store, flush, enqueue, count,
}
use snipr.Text.{codes, Text}
use snipr.Models.{ChatMessage}
use snipr.Base.Int.{pos}

abbrev pub message : Text → ChatMessage
message id = record {
  id = id;
  channel = codes "fun";
  user_id = codes "1";
  user_name = codes "amy";
  content = codes "gg";
  emotes = [];
  bits = pos 0;
  timestamp = pos 5;
}

abbrev pub works : Driver
works = record {
  begin_fails = false;
  prepare_fails = false;
  exec_fails = λ i. false;
  commit_fails = false;
}

abbrev pub refuses : Driver
refuses = record works { commit_fails = true }

pub works-Works : Works works
works-Works = record { begins = refl; prepares = refl; execs = λ i. refl; commits = refl }

abbrev calls : List Call
calls =
    call_enqueue works (message (codes "a"))
    ∷ call_enqueue refuses (message (codes "b"))
    ∷ call_flush refuses
    ∷ call_enqueue works (message (codes "a"))
    ∷ call_enqueue refuses (message (codes "c"))
    ∷ []

run-then-flush_example : flush works (run calls (open_store [] (pos 2))) ≡ (
  record (run calls (open_store [] (pos 2))) { rows = insert_all [] (enqueued calls); buf = [] },
  none,
)
run-then-flush_example = run-then-flush calls [] (pos 2) works works-Works

view-run_example :
    view (run calls (open_store [] (pos 2)))
    ≡ insert_all (view (open_store [] (pos 2))) (enqueued calls)
view-run_example = view-run calls (open_store [] (pos 2))

abbrev one_waits : SqliteStore
one_waits = record { rows = []; batch_size = 2; buf = message (codes "a") ∷ [] }

enqueue-written : (enqueue works (message (codes "b")) one_waits).1 ≡ none
unfolding enqueue
enqueue-written = refl

enqueue_bound_example : length (enqueue works (message (codes "b")) one_waits).0.buf < 2
enqueue_bound_example =
    enqueue_bound works (message (codes "b")) one_waits (omega arith) enqueue-written

count_test : count (run calls (open_store [] (pos 2))) ≡ 2
unfolding run open_store
count_test = refl
