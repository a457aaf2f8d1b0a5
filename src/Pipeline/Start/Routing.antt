-- ===== src/Pipeline/Start/Routing.antt =====
-- The store and the monitor behind the subscriptions, whatever order the deliveries come in.
use snipr.Base.{
  ℕ, ◌≡◌, refl, Bool, true, none, some, List, [], ◌∷◌, ◌++◌, ap, ◌∙◌, sym, ◌⊎◌, inl, inr,
  append_assoc, append-nil, Bool-cases,
}
use snipr.Base.Int.{ℤ}
use snipr.Features.Monitor.{Monitor, Window, Event, chat, tick, new_monitor, flush_ready}
use snipr.Float.{Float64}
use snipr.Pipeline.Clip.{Helix, normalize_ts}
use snipr.Pipeline.Start.{
  Group, sqlite_group, features_group, elastic_group, predict_group, Parts, Delivery, to_sqlite,
  to_features, to_elastic, to_predict, poll, deliver, run, start,
}
use snipr.Store
use snipr.Features.Monitor
use snipr.Store.Refinement.{view, insert_all, enqueued, view-run}
use snipr.Features.Monitor.Windows.{published, buffer, received, run_conserves}
use snipr.Store.{SqliteStore, Call, call_enqueue}
use snipr.Text.{Text}

-- When `Start` fails, the subscription that it names was refused and none is left; when it
-- succeeds, all four are there and the windows are polled.
pub start_outcome :
    (refuses : Group → Bool)
    → ((start refuses).1 ≡ none)
        × ((start refuses).0 ≡ record {
          subs = sqlite_group ∷ features_group ∷ elastic_group ∷ predict_group ∷ [];
          polling = true;
        })
      ⊎ ((g : Group) × ((start refuses).1 ≡ some g)
          × (refuses g ≡ true)
          × ((start refuses).0.subs ≡ []))
unfolding start
start_outcome refuses = elim (Bool-cases (refuses sqlite_group)) [
  | inl r ↦ rw r (inr (sqlite_group, refl, r, refl))
  | inr a ↦ elim (Bool-cases (refuses features_group)) [
    | inl r ↦ rw (a, r) (inr (features_group, refl, r, refl))
    | inr b ↦ elim (Bool-cases (refuses elastic_group)) [
      | inl r ↦ rw (a, b, r) (inr (elastic_group, refl, r, refl))
      | inr c ↦ elim (Bool-cases (refuses predict_group)) [
        | inl r ↦ rw (a, b, c, r) (inr (predict_group, refl, r, refl))
        | inr d ↦ rw (a, b, c, d) (inl (refl, refl))
      ]
    ]
  ]
]

-- The calls of the store and of the monitor that some deliveries come to.
abbrev pub store_calls : {F : Type 0} → List (Delivery F) → List Call
store_calls [] = []
store_calls (to_sqlite now d msg ∷ ds) = call_enqueue d (normalize_ts now msg) ∷ store_calls ds
store_calls (to_features now clock msg ∷ ds) = store_calls ds
store_calls (to_elastic now clock msg ∷ ds) = store_calls ds
store_calls (to_predict clock fv ∷ ds) = store_calls ds
store_calls (poll now channels ∷ ds) = store_calls ds

abbrev pub monitor_events : {F : Type 0} → List (Delivery F) → List Event
monitor_events [] = []
monitor_events (to_sqlite now d msg ∷ ds) = monitor_events ds
monitor_events (to_features now clock msg ∷ ds) =
    chat clock (normalize_ts now msg) ∷ monitor_events ds
monitor_events (to_elastic now clock msg ∷ ds) = monitor_events ds
monitor_events (to_predict clock fv ∷ ds) = monitor_events ds
monitor_events (poll now channels ∷ ds) = tick now channels ∷ monitor_events ds

module _ (fl : Float64) {S : Type 0} (api : Helix S) (unix : ℤ → Text) (lower : ℕ → ℕ) where
  open fl use {F}

  run-store :
      (ds : List (Delivery F)) (p : Parts F S)
      → (run fl api unix lower ds p).store ≡ Store.run (store_calls ds) p.store
  unfolding run Store.run
  run-store [] p = refl
  run-store (to_sqlite now d msg ∷ ds) p =
      run-store ds (deliver fl api unix lower (to_sqlite now d msg) p)
  run-store (to_features now clock msg ∷ ds) p =
      run-store ds (deliver fl api unix lower (to_features now clock msg) p)
  run-store (to_elastic now clock msg ∷ ds) p =
      run-store ds (deliver fl api unix lower (to_elastic now clock msg) p)
  run-store (to_predict clock fv ∷ ds) p =
      run-store ds (deliver fl api unix lower (to_predict clock fv) p)
  run-store (poll now channels ∷ ds) p =
      run-store ds (deliver fl api unix lower (poll now channels) p)

  run-monitor :
      (ds : List (Delivery F)) (p : Parts F S)
      → (run fl api unix lower ds p).monitor ≡ (Monitor.run lower (monitor_events ds) p.monitor).0
  unfolding run Monitor.run
  run-monitor [] p = refl
  run-monitor (to_sqlite now d msg ∷ ds) p =
      run-monitor ds (deliver fl api unix lower (to_sqlite now d msg) p)
  run-monitor (to_features now clock msg ∷ ds) p =
      run-monitor ds (deliver fl api unix lower (to_features now clock msg) p)
  run-monitor (to_elastic now clock msg ∷ ds) p =
      run-monitor ds (deliver fl api unix lower (to_elastic now clock msg) p)
  run-monitor (to_predict clock fv ∷ ds) p =
      run-monitor ds (deliver fl api unix lower (to_predict clock fv) p)
  run-monitor (poll now channels ∷ ds) p =
      run-monitor ds (deliver fl api unix lower (poll now channels) p)

  run-published :
      (ds : List (Delivery F)) (p : Parts F S)
      → (run fl api unix lower ds p).published
        ≡ p.published ++ (Monitor.run lower (monitor_events ds) p.monitor).1
  unfolding run Monitor.run
  run-published [] p = sym (append-nil p.published)
  run-published (to_sqlite now d msg ∷ ds) p =
      run-published ds (deliver fl api unix lower (to_sqlite now d msg) p)
  run-published (to_features now clock msg ∷ ds) p =
      run-published ds (deliver fl api unix lower (to_features now clock msg) p)
  run-published (to_elastic now clock msg ∷ ds) p =
      run-published ds (deliver fl api unix lower (to_elastic now clock msg) p)
  run-published (to_predict clock fv ∷ ds) p =
      run-published ds (deliver fl api unix lower (to_predict clock fv) p)
  run-published (poll now channels ∷ ds) p =
      run-published ds (deliver fl api unix lower (poll now channels) p)
      ∙ append_assoc p.published (flush_ready now channels p.monitor).1 _

  -- However the deliveries to the groups and the ticks are mixed, and whatever the driver refuses:
  -- the table with the store's buffer written is the messages of the SQLite group in their order,
  -- each with its timestamp set right, inserted behind what was there, the first of an id counting.
  pub run-stores :
      (ds : List (Delivery F)) (p : Parts F S)
      → view (run fl api unix lower ds p).store
        ≡ insert_all (view p.store) (enqueued (store_calls ds))
  run-stores ds p = ap view (run-store ds p) ∙ view-run (store_calls ds) p.store

  -- However the deliveries and the ticks are mixed, from an empty monitor and with nothing
  -- published: for every channel the messages in the windows handed to the bus, followed by those
  -- in its buffer, are the messages of the features group for this channel, each once and in order.
  pub run-windows :
      (ds : List (Delivery F)) (p : Parts F S) (c : Text)
      → p.monitor ≡ new_monitor
      → p.published ≡ []
      → published c (run fl api unix lower ds p).published
          ++ buffer c (run fl api unix lower ds p).monitor
        ≡ received lower c (monitor_events ds)
  run-windows ds p c empty none_yet =
      rw (run-published ds p, run-monitor ds p, empty, none_yet)
        (run_conserves lower (monitor_events ds) c)
