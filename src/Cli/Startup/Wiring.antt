-- ===== src/Cli/Startup/Wiring.antt =====
-- With which parts the input loop begins.
use snipr.Analytics
use snipr.Analytics.{status}
use snipr.Analytics.Setup.{IsThere, Mappings, init_indices, init_indices_iff, ping}
use snipr.Base.{ℕ, ◌≡◌, ◌↔◌, inl, inr, Bool, true, Option, none, some, Result, ok, err, arith}
use snipr.Base.Int.{ℤ, pos}
use snipr.Bus.{NatsBus, Running, BusError, new_nats_bus}
use snipr.Bus.Startup.{Answers, new_nats_bus-Answers}
use snipr.Cli.Startup.{
  Outside, Started, StartError, start_up, comes_online, elastic_config, elastic_of, loaded_env,
  channels_of, model_path_of, bus_config, checked, assembled, no_error, no_options, or_noop,
}
use snipr.Float.{Float64}
use snipr.Ingest.Client.{Client, ClientError, connect, new_client}
use snipr.Ingest.Client.Membership.{Agrees}
use snipr.Pipeline.Start.{Group, Subscriptions, start}
use snipr.Predict.{Ensemble, Files, Predictor, array, present}
use snipr.Predict.Load.{Loads, model_path, load_xgb-Loads}
use snipr.Store.{OpenError, SqliteStore, open_path, open_store}
use snipr.Text.{Text}
use snipr.Cli.Startup.Joins.{AreJoined, IsOnline, join_from-Agrees, join_from-AreJoined}
use snipr.Cli.Startup.Checks.{
  Works, all_groups, Opens, open_path-Opens, Attaches, start-Attaches, Connects, connect-Connects,
}

no_error_iff : {E : Type 0} (e : Option E) → (no_error e ≡ true) ↔ (e ≡ none)
no_error_iff none = ground arith
no_error_iff (some e) = ground arith

comes_online_iff :
    {F : Type 0} (m : Mappings) (cfg : Analytics.Config) (o : Outside F)
    → (comes_online m cfg o ≡ true)
      ↔ ((o.ping_answer ≡ status 200) × IsThere o.chat_exchange × IsThere o.clips_exchange)
unfolding comes_online ping
comes_online_iff m cfg o = ground (
  arith,
  no_error_iff (init_indices cfg m o.chat_exchange o.clips_exchange).1,
  init_indices_iff cfg m o.chat_exchange o.clips_exchange,
)

module _ (fl : Float64) (parse_float : Text → Option fl.F) (files : Files fl.F) where
  open fl use {F}

  -- There is a model in dump format at a path, and the loader takes it.
  abbrev pub HasModel : Text → Type 0
  HasModel path =
      (files.stat path ≡ present)
      × (files.first_value path ≡ some array)
      × ((run : Ensemble F) × (files.ensemble path ≡ ok run))

  ready_iff :
      (path : Text) (r : Result Text (Predictor F))
      → Loads fl parse_float files path r
      → ((or_noop r).ready ≡ true) ↔ HasModel path
  ready_iff path (err e) (inl failed) = ground (arith, failed)
  ready_iff path (err e) (inr (there, inl other)) = ground (arith, there, other)
  ready_iff path (err e) (inr (there, inr (why, refused))) =
      (λ h. absurd (ground (arith, h)), λ (p, q, (run, r)). absurd (ground (arith, r, refused)))
  ready_iff path (ok p) (inl (not_ready, gone)) =
      (λ h. absurd (ground (arith, h, not_ready)), λ (q, _, _). absurd (ground (arith, q, gone)))
  ready_iff path (ok p) (inr (is_ready, there, listed, (run, loads, _))) =
      (λ _. (there, listed, (run, loads)), λ _. is_ready)

module _ (fl : Float64) (parse_float : Text → Option fl.F) (port_text : ℤ → Text) (m : Mappings)
    (lower : ℕ → ℕ) where
  open fl use {F}

  -- How a start ends. When it is through, everything that it needs works; the store is empty but for
  -- the rows of the file; the consumers are all there; the channels agree with the lines sent.
  pub record IsWired (o : Outside F) (s : Started F) : Type 0 where
    pub works : Works o
    pub store_is : s.store ≡ open_store o.database.rows (pos 30)
    pub bus_runs : s.running ≡ record { server = true; connection = true }
    pub subscribed : s.subscriptions ≡ all_groups
    pub online_iff :
        (s.elastic_online ≡ true)
        ↔ ((o.ping_answer ≡ status 200) × IsThere o.chat_exchange × IsThere o.clips_exchange)
    pub ready_iff :
        (s.predictor.ready ≡ true)
        ↔ HasModel fl parse_float o.files
            (model_path fl parse_float o.files (model_path_of (loaded_env o)))
    pub agrees : Agrees s.client
    pub joined : AreJoined o.join_fails lower 0 (channels_of o.args) s.client

  abbrev pub StartsAs : Outside F → Result StartError (Started F) → Type 0
  StartsAs o (ok s) = IsWired o s
  StartsAs o (err e) = ¬ Works o

  assembled-IsWired :
      (o : Outside F) (store : SqliteStore) (running : Running) (bus : NatsBus)
      (subscriptions : Subscriptions) (client : Client)
      → Works o
      → store ≡ open_store o.database.rows (pos 30)
      → running ≡ record { server = true; connection = true }
      → subscriptions ≡ all_groups
      → IsOnline client
      → Agrees client
      → IsWired o
          (assembled fl parse_float port_text m lower o store running bus subscriptions client)
  unfolding assembled
  assembled-IsWired o store running bus subscriptions client w s r a online agrees = record {
    works = w;
    store_is = s;
    bus_runs = r;
    subscribed = a;
    online_iff = comes_online_iff m (elastic_of {F = F} (elastic_config (loaded_env o))).cfg o;
    ready_iff =
        ready_iff fl parse_float o.files _ _
          (load_xgb-Loads fl parse_float o.files (model_path_of (loaded_env o)));
    agrees = join_from-Agrees o.join_fails lower 0 (channels_of o.args) client agrees;
    joined = join_from-AreJoined o.join_fails lower 0 (channels_of o.args) client online;
  }

  checked-StartsAs :
      (o : Outside F) (opening : Bool × Result OpenError SqliteStore)
      (bus_start : Running × Result BusError NatsBus) (consumers : Subscriptions × Option Group)
      (irc : Client × Option ClientError)
      → Opens o.database (pos 30) opening
      → Answers o.nats bus_config bus_start
      → Attaches o.refuses consumers
      → Connects o.dials o.connect_fails irc
      → StartsAs o (checked fl parse_float port_text m lower o opening bus_start consumers irc)
  unfolding checked
  checked-StartsAs o (b, err e) bus_start consumers irc h1 h2 h3 h4 = λ w. h1 w.0
  checked-StartsAs o (b, ok s) (r, err e) consumers irc h1 h2 h3 h4 = λ w. h2.0 w.1
  checked-StartsAs o (b, ok s) (r, ok bus) (subs, some g) irc h1 h2 h3 h4 = λ w. h3 w.2
  checked-StartsAs o (b, ok s) (r, ok bus) (subs, none) (c, some e) h1 h2 h3 h4 = λ w. h4 w.3
  checked-StartsAs o (b, ok s) (r, ok bus) (subs, none) (c, none) h1 h2 h3 h4 =
      assembled-IsWired o s r bus subs c (h1.0, h2.0, h3.0, h4.0) h1.1 h2.1 h3.1 h4.1 h4.2

  pub start_up-StartsAs : (o : Outside F) → StartsAs o (start_up fl parse_float port_text m lower o)
  unfolding start_up
  start_up-StartsAs o =
      checked-StartsAs o (open_path o.database (pos 30)) (new_nats_bus o.nats bus_config)
        (start o.refuses)
        (connect o.dials o.connect_fails lower o.guest (new_client true no_options))
        (open_path-Opens o.database (pos 30)) (new_nats_bus-Answers o.nats bus_config)
        (start-Attaches o.refuses) (connect-Connects o.dials o.connect_fails lower o.guest)
