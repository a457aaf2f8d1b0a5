-- ===== src/Cli/Startup.antt =====
-- cmd/chat-cli/main.go: the wiring of the parts in front of the input loop, and what follows it.
pub mod Joins
pub mod Checks
pub mod Wiring
pub mod Shutdown
use snipr.Analytics.{
  Answer, Config, ElasticIndexer, default_config, new_elastic_indexer, or_text, with_defaults,
}
use snipr.Analytics.Setup.{Exchange, Mappings, SetupError, init_indices, ping}
use snipr.Auth.Env.{Environment, getenv, load_env}
use snipr.Auth.Manager.{
  ManagerConfig, Storage, TokenManager, World, ensure_valid_token, new_token_manager,
}
use snipr.Base.{
  ℕ, ◌+◌, Bool, true, false, ◌&&◌, Option, none, some, List, [], ◌∷◌, Result, ok, err, ◌>>=◌,
}
use snipr.Base.Int.{ℤ, pos, negsuc}
use snipr.Bus
use snipr.Bus.{BusError, Nats, NatsBus, Running, new_nats_bus, nothing}
use snipr.Cli.{finish}
use snipr.Float.{Float64}
use snipr.Ingest.Client.{Client, ClientError, ClientOptions, connect, join, new_client}
use snipr.Pipeline.Start.{Group, Subscriptions, start, stop}
use snipr.Predict.{Files, Predictor, load_xgb, noop}
use snipr.Store.{
  Call, Database, Driver, OpenError, SqliteStore, default_batch_size, flush, open_path,
}
use snipr.Store as Store
use snipr.Text.{Text, codes}
use snipr.Text.Map.{get_or}
use snipr.Time.{second}
use snipr.Twitch.{HelixClient, new_helix_client, set_token_provider}

abbrev pub chat_config : ManagerConfig
chat_config = record {
  client_id = [];
  client_secret = [];
  token_file = codes "token.json";
  callback_port = pos 0;
  scopes = [];
}

-- The token manager, in an environment and with what is on the disk.
unfoldable pub chat_manager : (ℤ → Text) → Environment → Storage → TokenManager
unfolding new_token_manager get_or
chat_manager port_text env disk =
    new_token_manager port_text (getenv (codes "TWITCH_CLIENT_ID") env)
      (getenv (codes "TWITCH_CLIENT_SECRET") env) disk chat_config none

-- What a start of the program meets: the file `.env` and the environment in front of it, what
-- is on the disk and what happens around `EnsureValidToken`, and the answers of the other
-- libraries. `args` is `os.Args[1:]`; `connect_fails` and `join_fails` are about the messages to the
-- socket, by number.
pub record Outside (F : Type 0) : Type 0 where
  pub env_file : Option (List Text)
  pub complete : Bool
  pub env : Environment
  pub disk : Storage
  pub world : World
  pub database : Database
  pub ping_answer : Answer
  pub chat_exchange : Exchange
  pub clips_exchange : Exchange
  pub files : Files F
  pub nats : Nats
  pub refuses : Group → Bool
  pub dials : Bool
  pub connect_fails : ℕ → Bool
  pub guest : Text
  pub args : List Text
  pub join_fails : ℕ → Bool

-- The errors that end the program in front of the loop.
pub data StartError : Type 0 where
  no_store : OpenError → StartError
  no_bus : BusError → StartError
  no_consumers : Group → StartError
  no_irc : ClientError → StartError

-- The parts, as the loop finds them.
pub record Started (F : Type 0) : Type 0 where
  pub tokens : TokenManager
  pub helix : HelixClient
  pub store : SqliteStore
  pub elastic : ElasticIndexer F
  pub elastic_online : Bool
  pub predictor : Predictor F
  pub bus : NatsBus
  pub running : Running
  pub subscriptions : Subscriptions
  pub client : Client
  pub show_chat : Bool
  pub message_count : ℕ

-- The environment behind `LoadEnv`.
unfoldable pub loaded_env : {F : Type 0} → Outside F → Environment
unfolding load_env
loaded_env o = (load_env o.env_file o.complete o.env).0

-- `elasticCfg`
unfoldable pub elastic_config : Environment → Config
unfolding get_or
elastic_config env = record default_config {
  url = or_text (getenv (codes "ELASTICSEARCH_URL") env) default_config.url;
}

unfoldable pub elastic_of : {F : Type 0} → Config → ElasticIndexer F
unfolding new_elastic_indexer
elastic_of cfg =
    new_elastic_indexer cfg.url cfg.chat_index cfg.clips_index (pos cfg.batch_size)
      cfg.flush_interval (pos cfg.queue_capacity)

abbrev pub no_error : {E : Type 0} → Option E → Bool
no_error none = true
no_error (some e) = false

-- `elasticOnline`: the cluster answers, and its indices are there.
unfoldable pub comes_online : {F : Type 0} → Mappings → Config → Outside F → Bool
unfolding ping init_indices
comes_online m cfg o =
    no_error (ping o.ping_answer)
    && no_error (init_indices cfg m o.chat_exchange o.clips_exchange).1

abbrev pub or_noop : {F : Type 0} → Result Text (Predictor F) → Predictor F
or_noop (err e) = noop e
or_noop (ok p) = p

-- `modelPath`
unfoldable pub model_path_of : Environment → Text
unfolding get_or
model_path_of env = or_text (getenv (codes "SNIPR_MODEL_PATH") env) (codes "models/mymodel.json")

-- `channels`
abbrev pub channels_of : List Text → List Text
channels_of [] = codes "tarik" ∷ codes "shroud" ∷ codes "caedrel" ∷ []
channels_of (arg ∷ args) = arg ∷ args

-- The loop of `client.Join`, from the i-th channel on; its errors are dropped.
unfoldable pub join_from : (ℕ → Bool) → (ℕ → ℕ) → ℕ → List Text → Client → Client
unfolding join
join_from fails lower i [] c = c
join_from fails lower i (ch ∷ chs) c =
    join_from fails lower (i + 1) chs (join (fails i) lower ch c).0

abbrev opened : Bool × Result OpenError SqliteStore → Result StartError SqliteStore
opened (b, ok s) = ok s
opened (b, err e) = err (no_store e)

abbrev bus_started : Running × Result BusError NatsBus → Result StartError (Running × NatsBus)
bus_started (r, ok b) = ok (r, b)
bus_started (r, err e) = err (no_bus e)

abbrev consumers_started : Subscriptions × Option Group → Result StartError Subscriptions
consumers_started (s, none) = ok s
consumers_started (s, some g) = err (no_consumers g)

abbrev irc_connected : Client × Option ClientError → Result StartError Client
irc_connected (c, none) = ok c
irc_connected (c, some e) = err (no_irc e)

abbrev pub no_options : ClientOptions
no_options = record { oauth_token = []; username = []; irc_url = [] }

-- `bus.Config{Port: -1}`
abbrev pub bus_config : Bus.Config
bus_config = record {
  port = negsuc 0;
  chat_stream_name = [];
  features_stream_name = [];
  max_age = pos 0;
  max_bytes = pos 0;
}

module _ (fl : Float64) (parse_float : Text → Option fl.F) (port_text : ℤ → Text) (m : Mappings)
    (lower : ℕ → ℕ) where
  open fl use {F}

  -- The parts, once none of the calls that can end the program has failed.
  unfoldable pub assembled :
      Outside F → SqliteStore → Running → NatsBus → Subscriptions → Client → Started F
  unfolding chat_manager ensure_valid_token new_helix_client elastic_of comes_online load_xgb
      join_from
  assembled o store running bus subscriptions client =
      let env = loaded_env o in
      let tokens = (ensure_valid_token o.world (chat_manager port_text env o.disk)).0 in
      let elastic = elastic_of {F = F} (elastic_config env) in
      record {
        tokens = tokens;
        helix = set_token_provider (new_helix_client tokens.cfg.client_id []);
        store = store;
        elastic = elastic;
        elastic_online = comes_online m elastic.cfg o;
        predictor = or_noop (load_xgb fl parse_float o.files (model_path_of env));
        bus = bus;
        running = running;
        subscriptions = subscriptions;
        client = join_from o.join_fails lower 0 (channels_of o.args) client;
        show_chat = true;
        message_count = 0;
      }

  -- The calls that can end the program, in their order.
  unfoldable pub checked :
      Outside F
      → Bool × Result OpenError SqliteStore
      → Running × Result BusError NatsBus
      → Subscriptions × Option Group
      → Client × Option ClientError
      → Result StartError (Started F)
  unfolding assembled
  checked o opening bus_start consumers irc = do
    store ← opened opening
    (running, bus) ← bus_started bus_start
    subscriptions ← consumers_started consumers
    client ← irc_connected irc
    ok (assembled o store running bus subscriptions client)

  -- `main`, up to its loop.
  unfoldable pub start_up : Outside F → Result StartError (Started F)
  unfolding checked open_path new_nats_bus start connect
  start_up o =
      checked o (open_path o.database (pos default_batch_size)) (new_nats_bus o.nats bus_config)
        (start o.refuses)
        (connect o.dials o.connect_fails lower o.guest (new_client true no_options))

-- What is left to be closed behind the loop.
pub record Remains (F : Type 0) : Type 0 where
  pub client : Client
  pub store : SqliteStore
  pub elastic : ElasticIndexer F
  pub running : Running
  pub subscriptions : Subscriptions

-- The end of `main`: `client.Close` and `Flush`, then the deferred calls, the last one first. `late`
-- are the calls that the consumers make of the store until they are stopped.
unfoldable pub shut_down : {F : Type 0} → Bool → Driver → List Call → Driver → Remains F → Remains F
unfolding finish Store.run
shut_down fails first late last r =
    let (client, store) = finish fails first (r.client, r.store) in
    record {
      client = client;
      store = (flush last (Store.run late store)).0;
      elastic = record r.elastic { closed = true };
      running = nothing;
      subscriptions = stop r.subscriptions;
    }
