-- ===== src/Bus.antt =====
-- internal/bus/nats.go: the embedded NATS server, and the two streams of the program.
pub mod Startup
pub mod Delivery
pub mod Ids
use snipr.Base.{
  zero, ◌%◌, ◌+◌, ltb, ◌/◌, ℕ, ◌*◌, suc, Bool, true, false, not, Option, none, some, List, [], ◌∷◌,
  ◌++◌, if◌then◌else◌, Result, ok, err,
}
use snipr.Base.Int.{ℤ, pos, negsuc, ltb_ℤ}
use snipr.Models.{ChatMessage, FeatureVector}
use snipr.Text.{Text, codes}
use snipr.Time.{unix_nano, second}

pub record Config : Type 0 where
  pub port : ℤ
  pub chat_stream_name : Text
  pub features_stream_name : Text
  pub max_age : ℤ
  pub max_bytes : ℤ

abbrev or_name : Text → Text → Text
or_name [] d = d
or_name (c ∷ s) d = c ∷ s

abbrev or_limit : ℤ → ℕ → ℤ
or_limit n d = if ltb_ℤ (pos 0) n then n else pos d

-- The configuration that `NewNATSBus` settles on.
unfoldable pub with_defaults : Config → Config
with_defaults cfg = record {
  port = cfg.port;
  chat_stream_name = or_name cfg.chat_stream_name (codes "SNIPR_CHAT");
  features_stream_name = or_name cfg.features_stream_name (codes "SNIPR_FEATURES");
  max_age = or_limit cfg.max_age (300 * second);
  max_bytes = or_limit cfg.max_bytes (32 * 1024 * 1024);
}

pub data StorageType : Type 0 where
  file_storage memory_storage : StorageType

pub data DiscardPolicy : Type 0 where
  discard_old discard_new : DiscardPolicy

-- `nats.StreamConfig`, as far as it is set.
pub record StreamConfig : Type 0 where
  pub name : Text
  pub subjects : List Text
  pub storage : StorageType
  pub max_age : ℤ
  pub max_bytes : ℤ
  pub discard : DiscardPolicy
  pub duplicates : ℕ

abbrev stream : Config → Text → Text → StreamConfig
stream cfg name subject = record {
  name = name;
  subjects = subject ∷ [];
  storage = memory_storage;
  max_age = cfg.max_age;
  max_bytes = cfg.max_bytes;
  discard = discard_old;
  duplicates = 120 * second;
}

abbrev pub chat_stream : Config → StreamConfig
chat_stream cfg = stream cfg cfg.chat_stream_name (codes "chat.twitch.>")

abbrev pub features_stream : Config → StreamConfig
features_stream cfg = stream cfg cfg.features_stream_name (codes "features.twitch.>")

-- How the NATS library answers the calls of one `NewNATSBus`.
pub record Nats : Type 0 where
  pub creates : Bool
  pub gets_ready : Bool
  pub connects : Bool
  pub has_jetstream : Bool
  pub adds : StreamConfig → Bool

-- What runs: the server and the connection.
pub record Running : Type 0 where
  pub server : Bool
  pub connection : Bool

pub data BusError : Type 0 where
  no_server not_ready no_connection no_jetstream no_chat_stream no_features_stream : BusError

pub record NatsBus : Type 0 where
  pub chat_stream_name : Text
  pub features_stream_name : Text

abbrev pub nothing : Running
nothing = record { server = false; connection = false }

-- `NewNATSBus`: what still runs when it returns, and its result.
unfoldable pub new_nats_bus : Nats → Config → Running × Result BusError NatsBus
unfolding with_defaults
new_nats_bus n given =
    let cfg = with_defaults given in
    if not n.creates
    then (nothing, err no_server)
    else if not n.gets_ready
    then (record { server = true; connection = false }, err not_ready)
    else if not n.connects
    then (nothing, err no_connection)
    else if not n.has_jetstream
    then (nothing, err no_jetstream)
    else if not (n.adds (chat_stream cfg))
    then (nothing, err no_chat_stream)
    else if not (n.adds (features_stream cfg))
    then (nothing, err no_features_stream)
    else (
      record { server = true; connection = true },
      ok (record {
        chat_stream_name = cfg.chat_stream_name;
        features_stream_name = cfg.features_stream_name;
      }),
    )

-- `Close`
abbrev pub close : Running → Running
close r = nothing

-- A message of NATS: its subject, the header `Nats-Msg-Id`, and its data.
pub record Msg : Type 0 where
  pub subject : Text
  pub msg_id : Text
  pub body : Text

pub data PublishError : Type 0 where
  no_json no_ack : PublishError

-- What a publication does with the JSON of its data, or without one; `accepts` is the library's.
abbrev pub publication : Text → Text → Bool → Option Text → Option Msg × Option PublishError
publication subject id accepts none = (none, some no_json)
publication subject id accepts (some body) =
    if accepts
    then (some (record { subject = subject; msg_id = id; body = body }), none)
    else (none, some no_ack)

-- What the handler of a subscription does with a message: it may call the program, and it
-- acknowledges.
pub data Effect (A : Type 0) : Type 0 where
  call : A → Effect A
  ack : Effect A

-- `marshal` and `unmarshal` are of encoding/json.
module _ {A : Type 0} (unmarshal : Text → Option A) where
  abbrev handled : Option A → List (Effect A)
  handled none = ack ∷ []
  handled (some a) = call a ∷ ack ∷ []

  -- The handlers of `SubscribeChat` and `SubscribeFeatures`.
  unfoldable pub on_msg : Msg → List (Effect A)
  on_msg m = handled (unmarshal m.body)

-- The subject of a subscription, `*` for all channels.
abbrev pub chat_subject : Text → Text
chat_subject channel = codes "chat.twitch." ++ channel

abbrev pub features_subject : Text → Text
features_subject channel = codes "features.twitch." ++ channel

-- `PublishChat`: the message that the stream took, and the error.
unfoldable pub publish_chat :
    (ChatMessage → Option Text) → Bool → ChatMessage → Option Msg × Option PublishError
publish_chat marshal accepts msg =
    publication (chat_subject msg.channel) msg.id accepts (marshal msg)

-- `fmt.Sprintf("%d", n)`: the digits of a number below `10 ^ fuel`.
unfoldable pub show_digits : ℕ → ℕ → Text
show_digits zero n = []
show_digits (suc fuel) n =
    let front = show_digits fuel (n / 10) in
    if ltb n 10 then (b'0' + n) ∷ [] else front ++ (b'0' + n % 10) ∷ []

-- A number of 64 bits has 20 digits at most.
unfoldable pub show_int : ℤ → Text
unfolding show_digits
show_int (pos n) = show_digits 20 n
show_int (negsuc n) = b'-' ∷ show_digits 20 (suc n)

unfoldable pub features_id : {F : Type 0} → FeatureVector F → Text
unfolding unix_nano show_int
features_id fv = fv.channel ++ (codes "_" ++ show_int (unix_nano fv.window_end))

-- `PublishFeatures`
unfoldable pub publish_features :
    {F : Type 0}
    → (FeatureVector F → Option Text)
    → Bool
    → FeatureVector F
    → Option Msg × Option PublishError
unfolding features_id
publish_features marshal accepts fv =
    publication (features_subject fv.channel) (features_id fv) accepts (marshal fv)
