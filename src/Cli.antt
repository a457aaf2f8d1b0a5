-- ===== src/Cli.antt =====
-- cmd/chat-cli/main.go: the commands of the chat program, from its input loop on.
pub mod Session
pub mod Burst
pub mod Startup
use snipr.Base.{
  ℕ, zero, suc, ◌+◌, ◌%◌, Bool, true, false, not, ◌&&◌, ◌||◌, Option, none, some, List, [], ◌∷◌,
  ◌++◌, map, if◌then◌else◌, Result, ok, err,
}
use snipr.Analytics.{Stats}
use snipr.Base.Int.{ℤ, pos}
use snipr.Bus.{show_digits, show_int}
use snipr.Ingest.Client.{Client, ClientError, channel_name, join, part, close, get_channels}
use snipr.Models.{ChatMessage}
use snipr.Pipeline.Cooldown.{is_in_cooldown}
use snipr.Store.{Driver, SqliteStore, flush}
use snipr.Text.{Text, codes, eq_text, fields, trim_space}
use snipr.Text.Map.{Map, lookup}
use snipr.Time.{unix_nano}
use snipr.Twitch.{HelixClient, HelixError, ClipResponse, is_configured, get_user_id, create_clip}
use snipr.Http.{HttpAnswer}

-- What is printed, before it is formatted.
pub record ChannelStatus (F : Type 0) : Type 0 where
  pub channel : Text
  pub last_prob : Option F
  pub in_cooldown : Bool
  pub left : ℤ

pub data Line (F : Type 0) : Type 0 where
  chat_on chat_off usage_clip usage_add usage_part helix_not_configured elastic_offline : Line F
  count_failed shutting_down : Line F
  status : Bool → ℕ → List (ChannelStatus F) → Line F
  injecting joined left_channel unknown : Text → Line F
  elastic_stats : Stats → Line F
  sqlite_rows : ℕ → Line F
  join_failed part_failed : ClientError → Line F
  channels : List Text → Line F

-- What a command does beside changing the program's own state: it prints, or starts a goroutine.
pub data Output (F : Type 0) : Type 0 where
  print : Line F → Output F
  go_clip go_burst : Text → Output F
  panic : Output F

-- What the other parts of the program show when a command reads them.
pub record View (F : Type 0) : Type 0 where
  pub now : ℤ
  pub model_ready : Bool
  pub message_count : ℕ
  pub cooldowns : Map ℤ
  pub last_prob : Map F
  pub helix : HelixClient
  pub elastic : Option Stats
  pub rows : Option ℕ
  pub write_fails : Bool

-- The state of the input loop.
pub record Shell : Type 0 where
  pub client : Client
  pub show_chat : Bool
  pub running : Bool

pub data Command : Type 0 where
  toggle_chat make_clip show_status simulate show_elastic show_db add_channel part_channel : Command
  list_channels stop : Command
  other : Text → Command

abbrev one_of : List Text → Text → Bool
one_of [] s = false
one_of (t ∷ ts) s = eq_text s t || one_of ts s

-- The cases of the `switch`.
unfoldable pub command_of : Text → Command
unfolding eq_text
command_of cmd =
    if one_of (codes "/chat" ∷ codes "/mute" ∷ codes "/toggle" ∷ []) cmd
    then toggle_chat
    else if one_of (codes "/clip" ∷ []) cmd
    then make_clip
    else if one_of (codes "/status" ∷ []) cmd
    then show_status
    else if one_of (codes "/simulate" ∷ codes "/hype" ∷ []) cmd
    then simulate
    else if one_of (codes "/elastic" ∷ codes "/es" ∷ []) cmd
    then show_elastic
    else if one_of (codes "/db" ∷ codes "/sqlite" ∷ []) cmd
    then show_db
    else if one_of (codes "/add" ∷ codes "/join" ∷ []) cmd
    then add_channel
    else if one_of (codes "/part" ∷ codes "/leave" ∷ []) cmd
    then part_channel
    else if one_of (codes "/list" ∷ codes "/channels" ∷ []) cmd
    then list_channels
    else if one_of (codes "/stop" ∷ codes "/quit" ∷ codes "/exit" ∷ []) cmd
    then stop
    else other cmd

abbrev targets : (ℕ → ℕ) → Client → List Text → List Text
targets lower c [] = get_channels c
targets lower c (arg ∷ args) = channel_name lower arg ∷ []

abbrev simulate_target : List Text → Text
simulate_target [] = codes "tarik"
simulate_target (arg ∷ args) = arg

module _ {F : Type 0} where
  abbrev pub clip_command : View F → List Text → List (Output F)
  clip_command v [] = print usage_clip ∷ []
  clip_command v (ch ∷ args) =
      if is_configured v.helix then go_clip ch ∷ [] else print helix_not_configured ∷ []

  unfoldable pub status_of : View F → Text → ChannelStatus F
  unfolding is_in_cooldown lookup
  status_of v t =
      let (in_cd, rem) = is_in_cooldown t v.now v.cooldowns in
      record { channel = t; last_prob = lookup t v.last_prob; in_cooldown = in_cd; left = rem }

  abbrev elastic_command : Option Stats → Line F
  elastic_command none = elastic_offline
  elastic_command (some s) = elastic_stats s

  abbrev db_command : Option ℕ → Line F
  db_command none = count_failed
  db_command (some n) = sqlite_rows n

  abbrev pub changed :
      (ClientError → Line F)
      → Line F
      → Shell
      → Client × Option ClientError
      → Shell × List (Output F)
  changed failed done s (c, none) = (record s { client = c }, print done ∷ [])
  changed failed done s (c, some e) = (record s { client = c }, print (failed e) ∷ [])

  abbrev add_command : (ℕ → ℕ) → View F → List Text → Shell → Shell × List (Output F)
  add_command lower v [] s = (s, print usage_add ∷ [])
  add_command lower v (arg ∷ args) s =
      changed join_failed (joined arg) s (join v.write_fails lower arg s.client)

  abbrev part_command : (ℕ → ℕ) → View F → List Text → Shell → Shell × List (Output F)
  part_command lower v [] s = (s, print usage_part ∷ [])
  part_command lower v (arg ∷ args) s =
      changed part_failed (left_channel arg) s (part v.write_fails lower arg s.client)

  -- The cases of the `switch`, with the arguments behind the command.
  unfoldable pub execute : (ℕ → ℕ) → View F → Command → List Text → Shell → Shell × List (Output F)
  unfolding join part status_of channel_name
  execute lower v toggle_chat args s = (
    record s { show_chat = not s.show_chat },
    print (if not s.show_chat then chat_on else chat_off) ∷ [],
  )
  execute lower v make_clip args s = (s, clip_command v args)
  execute lower v show_status args s = (
    s,
    print (status v.model_ready v.message_count (map (status_of v) (targets lower s.client args)))
        ∷ [],
  )
  execute lower v simulate args s =
      (s, print (injecting (simulate_target args)) ∷ go_burst (simulate_target args) ∷ [])
  execute lower v show_elastic args s = (s, print (elastic_command v.elastic) ∷ [])
  execute lower v show_db args s = (s, print (db_command v.rows) ∷ [])
  execute lower v add_channel args s = add_command lower v args s
  execute lower v part_channel args s = part_command lower v args s
  execute lower v list_channels args s = (s, print (channels (get_channels s.client)) ∷ [])
  execute lower v stop args s = (record s { running = false }, [])
  execute lower v (other cmd) args s = (s, print (unknown cmd) ∷ [])

  -- `parts[0]` of no parts panics.
  abbrev pub on_parts : (ℕ → ℕ) → View F → List Text → Shell → Shell × List (Output F)
  on_parts lower v [] s = (s, panic ∷ [])
  on_parts lower v (p ∷ args) s = execute lower v (command_of (map lower p)) args s

  abbrev pub on_input : (ℕ → ℕ) → View F → Text → Shell → Shell × List (Output F)
  on_input lower v [] s = (s, [])
  on_input lower v (c ∷ input) s = on_parts lower v (fields (c ∷ input)) s

-- What the loop selects: a signal, or a line typed, which the reader trims.
pub data Event : Type 0 where
  signal : Event
  typed : Text → Event

module _ {F : Type 0} (lower : ℕ → ℕ) where
  unfoldable pub on_event : View F → Event → Shell → Shell × List (Output F)
  unfolding execute command_of fields trim_space
  on_event v signal s = (record s { running = false }, print shutting_down ∷ [])
  on_event v (typed raw) s = on_input lower v (trim_space raw) s

  -- `for running { select { … } }` over what comes in, with what the parts show each time.
  unfoldable pub loop : List (View F × Event) → Shell → Shell × List (Output F)
  unfolding on_event
  loop [] s = (s, [])
  loop ((v, e) ∷ es) s =
      let (s1, out) = on_event v e s in
      let (s2, rest) = loop es s1 in if s.running then (s2, out ++ rest) else (s, [])

-- Behind the loop: `client.Close()` and `sqliteStore.Flush(ctx)`.
unfoldable pub finish : Bool → Driver → Client × SqliteStore → Client × SqliteStore
unfolding close
finish fails d (c, s) = ((close fails c).0, (flush d s).0)

abbrev clip_for :
    Option Text
    → HttpAnswer (List ClipResponse)
    → HelixClient × Result HelixError Text
    → HelixClient × Result HelixError ClipResponse
clip_for provided clips (c, err e) = (c, err e)
clip_for provided clips (c, ok id) = create_clip provided clips c

-- The goroutine of `/clip`: what the provider of tokens and Twitch give to its two requests.
unfoldable pub manual_clip :
    (ℕ → ℕ)
    → Option Text × Option Text
    → HttpAnswer (List Text)
    → HttpAnswer (List ClipResponse)
    → Text
    → HelixClient
    → HelixClient × Result HelixError ClipResponse
unfolding get_user_id create_clip
manual_clip lower (first, second) users clips channel c =
    clip_for second clips (get_user_id lower first users channel c)

-- The i-th message of the goroutine of `/simulate`.
unfoldable pub sim_message : ℤ → Text → ℕ → ChatMessage
unfolding unix_nano show_int show_digits
sim_message now ch i = record {
  id = codes "sim_" ++ (show_int (unix_nano now) ++ (codes "_" ++ show_digits 20 i));
  channel = ch;
  user_id = codes "sim_user_" ++ show_digits 20 (i % 12);
  user_name = codes "SimFan" ++ show_digits 20 (i % 12);
  content = codes "omg wtf holy wow insane kekw lmao cinema clean";
  emotes = [];
  bits = pos 0;
  timestamp = now;
}

-- `n` messages from the i-th on.
unfoldable pub burst_from : ℤ → Text → ℕ → ℕ → List ChatMessage
unfolding sim_message
burst_from now ch i zero = []
burst_from now ch i (suc n) = sim_message now ch i ∷ burst_from now ch (i + 1) n

abbrev pub burst : ℤ → Text → List ChatMessage
burst now ch = burst_from now ch 0 40
