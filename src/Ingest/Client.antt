-- ===== src/Ingest/Client.antt =====
-- internal/ingest/client.go: the WebSocket connection to Twitch's chat.
pub mod Membership
pub mod Frames
use snipr.Base.{
  ℕ, ◌+◌, Bool, true, false, Option, none, some, List, [], ◌∷◌, ◌++◌, map, ◌||◌, not, if◌then◌else◌,
  Result, ok, err,
}
use snipr.Base.Int.{ℤ}
use snipr.Ingest.Parser.{ParseError, ParseResult, parse_irc_line}
use snipr.Models.{ChatMessage}
use snipr.Text.{Text, codes, is_empty, split, trim_prefix, trim_space}
use snipr.Text.Map.{Map, insert, delete, keys}

pub record ClientOptions : Type 0 where
  pub oauth_token : Text
  pub username : Text
  pub irc_url : Text

-- A connection: the messages that it took, and whether it was closed.
pub record Conn : Type 0 where
  pub sent : List Text
  pub shut : Bool

-- `published` lists the messages handed to the bus, which is there or not.
pub record Client : Type 0 where
  pub options : ClientOptions
  pub conn : Option Conn
  pub channels : Map Bool
  pub closed : Bool
  pub has_bus : Bool
  pub published : List ChatMessage

pub data ClientError : Type 0 where
  dial_failed no_connection write_failed invalid_channel close_failed : ClientError

abbrev pub or_default : Text → Text
or_default [] = codes "wss://irc-ws.chat.twitch.tv:443"
or_default (c ∷ s) = c ∷ s

-- `NewClient`
abbrev pub new_client : Bool → ClientOptions → Client
new_client has_bus opts = record {
  options = record opts { irc_url = or_default opts.irc_url };
  conn = none;
  channels = [];
  closed = false;
  has_bus = has_bus;
  published = [];
}

abbrev pub write_to : Bool → Text → Client → Option Conn → Client × Option ClientError
write_to fails line c none = (c, some no_connection)
write_to fails line c (some k) = if fails then (c, some write_failed) else (
  record c { conn = some (record k { sent = k.sent ++ (line ++ codes "\r\n") ∷ [] }) },
  none,
)

-- `writeLine`; `fails` is whether the library refuses the message.
unfoldable pub write_line : Bool → Text → Client → Client × Option ClientError
write_line fails line c = write_to fails line c c.conn

abbrev shut_conn : Option Conn → Option Conn
shut_conn none = none
shut_conn (some k) = some (record k { shut = true })

-- `if err := c.writeLine(line); err != nil { c.conn.Close(); return err }`, and what comes behind.
abbrev pub and_then :
    Client × Option ClientError
    → (Client → Client × Option ClientError)
    → Client × Option ClientError
and_then (c, some e) rest = (record c { conn = shut_conn c.conn }, some e)
and_then (c, none) rest = rest c

-- The two lines of the authentication.
abbrev pub login_lines : (ℕ → ℕ) → Text → ClientOptions → Text × Text
login_lines lower guest opts =
    if is_empty opts.oauth_token || is_empty opts.username
    then (codes "PASS SCHMOOPIIE", codes "NICK justinfan" ++ guest)
    else (
      codes "PASS oauth:" ++ trim_prefix opts.oauth_token (codes "oauth:"),
      codes "NICK " ++ map lower opts.username,
    )

-- `Connect`; `guest` is the number of an anonymous guest, and `fails i` is about the i-th message.
unfoldable pub connect : Bool → (ℕ → Bool) → (ℕ → ℕ) → Text → Client → Client × Option ClientError
unfolding write_line trim_prefix
connect dials fails lower guest c =
    let opened = record c { conn = some (record { sent = []; shut = false }) } in
    let (pass, nick) = login_lines lower guest c.options in
    if not dials
    then (c, some dial_failed)
    else and_then (write_line (fails 0) (codes "CAP REQ :twitch.tv/tags twitch.tv/commands") opened)
        (λ c1.
          and_then (write_line (fails 1) pass c1)
            (λ c2. and_then (write_line (fails 2) nick c2) (λ c3. (c3, none))))

-- `strings.ToLower(strings.TrimPrefix(channel, "#"))`
unfoldable pub channel_name : (ℕ → ℕ) → Text → Text
unfolding trim_prefix
channel_name lower channel = map lower (trim_prefix channel (codes "#"))

abbrev pub written :
    (Map Bool → Map Bool) → Client × Option ClientError → Client × Option ClientError
written change (c, some e) = (c, some e)
written change (c, none) = (record c { channels = change c.channels }, none)

-- `Join`. The write and the change of the map are two critical sections; here they are one step, since
-- only the goroutine of `main` calls this and `Part`.
unfoldable pub join : Bool → (ℕ → ℕ) → Text → Client → Client × Option ClientError
unfolding channel_name write_line insert
join fails lower channel c =
    let ch = channel_name lower channel in
    if is_empty ch
    then (c, some invalid_channel)
    else written (insert ch true) (write_line fails (codes "JOIN #" ++ ch) c)

-- `Part`
unfoldable pub part : Bool → (ℕ → ℕ) → Text → Client → Client × Option ClientError
unfolding channel_name write_line delete
part fails lower channel c =
    let ch = channel_name lower channel in
    if is_empty ch
    then (c, some invalid_channel)
    else written (delete ch) (write_line fails (codes "PART #" ++ ch) c)

-- `GetChannels`, in one of the orders of the map.
abbrev pub get_channels : Client → List Text
get_channels c = keys c.channels

abbrev shut_by : Bool → Client → Option Conn → Client × Option ClientError
shut_by fails c none = (c, none)
shut_by fails c (some k) =
    (record c { conn = some (record k { shut = true }) }, if fails then some close_failed else none)

-- `Close`
unfoldable pub close : Bool → Client → Client × Option ClientError
close fails c = if c.closed then (c, none) else shut_by fails (record c { closed = true }) c.conn

abbrev publish_message : Option ChatMessage → Client → Client
publish_message none c = c
publish_message (some msg) c =
    if c.has_bus then record c { published = c.published ++ msg ∷ [] } else c

abbrev pub on_result : Bool → Result ParseError ParseResult → Client → Client
on_result fails (err e) c = c
on_result fails (ok r) c =
    if r.is_ping
    then (write_line fails (codes "PONG :" ++ r.ping_payload) c).0
    else publish_message r.message c

-- The body of the loop over the lines of a frame. `now` is what `time.Now()` gives.
unfoldable pub on_line : Bool → (ℕ → ℕ) → ℤ → Text → Client → Client
unfolding trim_space parse_irc_line write_line
on_line fails lower now line c =
    if is_empty (trim_space line) then c else on_result fails (parse_irc_line lower now line) c

-- The loop, from the i-th line on: each line meets its own clock and its own answer to a message.
unfoldable pub on_lines : (ℕ → Bool) → (ℕ → ℕ) → (ℕ → ℤ) → ℕ → List Text → Client → Client
unfolding on_line
on_lines fails lower clock i [] c = c
on_lines fails lower clock i (line ∷ lines) c =
    on_lines fails lower clock (i + 1) lines (on_line (fails i) lower (clock i) line c)

-- What one turn of the loop of `Start` meets: the end of the context or of the client, a read error,
-- or a frame.
pub data Read : Type 0 where
  stopped read_failed : Read
  frame : (ℕ → Bool) → (ℕ → ℤ) → Text → Read

-- `Start`
unfoldable pub start : (ℕ → ℕ) → List Read → Client → Client
unfolding on_lines
start lower [] c = c
start lower (stopped ∷ reads) c = c
start lower (read_failed ∷ reads) c = c
start lower (frame fails clock payload ∷ reads) c =
    start lower reads (on_lines fails lower clock 0 (split payload (codes "\r\n")) c)

-- The calls that the other parts make of a client that is connected.
pub data Call : Type 0 where
  call_join call_part : Bool → Text → Call
  call_close : Bool → Call
  call_frame : (ℕ → Bool) → (ℕ → ℤ) → Text → Call

unfoldable pub call : (ℕ → ℕ) → Call → Client → Client
unfolding join part close on_lines
call lower (call_join fails channel) c = (join fails lower channel c).0
call lower (call_part fails channel) c = (part fails lower channel c).0
call lower (call_close fails) c = (close fails c).0
call lower (call_frame fails clock payload) c =
    on_lines fails lower clock 0 (split payload (codes "\r\n")) c

unfoldable pub run : (ℕ → ℕ) → List Call → Client → Client
unfolding call
run lower [] c = c
run lower (k ∷ ks) c = run lower ks (call lower k c)
