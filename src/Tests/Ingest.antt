-- ===== src/Tests/Ingest.antt =====
-- The parser of internal/ingest/parser.go on chat lines.
use snipr.Base.{
  ℕ, ◌+◌, ◌≡◌, ◌↔◌, refl, true, false, ◌&&◌, none, some, List, [], ◌∷◌, ◌++◌, map, leb,
  if◌then◌else◌, arith, All, ok, err,
}
use snipr.Ingest.Parser.Wire.{ChatLine, IsWire, IsReadAs, wire}
use snipr.Ingest.Parser.Wire.RoundTrip.{parse_irc_line-wire}
use snipr.Ingest.Parser.Failures.{parse_irc_line-err_iff, IsRefused}
use snipr.Ingest.Parser.Emotes.{parse_emotes-returns, IsPart}
use snipr.Ingest.Client.Frames.{said, ping, IsPiece, Frame, TakesAll, read_of}
use snipr.Ingest.Client.Frames.Taken.{start-TakesAll}
use snipr.Ingest.Parser.{
  is_line_end, no_event, malformed_tag_prefix, parse_irc_line, parse_emotes, returned,
}
use snipr.Models.{ChatMessage}
use snipr.Text.Map.{lookup, keys}
use snipr.Ingest.Client.{Client, start, Call, call_join, call_part, call_frame, run, get_channels}
use snipr.Ingest.Client.Membership.{Agrees, told, run-Agrees}
use snipr.Text.{split_from, is_space, has_prefix, cut, trim_right, codes, atoi, join}
use snipr.Base.Int.{pos}

-- ASCII letters in lower case.
abbrev pub ascii_lower : ℕ → ℕ
ascii_lower c = if leb b'A' c && leb c b'Z' then c + 32 else c

abbrev line : ChatLine
line = record {
  tag = (codes "id", codes "7;x");
  tags = (codes "bits", codes "5") ∷ [];
  nick = codes "amy";
  host = codes "amy@tv";
  channel = codes "Fun";
  content = codes "gg wp";
}

line-IsWire : IsWire line
line-IsWire = record {
  keys_ok =
      ((omega arith, omega arith, omega arith), ((omega arith, omega arith, omega arith), tt));
  nick_space = omega arith;
  nick_mark = omega arith;
  host_space = omega arith;
  channel_word = unfold is_space in (refl, (refl, (refl, tt)));
  content_line = (refl, (refl, (refl, (refl, (refl, tt)))));
}

line_text : wire line ≡ codes "@id=7\\:x;bits=5 :amy!amy@tv PRIVMSG #Fun :gg wp"
unfolding wire join
line_text = refl

parse_irc_line-wire_example :
    (m : ChatMessage) × (parse_irc_line ascii_lower (pos 9) (wire line ++ codes "\r\n")
      ≡ ok (record no_event { message = some m }))
    × IsReadAs ascii_lower (pos 9) line m
parse_irc_line-wire_example = parse_irc_line-wire ascii_lower (pos 9) line line-IsWire

parse_irc_line-err_iff_example :
    (parse_irc_line ascii_lower (pos 9) (codes "@id=7\n") ≡ err malformed_tag_prefix)
    ↔ IsRefused (trim_right is_line_end (codes "@id=7\n")) malformed_tag_prefix
parse_irc_line-err_iff_example =
    parse_irc_line-err_iff ascii_lower (pos 9) (codes "@id=7\n") malformed_tag_prefix

parse_emotes-returns_example :
    let o = parse_emotes (codes "25:0-4,9-3/x") (codes "Kappa hi") in
    (o ≡ some (returned o)) × All (IsPart (codes "Kappa hi")) (returned o)
parse_emotes-returns_example = parse_emotes-returns (codes "25:0-4,9-3/x") (codes "Kappa hi")

emotes_test : parse_emotes (codes "25:0-4,9-3/x") (codes "Kappa hi") ≡ some (codes "Kappa" ∷ [])
unfolding parse_emotes atoi cut split_from
emotes_test = refl

ping_test :
    parse_irc_line ascii_lower (pos 9) (codes "PING :tmi.twitch.tv\r\n")
    ≡ ok (record { message = none; is_ping = true; ping_payload = codes "tmi.twitch.tv" })
unfolding parse_irc_line trim_right cut has_prefix
ping_test = refl

abbrev pub joined_nothing : Client
joined_nothing = record {
  options = record { oauth_token = []; username = []; irc_url = codes "ws" };
  conn = some (record { sent = []; shut = false });
  channels = [];
  closed = false;
  has_bus = true;
  published = [];
}

abbrev calls : List Call
calls =
    call_join false (codes "#Fun")
    ∷ call_join false (codes "art")
    ∷ call_frame (λ i. false) (λ i. pos 9) (codes "PING :x\r\n")
    ∷ call_part true (codes "fun")
    ∷ call_part false (codes "art")
    ∷ []

none_joined : Agrees joined_nothing
unfolding lookup told
none_joined k = refl

run-Agrees_example : Agrees (run ascii_lower calls joined_nothing)
run-Agrees_example = run-Agrees ascii_lower calls joined_nothing none_joined

channels_test : get_channels (run ascii_lower calls joined_nothing) ≡ codes "fun" ∷ []
unfolding run keys split_from
channels_test = refl

-- A frame of a chat line, a PING whose answer the socket takes, and a PING whose answer it refuses; and a
-- frame of one more chat line.
abbrev pub frames : List Frame
frames =
    record {
      fails = λ i. leb 2 i;
      clock = λ i. pos i;
      pieces = said line ∷ ping (codes "a b") ∷ ping (codes "c") ∷ [];
    }
    ∷ record { fails = λ i. true; clock = λ i. pos 9; pieces = said line ∷ [] }
    ∷ []

line-IsPiece : IsPiece (said line)
unfolding wire join
line-IsPiece = (line-IsWire, omega arith)

pub frames-ArePieces : All (λ f. All IsPiece f.pieces) frames
frames-ArePieces =
    ((line-IsPiece, ((refl, (refl, (refl, tt))), ((refl, tt), tt))), ((line-IsPiece, tt), tt))

start-TakesAll_example :
    TakesAll ascii_lower frames joined_nothing
      (start ascii_lower (map read_of frames) joined_nothing)
start-TakesAll_example =
    start-TakesAll ascii_lower frames joined_nothing frames-ArePieces (refl, (_, refl))
