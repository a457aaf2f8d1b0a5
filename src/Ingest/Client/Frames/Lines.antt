-- ===== src/Ingest/Client/Frames/Lines.antt =====
-- The lines of a frame, one by one: what `readLoop` does with a chat line and with a PING.
use snipr.Base.{
  ℕ, ◌≡◌, ◌≢◌, refl, ap, sym, ◌∙◌, Bool, true, false, none, some, List, [], ◌∷◌, ◌++◌, map, All,
  All-append, append-nil, if◌then◌else◌, ok, arith, Result,
}
use snipr.Base.Int.{ℤ}
use snipr.Ingest.Client.{Client, Conn, on_line, on_result, write_line}
use snipr.Ingest.Parser.{ParseError, ParseResult, is_line_end, no_event, parse_irc_line, parse_line}
use snipr.Ingest.Parser.Wire.{ChatLine, IsReadAs, IsWire, wire}
use snipr.Ingest.Parser.Wire.RoundTrip.{parse_irc_line-wire_ended}
use snipr.Models.{ChatMessage}
use snipr.Text.{
  Text, codes, has_prefix, is_empty, is_space, split, split_from, trim_left, trim_right, trim_space,
}
use snipr.Text.Fields.{trim_right-append}
use snipr.Text.Split.{Lacks, cut-append}
use snipr.Ingest.Client.Frames.{Piece, said, ping, text_of, frame_text, IsPiece}

split-line :
    (a b : Text)
    → Lacks b'\r' a
    → split_from (codes "\r\n") 0 (a ++ b'\r' ∷ b'\n' ∷ b) ≡ a ∷ split_from (codes "\r\n") 0 b
unfolding split_from has_prefix
split-line [] b h = refl
split-line (x ∷ a) b h = ground (arith, split-line a b h.1)

not_line_end : (c : ℕ) → is_line_end c ≡ false → c ≢ b'\r'
not_line_end c h = ground (arith, h)

payload-Lacks : (s : Text) → All (λ c. is_line_end c ≡ false) s → Lacks b'\r' s
payload-Lacks [] h = tt
payload-Lacks (c ∷ s) h = (not_line_end c h.0, payload-Lacks s h.1)

piece-Lacks : (x : Piece) → IsPiece x → Lacks b'\r' (text_of x)
piece-Lacks (said l) h = h.1
piece-Lacks (ping payload) h =
    All-append (λ c. c ≢ b'\r') (codes "PING :") payload (omega arith) (payload-Lacks payload h)

-- The lines that `strings.Split` finds; the last one is empty.
pub split-frame_text :
    (xs : List Piece)
    → All IsPiece xs
    → split (frame_text xs) (codes "\r\n") ≡ map text_of xs ++ [] ∷ []
unfolding frame_text split_from
split-frame_text [] h = refl
split-frame_text (x ∷ xs) h =
    split-line (text_of x) (frame_text xs) (piece-Lacks x h.0)
    ∙ ap (◌∷◌ (text_of x)) (split-frame_text xs h.1)

ping_trimmed :
    (payload : Text)
    → All (λ c. is_line_end c ≡ false) payload
    → trim_right is_line_end (codes "PING :" ++ payload) ≡ codes "PING :" ++ payload
ping_trimmed payload h = rw append-nil at (
    trim_right-append is_line_end (codes "PING ") b':' payload [] (unfold trim_right in refl)
      (refl, h))

ping_parsed :
    (lower : ℕ → ℕ) (now : ℤ) (payload : Text)
    → All (λ c. is_line_end c ≡ false) payload
    → parse_irc_line lower now (codes "PING :" ++ payload)
      ≡ ok (record { message = none; is_ping = true; ping_payload = payload })
unfolding parse_irc_line parse_line has_prefix
ping_parsed lower now payload h =
    ap (parse_line lower now) (ping_trimmed payload h)
    ∙ ap
        (λ o. ok (record {
          message = none;
          is_ping = true;
          ping_payload = (elim o [ none ↦ codes "tmi.twitch.tv" | some (_, p) ↦ p ]);
        }))
        (cut-append b':' (codes "PING ") payload (omega arith))

not_blank : (c : ℕ) (s : Text) → is_space c ≡ false → is_empty (trim_space (c ∷ s)) ≡ false
unfolding trim_space trim_left trim_right
not_blank c s h = ground (arith, h)

wire_not_blank : (l : ChatLine) → is_empty (trim_space (wire l)) ≡ false
unfolding wire is_space
wire_not_blank l = not_blank b'@' _ refl

ping_not_blank : (payload : Text) → is_empty (trim_space (codes "PING :" ++ payload)) ≡ false
unfolding is_space
ping_not_blank payload = not_blank b'P' (codes "ING :" ++ payload) refl

on_line-parsed :
    (fails : Bool) (lower : ℕ → ℕ) (now : ℤ) (line : Text) (c : Client)
    (r : Result ParseError ParseResult)
    → is_empty (trim_space line) ≡ false
    → parse_irc_line lower now line ≡ r
    → on_line fails lower now line c ≡ on_result fails r c
unfolding on_line
on_line-parsed fails lower now line c r blank parsed =
    ap (λ b. if b then c else on_result fails (parse_irc_line lower now line) c) blank
    ∙ ap (λ r. on_result fails r c) parsed

pub on_line-said :
    (fails : Bool) (lower : ℕ → ℕ) (now : ℤ) (l : ChatLine) (c : Client)
    → IsWire l
    → c.has_bus ≡ true
    → (m : ChatMessage) × IsReadAs lower now l m
      × (on_line fails lower now (wire l) c ≡ record c { published = c.published ++ m ∷ [] })
on_line-said fails lower now l c w bus =
    let (m, parsed, is_read) =
      parse_irc_line-wire_ended lower now l [] w (unfold trim_right in refl) in
    let parsed' : parse_irc_line lower now (wire l) ≡ ok (record no_event { message = some m }) =
      ap (parse_irc_line lower now) (sym (append-nil (wire l))) ∙ parsed in
    (
      m,
      is_read,
      on_line-parsed fails lower now (wire l) c _ (wire_not_blank l) parsed'
          ∙ ap (λ b. if b then record c { published = c.published ++ m ∷ [] } else c) bus,
    )

pub on_line-ping :
    (fails : Bool) (lower : ℕ → ℕ) (now : ℤ) (payload : Text) (c : Client)
    → All (λ x. is_line_end x ≡ false) payload
    → on_line fails lower now (codes "PING :" ++ payload) c
      ≡ (write_line fails (codes "PONG :" ++ payload) c).0
unfolding write_line
on_line-ping fails lower now payload c h =
    on_line-parsed fails lower now (codes "PING :" ++ payload) c _ (ping_not_blank payload)
      (ping_parsed lower now payload h)

pub on_line-blank :
    (fails : Bool) (lower : ℕ → ℕ) (now : ℤ) (c : Client) → on_line fails lower now [] c ≡ c
unfolding on_line trim_space trim_left trim_right
on_line-blank fails lower now c = refl

-- What `writeLine` leaves of a client with a connection.
abbrev pub answered : Bool → Text → Client → Conn → Client
answered refused line c k =
    if refused then c else record c { conn = some (record k { sent = k.sent ++ line ∷ [] }) }

pub written :
    (refused : Bool) (line : Text) (c : Client) (k : Conn)
    → c.conn ≡ some k
    → (write_line refused line c).0 ≡ answered refused (line ++ codes "\r\n") c k
unfolding write_line
written true line c k e = ground (arith, e)
written false line c k e = ground (arith, e)
