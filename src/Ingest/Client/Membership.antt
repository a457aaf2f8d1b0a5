-- ===== src/Ingest/Client/Membership.antt =====
-- The channels that the client counts as joined, against the lines that Twitch was sent.
use snipr.Base.{
  Bool-cases, inl, inr, Result, ok, err, subst, ◌==◌, ◌&&◌, ℕ, ◌+◌, ◌≡◌, refl, Bool, true, false,
  Option, none, some, List, [], ◌∷◌, ◌++◌, arith, ap, ◌∙◌, sym, if◌then◌else◌,
}
use snipr.Base.Int.{ℤ}
use snipr.Ingest.Client.{
  publish_message, write_to, Conn, Client, Call, call_join, call_part, call_close, call_frame,
  write_line, written, channel_name, join, part, close, on_result, on_line, on_lines, call, run,
}
use snipr.Text.{Text, codes, eq_text, is_empty, trim_space, split}
use snipr.Text.Map.{lookup, insert, delete, lookup-insert, lookup-delete, Map}
use snipr.Ingest.Parser.{ParseResult, parse_irc_line, ParseError}
use snipr.Models.{ChatMessage}

abbrev pub join_line : Text → Text
join_line k = codes "JOIN #" ++ (k ++ codes "\r\n")

abbrev pub part_line : Text → Text
part_line k = codes "PART #" ++ (k ++ codes "\r\n")

-- What a line does to the membership of a channel, for Twitch that reads it.
unfoldable pub effect : Text → Text → Option Bool → Option Bool
unfolding eq_text
effect k line o =
    if eq_text line (join_line k) then some true else if eq_text line (part_line k) then none else o

-- The membership of a channel after some lines.
unfoldable pub told : Text → Option Bool → List Text → Option Bool
unfolding effect
told k o [] = o
told k o (line ∷ lines) = told k (effect k line o) lines

abbrev pub sent_by : Option Conn → List Text
sent_by none = []
sent_by (some k) = k.sent

abbrev pub Agrees : Client → Type 0
Agrees c = (k : Text) → lookup k c.channels ≡ told k none (sent_by c.conn)

told-append :
    (k : Text) (o : Option Bool) (lines : List Text) (line : Text)
    → told k o (lines ++ line ∷ []) ≡ effect k line (told k o lines)
unfolding told
told-append k o [] line = refl
told-append k o (l ∷ lines) line = told-append k (effect k l o) lines line

longer_front : (y : ℕ) (b : Text) → eq_text (codes "\r\n") (y ∷ (b ++ codes "\r\n")) ≡ false
unfolding eq_text
longer_front y [] = ground arith
longer_front y (z ∷ []) = ground arith
longer_front y (z ∷ w ∷ b) = ground arith

longer_back : (y : ℕ) (b : Text) → eq_text (y ∷ (b ++ codes "\r\n")) (codes "\r\n") ≡ false
unfolding eq_text
longer_back y [] = ground arith
longer_back y (z ∷ []) = ground arith
longer_back y (z ∷ w ∷ b) = ground arith

-- The line ends do not matter to a comparison.
eq_text_ended : (a b : Text) → eq_text (a ++ codes "\r\n") (b ++ codes "\r\n") ≡ eq_text a b
unfolding eq_text
eq_text_ended [] [] = refl
eq_text_ended [] (y ∷ b) = longer_front y b
eq_text_ended (x ∷ a) [] = longer_back x a
eq_text_ended (x ∷ a) (y ∷ b) = ap (λ t. x == y && t) (eq_text_ended a b)

effect-join :
    (k ch : Text) (o : Option Bool)
    → effect k (join_line ch) o ≡ (if eq_text ch k then some true else o)
unfolding effect
effect-join k ch o = ap (λ t. if t then some true else o) (eq_text_ended ch k)

effect-part :
    (k ch : Text) (o : Option Bool) → effect k (part_line ch) o ≡ (if eq_text ch k then none else o)
unfolding effect
effect-part k ch o = ap (λ t. if t then none else o) (eq_text_ended ch k)

effect-pong :
    (k p : Text) (o : Option Bool) → effect k (codes "PONG :" ++ (p ++ codes "\r\n")) o ≡ o
unfolding effect
effect-pong k p o = refl

on_line_blank :
    (fails : Bool) (lower : ℕ → ℕ) (now : ℤ) (line : Text) (c : Client)
    → is_empty (trim_space line) ≡ true
    → on_line fails lower now line c ≡ c
unfolding on_line
on_line_blank fails lower now line c h = rw h

on_line_text :
    (fails : Bool) (lower : ℕ → ℕ) (now : ℤ) (line : Text) (c : Client)
    → is_empty (trim_space line) ≡ false
    → on_line fails lower now line c ≡ on_result fails (parse_irc_line lower now line) c
unfolding on_line
on_line_text fails lower now line c h = rw h

module _ (c : Client) (h : Agrees c) where
  told_next :
      (k : Text) (q : Conn) (line : Text)
      → c.conn ≡ some q
      → told k none (q.sent ++ line ∷ []) ≡ effect k line (lookup k c.channels)
  told_next k q line e =
      told-append k none q.sent line
      ∙ ap (effect k line) (sym (h k ∙ ap (λ o. told k none (sent_by o)) e))

  -- A line that is sent with the change that it means to Twitch.
  written-Agrees :
      (change : Map Bool → Map Bool) (fails : Bool) (line : Text) (o : Option Conn)
      → c.conn ≡ o
      → ((k : Text)
          → lookup k (change c.channels) ≡ effect k (line ++ codes "\r\n") (lookup k c.channels))
      → Agrees (written change (write_to fails line c o)).0
  written-Agrees change fails line none e same k = h k
  written-Agrees change true line (some q) e same k = h k
  written-Agrees change false line (some q) e same k =
      same k ∙ sym (told_next k q (line ++ codes "\r\n") e)

  -- A line that means nothing to the membership of channels.
  write_to-Agrees :
      (fails : Bool) (line : Text) (o : Option Conn)
      → c.conn ≡ o
      → ((k : Text) → effect k (line ++ codes "\r\n") (lookup k c.channels) ≡ lookup k c.channels)
      → Agrees (write_to fails line c o).0
  write_to-Agrees fails line none e same k = h k
  write_to-Agrees true line (some q) e same k = h k
  write_to-Agrees false line (some q) e same k =
      sym (same k) ∙ sym (told_next k q (line ++ codes "\r\n") e)

  pub join-Agrees :
      (fails : Bool) (lower : ℕ → ℕ) (channel : Text) → Agrees (join fails lower channel c).0
  unfolding join
  join-Agrees fails lower channel =
      let ch = channel_name lower channel in
      elim (Bool-cases (is_empty ch)) [
        | inl none_there ↦ rw none_there h
        | inr named ↦ rw named (
            written-Agrees (insert ch true) fails (codes "JOIN #" ++ ch) c.conn refl (λ k.
              lookup-insert ch k true c.channels ∙ sym (effect-join k ch (lookup k c.channels))))
      ]

  pub part-Agrees :
      (fails : Bool) (lower : ℕ → ℕ) (channel : Text) → Agrees (part fails lower channel c).0
  unfolding part
  part-Agrees fails lower channel =
      let ch = channel_name lower channel in
      elim (Bool-cases (is_empty ch)) [
        | inl none_there ↦ rw none_there h
        | inr named ↦ rw named (
            written-Agrees (delete ch) fails (codes "PART #" ++ ch) c.conn refl
              (λ k. lookup-delete ch k c.channels ∙ sym (effect-part k ch (lookup k c.channels))))
      ]

  pub close-Agrees : (fails : Bool) → Agrees (close fails c).0
  unfolding close
  close-Agrees fails k = ground (arith, h k)

  publish_message-Agrees : (m : Option ChatMessage) → Agrees (publish_message m c)
  publish_message-Agrees none k = h k
  publish_message-Agrees (some msg) k = ground (arith, h k)

  on_result-Agrees :
      (fails : Bool) (r : Result ParseError ParseResult) → Agrees (on_result fails r c)
  unfolding write_line
  on_result-Agrees fails (err e) = h
  on_result-Agrees fails (ok r) = elim (Bool-cases r.is_ping) [
    | inl ping ↦ rw ping (
        write_to-Agrees fails (codes "PONG :" ++ r.ping_payload) c.conn refl
          (λ k. effect-pong k r.ping_payload (lookup k c.channels)))
    | inr other ↦ rw other (publish_message-Agrees r.message)
  ]

  on_line-Agrees :
      (fails : Bool) (lower : ℕ → ℕ) (now : ℤ) (line : Text)
      → Agrees (on_line fails lower now line c)
  on_line-Agrees fails lower now line = elim (Bool-cases (is_empty (trim_space line))) [
    | inl blank ↦ subst Agrees (sym (on_line_blank fails lower now line c blank)) h
    | inr text ↦
        subst Agrees (sym (on_line_text fails lower now line c text))
          (on_result-Agrees fails (parse_irc_line lower now line))
  ]

on_lines-Agrees :
    (fails : ℕ → Bool) (lower : ℕ → ℕ) (clock : ℕ → ℤ) (i : ℕ) (lines : List Text) (c : Client)
    → Agrees c
    → Agrees (on_lines fails lower clock i lines c)
unfolding on_lines
on_lines-Agrees fails lower clock i [] c h = h
on_lines-Agrees fails lower clock i (line ∷ lines) c h =
    on_lines-Agrees fails lower clock (i + 1) lines (on_line (fails i) lower (clock i) line c)
      (on_line-Agrees c h (fails i) lower (clock i) line)

call-Agrees : (lower : ℕ → ℕ) (k : Call) (c : Client) → Agrees c → Agrees (call lower k c)
unfolding call
call-Agrees lower (call_join fails channel) c h = join-Agrees c h fails lower channel
call-Agrees lower (call_part fails channel) c h = part-Agrees c h fails lower channel
call-Agrees lower (call_close fails) c h = close-Agrees c h fails
call-Agrees lower (call_frame fails clock payload) c h =
    on_lines-Agrees fails lower clock 0 (split payload (codes "\r\n")) c h

-- Over any calls of a client whose channels agree with the lines sent, whatever the socket refuses
-- and whatever frames come in: a channel counts as joined exactly when the last JOIN or PART of it
-- that was sent is a JOIN.
pub run-Agrees : (lower : ℕ → ℕ) (ks : List Call) (c : Client) → Agrees c → Agrees (run lower ks c)
unfolding run
run-Agrees lower [] c h = h
run-Agrees lower (k ∷ ks) c h = run-Agrees lower ks (call lower k c) (call-Agrees lower k c h)
