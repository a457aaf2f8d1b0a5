-- ===== src/Tests/Chat.antt =====
-- From the frames of Twitch's chat to the table: internal/ingest, internal/bus and internal/pipeline together, with
-- a form of messages in the place of JSON.
use snipr.Base.{ℕ, ◌≡◌, refl, sym, ap, ◌∙◌, Option, none, some, List, [], ◌∷◌, map, ltb}
use snipr.Base.Int.{ℤ, pos}
use snipr.Ingest.Client.{start}
use snipr.Bus.{on_msg, publish_chat}
use snipr.Ingest.Parser.{parse_irc_line}
use snipr.Ingest.Client.Frames.{frame_text, read_of}
use snipr.Models.{ChatMessage}
use snipr.Pipeline.Start.{Delivery, poll, run, to_sqlite}
use snipr.Pipeline.Start.Chat.{Stores, for_sqlite, received_of, run-Stores, stream}
use snipr.Tests.Forms.{
  read_ints, read_ints-write_int, read_text, some_injective, with_text, with_written, write_int,
  write_text,
}
use snipr.Tests.Ingest.{ascii_lower, frames, frames-ArePieces, joined_nothing}
use snipr.Tests.Pipeline.{client, parts, second_text, tenths, works}
use snipr.Text.{Text, codes, join, split_from}
use snipr.Ingest.Parser.Wire.{wire}

abbrev body_of : ChatMessage → Text
body_of m = write_text m.id (
    write_text m.channel (
      write_text m.user_id (
        write_text m.user_name
          (write_text m.content (write_int m.bits (write_int m.timestamp []))))))

-- Every message without emotes has a form.
abbrev written : ChatMessage → List Text → Option Text
written m [] = some (body_of m)
written m (_ ∷ _) = none

abbrev write_message : ChatMessage → Option Text
write_message m = written m m.emotes

abbrev message_of : Text → Text → Text → Text → Text → Option (ℤ × ℤ) → Option ChatMessage
message_of id channel user_id user_name content none = none
message_of id channel user_id user_name content (some (bits, timestamp)) = some (record {
  id = id;
  channel = channel;
  user_id = user_id;
  user_name = user_name;
  content = content;
  emotes = [];
  bits = bits;
  timestamp = timestamp;
})

abbrev read_message : Text → Option ChatMessage
read_message t = with_text (read_text t) (λ id t1. with_text (read_text t1) (λ channel t2.
    with_text (read_text t2) (λ user_id t3. with_text (read_text t3) (λ user_name t4.
      with_text (read_text t4)
        (λ content t5. message_of id channel user_id user_name content (read_ints t5))))))

read_message-body_of :
    (m : ChatMessage) → read_message (body_of m) ≡ some (record m { emotes = [] })
read_message-body_of m =
    with_written m.id _ _
    ∙ with_written m.channel _ _
    ∙ with_written m.user_id _ _
    ∙ with_written m.user_name _ _
    ∙ with_written m.content _ _
    ∙ ap (message_of m.id m.channel m.user_id m.user_name m.content)
        (read_ints-write_int m.bits m.timestamp)

read_message-write_message :
    (m : ChatMessage) (body : Text) → write_message m ≡ some body → read_message body ≡ some m
read_message-write_message m body h = from_emotes m.emotes refl h
  where
    from_emotes :
        (es : List Text) → m.emotes ≡ es → written m es ≡ some body → read_message body ≡ some m
    from_emotes [] e w =
        ap read_message (sym (some_injective w))
        ∙ read_message-body_of m
        ∙ ap (λ es. some (record m { emotes = es })) (sym e)
    from_emotes (_ ∷ _) e w = absurd (cc (w))

-- The messages that the bus, which takes the first one and refuses the second, gives to the SQLite group, with a
-- tick behind each.
abbrev from_bus : List ChatMessage
from_bus = received_of read_message (
    stream write_message (λ i. ltb i 1) 0
      (start ascii_lower (map read_of frames) joined_nothing).published)

abbrev mixed : List ChatMessage → List (Delivery ℕ)
mixed [] = []
mixed (m ∷ ms) = to_sqlite (pos 9) works m ∷ poll (pos 9) [] ∷ mixed ms

mixed_delivers : (ms : List ChatMessage) → for_sqlite (mixed ms) ≡ ms
mixed_delivers [] = refl
mixed_delivers (m ∷ ms) = ap (◌∷◌ m) (mixed_delivers ms)

run-Stores_example :
    Stores ascii_lower write_message
      (λ i. ltb i 1)
      frames
      parts
      (run tenths client second_text ascii_lower (mixed from_bus) parts)
run-Stores_example =
    run-Stores tenths client second_text ascii_lower write_message read_message (λ i. ltb i 1)
      frames joined_nothing (mixed from_bus) parts read_message-write_message frames-ArePieces
      (refl, (_, refl)) refl (mixed_delivers from_bus)

from_bus_test : map (λ m. m.content) from_bus ≡ codes "gg wp" ∷ []
unfolding start on_msg publish_chat parse_irc_line split_from frame_text wire join
from_bus_test = refl
