-- ===== src/Ingest/Parser/Wire/RoundTrip.antt =====
-- Each piece of a wire line, and then the whole, through the parser.
use snipr.Base.{
  ℕ, ◌≡◌, ◌≢◌, refl, false, [], ◌∷◌, ◌++◌, arith, ap, sym, All, All-append, append_assoc, ◌∙◌, map,
  some, ok, if◌then◌else◌,
}
use snipr.Base.Int.{ℤ}
use snipr.Ingest.Parser.Emotes.{parse_emotes-returns}
use snipr.Models.{ChatMessage}
use snipr.Text.{Text, codes, is_empty, is_space, cut, join, fields, trim_right}
use snipr.Text.Fields.{fields_from-word, trim_right-append, All-join}
use snipr.Text.Map.{get_or, Map}
use snipr.Text.Split.{Lacks, cut-append, split-join}
use snipr.Ingest.Parser.{
  parse_irc_line, parse_line, take_tags, take_prefix, take_command, chat_message, no_event,
  is_line_end, timestamp_of, bits_of, parse_emotes,
}
use snipr.Ingest.Parser.Wire.{Tags, pair_text, ChatLine, all_tags, wire, IsKey, IsWire, IsReadAs}
use snipr.Ingest.Parser.Wire.TagList.{
  insert_all, parse_tags-insert_all, lookup_tag, get_or-insert_all, pair_texts-Lacks,
}

take_tags-wire :
    (kv : Text × Text) (kvs : Tags) (rest : Text)
    → All (λ kv. IsKey kv.0) (kv ∷ kvs)
    → take_tags (b'@' ∷ (join (codes ";") (map pair_text (kv ∷ kvs)) ++ b' ' ∷ rest))
      ≡ ok (insert_all [] (kv ∷ kvs), rest)
unfolding take_tags
take_tags-wire kv kvs rest h =
    let lacks = pair_texts-Lacks (kv ∷ kvs) h in
    let whole = join (codes ";") (map pair_text (kv ∷ kvs)) in
    let first =
      cut-append b' ' (b'@' ∷ whole) rest
        (omega arith, All-join _ (codes ";") (map pair_text (kv ∷ kvs)) (omega arith) lacks.1) in
    ground (
      arith,
      first,
      split-join b';' (pair_text kv) (map pair_text kvs) lacks.0,
      parse_tags-insert_all [] (kv ∷ kvs) h,
    )

take_prefix-wire :
    (nick host rest : Text)
    → Lacks b' ' nick
    → Lacks b'!' nick
    → Lacks b' ' host
    → take_prefix (b':' ∷ (nick ++ b'!' ∷ (host ++ b' ' ∷ rest))) ≡ ok (nick, rest)
unfolding take_prefix
take_prefix-wire nick host rest hs hm hh =
    let mask = nick ++ b'!' ∷ host in
    let lacks = All-append (λ c. c ≢ b' ') nick (b'!' ∷ host) hs (omega arith, hh) in
    ground (
      arith,
      cut-append b' ' mask rest lacks,
      append_assoc nick (b'!' ∷ host) (b' ' ∷ rest),
      cut-append b'!' nick host hm,
    )

cut_content :
    (w content : Text)
    → All (λ c. is_space c ≡ false) w
    → cut (codes " :") (w ++ b' ' ∷ b':' ∷ content) ≡ some (w, content)
unfolding cut is_space
cut_content [] content h = refl
cut_content (c ∷ w) content h = ground (arith, cut_content w content h.1)

fields_of_header :
    (w : Text)
    → All (λ c. is_space c ≡ false) w
    → fields (codes "PRIVMSG #" ++ w) ≡ codes "PRIVMSG" ∷ (b'#' ∷ w) ∷ []
unfolding fields
fields_of_header w h = ap (◌∷◌ (codes "PRIVMSG")) (fields_from-word w (codes "#") h)

-- What stands before the colon of the content.
front : ChatLine → Text
front l =
    b'@'
    ∷ (join (codes ";") (map pair_text (all_tags l))
        ++ b' '
          ∷ b':'
          ∷ (l.nick ++ b'!' ∷ (l.host ++ b' ' ∷ (codes "PRIVMSG #" ++ (l.channel ++ b' ' ∷ [])))))

wire-front : (l : ChatLine) → wire l ≡ front l ++ b':' ∷ l.content
unfolding wire front
wire-front l = simp append_assoc

-- Line ends, or nothing, behind a line.
trim_right-wire :
    (l : ChatLine) (e : Text)
    → IsWire l
    → trim_right is_line_end e ≡ []
    → trim_right is_line_end (wire l ++ e) ≡ wire l
trim_right-wire l e w h =
    rw (wire-front, append_assoc)
      (trim_right-append is_line_end (front l) b':' l.content e h (refl, w.content_line))

module _ (lower : ℕ → ℕ) (now : ℤ) where
  take_command-wire :
      (tags : Map Text) (nick w content : Text)
      → All (λ c. is_space c ≡ false) w
      → take_command lower now tags nick (codes "PRIVMSG #" ++ (w ++ b' ' ∷ b':' ∷ content))
        ≡ record no_event { message = some (chat_message lower now tags nick (b'#' ∷ w) content) }
  unfolding take_command
  take_command-wire tags nick w content h =
      ground (arith, cut_content w content h, fields_of_header w h)

  parse_line-wire :
      (l : ChatLine)
      → IsWire l
      → parse_line lower now (wire l)
        ≡ ok (record no_event {
          message = some (
              chat_message lower now
                (insert_all [] (all_tags l))
                l.nick
                (b'#' ∷ l.channel)
                l.content);
        })
  unfolding parse_line wire
  parse_line-wire l w =
      let said = codes "PRIVMSG #" ++ (l.channel ++ b' ' ∷ b':' ∷ l.content) in
      let sender = b':' ∷ (l.nick ++ b'!' ∷ (l.host ++ b' ' ∷ said)) in
      ground (
        arith,
        take_tags-wire l.tag l.tags sender w.keys_ok,
        take_prefix-wire l.nick l.host said w.nick_space w.nick_mark w.host_space,
        take_command-wire (insert_all [] (all_tags l)) l.nick l.channel l.content w.channel_word,
      )

chat_message-IsReadAs :
    (lower : ℕ → ℕ) (now : ℤ) (l : ChatLine)
    → IsReadAs lower now l
        (chat_message lower now (insert_all [] (all_tags l)) l.nick (b'#' ∷ l.channel) l.content)
chat_message-IsReadAs lower now l =
    let tags = all_tags l in
    record {
      content_is = unfold chat_message in refl;
      channel_is = unfold chat_message in refl;
      id_is = unfold chat_message in get_or-insert_all (codes "id") tags;
      user_id_is = unfold chat_message in get_or-insert_all (codes "user-id") tags;
      user_name_is =
          unfold chat_message in
          ap (λ name. if is_empty name then l.nick else name)
            (get_or-insert_all (codes "display-name") tags);
      bits_is = unfold chat_message in ap bits_of (lookup_tag (codes "bits") tags);
      timestamp_is =
          unfold chat_message in ap (timestamp_of now) (lookup_tag (codes "tmi-sent-ts") tags);
      emotes_are =
          unfold chat_message in
          sym (ap (λ t. parse_emotes t l.content) (get_or-insert_all (codes "emotes") tags))
          ∙ (parse_emotes-returns (get_or (codes "emotes") [] (insert_all [] tags)) l.content).0;
    }

-- The parser on a line, with the line ends that stand behind it.
pub parse_irc_line-wire_ended :
    (lower : ℕ → ℕ) (now : ℤ) (l : ChatLine) (e : Text)
    → IsWire l
    → trim_right is_line_end e ≡ []
    → (m : ChatMessage) × (parse_irc_line lower now (wire l ++ e)
        ≡ ok (record no_event { message = some m }))
      × IsReadAs lower now l m
parse_irc_line-wire_ended lower now l e w h = (
  chat_message lower now (insert_all [] (all_tags l)) l.nick (b'#' ∷ l.channel) l.content,
  unfold parse_irc_line in
      ap (parse_line lower now) (trim_right-wire l e w h) ∙ parse_line-wire lower now l w,
  chat_message-IsReadAs lower now l,
)

-- Twitch's wire form of a chat line, with its line end, is parsed to a message that has the line's
-- content, channel in lower case, sender, ids, bits, time and emotes. Tag values are arbitrary; the
-- keys, the nick, the host and the channel lack the delimiters of their places, and the content
-- lacks line ends.
pub parse_irc_line-wire :
    (lower : ℕ → ℕ) (now : ℤ) (l : ChatLine)
    → IsWire l
    → (m : ChatMessage) × (parse_irc_line lower now (wire l ++ codes "\r\n")
        ≡ ok (record no_event { message = some m }))
      × IsReadAs lower now l m
parse_irc_line-wire lower now l w =
    parse_irc_line-wire_ended lower now l (codes "\r\n") w (unfold trim_right in refl)
