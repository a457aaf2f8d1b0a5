-- ===== src/Ingest/Parser/Wire.antt =====
-- The chat lines that Twitch sends, and what the parser has to report of one.
mod TagList
pub mod RoundTrip
use snipr.Base.{
  ℕ, ◌≡◌, ◌≢◌, refl, Bool, true, false, List, [], ◌∷◌, ◌++◌, arith, ap, All, All-append, append-nil,
  append_assoc, ◌∙◌, sym, map, Option, none, some, Result, ok, if◌then◌else◌, ◌>>=◌,
}
use snipr.Base.Int.{ℤ, pos}
use snipr.Models.{ChatMessage}
use snipr.Text.{
  Text, codes, eq_text, eq_text_iff, is_empty, is_space, cut, split, join, fields, fields_from,
  trim_right, has_prefix,
}
use snipr.Text.Fields.{fields_from-word, trim_right-append, All-join}
use snipr.Text.Map.{Map, lookup, insert, lookup-insert, get_or}
use snipr.Text.Split.{Lacks, cut-append, split-join}
use snipr.Ingest.Parser.{
  parse_irc_line, parse_line, take_tags, take_prefix, take_command, command, chat_message, nick_of,
  parse_tags, set_tag, no_event, is_line_end, timestamp_of, bits_of, parse_emotes,
  unescape_tag_value,
}
use snipr.Ingest.Parser.Escapes.{escape, escape-Lacks, unescape_tag_value-escape}

abbrev pub Tags : Type 0
Tags = List (Text × Text)

abbrev pub pair_text : Text × Text → Text
pair_text (k, v) = k ++ b'=' ∷ escape v

-- The last value that the tags give a key.
pub last_of : Text → Tags → Option Text
last_of k [] = none
last_of k ((j, v) ∷ kvs) = elim (last_of k kvs) [
  | none ↦ if eq_text j k then some v else none
  | some w ↦ some w
]

-- A line of a chat message: its tags (the first one is given apart), the sender, the channel and
-- what was said.
pub record ChatLine : Type 0 where
  pub tag : Text × Text
  pub tags : Tags
  pub nick : Text
  pub host : Text
  pub channel : Text
  pub content : Text

abbrev pub all_tags : ChatLine → Tags
all_tags l = l.tag ∷ l.tags

-- `@k=v;k=v :nick!host PRIVMSG #channel :content`
unfoldable pub wire : ChatLine → Text
wire l =
    b'@'
    ∷ (join (codes ";") (map pair_text (all_tags l))
        ++ b' '
          ∷ b':'
          ∷ (l.nick
              ++ b'!'
                ∷ (l.host ++ b' ' ∷ (codes "PRIVMSG #" ++ (l.channel ++ b' ' ∷ b':' ∷ l.content)))))

abbrev pub IsKey : Text → Type 0
IsKey k = Lacks b'=' k × Lacks b';' k × Lacks b' ' k

-- What the wire format forbids: the delimiters of each part. Values and content are free, but for
-- a line end in the content.
pub record IsWire (l : ChatLine) : Type 0 where
  pub keys_ok : All (λ kv. IsKey kv.0) (all_tags l)
  pub nick_space : Lacks b' ' l.nick
  pub nick_mark : Lacks b'!' l.nick
  pub host_space : Lacks b' ' l.host
  pub channel_word : All (λ c. is_space c ≡ false) l.channel
  pub content_line : All (λ c. is_line_end c ≡ false) l.content

abbrev pub or_empty : Option Text → Text
or_empty none = []
or_empty (some v) = v

-- What `parse_irc_line` has to report of a line: `last_of` gives the tags' values, a missing tag
-- counts as empty, and the sender's nick stands in for a missing display name.
pub record IsReadAs (lower : ℕ → ℕ) (now : ℤ) (l : ChatLine) (m : ChatMessage) : Type 0 where
  pub content_is : m.content ≡ l.content
  pub channel_is : m.channel ≡ map lower l.channel
  pub id_is : m.id ≡ or_empty (last_of (codes "id") (all_tags l))
  pub user_id_is : m.user_id ≡ or_empty (last_of (codes "user-id") (all_tags l))
  pub user_name_is : m.user_name ≡ (
      let name = or_empty (last_of (codes "display-name") (all_tags l)) in
      if is_empty name then l.nick else name)
  pub bits_is : m.bits ≡ bits_of (last_of (codes "bits") (all_tags l))
  pub timestamp_is : m.timestamp ≡ timestamp_of now (last_of (codes "tmi-sent-ts") (all_tags l))
  pub emotes_are :
      parse_emotes (or_empty (last_of (codes "emotes") (all_tags l))) l.content ≡ some m.emotes
