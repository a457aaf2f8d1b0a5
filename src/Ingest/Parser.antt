-- ===== src/Ingest/Parser.antt =====
-- internal/ingest/parser.go: one line of the Twitch IRC wire format.
pub mod Escapes
pub mod Wire
pub mod Emotes
pub mod Failures
use snipr.Base.{
  ℕ, ◌+◌, ◌-◌, Bool, true, false, ◌&&◌, ◌||◌, not, Option, none, some, List, [], ◌∷◌, ◌++◌, map,
  leb, ◌==◌, if◌then◌else◌, length, take, drop, Result, ok, err, ◌>>=◌,
}
use snipr.Base.Int.{ℤ, pos, ◌+ℤ◌, ltb_ℤ}
use snipr.Models.{ChatMessage}
use snipr.Text.{
  Text, codes, eq_text, is_empty, has_prefix, trim_prefix, trim_right, cut, split, fields, atoi,
}
use snipr.Text.Map.{Map, lookup, insert, get_or}
use snipr.Time.{unix_milli}

-- The three `errors.New` of the parser.
pub data ParseError : Type 0 where
  empty_line malformed_tag_prefix malformed_prefix : ParseError

pub record ParseResult : Type 0 where
  pub message : Option ChatMessage
  pub is_ping : Bool
  pub ping_payload : Text

-- `&ParseResult{}`
abbrev pub no_event : ParseResult
no_event = record { message = none; is_ping = false; ping_payload = [] }

-- `strings.NewReplacer(...)`: the five old strings have two bytes and the same first one, so a
-- pass from the left replaces each of them and copies every other byte.
unfoldable pub replace_escapes : Text → Text
replace_escapes [] = []
replace_escapes (c ∷ []) = c ∷ []
replace_escapes (c ∷ d ∷ s) =
    let pair = replace_escapes s in
    let rest = replace_escapes (d ∷ s) in
    if not (c == b'\\')
    then c ∷ rest
    else if d == b':'
    then b';' ∷ pair
    else if d == b's'
    then b' ' ∷ pair
    else if d == b'\\'
    then b'\\' ∷ pair
    else if d == b'r'
    then b'\r' ∷ pair
    else if d == b'n'
    then b'\n' ∷ pair
    else c ∷ rest

-- `strings.Contains(val, "\\")`
unfoldable pub contains : ℕ → Text → Bool
contains d [] = false
contains d (c ∷ s) = c == d || contains d s

unfoldable pub unescape_tag_value : Text → Text
unfolding replace_escapes contains
unescape_tag_value val = if not (contains b'\\' val) then val else replace_escapes val

-- The body of the loop over the pairs of the tag prefix.
unfoldable pub set_tag : Map Text → Text → Map Text
unfolding cut unescape_tag_value insert
set_tag tags pair = elim (cut (codes "=") pair) [
  | none ↦ insert pair [] tags
  | some (k, v) ↦ insert k (unescape_tag_value v) tags
]

unfoldable pub parse_tags : Map Text → List Text → Map Text
unfolding set_tag
parse_tags tags [] = tags
parse_tags tags (pair ∷ pairs) = parse_tags (set_tag tags pair) pairs

-- `runes[start:stop]`, which panics (`none`) where an index is outside.
unfoldable pub slice : Text → ℤ → ℤ → Option Text
slice runes (pos start) (pos stop) =
    if leb start stop && leb stop (length runes)
    then some (take (stop - start) (drop start runes))
    else none
slice runes _ _ = none

-- What comes behind a step that may panic.
abbrev pub unless_panic : Option (List Text) → (List Text → Option (List Text)) → Option (List Text)
unless_panic none next = none
unless_panic (some emotes) next = next emotes

abbrev pub appended : Option Text → List Text → Option (List Text)
appended none emotes = none
appended (some emote) emotes = some (emotes ++ emote ∷ [])

-- The guard on `start` and `last`, and what is appended to `emotes`; `none` is a panic, here and below.
unfoldable pub emote_at : Text → ℤ → ℤ → List Text → Option (List Text)
unfolding slice ◌+ℤ◌
emote_at runes start last emotes =
    if not (ltb_ℤ start (pos 0)) && (not (ltb_ℤ last start) && ltb_ℤ last (pos (length runes)))
    then appended (slice runes start (last +ℤ pos 1)) emotes
    else some emotes

-- `start` and `end` of a range, or `none` where the loop goes on to the next one.
unfoldable pub range_bounds : Text → Option (ℤ × ℤ)
unfolding cut atoi
range_bounds r = elim (cut (codes "-") r) [
  | none ↦ none
  | some (a, b) ↦ elim (atoi a) [
    | none ↦ none
    | some start ↦ elim (atoi b) [ none ↦ none | some last ↦ some (start, last) ]
  ]
]

abbrev pub emote_in : Text → Option (ℤ × ℤ) → List Text → Option (List Text)
emote_in runes none emotes = some emotes
emote_in runes (some (start, last)) emotes = emote_at runes start last emotes

-- The body of the loop over `ranges`.
unfoldable pub parse_range : Text → Text → List Text → Option (List Text)
unfolding range_bounds emote_at
parse_range runes r emotes = emote_in runes (range_bounds r) emotes

unfoldable pub parse_ranges : Text → List Text → List Text → Option (List Text)
unfolding parse_range
parse_ranges runes [] emotes = some emotes
parse_ranges runes (r ∷ rs) emotes =
    unless_panic (parse_range runes r emotes) (λ more. parse_ranges runes rs more)

abbrev pub emotes_in_group : Text → Option (Text × Text) → List Text → Option (List Text)
emotes_in_group runes none emotes = some emotes
emotes_in_group runes (some (_, ranges)) emotes =
    parse_ranges runes (split ranges (codes ",")) emotes

unfoldable pub parse_groups : Text → List Text → List Text → Option (List Text)
unfolding cut parse_ranges
parse_groups runes [] emotes = some emotes
parse_groups runes (group ∷ groups) emotes =
    unless_panic (emotes_in_group runes (cut (codes ":") group) emotes)
      (λ more. parse_groups runes groups more)

unfoldable pub parse_emotes : Text → Text → Option (List Text)
unfolding parse_groups
parse_emotes emote_tag content =
    if is_empty emote_tag || is_empty content
    then some []
    else parse_groups content (split emote_tag (codes "/")) []

-- Step 2: the tags and the rest of the line.
unfoldable pub take_tags : Text → Result ParseError (Map Text × Text)
unfolding has_prefix cut parse_tags
take_tags line =
    if has_prefix line (codes "@")
    then elim (cut (codes " ") line) [
      | none ↦ err malformed_tag_prefix
      | some (tag_part, rest) ↦ ok (parse_tags [] (split (drop 1 tag_part) (codes ";")), rest)
    ]
    else ok ([], line)

-- `nick!user@host`
unfoldable pub nick_of : Text → Text
unfolding cut
nick_of prefix = elim (cut (codes "!") prefix) [ none ↦ prefix | some (nick, _) ↦ nick ]

-- Step 3: the nick and the rest of the line.
unfoldable pub take_prefix : Text → Result ParseError (Text × Text)
unfolding has_prefix cut nick_of
take_prefix rest =
    if has_prefix rest (codes ":")
    then elim (cut (codes " ") rest) [
      | none ↦ err malformed_prefix
      | some (prefix, after) ↦ ok (nick_of (drop 1 prefix), after)
    ]
    else ok ([], rest)

abbrev pub timestamp_of : ℤ → Option Text → ℤ
timestamp_of now none = now
timestamp_of now (some ts) = elim (atoi ts) [ none ↦ now | some ms ↦ unix_milli ms ]

abbrev pub bits_of : Option Text → ℤ
bits_of none = pos 0
bits_of (some s) = elim (atoi s) [ none ↦ pos 0 | some b ↦ b ]

-- The payload stands behind the first colon.
abbrev pub ping_result : Text → ParseResult
ping_result line = record {
  message = none;
  is_ping = true;
  ping_payload = (elim (cut (codes ":") line) [
    | none ↦ codes "tmi.twitch.tv"
    | some (_, payload) ↦ payload
  ]);
}

-- The cutset of `strings.TrimRight(raw, "\r\n")`.
abbrev pub is_line_end : ℕ → Bool
is_line_end c = c == b'\r' || c == b'\n'

-- The emotes of a run that does not panic.
abbrev pub returned : Option (List Text) → List Text
returned none = []
returned (some emotes) = emotes

-- `lower` is `unicode.ToLower`, and `now` the clock.
module _ (lower : ℕ → ℕ) (now : ℤ) where
  -- Step 5: the message of a PRIVMSG.
  unfoldable pub chat_message : Map Text → Text → Text → Text → ChatMessage
  unfolding lookup get_or trim_prefix parse_emotes atoi unix_milli
  chat_message tags prefix_nick target content = record {
    id = get_or (codes "id") [] tags;
    channel = map lower (trim_prefix target (codes "#"));
    user_id = get_or (codes "user-id") [] tags;
    user_name =
        (let name = get_or (codes "display-name") [] tags in
          if is_empty name then prefix_nick else name);
    content = content;
    emotes = returned (parse_emotes (get_or (codes "emotes") [] tags) content);
    bits = bits_of (lookup (codes "bits") tags);
    timestamp = timestamp_of now (lookup (codes "tmi-sent-ts") tags);
  }

  -- Step 4: the fields of the header.
  unfoldable pub command : Map Text → Text → List Text → Text → ParseResult
  unfolding chat_message eq_text
  command tags prefix_nick (verb ∷ target ∷ _) content =
      if eq_text verb (codes "PRIVMSG")
      then record no_event { message = some (chat_message tags prefix_nick target content) }
      else no_event
  command tags prefix_nick _ content = no_event

  -- `strings.SplitN(rest, " :", 2)`
  unfoldable pub take_command : Map Text → Text → Text → ParseResult
  unfolding cut fields command
  take_command tags prefix_nick rest = elim (cut (codes " :") rest) [
    | none ↦ command tags prefix_nick (fields rest) []
    | some (header, content) ↦ command tags prefix_nick (fields header) content
  ]

  unfoldable pub parse_line : Text → Result ParseError ParseResult
  unfolding has_prefix take_tags take_prefix take_command cut
  parse_line line =
      if is_empty line
      then err empty_line
      else if has_prefix line (codes "PING")
      then ok (ping_result line)
      else do
        (tags, rest) ← take_tags line
        (nick, rest') ← take_prefix rest
        ok (take_command tags nick rest')

  -- `ParseIRCLine`
  unfoldable pub parse_irc_line : Text → Result ParseError ParseResult
  unfolding trim_right parse_line
  parse_irc_line raw = parse_line (trim_right is_line_end raw)
