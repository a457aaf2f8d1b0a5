-- ===== src/Ingest/Parser/Wire/TagList.antt =====
-- The tags of a line, through the parser's map.
use snipr.Base.{◌≡◌, refl, List, [], ◌∷◌, arith, ap, All, All-append, ◌∙◌, map, Option, none, some}
use snipr.Text.{Text}
use snipr.Text.Map.{Map, lookup, insert, lookup-insert, get_or}
use snipr.Text.Split.{Lacks, cut-append}
use snipr.Ingest.Parser.{parse_tags, set_tag}
use snipr.Ingest.Parser.Escapes.{escape, escape-Lacks, unescape_tag_value-escape}
use snipr.Ingest.Parser.Wire.{Tags, pair_text, last_of, IsKey, or_empty}

pub insert_all : Map Text → Tags → Map Text
insert_all m [] = m
insert_all m ((k, v) ∷ kvs) = insert_all (insert k v m) kvs

parse_tags_step :
    (m : Map Text) (p : Text) (ps : List Text) → parse_tags m (p ∷ ps) ≡ parse_tags (set_tag m p) ps
parse_tags_step m p ps = unfold parse_tags in refl

set_tag-pair_text :
    (m : Map Text) (k v : Text) → IsKey k → set_tag m (pair_text (k, v)) ≡ insert k v m
unfolding set_tag
set_tag-pair_text m k v h =
    ground (arith, cut-append b'=' k (escape v) h.0, unescape_tag_value-escape v)

pub parse_tags-insert_all :
    (m : Map Text) (kvs : Tags)
    → All (λ kv. IsKey kv.0) kvs
    → parse_tags m (map pair_text kvs) ≡ insert_all m kvs
parse_tags-insert_all m [] h = unfold parse_tags insert_all in refl
parse_tags-insert_all m ((k, v) ∷ kvs) h =
    parse_tags_step m (pair_text (k, v)) (map pair_text kvs)
    ∙ ap (λ t. parse_tags t (map pair_text kvs)) (set_tag-pair_text m k v h.0)
    ∙ parse_tags-insert_all (insert k v m) kvs h.1
    ∙ unfold insert_all in refl

abbrev or_else : Option Text → Option Text → Option Text
or_else none d = d
or_else (some v) d = some v

lookup-insert_all :
    (k : Text) (m : Map Text) (kvs : Tags)
    → lookup k (insert_all m kvs) ≡ or_else (last_of k kvs) (lookup k m)
unfolding insert_all last_of
lookup-insert_all k m [] = refl
lookup-insert_all k m ((j, v) ∷ kvs) =
    ground (arith, lookup-insert_all k (insert j v m) kvs, lookup-insert j k v m)

pair_text-Lacks :
    (k v : Text) → IsKey k → Lacks b';' (pair_text (k, v)) × Lacks b' ' (pair_text (k, v))
pair_text-Lacks k v h = (
  All-append _ k _ h.1 (omega arith, escape-Lacks b';' v refl),
  All-append _ k _ h.2 (omega arith, escape-Lacks b' ' v refl),
)

pub pair_texts-Lacks :
    (kvs : Tags)
    → All (λ kv. IsKey kv.0) kvs
    → All (Lacks b';') (map pair_text kvs) × All (Lacks b' ') (map pair_text kvs)
pair_texts-Lacks [] h = (tt, tt)
pair_texts-Lacks ((k, v) ∷ kvs) h =
    let now = pair_text-Lacks k v h.0 in
    let later = pair_texts-Lacks kvs h.1 in ((now.0, later.0), (now.1, later.1))

pub lookup_tag : (k : Text) (kvs : Tags) → lookup k (insert_all [] kvs) ≡ last_of k kvs
unfolding lookup
lookup_tag k kvs = ground (arith, lookup-insert_all k [] kvs)

pub get_or-insert_all :
    (k : Text) (kvs : Tags) → get_or k [] (insert_all [] kvs) ≡ or_empty (last_of k kvs)
unfolding get_or
get_or-insert_all k kvs = ground (arith, lookup_tag k kvs)
