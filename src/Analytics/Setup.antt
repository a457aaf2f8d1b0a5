-- ===== src/Analytics/Setup.antt =====
-- internal/analytics/elastic.go: the requests that set Elasticsearch up.
use snipr.Base.{
  ◌≢◌, ◌==◌, ◌≡◌, ◌↔◌, ◌⊎◌, ◌||◌, Option, none, some, List, [], ◌∷◌, ◌++◌, if◌then◌else◌, arith,
}
use snipr.Analytics.{Config, Answer, no_request, no_answer, status}
use snipr.Text.{Text}

pub data SetupError : Type 0 where
  bad_request unreachable bad_status : SetupError

-- What is sent to the cluster; `create` has the mapping.
pub data Sent : Type 0 where
  probe : Text → Sent
  create : Text → Text → Sent

-- `Ping`
unfoldable pub ping : Answer → Option SetupError
ping no_request = some bad_request
ping no_answer = some unreachable
ping (status code) = if code == 200 then none else some bad_status

-- How the cluster answers about one index.
pub record Exchange : Type 0 where
  pub head : Answer
  pub put : Answer

abbrev pub created : Answer → Option SetupError
created no_request = some bad_request
created no_answer = some unreachable
created (status code) = if code == 200 || code == 400 then none else some bad_status

abbrev pub is_sent : Answer → List Sent → List Sent
is_sent no_request l = []
is_sent no_answer l = l
is_sent (status _) l = l

abbrev pub put_index : Text → Text → Exchange → List Sent × Option SetupError
put_index name mapping x = (probe name ∷ is_sent x.put (create name mapping ∷ []), created x.put)

-- `createIndexIfNotExists`: what it sends, and its error.
unfoldable pub create_index : Text → Text → Exchange → List Sent × Option SetupError
create_index name mapping x = elim x.head [
  | no_request ↦ ([], some bad_request)
  | no_answer ↦ put_index name mapping x
  | status code ↦ if code == 200 then (probe name ∷ [], none) else put_index name mapping x
]

-- The texts of the two mappings.
pub record Mappings : Type 0 where
  pub chat_mapping : Text
  pub clips_mapping : Text

abbrev pub then_clips :
    Config → Mappings → Exchange → List Sent × Option SetupError → List Sent × Option SetupError
then_clips cfg m clips (l, some e) = (l, some e)
then_clips cfg m clips (l, none) =
    let (l', e) = create_index cfg.clips_index m.clips_mapping clips in (l ++ l', e)

-- `InitIndices`
unfoldable pub init_indices :
    Config → Mappings → Exchange → Exchange → List Sent × Option SetupError
unfolding create_index
init_indices cfg m chat clips =
    then_clips cfg m clips (create_index cfg.chat_index m.chat_mapping chat)

-- An index is there when it was found, or when the cluster created it or says (with status 400) that
-- it need not.
abbrev pub IsThere : Exchange → Type 0
IsThere x =
    (x.head ≡ status 200) ⊎ ((x.head ≢ no_request) × ((x.put ≡ status 200) ⊎ (x.put ≡ status 400)))

create_index_iff :
    (name mapping : Text) (x : Exchange) → ((create_index name mapping x).1 ≡ none) ↔ IsThere x
unfolding create_index
create_index_iff name mapping x = ground arith

-- `InitIndices` succeeds exactly when both indices are there.
pub init_indices_iff :
    (cfg : Config) (m : Mappings) (chat clips : Exchange)
    → ((init_indices cfg m chat clips).1 ≡ none) ↔ (IsThere chat × IsThere clips)
unfolding init_indices
init_indices_iff cfg m chat clips = ground (
  arith,
  create_index_iff cfg.chat_index m.chat_mapping chat,
  create_index_iff cfg.clips_index m.clips_mapping clips,
)
