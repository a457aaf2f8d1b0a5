-- ===== src/Twitch.antt =====
-- internal/twitch/helix.go: the client of Twitch's Helix API.
pub mod Answers
pub mod Cache
pub mod Poll
use snipr.Base.{
  ℕ, zero, suc, ◌+◌, Bool, true, false, not, ◌&&◌, ◌||◌, ◌==◌, Option, none, some, List, [], ◌∷◌,
  ◌++◌, map, if◌then◌else◌, Result, ok, err,
}
use snipr.Base.Int.{ℤ, pos, negsuc}
use snipr.Http.{HttpAnswer, unmade, unanswered, unread, answered, is_unmade}
use snipr.Text.{Text, codes, is_empty, trim_prefix}
use snipr.Text.Map.{Map, lookup, insert}

pub record ClipResponse : Type 0 where
  pub id : Text
  pub edit_url : Text

-- `F` is `float64`
pub record ClipDetails (F : Type 0) : Type 0 where
  pub id : Text
  pub url : Text
  pub embed_url : Text
  pub broadcaster_id : Text
  pub broadcaster_name : Text
  pub creator_id : Text
  pub creator_name : Text
  pub title : Text
  pub view_count : ℤ
  pub created_at : Text
  pub thumbnail_url : Text
  pub duration : F

-- The client. `asked` counts the requests that it made.
pub record HelixClient : Type 0 where
  pub client_id : Text
  pub user_token : Text
  pub has_provider : Bool
  pub user_cache : Map Text
  pub asked : ℕ

pub data HelixError : Type 0 where
  bad_request no_token request_failed unread_body bad_status bad_json no_data not_configured
        cancelled :
      HelixError

-- `strings.TrimPrefix`, of both prefixes of a token
unfoldable pub clean_token : Text → Text
unfolding trim_prefix
clean_token t = trim_prefix (trim_prefix t (codes "oauth:")) (codes "Bearer ")

-- `NewHelixClient`
unfoldable pub new_helix_client : Text → Text → HelixClient
unfolding clean_token
new_helix_client client_id user_token = record {
  client_id = client_id;
  user_token = clean_token user_token;
  has_provider = false;
  user_cache = [];
  asked = 0;
}

-- `SetTokenProvider`
abbrev pub set_token_provider : HelixClient → HelixClient
set_token_provider c = record c { has_provider = true }

-- `IsConfigured`
abbrev pub is_configured : HelixClient → Bool
is_configured c = not (is_empty c.client_id) && (not (is_empty c.user_token) || c.has_provider)

abbrev provided_token : Option Text → HelixClient → HelixClient × Result HelixError Text
provided_token none c = (c, err no_token)
provided_token (some tok) c = (record c { user_token = clean_token tok }, ok (clean_token tok))

-- `getToken`; `provided` is what the provider gives, or that it fails. `setHeaders` fails as it does.
unfoldable pub get_token : Option Text → HelixClient → HelixClient × Result HelixError Text
unfolding clean_token
get_token provided c =
    if c.has_provider
    then provided_token provided c
    else if is_empty c.user_token
    then (c, err no_token)
    else (c, ok c.user_token)

module _ {A : Type 0} where
  abbrev first_of : Option (List A) → Result HelixError A
  first_of none = err bad_json
  first_of (some []) = err no_data
  first_of (some (a ∷ _)) = ok a

  -- The first element of an answer whose status is right.
  unfoldable pub data_of : (ℕ → Bool) → HttpAnswer (List A) → Result HelixError A
  data_of good unmade = err bad_request
  data_of good unanswered = err request_failed
  data_of good unread = err unread_body
  data_of good (answered code data_list) = if good code then first_of data_list else err bad_status

  abbrev pub asked_with :
      (ℕ → Bool)
      → HttpAnswer (List A)
      → HelixClient × Result HelixError Text
      → HelixClient × Result HelixError A
  asked_with good answer (c, err e) = (c, err e)
  asked_with good answer (c, ok _) = (record c { asked = c.asked + 1 }, data_of good answer)

  -- The part that `GetUserID` and `CreateClip` share: the request, its headers, and its answer.
  unfoldable pub ask :
      (ℕ → Bool)
      → Option Text
      → HttpAnswer (List A)
      → HelixClient
      → HelixClient × Result HelixError A
  unfolding get_token data_of
  ask good provided answer c =
      if is_unmade answer
      then (c, err bad_request)
      else asked_with good answer (get_token provided c)

abbrev pub cache_user :
    Text → HelixClient × Result HelixError Text → HelixClient × Result HelixError Text
cache_user name (c, err e) = (c, err e)
cache_user name (c, ok id) = (record c { user_cache = insert name id c.user_cache }, ok id)

abbrev pub is_ok : ℕ → Bool
is_ok code = code == 200

abbrev pub is_accepted : ℕ → Bool
is_accepted code = code == 202 || code == 200

-- `strings.ToLower(strings.TrimPrefix(login, "#"))`
abbrev pub clean_login : (ℕ → ℕ) → Text → Text
clean_login lower login = map lower (trim_prefix login (codes "#"))

abbrev pub cached_or :
    Text
    → Option Text
    → HttpAnswer (List Text)
    → HelixClient
    → Option Text
    → HelixClient × Result HelixError Text
cached_or name provided answer c none = cache_user name (ask is_ok provided answer c)
cached_or name provided answer c (some id) = (c, ok id)

-- `GetUserID`; `lower` is `unicode.ToLower`.
unfoldable pub get_user_id :
    (ℕ → ℕ)
    → Option Text
    → HttpAnswer (List Text)
    → Text
    → HelixClient
    → HelixClient × Result HelixError Text
unfolding trim_prefix ask lookup insert
get_user_id lower provided answer login c =
    let name = clean_login lower login in
    cached_or name provided answer c (lookup name c.user_cache)

-- `CreateClip`
unfoldable pub create_clip :
    Option Text
    → HttpAnswer (List ClipResponse)
    → HelixClient
    → HelixClient × Result HelixError ClipResponse
unfolding ask
create_clip provided answer c =
    if not (is_configured c) then (c, err not_configured) else ask is_accepted provided answer c

-- One attempt of the poll: the context ends, or a request is made. The poll takes what it could read
-- of a body for the whole of it, so a body that breaks off is `answered` too.
pub data Attempt (F : Type 0) : Type 0 where
  context_done : Attempt F
  attempt : Option Text → HttpAnswer (List (ClipDetails F)) → Attempt F

abbrev pub or_five : ℤ → ℕ
or_five (pos (suc n)) = suc n
or_five _ = 5

module _ {F : Type 0} where
  -- What an attempt does with the answer, before it goes on as `again`.
  abbrev pub judged :
      (HelixClient → HelixClient × Result HelixError (ClipDetails F))
      → HelixClient × Result HelixError (ClipDetails F)
      → HelixClient × Result HelixError (ClipDetails F)
  judged again (c, err e) = again c
  judged again (c, ok clip) = if is_empty clip.url then again c else (c, ok clip)

  abbrev pub polled :
      (HelixClient → HelixClient × Result HelixError (ClipDetails F))
      → Attempt F
      → HelixClient
      → HelixClient × Result HelixError (ClipDetails F)
  polled again context_done c = (c, err cancelled)
  polled again (attempt provided answer) c =
      if is_unmade answer then (c, err bad_request) else judged again (ask is_ok provided answer c)

module _ {F : Type 0} (zero_F : F) where
  -- What `PollClipStatus` falls back to.
  abbrev pub fallback : Text → ClipDetails F
  fallback clip_id = record {
    id = clip_id;
    url = codes "https://clips.twitch.tv/" ++ clip_id;
    embed_url = [];
    broadcaster_id = [];
    broadcaster_name = [];
    creator_id = [];
    creator_name = [];
    title = [];
    view_count = pos 0;
    created_at = [];
    thumbnail_url = [];
    duration = zero_F;
  }

  -- The attempts that are left are `n`, the next one is the i-th.
  unfoldable pub poll_from :
      Text → (ℕ → Attempt F) → ℕ → ℕ → HelixClient → HelixClient × Result HelixError (ClipDetails F)
  unfolding ask
  poll_from clip_id attempts i zero c = (c, ok (fallback clip_id))
  poll_from clip_id attempts i (suc n) c =
      polled (λ c'. poll_from clip_id attempts (i + 1) n c') (attempts i) c

  -- `PollClipStatus`
  unfoldable pub poll_clip_status :
      Text → ℤ → (ℕ → Attempt F) → HelixClient → HelixClient × Result HelixError (ClipDetails F)
  unfolding poll_from
  poll_clip_status clip_id max_attempts attempts c =
      poll_from clip_id attempts 1 (or_five max_attempts) c
