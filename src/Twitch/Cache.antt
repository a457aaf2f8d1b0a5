-- ===== src/Twitch/Cache.antt =====
-- The cache of user ids.
use snipr.Base.{List, ℕ, ◌≡◌, refl, Option, none, some, arith, Result, ok, err, ap}
use snipr.Text.{Text, eq_text_refl}
use snipr.Text.Map.{lookup, lookup-insert}
use snipr.Http.{HttpAnswer}
use snipr.Twitch.{
  HelixClient, HelixError, ask, is_ok, cache_user, cached_or, clean_login, get_user_id,
}

cache_user-lookup :
    (name : Text) (r : HelixClient × Result HelixError Text) {id : Text}
    → (cache_user name r).1 ≡ ok id
    → lookup name (cache_user name r).0.user_cache ≡ some id
cache_user-lookup name (c, err e) h = absurd (ground (arith, h))
cache_user-lookup name (c, ok i) h =
    ground (arith, h, lookup-insert name name i c.user_cache, eq_text_refl name)

cached_or-lookup :
    (name : Text) (provided : Option Text) (answer : HttpAnswer (List Text)) (c : HelixClient)
    (o : Option Text) {id : Text}
    → lookup name c.user_cache ≡ o
    → (cached_or name provided answer c o).1 ≡ ok id
    → lookup name (cached_or name provided answer c o).0.user_cache ≡ some id
cached_or-lookup name provided answer c none e h =
    cache_user-lookup name (ask is_ok provided answer c) h
cached_or-lookup name provided answer c (some i) e h = ground (arith, e, h)

get_user_id-hit :
    (lower : ℕ → ℕ) (provided : Option Text) (answer : HttpAnswer (List Text)) (login : Text)
    (c : HelixClient) (id : Text)
    → lookup (clean_login lower login) c.user_cache ≡ some id
    → get_user_id lower provided answer login c ≡ (c, ok id)
unfolding get_user_id
get_user_id-hit lower provided answer login c id h =
    ap (cached_or (clean_login lower login) provided answer c) h

-- A login that was found once is found again with the same id, with no request and with the client
-- left as it is, whatever the token provider and the network would give.
pub get_user_id-again :
    (lower : ℕ → ℕ) (provided later : Option Text) (answer reply : HttpAnswer (List Text))
    (login : Text) (c : HelixClient) (id : Text)
    → (get_user_id lower provided answer login c).1 ≡ ok id
    → let c' = (get_user_id lower provided answer login c).0 in
      get_user_id lower later reply login c' ≡ (c', ok id)
unfolding get_user_id
get_user_id-again lower provided later answer reply login c id h =
    get_user_id-hit lower later reply login (get_user_id lower provided answer login c).0 id (
      cached_or-lookup (clean_login lower login) provided answer c
        (lookup (clean_login lower login) c.user_cache) refl h)
