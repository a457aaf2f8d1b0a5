-- ===== src/Twitch/Answers.antt =====
-- Which answers make a request to Helix succeed, and what it keeps of the client.
use snipr.Base.{
  ℕ, ◌≡◌, ◌⊎◌, refl, sym, ◌∙◌, Bool, true, false, not, Option, none, some, List, [], ◌∷◌,
  if◌then◌else◌, Result, ok, err, arith, inl, inr,
}
use snipr.Http.{HttpAnswer, unmade, unanswered, unread, answered}
use snipr.Text.{Text, is_empty}
use snipr.Text.Map.{lookup}
use snipr.Twitch.{
  ClipResponse, HelixClient, HelixError, ask, asked_with, cache_user, cached_or, clean_login,
  create_clip, data_of, get_token, get_user_id, is_accepted, is_configured, is_ok,
}

abbrev is_given : Option Text → Bool
is_given none = false
is_given (some _) = true

-- The token provider has a token, or there is none and the client has its own.
abbrev pub has_token : Option Text → HelixClient → Bool
has_token provided c = if c.has_provider then is_given provided else not (is_empty c.user_token)

-- The answer has a right status and `a` as its first element.
pub record Gives {A : Type 0} (good : ℕ → Bool) (answer : HttpAnswer (List A)) (a : A)
    : Type 0 where
  pub code : ℕ
  pub rest : List A
  pub answer_is : answer ≡ answered code (some (a ∷ rest))
  pub good_code : good code ≡ true

abbrev succeeds : Result HelixError Text → Bool
succeeds (ok _) = true
succeeds (err _) = false

get_token_has :
    (provided : Option Text) (c : HelixClient)
    → succeeds (get_token provided c).1 ≡ has_token provided c
unfolding get_token
get_token_has none c = ground arith
get_token_has (some tok) c = ground arith

-- Nothing changes that decides whether a client is configured and has a token.
abbrev pub Keeps : HelixClient → HelixClient → Type 0
Keeps c c' =
    (is_configured c' ≡ is_configured c)
    × ((provided : Option Text) → has_token provided c' ≡ has_token provided c)

get_token-Keeps : (provided : Option Text) (c : HelixClient) → Keeps c (get_token provided c).0
unfolding get_token
get_token-Keeps none c = (ground arith, λ p. ground arith)
get_token-Keeps (some tok) c = (ground arith, λ p. ground arith)

module _ {A : Type 0} (good : ℕ → Bool) where
  data_of-Gives :
      (answer : HttpAnswer (List A)) (a : A) → data_of good answer ≡ ok a → Gives good answer a
  unfolding data_of
  data_of-Gives unmade a h = absurd (ground (arith, h))
  data_of-Gives unanswered a h = absurd (ground (arith, h))
  data_of-Gives unread a h = absurd (ground (arith, h))
  data_of-Gives (answered code none) a h = absurd (ground (arith, h))
  data_of-Gives (answered code (some [])) a h = absurd (ground (arith, h))
  data_of-Gives (answered code (some (x ∷ rest))) a h = record {
    code = code;
    rest = rest;
    answer_is = ground (arith, h);
    good_code = ground (arith, h);
  }

  asked_with-ok :
      (answer : HttpAnswer (List A)) (r : HelixClient × Result HelixError Text) (a : A)
      → (asked_with good answer r).1 ≡ ok a
      → (succeeds r.1 ≡ true) × Gives good answer a
  asked_with-ok answer (c, ok _) a h = (refl, data_of-Gives answer a h)
  asked_with-ok answer (c, err _) a h = absurd (ground (arith, h))

  asked_with-Keeps :
      (answer : HttpAnswer (List A)) (c : HelixClient) (r : HelixClient × Result HelixError Text)
      → Keeps c r.0
      → Keeps c (asked_with good answer r).0
  asked_with-Keeps answer c (_, ok _) k = k
  asked_with-Keeps answer c (_, err _) k = k

  ok-asked_with :
      (r : HelixClient × Result HelixError Text) (code : ℕ) (rest : List A) (a : A)
      → succeeds r.1 ≡ true
      → good code ≡ true
      → (asked_with good (answered code (some (a ∷ rest))) r).1 ≡ ok a
  unfolding data_of
  ok-asked_with (c, ok _) code rest a h good_code = rw good_code refl
  ok-asked_with (c, err _) code rest a h good_code = absurd (ground (arith, h))

  ask-Keeps :
      (provided : Option Text) (answer : HttpAnswer (List A)) (c : HelixClient)
      → Keeps c (ask good provided answer c).0
  unfolding ask
  ask-Keeps provided unmade c = (refl, λ p. refl)
  ask-Keeps provided unanswered c = asked_with-Keeps unanswered c _ (get_token-Keeps provided c)
  ask-Keeps provided unread c = asked_with-Keeps unread c _ (get_token-Keeps provided c)
  ask-Keeps provided (answered code o) c =
      asked_with-Keeps (answered code o) c _ (get_token-Keeps provided c)

  ok-ask :
      (provided : Option Text) (answer : HttpAnswer (List A)) (c : HelixClient) (a : A)
      → (ask good provided answer c).1 ≡ ok a
      → (has_token provided c ≡ true) × Gives good answer a
  unfolding ask
  ok-ask provided unmade c a h = absurd (ground (arith, h))
  ok-ask provided unanswered c a h =
      rw get_token_has at (asked_with-ok unanswered (get_token provided c) a h)
  ok-ask provided unread c a h =
      rw get_token_has at (asked_with-ok unread (get_token provided c) a h)
  ok-ask provided (answered code o) c a h =
      rw get_token_has at (asked_with-ok (answered code o) (get_token provided c) a h)

  ask-ok :
      (provided : Option Text) (answer : HttpAnswer (List A)) (c : HelixClient) (a : A)
      → has_token provided c ≡ true
      → Gives good answer a
      → (ask good provided answer c).1 ≡ ok a
  unfolding ask
  ask-ok provided answer c a h g = rw g.answer_is (
      ok-asked_with (get_token provided c) g.code g.rest a (get_token_has provided c ∙ h)
        g.good_code)

-- The id of a login is in the cache, or Twitch gives it for a token.
abbrev pub Knows :
    (ℕ → ℕ) → Option Text → HttpAnswer (List Text) → Text → HelixClient → Text → Type 0
Knows lower provided answer login c id =
    let name = clean_login lower login in
    (lookup name c.user_cache ≡ some id)
    ⊎ ((lookup name c.user_cache ≡ none) × (has_token provided c ≡ true) × Gives is_ok answer id)

cache_user-result :
    (name : Text) (r : HelixClient × Result HelixError Text) → (cache_user name r).1 ≡ r.1
cache_user-result name (c, ok id) = refl
cache_user-result name (c, err e) = refl

cache_user-Keeps :
    (name : Text) (c : HelixClient) (r : HelixClient × Result HelixError Text)
    → Keeps c r.0
    → Keeps c (cache_user name r).0
cache_user-Keeps name c (_, ok id) k = k
cache_user-Keeps name c (_, err e) k = k

module _ (lower : ℕ → ℕ) (provided : Option Text) (answer : HttpAnswer (List Text)) (login : Text)
    (c : HelixClient) where
  found : Option Text → HelixClient × Result HelixError Text
  found = cached_or (clean_login lower login) provided answer c

  found-Knows :
      (o : Option Text) (id : Text)
      → lookup (clean_login lower login) c.user_cache ≡ o
      → (found o).1 ≡ ok id
      → Knows lower provided answer login c id
  unfolding found
  found-Knows none id e h =
      let same = sym (cache_user-result (clean_login lower login) (ask is_ok provided answer c)) in
      let (token, gives) = ok-ask is_ok provided answer c id (same ∙ h) in inr (e, token, gives)
  found-Knows (some u) id e h = inl (ground (arith, e, h))

  pub get_user_id-Knows :
      (id : Text)
      → (get_user_id lower provided answer login c).1 ≡ ok id
      → Knows lower provided answer login c id
  unfolding get_user_id found
  get_user_id-Knows id h = found-Knows (lookup (clean_login lower login) c.user_cache) id refl h

  pub get_user_id-found :
      (id : Text)
      → Knows lower provided answer login c id
      → (get_user_id lower provided answer login c).1 ≡ ok id
  unfolding get_user_id
  get_user_id-found id (inl cached) = rw cached refl
  get_user_id-found id (inr (new, token, gives)) = rw new (
      cache_user-result (clean_login lower login) (ask is_ok provided answer c)
      ∙ ask-ok is_ok provided answer c id token gives)

  found-Keeps : (o : Option Text) → Keeps c (found o).0
  unfolding found
  found-Keeps none =
      cache_user-Keeps (clean_login lower login) c (ask is_ok provided answer c)
        (ask-Keeps is_ok provided answer c)
  found-Keeps (some id) = (refl, λ p. refl)

  pub get_user_id-Keeps : Keeps c (get_user_id lower provided answer login c).0
  unfolding get_user_id found
  get_user_id-Keeps = found-Keeps (lookup (clean_login lower login) c.user_cache)

module _ (provided : Option Text) (answer : HttpAnswer (List ClipResponse)) (c : HelixClient)
    (r : ClipResponse) where
  pub create_clip-Gives :
      is_configured c ≡ true
      → (create_clip provided answer c).1 ≡ ok r
      → (has_token provided c ≡ true) × Gives is_accepted answer r
  unfolding create_clip
  create_clip-Gives set_up h = ok-ask is_accepted provided answer c r (rw set_up at h)

  pub create_clip-ok :
      is_configured c ≡ true
      → has_token provided c ≡ true
      → Gives is_accepted answer r
      → (create_clip provided answer c).1 ≡ ok r
  unfolding create_clip
  create_clip-ok set_up token gives = rw set_up (ask-ok is_accepted provided answer c r token gives)
