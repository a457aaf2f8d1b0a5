-- ===== src/Login/Handover.antt =====
-- What a login leaves behind, and how the chat program takes it up.
use snipr.Auth.Env.{Environment, getenv, load_env}
use snipr.Auth.Manager.{
  Storage, TokenManager, World, before_load, configured, ensure_valid_token, load_stored, or_else,
  stored_in, with_client, write_file,
}
use snipr.Auth.Manager.Disk.{stored_in-write_file}
use snipr.Auth.OAuth.{Client, OAuthError, new_client, exchange_code, validate_token}
use snipr.Auth.Server.{
  CallbackResult, CallbackServer, Query, generate_random_state, new_callback_server, handle_all,
  wait_for_code,
}
use snipr.Auth.Server.First.{Grants, wait_for_code_iff}
use snipr.Auth.Token.{Token, TokenValidation, is_expired}
use snipr.Base.{
  arith, ◌≡◌, ◌≢◌, refl, sym, ap, subst, ◌∙◌, Bool, true, false, Option, none, some, List, [], ◌∷◌,
  Result, ok, err, ◌||◌, not, if◌then◌else◌, ℕ,
}
use snipr.Base.Int.{ℤ, pos, ◌≤ℤ◌}
use snipr.Cli.Startup.{chat_config, chat_manager}
use snipr.Login.{
  Run, SavedToken, Surroundings, done, login_config, login_program, read_saved, saved_of,
  on_validation, on_exchange, on_code, from_state,
}
use snipr.Text.{Text, codes, is_empty}
use snipr.Text.Map.{Map}

-- The environment of both programs, behind the file `.env`.
abbrev pub env_of : Surroundings → Environment
env_of w = (load_env w.env_file w.complete w.env).0

abbrev pub id_of : Surroundings → Text
id_of w = getenv (codes "TWITCH_CLIENT_ID") (env_of w)

abbrev pub secret_of : Surroundings → Text
secret_of w = getenv (codes "TWITCH_CLIENT_SECRET") (env_of w)

abbrev pub client_of : Surroundings → Client
client_of w = new_client (login_config (id_of w) (secret_of w))

-- The first request for `/callback` had the state that was given out and a code, and no error; Twitch
-- gave the token for this code, and validated it.
pub record IsGranted (w : Surroundings) (t : Token) (v : TokenValidation) : Type 0 where
  pub state : Text
  pub code : Text
  pub first : Query
  pub later : List Query
  pub state_is : generate_random_state w.random ≡ some state
  pub requests_are : w.requests ≡ first ∷ later
  pub grants : Grants state code first
  pub exchanged : exchange_code w.exchange w.now (client_of w) code ≡ ok t
  pub validated : validate_token w.validation (client_of w) t.access_token ≡ ok v

select-ok :
    (over first : Bool) (s : CallbackServer) {code : Text}
    → wait_for_code over first s ≡ some (ok code)
    → wait_for_code false false s ≡ some (ok code)
unfolding wait_for_code
select-ok over first s h = ground (arith, h)

no_request :
    (over first : Bool) (state code : Text)
    → wait_for_code over first (handle_all [] (new_callback_server state)) ≢ some (ok code)
unfolding wait_for_code handle_all
no_request over first state code h = ground (arith, h)

-- The first of the requests, where a code came.
first_request :
    (over first : Bool) (state code : Text) (qs : List Query)
    → wait_for_code over first (handle_all qs (new_callback_server state)) ≡ some (ok code)
    → (q : Query) × (later : List Query) × (qs ≡ q ∷ later) × Grants state code q
first_request over first state code [] h = absurd (no_request over first state code h)
first_request over first state code (q ∷ qs) h =
    (q, qs, refl, (wait_for_code_iff state code q qs).0 (select-ok over first _ h))

-- The file that a run which is done with `t` and `v` leaves.
abbrev Leaves :
    (SavedToken → Option Text) → Surroundings → Token → TokenValidation → Client → Run → Type 0
Leaves marshal_saved w t v c run = run.disk ≡ (
    if w.writes
    then write_file (codes "token.json") (marshal_saved (saved_of c t v)) w.disk
    else w.disk)

module _ (marshal_saved : SavedToken → Option Text) (w : Surroundings)
    (b : Option (Text × List Text)) (t : Token) (v : TokenValidation) where
  on_validation-done :
      (c : Client) (u : Token) (r : Result OAuthError TokenValidation)
      → (on_validation marshal_saved w b c u r).ending ≡ done t v
      → (u ≡ t) × (r ≡ ok v) × Leaves marshal_saved w t v c (on_validation marshal_saved w b c u r)
  on_validation-done c u (err e) h = absurd (ground (arith, h))
  on_validation-done c u (ok x) h = ground (arith, h)

  on_exchange-done :
      (c : Client) (r : Result OAuthError Token)
      → (on_exchange marshal_saved w b c r).ending ≡ done t v
      → (r ≡ ok t)
        × (validate_token w.validation c t.access_token ≡ ok v)
        × Leaves marshal_saved w t v c (on_exchange marshal_saved w b c r)
  on_exchange-done c (err e) h = absurd (ground (arith, h))
  on_exchange-done c (ok u) h =
      let (same, valid, leaves) = on_validation-done c u _ h in
      (
        ap (λ x. ok x) same,
        ap (λ (x : Token). validate_token w.validation c x.access_token) (sym same) ∙ valid,
        leaves,
      )

  on_code-done :
      (c : Client) (r : Option CallbackResult)
      → (on_code marshal_saved w b c r).ending ≡ done t v
      → (code : Text) × (r ≡ some (ok code))
        × (exchange_code w.exchange w.now c code ≡ ok t)
        × (validate_token w.validation c t.access_token ≡ ok v)
        × Leaves marshal_saved w t v c (on_code marshal_saved w b c r)
  on_code-done c none h = absurd (ground (arith, h))
  on_code-done c (some (err e)) h = absurd (ground (arith, h))
  on_code-done c (some (ok code)) h =
      let (x, valid, leaves) = on_exchange-done c _ h in (code, refl, x, valid, leaves)

-- Of a run: if it is done, the token was granted, and the file holds it.
abbrev Hands : (SavedToken → Option Text) → Surroundings → Token → TokenValidation → Run → Type 0
Hands marshal_saved w t v run =
    run.ending ≡ done t v → IsGranted w t v × Leaves marshal_saved w t v (client_of w) run

module _ (encode : Map Text → Text) (marshal_saved : SavedToken → Option Text) (w : Surroundings)
    (t : Token) (v : TokenValidation) where
  if-Hands :
      (b : Bool) (r s : Run)
      → Hands marshal_saved w t v r
      → Hands marshal_saved w t v s
      → Hands marshal_saved w t v (if b then r else s)
  if-Hands true r s h k = h
  if-Hands false r s h k = k

  waited-Hands :
      (b : Option (Text × List Text)) (state : Text)
      → generate_random_state w.random ≡ some state
      → Hands marshal_saved w t v (
          on_code marshal_saved w b (client_of w) (
            wait_for_code w.timed_out w.context_first
              (handle_all w.requests (new_callback_server state))))
  waited-Hands b state s h =
      let (code, came, exchanged, valid, leaves) =
        on_code-done marshal_saved w b t v (client_of w) _ h in
      let (q, later, requests, grants) =
        first_request w.timed_out w.context_first state code w.requests came in
      (
        record {
          state = state;
          code = code;
          first = q;
          later = later;
          state_is = s;
          requests_are = requests;
          grants = grants;
          exchanged = exchanged;
          validated = valid;
        },
        leaves,
      )

  from_state-Hands :
      (o : Option Text)
      → generate_random_state w.random ≡ o
      → Hands marshal_saved w t v (from_state encode marshal_saved w (client_of w) o)
  from_state-Hands none s = λ h. absurd (ground (arith, h))
  from_state-Hands (some state) s =
      if-Hands (not w.listens) _ _ (λ h. absurd (ground (arith, h))) (waited-Hands _ state s)

  login_program-Hands : Hands marshal_saved w t v (login_program encode marshal_saved w)
  unfolding login_program
  login_program-Hands =
      if-Hands (is_empty (id_of w) || is_empty (secret_of w)) _ _ (λ h. absurd (ground (arith, h)))
        (from_state-Hands (generate_random_state w.random) refl)

-- The token as the chat program reads it: the file holds neither its type, nor its lifetime, nor its
-- scopes.
abbrev pub reread : Token → Token
reread t = record t { token_type = []; expires_in = pos 0; expires_at = pos 0; scopes = [] }

-- A manager that goes on where the login stopped, and what it does once Twitch says `u` of the token.
pub record IsHandedOver (w : Surroundings) (t : Token) (v u : TokenValidation) (world : World)
    (tm : TokenManager) : Type 0 where
  pub granted : IsGranted w t v
  pub token_is : tm.token ≡ some (reread t)
  pub username_is : tm.username ≡ v.login
  pub client_id_is : tm.cfg.client_id ≡ id_of w
  pub client_secret_is : tm.cfg.client_secret ≡ secret_of w
  pub expired : (n : ℕ) → is_expired (pos n) tm.token ≡ true
  pub goes_on :
      ensure_valid_token world tm
      ≡ (record tm { username = u.login; user_id = u.user_id }, ok (reread t))

or_else-same : (s : Text) → or_else s s ≡ s
or_else-same [] = refl
or_else-same (c ∷ s) = refl

or_else-nil : (s : Text) → or_else s [] ≡ s
or_else-nil [] = refl
or_else-nil (c ∷ s) = refl

-- `EnsureValidToken` with a token that Twitch knows, and that is not about to expire.
ensure_valid_token-known :
    (world : World) (tm : TokenManager) (t : Token) (u : TokenValidation)
    → tm.token ≡ some t
    → is_empty t.access_token ≡ false
    → validate_token world.first tm.client t.access_token ≡ ok u
    → pos 300 ≤ℤ u.expires_in
    → ensure_valid_token world tm ≡ (record tm { username = u.login; user_id = u.user_id }, ok t)
unfolding ensure_valid_token
ensure_valid_token-known world tm t u held full valid long =
    rw (held, full, valid) (ground (arith, long))

-- What the chat program starts with, where `token.json` holds what the login left.
record Rereads (w : Surroundings) (t : Token) (v : TokenValidation) (tm : TokenManager)
    : Type 0 where
  token_is : tm.token ≡ some (reread t)
  username_is : tm.username ≡ v.login
  client_id_is : tm.cfg.client_id ≡ id_of w
  client_secret_is : tm.cfg.client_secret ≡ secret_of w

chat_manager-Rereads :
    (port_text : ℤ → Text) (w : Surroundings) (t : Token) (v : TokenValidation) (d : Storage)
    → stored_in d (codes "token.json") ≡ some (read_saved (saved_of (client_of w) t v))
    → Rereads w t v (chat_manager port_text (env_of w) d)
unfolding chat_manager
chat_manager-Rereads port_text w t v d found =
    let begun = before_load port_text (configured chat_config (id_of w) (secret_of w)) d in
    subst (Rereads w t v) (ap (λ o. with_client port_text none (load_stored begun o)) (sym found))
      (record {
        token_is = refl;
        username_is = refl;
        client_id_is = or_else-same (id_of w);
        client_secret_is = or_else-nil (secret_of w);
      })

reread-expired : (t : Token) (n : ℕ) → is_expired (pos n) (some (reread t)) ≡ true
unfolding is_expired
reread-expired t n = ground arith

-- After a login that ended with a token, which is not empty, and could write `token.json`, and
-- where the chat program, started in the same environment, validates this token with Twitch and has
-- five minutes or more left to it, and the JSON of what is saved is read with its keys: the first
-- request for `/callback` had the state that was given out, and Twitch gave the token for its code
-- and validated it. The chat program holds this token and the user's name, but counts the token as
-- expired at every time; and its `EnsureValidToken` returns the token, with no refresh and no other
-- login, and with nothing changed but the name and the id of the user.
pub login_program-IsHandedOver :
    (encode : Map Text → Text) (marshal_saved : SavedToken → Option Text) (port_text : ℤ → Text)
    (w : Surroundings) (t : Token) (v u : TokenValidation) (world : World) (contents : Text)
    → (login_program encode marshal_saved w).ending ≡ done t v
    → w.writes ≡ true
    → marshal_saved (saved_of (client_of w) t v) ≡ some contents
    → w.disk.unmarshal contents ≡ some (read_saved (saved_of (client_of w) t v))
    → is_empty t.access_token ≡ false
    → validate_token world.first
        (chat_manager port_text (env_of w) (login_program encode marshal_saved w).disk).client
        t.access_token
      ≡ ok u
    → pos 300 ≤ℤ u.expires_in
    → IsHandedOver w t v u world
        (chat_manager port_text (env_of w) (login_program encode marshal_saved w).disk)
login_program-IsHandedOver encode marshal_saved port_text w t v u world contents ended writes json
      reads_json full valid long =
    let (granted, leaves) = login_program-Hands encode marshal_saved w t v ended in
    let run = login_program encode marshal_saved w in
    let tm = chat_manager port_text (env_of w) run.disk in
    let saved = saved_of (client_of w) t v in
    let left : run.disk ≡ write_file (codes "token.json") (some contents) w.disk =
      leaves
      ∙ ap (λ b. if b then write_file (codes "token.json") (marshal_saved saved) w.disk else w.disk)
          writes
      ∙ ap (λ o. write_file (codes "token.json") o w.disk) json in
    let found : stored_in run.disk (codes "token.json") ≡ some (read_saved saved) =
      ap (λ d. stored_in d (codes "token.json")) left
      ∙ stored_in-write_file w.disk (codes "token.json") contents
      ∙ reads_json in
    let reads : Rereads w t v tm = chat_manager-Rereads port_text w t v run.disk found in
    record {
      granted = granted;
      token_is = reads.token_is;
      username_is = reads.username_is;
      client_id_is = reads.client_id_is;
      client_secret_is = reads.client_secret_is;
      expired = λ n. ap (is_expired (pos n)) reads.token_is ∙ reread-expired t n;
      goes_on = ensure_valid_token-known world tm (reread t) u reads.token_is full valid long;
    }
