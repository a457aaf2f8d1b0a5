-- ===== src/Login.antt =====
-- cmd/auth-cli/main.go: the program that logs the user in and leaves a token for the chat program.
pub mod Handover
use snipr.Base.{
  ℕ, Bool, true, false, ◌||◌, not, Option, none, some, List, [], ◌∷◌, if◌then◌else◌, Result, ok,
  err,
}
use snipr.Base.Int.{ℤ, pos}
use snipr.Auth.Env.{Environment, getenv, load_env}
use snipr.Auth.Manager.{StoredCredentials, Storage, write_file}
use snipr.Auth.OAuth.{
  Client, Net, OAuthError, new_client, get_auth_url, exchange_code, validate_token,
}
use snipr.Auth.Server.{
  CallbackError, CallbackResult, Query, generate_random_state, new_callback_server, handle_all,
  wait_for_code,
}
use snipr.Auth.Token.{OAuthConfig, Token, TokenValidation}
use snipr.Text.{Text, codes, eq_text, is_empty}
use snipr.Text.Map.{Map, get_or}

-- The command and the arguments of `openBrowser`, for what `runtime.GOOS` is.
unfoldable pub browser_command : Text → Text → Text × List Text
unfolding eq_text
browser_command goos url =
    if eq_text goos (codes "darwin")
    then (codes "open", url ∷ [])
    else if eq_text goos (codes "windows")
    then (codes "cmd", codes "/c" ∷ codes "start" ∷ url ∷ [])
    else (codes "xdg-open", url ∷ [])

-- `savedToken`
pub record SavedToken : Type 0 where
  pub client_id : Text
  pub access_token : Text
  pub refresh_token : Text
  pub username : Text

-- What the chat program reads from such a file: the keys have the names that it looks for, and those
-- that are not there leave zero values.
abbrev pub read_saved : SavedToken → StoredCredentials
read_saved s = record {
  client_id = s.client_id;
  client_secret = [];
  access_token = s.access_token;
  refresh_token = s.refresh_token;
  token_type = [];
  expires_at = pos 0;
  username = s.username;
  user_id = [];
}

-- What a run of the program meets: the file `.env` and the environment in front of it, whether there
-- are random bytes for a state and whether the listener can be opened, the requests for `/callback`
-- that come in while it waits, whether the two minutes are over and whether the `select` then takes
-- the context first, the answers of Twitch, the clock, the files on the disk, and whether `token.json`
-- can be written.
pub record Surroundings : Type 0 where
  pub env_file : Option (List Text)
  pub complete : Bool
  pub env : Environment
  pub goos : Text
  pub random : Option (List ℕ)
  pub listens : Bool
  pub requests : List Query
  pub timed_out : Bool
  pub context_first : Bool
  pub exchange : Net
  pub validation : Net
  pub now : ℤ
  pub writes : Bool
  pub disk : Storage

-- How a run ends: it still waits, or exits with an error, or it is done.
pub data Ending : Type 0 where
  waiting missing_credentials no_state no_listener : Ending
  not_authorized : CallbackError → Ending
  no_exchange no_validation : OAuthError → Ending
  done : Token → TokenValidation → Ending

-- The command that was started for the browser, what is then on the disk, and the end.
pub record Run : Type 0 where
  pub browser : Option (Text × List Text)
  pub disk : Storage
  pub ending : Ending

abbrev pub login_config : Text → Text → OAuthConfig
login_config client_id client_secret = record {
  client_id = client_id;
  client_secret = client_secret;
  redirect_uri = codes "http://localhost:13337/callback";
  scopes = codes "clips:edit" ∷ codes "user:read:chat" ∷ codes "chat:read" ∷ [];
}

abbrev pub saved_of : Client → Token → TokenValidation → SavedToken
saved_of c t v = record {
  client_id = c.config.client_id;
  access_token = t.access_token;
  refresh_token = t.refresh_token;
  username = v.login;
}

-- `marshal_saved` is `json.MarshalIndent` of a `savedToken`.
module _ (marshal_saved : SavedToken → Option Text) (w : Surroundings)
    (browser : Option (Text × List Text)) where
  abbrev pub stops : Ending → Run
  stops e = record { browser = browser; disk = w.disk; ending = e }

  abbrev pub on_validation : Client → Token → Result OAuthError TokenValidation → Run
  on_validation c t (err e) = stops (no_validation e)
  on_validation c t (ok v) = record {
    browser = browser;
    disk =
        (if w.writes
          then write_file (codes "token.json") (marshal_saved (saved_of c t v)) w.disk
          else w.disk);
    ending = done t v;
  }

  abbrev pub on_exchange : Client → Result OAuthError Token → Run
  on_exchange c (err e) = stops (no_exchange e)
  on_exchange c (ok t) = on_validation c t (validate_token w.validation c t.access_token)

  abbrev pub on_code : Client → Option CallbackResult → Run
  on_code c none = stops waiting
  on_code c (some (err e)) = stops (not_authorized e)
  on_code c (some (ok code)) = on_exchange c (exchange_code w.exchange w.now c code)

-- `encode` is `url.Values.Encode`.
module _ (encode : Map Text → Text) (marshal_saved : SavedToken → Option Text) where
  -- From the state on.
  abbrev pub from_state : Surroundings → Client → Option Text → Run
  from_state w c none = stops marshal_saved w none no_state
  from_state w c (some state) =
      if not w.listens
      then stops marshal_saved w none no_listener
      else on_code marshal_saved w (some (browser_command w.goos (get_auth_url encode c state))) c (
          wait_for_code w.timed_out w.context_first
            (handle_all w.requests (new_callback_server state)))

  abbrev pub with_credentials : Surroundings → Text → Text → Run
  with_credentials w client_id client_secret =
      if is_empty client_id || is_empty client_secret
      then stops marshal_saved w none missing_credentials
      else from_state w (new_client (login_config client_id client_secret))
          (generate_random_state w.random)

  -- `main`
  unfoldable pub login_program : Surroundings → Run
  unfolding write_file generate_random_state load_env get_or browser_command get_auth_url handle_all
      wait_for_code exchange_code validate_token
  login_program w =
      let env = (load_env w.env_file w.complete w.env).0 in
      with_credentials w (getenv (codes "TWITCH_CLIENT_ID") env)
        (getenv (codes "TWITCH_CLIENT_SECRET") env)
