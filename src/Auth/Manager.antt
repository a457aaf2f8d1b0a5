-- ===== src/Auth/Manager.antt =====
-- internal/auth/manager.go: the token of the user, kept on disk, validated, refreshed, or got by a
-- login in the browser.
pub mod Vouched
pub mod Disk
use snipr.Base.{
  ℕ, suc, Bool, true, false, not, ◌&&◌, ◌||◌, Option, none, some, List, [], ◌∷◌, ◌++◌,
  if◌then◌else◌, Result, ok, err,
}
use snipr.Base.Int.{ℤ, pos, ltb_ℤ}
use snipr.Auth.OAuth.{
  Client, Net, OAuthError, new_client, set_config, exchange_code, refresh_token, validate_token,
}
use snipr.Auth.Server.{CallbackError, CallbackResult}
use snipr.Auth.Token.{OAuthConfig, Token, TokenValidation}
use snipr.Text.{Text, codes, is_empty}
use snipr.Text.Map.{Map, insert, lookup}

pub record StoredCredentials : Type 0 where
  pub client_id : Text
  pub client_secret : Text
  pub access_token : Text
  pub refresh_token : Text
  pub token_type : Text
  pub expires_at : ℤ
  pub username : Text
  pub user_id : Text

pub record ManagerConfig : Type 0 where
  pub client_id : Text
  pub client_secret : Text
  pub token_file : Text
  pub callback_port : ℤ
  pub scopes : List Text

-- The files that can be read, by their paths, and what `json.MarshalIndent` and `json.Unmarshal` make
-- of credentials and of the bytes of a file.
pub record Storage : Type 0 where
  pub files : Map Text
  pub marshal : StoredCredentials → Option Text
  pub unmarshal : Text → Option StoredCredentials

abbrev unmarshalled : Storage → Option Text → Option StoredCredentials
unmarshalled d none = none
unmarshalled d (some contents) = d.unmarshal contents

-- `os.ReadFile` and `json.Unmarshal`
unfoldable pub stored_in : Storage → Text → Option StoredCredentials
unfolding lookup
stored_in d path = unmarshalled d (lookup path d.files)

-- `os.WriteFile`, of what was marshalled.
unfoldable pub write_file : Text → Option Text → Storage → Storage
unfolding insert
write_file path none d = d
write_file path (some contents) d = record d { files = insert path contents d.files }

pub record TokenManager : Type 0 where
  pub cfg : ManagerConfig
  pub client : Client
  pub token : Option Token
  pub username : Text
  pub user_id : Text
  pub disk : Storage

abbrev pub or_else : Text → Text → Text
or_else [] d = d
or_else (c ∷ s) d = c ∷ s

abbrev or_port : ℤ → ℤ
or_port p = if ltb_ℤ (pos 0) p then p else pos 13337

abbrev or_scopes : List Text → List Text
or_scopes [] = codes "clips:edit" ∷ codes "user:read:chat" ∷ codes "chat:read" ∷ []
or_scopes (s ∷ ss) = s ∷ ss

-- The configuration of `NewTokenManager` in front of the file; the last two arguments are the
-- environment's.
abbrev pub configured : ManagerConfig → Text → Text → ManagerConfig
configured cfg env_id env_secret = record {
  client_id = or_else cfg.client_id env_id;
  client_secret = or_else cfg.client_secret env_secret;
  token_file = or_else cfg.token_file (codes "token.json");
  callback_port = or_port cfg.callback_port;
  scopes = or_scopes cfg.scopes;
}

-- The token of stored credentials; what the file does not hold is zero.
abbrev pub loaded_token : StoredCredentials → Token
loaded_token d = record {
  access_token = d.access_token;
  refresh_token = d.refresh_token;
  token_type = d.token_type;
  expires_in = pos 0;
  expires_at = d.expires_at;
  scopes = [];
}

abbrev pub load_stored : TokenManager → Option StoredCredentials → TokenManager
load_stored tm none = tm
load_stored tm (some d) = record tm {
  cfg = record tm.cfg {
    client_id = or_else tm.cfg.client_id d.client_id;
    client_secret = or_else tm.cfg.client_secret d.client_secret;
  };
  username = d.username;
  user_id = d.user_id;
  token = some (loaded_token d);
}

-- `loadFromDisk`
unfoldable pub load_from_disk : TokenManager → TokenManager
unfolding stored_in
load_from_disk tm = load_stored tm (stored_in tm.disk tm.cfg.token_file)

-- The client of a manager whose configuration is complete: the one that was handed in, with the
-- credentials that it lacks, or a new one. `port_text` prints a port.
abbrev pub client_for : (ℤ → Text) → ManagerConfig → Option Client → Client
client_for port_text cfg none = new_client (record {
  client_id = cfg.client_id;
  client_secret = cfg.client_secret;
  redirect_uri = codes "http://localhost:" ++ (port_text cfg.callback_port ++ codes "/callback");
  scopes = cfg.scopes;
})
client_for port_text cfg (some c) =
    set_config
      (record c.config {
        client_id = or_else c.config.client_id cfg.client_id;
        client_secret = or_else c.config.client_secret cfg.client_secret;
      })
      c

-- A manager in front of `loadFromDisk`; its client is set later.
abbrev pub before_load : (ℤ → Text) → ManagerConfig → Storage → TokenManager
before_load port_text cfg disk = record {
  cfg = cfg;
  client = client_for port_text cfg none;
  token = none;
  username = [];
  user_id = [];
  disk = disk;
}

abbrev pub with_client : (ℤ → Text) → Option Client → TokenManager → TokenManager
with_client port_text given tm = record tm { client = client_for port_text tm.cfg given }

-- `NewTokenManager`
unfoldable pub new_token_manager :
    (ℤ → Text) → Text → Text → Storage → ManagerConfig → Option Client → TokenManager
unfolding load_from_disk
new_token_manager port_text env_id env_secret disk cfg given =
    let cfg1 = configured cfg env_id env_secret in
    with_client port_text given (load_from_disk (before_load port_text cfg1 disk))

-- `IsConfigured`
abbrev pub has_token : Option Token → Bool
has_token none = false
has_token (some _) = true

unfoldable pub is_configured : TokenManager → Bool
is_configured tm =
    not (is_empty tm.cfg.client_id) && (has_token tm.token || not (is_empty tm.cfg.client_secret))

-- What `saveToDisk` writes of a token.
abbrev pub stored_of : TokenManager → Token → StoredCredentials
stored_of tm t = record {
  client_id = tm.cfg.client_id;
  client_secret = tm.cfg.client_secret;
  access_token = t.access_token;
  refresh_token = t.refresh_token;
  token_type = t.token_type;
  expires_at = t.expires_at;
  username = tm.username;
  user_id = tm.user_id;
}

abbrev save_token : Bool → TokenManager → Option Token → TokenManager
save_token writes tm none = tm
save_token writes tm (some t) =
    if writes
    then record tm {
      disk = write_file tm.cfg.token_file (tm.disk.marshal (stored_of tm t)) tm.disk;
    }
    else tm

-- `saveToDisk`; `writes` is whether the file can be written.
unfoldable pub save_to_disk : Bool → TokenManager → TokenManager
unfolding write_file
save_to_disk writes tm = save_token writes tm tm.token

pub data AuthError : Type 0 where
  no_credentials no_state no_listener : AuthError
  no_code : CallbackError → AuthError
  no_exchange : OAuthError → AuthError

-- What happens around one call of `EnsureValidToken`. Each request has a network of its own, as
-- Twitch may change its mind in between. In a login, `state` is the random state, `code` what
-- `WaitForCode` returns, and `listens` whether the listener can be opened.
pub record World : Type 0 where
  pub first : Net
  pub second : Net
  pub third : Net
  pub exchange : Net
  pub last : Net
  pub now : ℤ
  pub writes : Bool
  pub state : Option Text
  pub listens : Bool
  pub code : CallbackResult

abbrev pub name_user : Result OAuthError TokenValidation → TokenManager → TokenManager
name_user (err e) tm = tm
name_user (ok v) tm = record tm { username = v.login; user_id = v.user_id }

abbrev logged_in :
    World → TokenManager → Result OAuthError Token → TokenManager × Result AuthError Token
logged_in w tm (err e) = (tm, err (no_exchange e))
logged_in w tm (ok t) = (name_user (validate_token w.last tm.client t.access_token) tm, ok t)

abbrev with_code : World → TokenManager → CallbackResult → TokenManager × Result AuthError Token
with_code w tm (err e) = (tm, err (no_code e))
with_code w tm (ok code) = logged_in w tm (exchange_code w.exchange w.now tm.client code)

abbrev with_state : World → TokenManager → Option Text → TokenManager × Result AuthError Token
with_state w tm none = (tm, err no_state)
with_state w tm (some _) = if not w.listens then (tm, err no_listener) else with_code w tm w.code

-- `loginViaBrowser`
unfoldable pub login_via_browser : World → TokenManager → TokenManager × Result AuthError Token
unfolding exchange_code validate_token
login_via_browser w tm =
    if is_empty tm.cfg.client_id || is_empty tm.cfg.client_secret
    then (tm, err no_credentials)
    else with_state w tm w.state

-- `tm.token = t`, `saveToDisk`, and the return.
abbrev pub keep_token : World → TokenManager → Token → TokenManager × Result AuthError Token
keep_token w tm t = (save_to_disk w.writes (record tm { token = some t }), ok t)

-- Step 3: the login.
abbrev pub after_login :
    World → TokenManager × Result AuthError Token → TokenManager × Result AuthError Token
after_login w (tm, err e) = (tm, err e)
after_login w (tm, ok t) = keep_token w tm t

abbrev pub can_refresh : TokenManager → Token → Bool
can_refresh tm t = not (is_empty t.refresh_token) && not (is_empty tm.cfg.client_secret)

-- Step 2: the token was refused.
abbrev pub after_refresh :
    World → TokenManager → Result OAuthError Token → TokenManager × Result AuthError Token
after_refresh w tm (err e) = after_login w (login_via_browser w tm)
after_refresh w tm (ok t) =
    keep_token w (name_user (validate_token w.third tm.client t.access_token) tm) t

-- The early refresh of a token that is still valid.
abbrev pub after_early :
    World → TokenManager → Token → Result OAuthError Token → TokenManager × Result AuthError Token
after_early w tm t (err e) = (tm, ok t)
after_early w tm t (ok u) = keep_token w tm u

-- Step 1: what Twitch says of the token.
abbrev pub after_validation :
    World
    → TokenManager
    → Token
    → Result OAuthError TokenValidation
    → TokenManager × Result AuthError Token
after_validation w tm t (ok v) =
    let tm' = name_user (ok v) tm in
    if ltb_ℤ v.expires_in (pos 300) && can_refresh tm t
    then after_early w tm' t (refresh_token w.second w.now tm.client t.refresh_token)
    else (tm', ok t)
after_validation w tm t (err e) =
    if can_refresh tm t
    then after_refresh w tm (refresh_token w.second w.now tm.client t.refresh_token)
    else after_login w (login_via_browser w tm)

abbrev pub with_token : World → TokenManager → Option Token → TokenManager × Result AuthError Token
with_token w tm none = after_login w (login_via_browser w tm)
with_token w tm (some t) =
    if is_empty t.access_token
    then after_login w (login_via_browser w tm)
    else after_validation w tm t (validate_token w.first tm.client t.access_token)

-- `EnsureValidToken`
unfoldable pub ensure_valid_token : World → TokenManager → TokenManager × Result AuthError Token
unfolding login_via_browser refresh_token validate_token save_to_disk
ensure_valid_token w tm = with_token w tm tm.token

abbrev access_of : TokenManager × Result AuthError Token → TokenManager × Result AuthError Text
access_of (tm, err e) = (tm, err e)
access_of (tm, ok t) = (tm, ok t.access_token)

-- `GetValidAccessToken`
unfoldable pub get_valid_access_token : World → TokenManager → TokenManager × Result AuthError Text
unfolding ensure_valid_token
get_valid_access_token w tm = access_of (ensure_valid_token w tm)
