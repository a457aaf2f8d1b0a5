-- ===== src/Auth/OAuth.antt =====
-- internal/auth/client.go: the requests to Twitch's OAuth endpoints.
use snipr.Base.{◌==◌, none, some, List, [], ◌++◌, if◌then◌else◌, Result, ok, err, ◌>>=◌}
use snipr.Base.Int.{ℤ, ◌+ℤ◌}
use snipr.Auth.Token.{OAuthConfig, Token, TokenValidation}
use snipr.Http.{HttpAnswer, unmade, unanswered, unread, answered}
use snipr.Text.{Text, codes, join, trim_right}
use snipr.Text.Map.{Map, insert}
use snipr.Time.{second, duration}

pub record Client : Type 0 where
  pub config : OAuthConfig
  pub base_url : Text

-- `NewClient`
abbrev pub new_client : OAuthConfig → Client
new_client config = record { config = config; base_url = codes "https://id.twitch.tv" }

-- `SetBaseURL`
unfoldable pub set_base_url : Text → Client → Client
unfolding trim_right
set_base_url url c = record c { base_url = trim_right (λ x. x == b'/') url }

-- `SetConfig`
abbrev pub set_config : OAuthConfig → Client → Client
set_config cfg c = record c { config = cfg }

-- A request: its URL, and its form or the token in its header.
pub data Request : Type 0 where
  post_form : Text → Map Text → Request
  get_as : Text → Text → Request

-- The query of `GetAuthURL`; `url.Values` is a map of texts.
unfoldable pub auth_params : Client → Text → Map Text
unfolding insert join
auth_params c state = insert (codes "state") state (
    insert (codes "scope") (join (codes " ") c.config.scopes) (
      insert (codes "response_type") (codes "code") (
        insert (codes "redirect_uri") c.config.redirect_uri
          (insert (codes "client_id") c.config.client_id []))))

-- `GetAuthURL`; `encode` is `url.Values.Encode`.
unfoldable pub get_auth_url : (Map Text → Text) → Client → Text → Text
unfolding auth_params
get_auth_url encode c state =
    c.base_url ++ (codes "/oauth2/authorize?" ++ encode (auth_params c state))

abbrev token_request : Client → Map Text → Request
token_request c form = post_form (c.base_url ++ codes "/oauth2/token") form

-- What `ExchangeCode`, `RefreshToken` and `ValidateToken` send.
unfoldable pub exchange_request : Client → Text → Request
unfolding insert
exchange_request c code = token_request c (
    insert (codes "redirect_uri") c.config.redirect_uri (
      insert (codes "grant_type") (codes "authorization_code") (
        insert (codes "code") code (
          insert (codes "client_secret") c.config.client_secret
            (insert (codes "client_id") c.config.client_id [])))))

unfoldable pub refresh_request : Client → Text → Request
unfolding insert
refresh_request c refresh = token_request c (
    insert (codes "refresh_token") refresh (
      insert (codes "grant_type") (codes "refresh_token") (
        insert (codes "client_secret") c.config.client_secret
          (insert (codes "client_id") c.config.client_id []))))

unfoldable pub validate_request : Client → Text → Request
validate_request c access = get_as (c.base_url ++ codes "/oauth2/validate") access

pub data OAuthError : Type 0 where
  bad_request request_failed unread_body bad_status bad_json : OAuthError

-- The body of an answer with status 200.
unfoldable pub body_of : {A : Type 0} → HttpAnswer A → Result OAuthError A
body_of unmade = err bad_request
body_of unanswered = err request_failed
body_of unread = err unread_body
body_of (answered code body) =
    if code == 200 then elim body [ none ↦ err bad_json | some a ↦ ok a ] else err bad_status

-- `rawTokenResponse`
pub record RawToken : Type 0 where
  pub access_token : Text
  pub refresh_token : Text
  pub token_type : Text
  pub expires_in : ℤ
  pub scope : List Text

-- The token of a body, at the time `now`; the product of the durations wraps.
abbrev pub token_of : ℤ → RawToken → Token
token_of now raw = record {
  access_token = raw.access_token;
  refresh_token = raw.refresh_token;
  token_type = raw.token_type;
  expires_in = raw.expires_in;
  expires_at = now +ℤ duration second raw.expires_in;
  scopes = raw.scope;
}

-- How Twitch answers a request; what it knows of earlier ones is its own.
pub record Net : Type 0 where
  pub token : Request → HttpAnswer RawToken
  pub validation : Request → HttpAnswer TokenValidation

-- `requestToken`
unfoldable pub request_token : Net → ℤ → Request → Result OAuthError Token
unfolding body_of duration ◌+ℤ◌
request_token net now r = do raw ← body_of (net.token r); ok (token_of now raw)

-- `ExchangeCode`
unfoldable pub exchange_code : Net → ℤ → Client → Text → Result OAuthError Token
unfolding request_token exchange_request
exchange_code net now c code = request_token net now (exchange_request c code)

-- `RefreshToken`
unfoldable pub refresh_token : Net → ℤ → Client → Text → Result OAuthError Token
unfolding request_token refresh_request
refresh_token net now c refresh = request_token net now (refresh_request c refresh)

-- `ValidateToken`
unfoldable pub validate_token : Net → Client → Text → Result OAuthError TokenValidation
unfolding body_of validate_request
validate_token net c access = body_of (net.validation (validate_request c access))
