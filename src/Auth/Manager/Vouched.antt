-- ===== src/Auth/Manager/Vouched.antt =====
-- Where the token of `EnsureValidToken` comes from, and what becomes of it.
use snipr.Base.{
  ◌≡◌, refl, sym, ◌⊎◌, inl, inr, Bool, true, false, not, ◌&&◌, ◌||◌, Option, none, some,
  if◌then◌else◌, Result, ok, err, Bool-cases,
}
use snipr.Base.Int.{pos, ltb_ℤ}
use snipr.Auth.Manager.{
  no_listener, World, TokenManager, AuthError, stored_of, save_to_disk, write_file, name_user,
  can_refresh, keep_token, after_login, after_refresh, after_early, after_validation, with_token,
  logged_in, with_code, with_state, login_via_browser, ensure_valid_token,
}
use snipr.Auth.OAuth.{OAuthError, exchange_code, refresh_token, validate_token}
use snipr.Auth.Server.{CallbackResult}
use snipr.Auth.Token.{Token, TokenValidation}
use snipr.Text.{Text, is_empty}

-- What stands behind a token: Twitch validated the held one, or gave this one for the refresh token
-- of the held one, or for the code of a login.
pub data IsVouched (w : World) (tm : TokenManager) (t : Token) : Type 0 where
  validated :
      (v : TokenValidation)
      → tm.token ≡ some t
      → validate_token w.first tm.client t.access_token ≡ ok v
      → IsVouched w tm t
  refreshed :
      (held : Token)
      → tm.token ≡ some held
      → refresh_token w.second w.now tm.client held.refresh_token ≡ ok t
      → IsVouched w tm t
  exchanged :
      (code : Text)
      → w.code ≡ ok code
      → exchange_code w.exchange w.now tm.client code ≡ ok t
      → IsVouched w tm t

-- Of a token that is returned: it is vouched for, it is the one held from now on, and it is either
-- the one held before, or what the file holds, if that can be written. Of an error: nothing changed.
abbrev pub Settles : World → TokenManager → TokenManager × Result AuthError Token → Type 0
Settles w tm (tm', err e) = tm' ≡ tm
Settles w tm (tm', ok t) =
    IsVouched w tm t
    × (tm'.token ≡ some t)
    × ((tm.token ≡ some t)
        ⊎ (tm'.disk ≡ (
            if w.writes
            then write_file tm.cfg.token_file (tm.disk.marshal (stored_of tm' t)) tm.disk
            else tm.disk)))

module _ (w : World) (tm : TokenManager) where
  keep_token-Settles :
      (tm' : TokenManager) (t : Token)
      → IsVouched w tm t
      → (tm'.disk ≡ tm.disk) × (tm'.cfg ≡ tm.cfg)
      → Settles w tm (keep_token w tm' t)
  unfolding save_to_disk
  keep_token-Settles tm' t v (same_disk, same_cfg) = elim (Bool-cases w.writes) [
    | inl yes_ ↦ (v, rw yes_ refl, inr (rw (yes_, sym same_disk, sym same_cfg) refl))
    | inr no_ ↦ (v, rw no_ refl, inr (rw no_ same_disk))
  ]

  name_user-disk :
      (r : Result OAuthError TokenValidation)
      → ((name_user r tm).disk ≡ tm.disk) × ((name_user r tm).cfg ≡ tm.cfg)
  name_user-disk (err e) = (refl, refl)
  name_user-disk (ok v) = (refl, refl)

  after_login-Settles : Settles w tm (after_login w (login_via_browser w tm))
  unfolding login_via_browser
  after_login-Settles =
      elim (Bool-cases (is_empty tm.cfg.client_id || is_empty tm.cfg.client_secret)) [
        | inl lacking ↦ rw lacking refl
        | inr there ↦ rw there (with_state-Settles w.state)
      ]
    where
      logged_in-Settles :
          (code : Text)
          → w.code ≡ ok code
          → (r : Result OAuthError Token) → exchange_code w.exchange w.now tm.client code ≡ r
          → Settles w tm (after_login w (logged_in w tm r))
      logged_in-Settles code c (err e) x = refl
      logged_in-Settles code c (ok t) x =
          keep_token-Settles (name_user (validate_token w.last tm.client t.access_token) tm) t
            (exchanged code c x) (name_user-disk (validate_token w.last tm.client t.access_token))

      with_code-Settles :
          (r : CallbackResult) → w.code ≡ r → Settles w tm (after_login w (with_code w tm r))
      with_code-Settles (err e) c = refl
      with_code-Settles (ok code) c =
          logged_in-Settles code c (exchange_code w.exchange w.now tm.client code) refl

      listening :
          (b : Bool)
          → Settles w tm
              (after_login w (if not b then (tm, err no_listener) else with_code w tm w.code))
      listening true = with_code-Settles w.code refl
      listening false = refl

      with_state-Settles : (s : Option Text) → Settles w tm (after_login w (with_state w tm s))
      with_state-Settles none = refl
      with_state-Settles (some s) = listening w.listens

  module _ (t : Token) (held : tm.token ≡ some t) where
    after_refresh-Settles :
        (r : Result OAuthError Token)
        → refresh_token w.second w.now tm.client t.refresh_token ≡ r
        → Settles w tm (after_refresh w tm r)
    after_refresh-Settles (err e) x = after_login-Settles
    after_refresh-Settles (ok u) x =
        keep_token-Settles (name_user (validate_token w.third tm.client u.access_token) tm) u
          (refreshed t held x) (name_user-disk (validate_token w.third tm.client u.access_token))

    after_early-Settles :
        (v : TokenValidation)
        → validate_token w.first tm.client t.access_token ≡ ok v
        → (r : Result OAuthError Token) → refresh_token w.second w.now tm.client t.refresh_token ≡ r
        → Settles w tm (after_early w (name_user (ok v) tm) t r)
    after_early-Settles v x (err e) y = (validated v held x, held, inl held)
    after_early-Settles v x (ok u) y =
        keep_token-Settles (name_user (ok v) tm) u (refreshed t held y) (refl, refl)

    after_validation-Settles :
        (r : Result OAuthError TokenValidation)
        → validate_token w.first tm.client t.access_token ≡ r
        → Settles w tm (after_validation w tm t r)
    after_validation-Settles (ok v) x =
        elim (Bool-cases (ltb_ℤ v.expires_in (pos 300) && can_refresh tm t)) [
          | inl soon ↦ rw soon (
              after_early-Settles v x (refresh_token w.second w.now tm.client t.refresh_token) refl)
          | inr later ↦ rw later (validated v held x, held, inl held)
        ]
    after_validation-Settles (err e) x = elim (Bool-cases (can_refresh tm t)) [
      | inl able ↦
          rw able
            (after_refresh-Settles (refresh_token w.second w.now tm.client t.refresh_token) refl)
      | inr unable ↦ rw unable after_login-Settles
    ]

  with_token-Settles : (o : Option Token) → tm.token ≡ o → Settles w tm (with_token w tm o)
  with_token-Settles none held = after_login-Settles
  with_token-Settles (some t) held = elim (Bool-cases (is_empty t.access_token)) [
    | inl empty ↦ rw empty after_login-Settles
    | inr full ↦
        rw full
          (after_validation-Settles t held (validate_token w.first tm.client t.access_token) refl)
  ]

-- A token that `EnsureValidToken` returns was validated by Twitch, or issued by it for the refresh
-- token of the one held before or for the code of a login; it is the one held from then on, and the
-- file holds it too, unless it was held before or the file cannot be written. An error changes
-- nothing.
pub ensure_valid_token-Settles :
    (w : World) (tm : TokenManager) → Settles w tm (ensure_valid_token w tm)
unfolding ensure_valid_token
ensure_valid_token-Settles w tm = with_token-Settles w tm tm.token refl
