-- ===== src/Auth/Token.antt =====
-- internal/auth/token.go: tokens and the credentials of the application.
use snipr.Base.{ℕ, ◌*◌, Bool, true, false, Option, none, some, List, [], ◌∷◌, map, if◌then◌else◌}
use snipr.Base.Int.{ℤ, pos, ◌+ℤ◌}
use snipr.Text.{Text, eq_text, is_empty}
use snipr.Time.{second, before}

pub record Token : Type 0 where
  pub access_token : Text
  pub refresh_token : Text
  pub token_type : Text
  pub expires_in : ℤ
  pub expires_at : ℤ
  pub scopes : List Text

pub record TokenValidation : Type 0 where
  pub client_id : Text
  pub login : Text
  pub user_id : Text
  pub expires_in : ℤ
  pub scopes : List Text

pub record OAuthConfig : Type 0 where
  pub client_id : Text
  pub client_secret : Text
  pub redirect_uri : Text
  pub scopes : List Text

-- `IsExpired`, where `none` is the nil token; `now` is what `time.Now()` gives.
unfoldable pub is_expired : ℤ → Option Token → Bool
unfolding ◌+ℤ◌
is_expired now none = true
is_expired now (some t) =
    if is_empty t.access_token then true else before t.expires_at (now +ℤ pos (60 * second))

-- `fold` gives one rune for all that differ in case only.
module _ (fold : ℕ → ℕ) where
  -- `strings.EqualFold(a, b)`
  abbrev equal_fold : Text → Text → Bool
  equal_fold a b = eq_text (map fold a) (map fold b)

  unfoldable pub scope_among : List Text → Text → Bool
  unfolding eq_text
  scope_among [] scope = false
  scope_among (s ∷ scopes) scope = if equal_fold s scope then true else scope_among scopes scope

  -- `HasScope`
  unfoldable pub has_scope : Option Token → Text → Bool
  unfolding scope_among
  has_scope none scope = false
  has_scope (some t) scope = scope_among t.scopes scope
