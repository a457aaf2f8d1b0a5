-- ===== src/Tests/Forms.antt =====
-- Forms of texts and numbers, and of the credentials of internal/auth/manager.go, in the place of JSON.
use snipr.Base.{ℕ, zero, suc, ◌≡◌, refl, ap, ◌∙◌, Option, none, some, List, [], ◌∷◌}
use snipr.Base.Int.{ℤ, pos, negsuc}
use snipr.Auth.Manager.{Storage, StoredCredentials}
use snipr.Login.{SavedToken, read_saved}
use snipr.Text.{Text}

-- A text with a mark in front of each character and one at its end.
abbrev pub write_text : Text → Text → Text
write_text [] later = 0 ∷ later
write_text (c ∷ s) later = 1 ∷ c ∷ write_text s later

abbrev pub in_front : ℕ → Option (Text × Text) → Option (Text × Text)
in_front c none = none
in_front c (some (s, later)) = some (c ∷ s, later)

abbrev pub read_text : Text → Option (Text × Text)
read_text (suc _ ∷ c ∷ t) = in_front c (read_text t)
read_text (zero ∷ t) = some ([], t)
read_text _ = none

read_text-write_text : (s later : Text) → read_text (write_text s later) ≡ some (s, later)
read_text-write_text [] later = refl
read_text-write_text (c ∷ s) later = ap (in_front c) (read_text-write_text s later)

abbrev pub with_text : {A : Type 0} → Option (Text × Text) → (Text → Text → Option A) → Option A
with_text none k = none
with_text (some (s, later)) k = k s later

pub with_written :
    {A : Type 0} (s later : Text) (k : Text → Text → Option A)
    → with_text (read_text (write_text s later)) k ≡ k s later
with_written s later k = ap (λ o. with_text o k) (read_text-write_text s later)

abbrev pub write_int : ℤ → List ℕ → List ℕ
write_int (pos n) s = 0 ∷ n ∷ s
write_int (negsuc n) s = 1 ∷ n ∷ s

abbrev pub read_int : ℕ → ℕ → ℤ
read_int zero n = pos n
read_int (suc _) n = negsuc n

abbrev pub read_ints : Text → Option (ℤ × ℤ)
read_ints (a ∷ m ∷ b ∷ n ∷ []) = some (read_int a m, read_int b n)
read_ints _ = none

pub read_ints-write_int : (a b : ℤ) → read_ints (write_int a (write_int b [])) ≡ some (a, b)
read_ints-write_int (pos m) (pos n) = refl
read_ints-write_int (pos m) (negsuc n) = refl
read_ints-write_int (negsuc m) (pos n) = refl
read_ints-write_int (negsuc m) (negsuc n) = refl

pub some_injective : {s t : Text} → some s ≡ some t → s ≡ t
some_injective e = cc

abbrev pub credentials_form : StoredCredentials → Text
credentials_form s = write_text s.client_id (
    write_text s.client_secret (
      write_text s.access_token (
        write_text s.refresh_token (
          write_text s.token_type (
            write_text s.username
              (write_text s.user_id (write_int s.expires_at (write_int (pos 0) []))))))))

abbrev credentials_of :
    Text → Text → Text → Text → Text → Text → Text → Option (ℤ × ℤ) → Option StoredCredentials
credentials_of id secret access refresh type_ name user none = none
credentials_of id secret access refresh type_ name user (some (expires, _)) = some (record {
  client_id = id;
  client_secret = secret;
  access_token = access;
  refresh_token = refresh;
  token_type = type_;
  expires_at = expires;
  username = name;
  user_id = user;
})

abbrev pub read_credentials : Text → Option StoredCredentials
read_credentials t = with_text (read_text t) (λ id t1. with_text (read_text t1) (λ secret t2.
    with_text (read_text t2) (λ access t3. with_text (read_text t3) (λ refresh t4.
      with_text (read_text t4) (λ type_ t5. with_text (read_text t5) (λ name t6.
        with_text (read_text t6)
          (λ user t7. credentials_of id secret access refresh type_ name user (read_ints t7))))))))

pub read_credentials-form : (s : StoredCredentials) → read_credentials (credentials_form s) ≡ some s
read_credentials-form s =
    with_written s.client_id _ _
    ∙ with_written s.client_secret _ _
    ∙ with_written s.access_token _ _
    ∙ with_written s.refresh_token _ _
    ∙ with_written s.token_type _ _
    ∙ with_written s.username _ _
    ∙ with_written s.user_id _ _
    ∙ ap
        (credentials_of s.client_id s.client_secret s.access_token s.refresh_token s.token_type
          s.username s.user_id)
        (read_ints-write_int s.expires_at (pos 0))

abbrev pub marshal_saved : SavedToken → Option Text
marshal_saved s = some (credentials_form (read_saved s))

abbrev pub no_files : Storage
no_files = record {
  files = [];
  marshal = λ s. some (credentials_form s);
  unmarshal = read_credentials;
}
