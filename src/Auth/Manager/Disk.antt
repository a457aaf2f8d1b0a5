-- ===== src/Auth/Manager/Disk.antt =====
-- What a later run finds in the token file.
use snipr.Base.{arith, ◌≡◌, ◌∙◌, refl, sym, ap, subst, true, none, some, []}
use snipr.Base.Int.{ℤ, pos}
use snipr.Auth.Manager.{
  ManagerConfig, Storage, TokenManager, before_load, configured, load_stored, new_token_manager,
  or_else, save_to_disk, stored_in, stored_of, with_client, write_file,
}
use snipr.Auth.Token.{Token, is_expired}
use snipr.Text.{Text, codes, eq_text_refl}
use snipr.Text.Map.{lookup-insert}

-- A manager of a later run that goes on where `tm` with the token `t` stopped.
pub record GoesOn (tm : TokenManager) (t : Token) (later : TokenManager) : Type 0 where
  pub token_is : later.token ≡ some (record t { expires_in = pos 0; scopes = [] })
  pub expires : (now : ℤ) → is_expired now later.token ≡ is_expired now (some t)
  pub username_is : later.username ≡ tm.username
  pub user_id_is : later.user_id ≡ tm.user_id
  pub client_id_is : later.cfg.client_id ≡ tm.cfg.client_id
  pub client_secret_is : later.cfg.client_secret ≡ tm.cfg.client_secret
  pub oauth_id_is : later.client.config.client_id ≡ tm.cfg.client_id
  pub oauth_secret_is : later.client.config.client_secret ≡ tm.cfg.client_secret

-- A manager that finds these credentials in its file.
stored-GoesOn :
    (port_text : ℤ → Text) (tm : TokenManager) (t : Token) (cfg : ManagerConfig) (d : Storage)
    → cfg.client_id ≡ []
    → cfg.client_secret ≡ []
    → stored_in d (or_else cfg.token_file (codes "token.json")) ≡ some (stored_of tm t)
    → GoesOn tm t (new_token_manager port_text [] [] d cfg none)
unfolding new_token_manager is_expired
stored-GoesOn port_text tm t cfg d no_id no_secret found =
    let begun = before_load port_text (configured cfg [] []) d in
    subst (GoesOn tm t) (ap (λ o. with_client port_text none (load_stored begun o)) (sym found))
      (record {
        token_is = refl;
        expires = λ now. refl;
        username_is = refl;
        user_id_is = refl;
        client_id_is = rw no_id refl;
        client_secret_is = rw no_secret refl;
        oauth_id_is = rw no_id refl;
        oauth_secret_is = rw no_secret refl;
      })

-- What was written to a file is what is found there.
pub stored_in-write_file :
    (d : Storage) (path contents : Text)
    → stored_in (write_file path (some contents) d) path ≡ d.unmarshal contents
unfolding stored_in write_file
stored_in-write_file d path contents =
    ground (arith, lookup-insert path path contents d.files, eq_text_refl path)

stored_in-save :
    (tm : TokenManager) (t : Token) (contents : Text)
    → tm.token ≡ some t
    → tm.disk.marshal (stored_of tm t) ≡ some contents
    → stored_in (save_to_disk true tm).disk tm.cfg.token_file ≡ tm.disk.unmarshal contents
unfolding save_to_disk
stored_in-save tm t contents held json =
    rw (held, json) (stored_in-write_file tm.disk tm.cfg.token_file contents)

-- Where the credentials have a JSON form that is read back as them: a run with the same token file,
-- whose configuration and environment give no credentials, takes up what an earlier run saved with
-- success: the token, but for its lifetime and its scopes, which the file does not hold, with the
-- same expiry, and the user and the credentials.
pub new_token_manager-GoesOn :
    (port_text : ℤ → Text) (tm : TokenManager) (t : Token) (cfg : ManagerConfig) (contents : Text)
    → tm.token ≡ some t
    → tm.disk.marshal (stored_of tm t) ≡ some contents
    → tm.disk.unmarshal contents ≡ some (stored_of tm t)
    → or_else cfg.token_file (codes "token.json") ≡ tm.cfg.token_file
    → cfg.client_id ≡ []
    → cfg.client_secret ≡ []
    → GoesOn tm t (new_token_manager port_text [] [] (save_to_disk true tm).disk cfg none)
new_token_manager-GoesOn port_text tm t cfg contents held json reads same_file no_id no_secret =
    stored-GoesOn port_text tm t cfg (save_to_disk true tm).disk no_id no_secret (
      ap (stored_in (save_to_disk true tm).disk) same_file
      ∙ stored_in-save tm t contents held json
      ∙ reads)
