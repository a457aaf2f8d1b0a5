-- ===== src/Tests/Auth.antt =====
-- internal/auth: a login, a refresh, a later run, and the environment file.
use snipr.Base.{◌≡◌, ◌↔◌, refl, true, false, none, some, List, [], ◌∷◌, ok}
use snipr.Base.Int.{ℤ, pos}
use snipr.Auth.Env.{assignment, getenv, load_env}
use snipr.Auth.Env.Precedence.{first_given, or_given, load_env-first_given}
use snipr.Auth.Manager.{
  ManagerConfig, TokenManager, World, ensure_valid_token, new_token_manager, or_else, save_to_disk,
  stored_of,
}
use snipr.Auth.Manager.Disk.{GoesOn, new_token_manager-GoesOn}
use snipr.Auth.Manager.Vouched.{Settles, ensure_valid_token-Settles}
use snipr.Auth.OAuth.{Net}
use snipr.Auth.Server.{Query, handle_all, new_callback_server, wait_for_code}
use snipr.Auth.Server.First.{Grants, wait_for_code_iff}
use snipr.Auth.Token.{Token}
use snipr.Http.{answered}
use snipr.Tests.Forms.{credentials_form, no_files, read_credentials-form}
use snipr.Text.{Text, codes, cut, has_prefix, is_space, trim_left, trim_right}

abbrev cfg : ManagerConfig
cfg = record {
  client_id = codes "id";
  client_secret = codes "secret";
  token_file = [];
  callback_port = pos 0;
  scopes = [];
}

abbrev held : Token
held = record {
  access_token = codes "old";
  refresh_token = codes "again";
  token_type = codes "bearer";
  expires_in = pos 100;
  expires_at = pos 100;
  scopes = [];
}

abbrev pub no_port : ℤ → Text
no_port p = []

abbrev manager : TokenManager
manager = record (new_token_manager no_port [] [] no_files cfg none) { token = some held }

-- Twitch gives a new token for every form, and knows every token for amy's.
abbrev pub granting : Net
granting = record {
  token = λ r. answered 200 (
      some (record {
        access_token = codes "new";
        refresh_token = codes "more";
        token_type = codes "bearer";
        expires_in = pos 3600;
        scope = [];
      }));
  validation = λ r. answered 200 (
      some (record {
        client_id = codes "id";
        login = codes "amy";
        user_id = codes "7";
        expires_in = pos 60;
        scopes = [];
      }));
}

abbrev pub world : World
world = record {
  first = granting;
  second = granting;
  third = granting;
  exchange = granting;
  last = granting;
  now = pos 1000;
  writes = true;
  state = some (codes "s");
  listens = true;
  code = ok (codes "c");
}

ensure_valid_token-Settles_example : Settles world manager (ensure_valid_token world manager)
ensure_valid_token-Settles_example = ensure_valid_token-Settles world manager

abbrev blank : ManagerConfig
blank = record cfg { client_id = []; client_secret = [] }

same_file : or_else blank.token_file (codes "token.json") ≡ manager.cfg.token_file
unfolding new_token_manager
same_file = refl

new_token_manager-GoesOn_example :
    GoesOn manager held
      (new_token_manager no_port [] [] (save_to_disk true manager).disk blank none)
unfolding new_token_manager
new_token_manager-GoesOn_example =
    new_token_manager-GoesOn no_port manager held blank (credentials_form (stored_of manager held))
      refl refl (read_credentials-form (stored_of manager held)) same_file refl refl

abbrev query : Text → Query
query state = record { error = []; error_description = []; state = state; code = codes "c" }

wait_for_code_iff_example :
    (wait_for_code false false
        (handle_all (query (codes "x") ∷ query (codes "s") ∷ []) (new_callback_server (codes "s")))
      ≡ some (ok (codes "c")))
    ↔ Grants (codes "s") (codes "c") (query (codes "x"))
wait_for_code_iff_example =
    wait_for_code_iff (codes "s") (codes "c") (query (codes "x")) (query (codes "s") ∷ [])

abbrev env_file : List Text
env_file = codes "# keys" ∷ codes " A = '1' " ∷ codes "A=2" ∷ []

env_line : assignment (codes " A = '1' ") ≡ some (codes "A", codes "1")
unfolding assignment cut has_prefix trim_left trim_right is_space
env_line = refl

load_env-first_given_example :
    getenv (codes "A") (load_env (some env_file) true []).0
    ≡ or_given (getenv (codes "A") []) (first_given (codes "A") env_file)
load_env-first_given_example = load_env-first_given (codes "A") env_file true []
