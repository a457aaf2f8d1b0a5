-- ===== src/Tests/Login.antt =====
-- cmd/auth-cli/main.go: a login that is granted, and the chat program behind it.
use snipr.Auth.Manager.{World}
use snipr.Auth.OAuth.{validate_token}
use snipr.Auth.Server.{Query}
use snipr.Http.{answered}
use snipr.Auth.Token.{Token, TokenValidation}
use snipr.Base.{ℕ, ◌≡◌, refl, true, false, some, [], ◌∷◌, arith, ok}
use snipr.Base.Int.{pos}
use snipr.Cli.Startup.{chat_manager}
use snipr.Login.{SavedToken, Surroundings, done, login_program, read_saved, saved_of}
use snipr.Login.Handover.{IsHandedOver, client_of, env_of, login_program-IsHandedOver}
use snipr.Tests.Auth.{granting, no_port, world}
use snipr.Tests.Forms.{credentials_form, marshal_saved, no_files, read_credentials-form}
use snipr.Text.{Text, codes, eq_text, is_space, trim_left, trim_right}
use snipr.Text.Map.{Map}

abbrev to_text : Map Text → Text
to_text m = []

abbrev callback : Query
callback = record { error = []; error_description = []; state = codes "0aff"; code = codes "c" }

abbrev surroundings : Surroundings
surroundings = record {
  env_file = some (codes "TWITCH_CLIENT_SECRET=secret" ∷ []);
  complete = true;
  env = (codes "TWITCH_CLIENT_ID", codes "id") ∷ [];
  goos = codes "linux";
  random = some (10 ∷ 255 ∷ []);
  listens = true;
  requests = callback ∷ record callback { state = codes "x" } ∷ [];
  timed_out = false;
  context_first = false;
  exchange = granting;
  validation = granting;
  now = pos 1000;
  writes = true;
  disk = no_files;
}

abbrev token : Token
token = record {
  access_token = codes "new";
  refresh_token = codes "more";
  token_type = codes "bearer";
  expires_in = pos 3600;
  expires_at = pos 3600000001000;
  scopes = [];
}

abbrev amy : ℕ → TokenValidation
amy left = record {
  client_id = codes "id";
  login = codes "amy";
  user_id = codes "7";
  expires_in = pos left;
  scopes = [];
}

login_done : (login_program to_text marshal_saved surroundings).ending ≡ done token (amy 60)
unfolding login_program eq_text trim_left trim_right is_space
login_done = refl

browser_test :
    (login_program to_text marshal_saved surroundings).browser
    ≡ some (codes "xdg-open", codes "https://id.twitch.tv/oauth2/authorize?" ∷ [])
unfolding login_program eq_text trim_left trim_right is_space
browser_test = refl

-- Twitch knows the token for another hour.
abbrev later : World
later = record world {
  first = record granting { validation = λ r. answered 200 (some (amy 3600)) };
}

validated :
    validate_token later.first
      (chat_manager no_port
        (env_of surroundings)
        (login_program to_text marshal_saved surroundings).disk).client
      token.access_token
    ≡ ok (amy 3600)
unfolding validate_token
validated = refl

abbrev saved : SavedToken
saved = saved_of (client_of surroundings) token (amy 60)

login_program-IsHandedOver_example : IsHandedOver surroundings token (amy 60) (amy 3600) later (
    chat_manager no_port
      (env_of surroundings)
      (login_program to_text marshal_saved surroundings).disk)
login_program-IsHandedOver_example =
    login_program-IsHandedOver to_text marshal_saved no_port surroundings token (amy 60) (amy 3600)
      later (credentials_form (read_saved saved)) login_done refl refl
      (read_credentials-form (read_saved saved)) refl validated (omega arith)
