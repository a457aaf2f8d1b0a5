-- ===== src/Tests/Startup.antt =====
-- cmd/chat-cli/main.go: a start, and a whole run.
use snipr.Base.{ℕ, zero, suc, ◌≡◌, refl, true, false, none, some, List, [], ◌∷◌, ◌++◌, ok}
use snipr.Base.Int.{pos}
use snipr.Cli.Startup.{Outside, Started, assembled, start_up}
use snipr.Cli.Startup.Shutdown.{IsOver, left_by, main-IsOver}
use snipr.Cli.Startup.Checks.{all_groups}
use snipr.Analytics.{status}
use snipr.Bus.{Nats}
use snipr.Ingest.Client.{Client}
use snipr.Store.{Call, call_enqueue, open_store}
use snipr.Tests.Analytics.{found, made, texts}
use snipr.Tests.Auth.{no_port, world}
use snipr.Tests.Cli.{typed_lines}
use snipr.Tests.Forms.{no_files}
use snipr.Tests.Features.{whole}
use snipr.Tests.Ingest.{ascii_lower}
use snipr.Tests.Predict.{files}
use snipr.Tests.Store.{message, refuses, works, works-Works}
use snipr.Text.{codes}

abbrev nats : Nats
nats = record {
  creates = true;
  gets_ready = true;
  connects = true;
  has_jetstream = true;
  adds = λ s. true;
}

-- The second channel is refused by the socket.
abbrev outside : Outside ℕ
outside = record {
  env_file = none;
  complete = true;
  env = [];
  disk = no_files;
  world = world;
  database = record { opens = true; answers = true; migrates = true; rows = [] };
  ping_answer = status 200;
  chat_exchange = found;
  clips_exchange = made;
  files = files;
  nats = nats;
  refuses = λ g. false;
  dials = true;
  connect_fails = λ i. false;
  guest = codes "12345";
  args = codes "Fun" ∷ codes "other" ∷ [];
  join_fails = λ i. elim i [ zero ↦ false | suc j ↦ true ];
}

-- The client behind the three first messages.
abbrev client : Client
client = record {
  options = record {
    oauth_token = [];
    username = [];
    irc_url = codes "wss://irc-ws.chat.twitch.tv:443";
  };
  conn = some (record {
    sent =
        codes "CAP REQ :twitch.tv/tags twitch.tv/commands\r\n"
        ∷ codes "PASS SCHMOOPIIE\r\n"
        ∷ codes "NICK justinfan12345\r\n"
        ∷ [];
    shut = false;
  });
  channels = [];
  closed = false;
  has_bus = true;
  published = [];
}

abbrev started : Started ℕ
started =
    assembled whole (λ s. none) no_port texts ascii_lower outside (open_store [] (pos 30))
      (record { server = true; connection = true })
      (record {
        chat_stream_name = codes "SNIPR_CHAT";
        features_stream_name = codes "SNIPR_FEATURES";
      })
      all_groups client

starts : start_up whole (λ s. none) no_port texts ascii_lower outside ≡ ok started
unfolding start_up
starts = refl

abbrev during : List Call
during = call_enqueue works (message (codes "a")) ∷ []

abbrev late : List Call
late = call_enqueue refuses (message (codes "b")) ∷ []

main-IsOver_example :
    IsOver ascii_lower outside started typed_lines
      (during ++ late)
      (left_by ascii_lower started typed_lines during false refuses late works)
main-IsOver_example =
    main-IsOver whole (λ s. none) no_port texts ascii_lower outside started typed_lines during false
      refuses late works starts works-Works
