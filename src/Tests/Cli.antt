-- ===== src/Tests/Cli.antt =====
-- cmd/chat-cli/main.go: a session, and a burst.
use snipr.Base.{ℕ, ◌≡◌, ◌≢◌, refl, true, false, none, some, List, [], ◌∷◌, map, arith}
use snipr.Base.Int.{pos}
use snipr.Bus.Delivery.{Pairwise}
use snipr.Cli.{Event, Shell, View, burst_from, loop, typed}
use snipr.Cli.Burst.{burst_from-Distinct}
use snipr.Cli.Session.{Ends, loop-Ends}
use snipr.Tests.Ingest.{ascii_lower, joined_nothing}
use snipr.Text.{codes, eq_text, fields_from, is_space, trim_left, trim_right}
use snipr.Twitch.{new_helix_client}

abbrev pub view : View ℕ
view = record {
  now = pos 0;
  model_ready = true;
  message_count = 3;
  cooldowns = [];
  last_prob = [];
  helix = new_helix_client (codes "id") [];
  elastic = none;
  rows = some 2;
  write_fails = false;
}

abbrev shell : Shell
shell = record { client = joined_nothing; show_chat = true; running = true }

abbrev pub typed_lines : List (View ℕ × Event)
typed_lines =
    (view, typed (codes "/add #Fun"))
    ∷ (view, typed (codes "  "))
    ∷ (view, typed (codes "/MUTE"))
    ∷ (view, typed (codes "/quit now"))
    ∷ (view, typed (codes "/chat"))
    ∷ []

loop-Ends_example :
    Ends ascii_lower (map (λ x. x.1) typed_lines) shell (loop ascii_lower typed_lines shell)
loop-Ends_example = loop-Ends ascii_lower typed_lines shell refl

loop_test : (loop ascii_lower typed_lines shell).0.show_chat ≡ false
unfolding loop eq_text fields_from is_space trim_left trim_right
loop_test = refl

burst_from-Distinct_example : Pairwise ◌≢◌ (map (λ m. m.id) (burst_from (pos 0) (codes "fun") 0 40))
burst_from-Distinct_example = burst_from-Distinct (pos 0) (codes "fun") 0 40 (omega arith)
