-- ===== src/Tests/Clips.antt =====
-- internal/pipeline/consumers.go with the client of internal/twitch/helix.go: a clip of a channel whose user is
-- not known yet.
use snipr.Base.{ℕ, ◌≡◌, refl, false, none, some, [], ◌∷◌, inr}
use snipr.Http.{answered}
use snipr.Pipeline.Clip.{Consumers, created, on_features}
use snipr.Pipeline.Clip.Decision.{IsScored}
use snipr.Pipeline.Clip.Granted.{Answers, Granted, MakesGranted, helix_of}
use snipr.Pipeline.Clip.Granted.Exactly.{on_features-MakesGranted}
use snipr.Tests.Ingest.{ascii_lower}
use snipr.Tests.Pipeline.{clock, second_text, sure, tenths, window}
use snipr.Text.{Text, codes}
use snipr.Text.Map.{lookup}
use snipr.Twitch.{HelixClient, HelixError, create_clip, get_user_id}

abbrev twitch_client : HelixClient
twitch_client = record {
  client_id = codes "app";
  user_token = codes "secret";
  has_provider = false;
  user_cache = [];
  asked = 0;
}

abbrev with_twitch : Consumers ℕ HelixClient
with_twitch = record {
  predictor = some sure;
  helix = some twitch_client;
  elastic = none;
  elastic_online = false;
  cooldowns = [];
  last_prob = [];
}

abbrev answers : Answers
answers = record {
  user_token = none;
  user = answered 200 (some (codes "77" ∷ []));
  clip_token = none;
  clip = answered 202 (some (record { id = codes "Fun7"; edit_url = codes "edit" } ∷ []));
}

abbrev worded_error : HelixError → Text
worded_error e = codes "helix"

with_twitch-IsScored :
    IsScored tenths
      (helix_of ascii_lower worded_error answers)
      second_text
      clock
      window
      with_twitch
      8
with_twitch-IsScored = record { predictor = sure; loaded = refl; ready = refl; predicted = refl }

on_features-MakesGranted_example :
    MakesGranted tenths second_text ascii_lower worded_error answers clock window with_twitch 8 (
      on_features tenths
        (helix_of ascii_lower worded_error answers)
        second_text
        clock
        window
        with_twitch)
on_features-MakesGranted_example =
    on_features-MakesGranted tenths second_text ascii_lower worded_error answers clock window
      with_twitch 8 with_twitch-IsScored

answers-Granted :
    Granted tenths ascii_lower answers clock window with_twitch 8
      (record { id = codes "Fun7"; edit_url = codes "edit" })
unfolding lookup
answers-Granted = (
  refl,
  refl,
  record {
    client = twitch_client;
    client_is = refl;
    configured = refl;
    user = codes "77";
    user_known =
        inr (refl, refl, record { code = 200; rest = []; answer_is = refl; good_code = refl });
    token = refl;
    clip_given = record { code = 202; rest = []; answer_is = refl; good_code = refl };
  },
)

created_test :
    (on_features tenths
      (helix_of ascii_lower worded_error answers)
      second_text
      clock
      window
      with_twitch).1
    ≡ created (codes "Fun7")
unfolding on_features get_user_id create_clip
created_test = refl
