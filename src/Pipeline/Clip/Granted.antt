-- ===== src/Pipeline/Clip/Granted.antt =====
-- Which windows lead to a clip on Twitch: the consumers of internal/pipeline/consumers.go with the client of
-- internal/twitch/helix.go.
pub mod Made
pub mod Exactly
use snipr.Base.{ℕ, ◌≡◌, ◌↔◌, true, false, Option, some, List, Result, ok, err}
use snipr.Base.Int.{ℤ}
use snipr.Float.{Float64}
use snipr.Http.{HttpAnswer}
use snipr.Models.{FeatureVector}
use snipr.Pipeline.Clip.{
  Clock, Consumers, Helix, Outcome, clip_doc_of, clip_url, created, index_with,
}
use snipr.Pipeline.Cooldown.{active}
use snipr.Text.{Text}
use snipr.Text.Map.{lookup}
use snipr.Twitch
use snipr.Twitch.{ClipResponse, HelixClient, HelixError, is_accepted}
use snipr.Twitch.Answers.{Gives, Knows, has_token}

-- What the token provider and Twitch answer to the two requests for a clip.
pub record Answers : Type 0 where
  pub user_token : Option Text
  pub user : HttpAnswer (List Text)
  pub clip_token : Option Text
  pub clip : HttpAnswer (List ClipResponse)

-- An error, with its text.
abbrev pub worded :
    {A : Type 0}
    → (HelixError → Text)
    → HelixClient × Result HelixError A
    → HelixClient × Result Text A
worded words (c, ok a) = (c, ok a)
worded words (c, err e) = (c, err (words e))

-- The client of internal/twitch as the consumers use it.
abbrev pub helix_of : (ℕ → ℕ) → (HelixError → Text) → Answers → Helix HelixClient
helix_of lower words a = record {
  is_configured = Twitch.is_configured;
  get_user_id = λ login c. worded words (Twitch.get_user_id lower a.user_token a.user login c);
  create_clip = λ user c. worded words (Twitch.create_clip a.clip_token a.clip c);
}

module _ (lower : ℕ → ℕ) (a : Answers) where
  -- The client is there and configured, the user is known, and Twitch makes the clip `r` for a token.
  pub record Makes (channel : Text) (o : Option HelixClient) (r : ClipResponse) : Type 0 where
    pub client : HelixClient
    pub client_is : o ≡ some client
    pub configured : Twitch.is_configured client ≡ true
    pub user : Text
    pub user_known : Knows lower a.user_token a.user channel client user
    pub token : has_token a.clip_token client ≡ true
    pub clip_given : Gives is_accepted a.clip r

module _ (fl : Float64) (lower : ℕ → ℕ) (a : Answers) where
  open fl use {F, decimal, leb as leb_F}

  -- The probability is 0.7 or more, the channel is not in its cooldown, and Twitch makes the clip.
  abbrev pub Granted : Clock → FeatureVector F → Consumers F HelixClient → F → ClipResponse → Type 0
  Granted clock fv c prob r =
      (leb_F (decimal 7 1) prob ≡ true)
      × (active (lookup fv.channel c.cooldowns) clock.at_cooldown ≡ false)
      × Makes lower a fv.channel c.helix r

module _ (fl : Float64) (unix : ℤ → Text) (lower : ℕ → ℕ) (words : HelixError → Text)
    (a : Answers) where
  open fl use {F}

  module _ (clock : Clock) (fv : FeatureVector F) (c : Consumers F HelixClient) (prob : F) where
    -- A clip is made where one is granted and nowhere else, and its document is given to the indexer.
    abbrev pub MakesGranted : Consumers F HelixClient × Outcome → Type 0
    MakesGranted x =
        ((id : Text)
          → (x.1 ≡ created id)
            ↔ ((r : ClipResponse) × (r.id ≡ id) × Granted fl lower a clock fv c prob r))
        × ((r : ClipResponse)
            → Granted fl lower a clock fv c prob r
            → x.0.elastic
              ≡ index_with fl (helix_of lower words a) unix clock
                  (clip_doc_of fl (helix_of lower words a) unix clock fv r.id (clip_url r.id)
                    r.edit_url prob)
                  c.elastic_online c.elastic)
