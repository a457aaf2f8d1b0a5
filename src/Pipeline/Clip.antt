-- ===== src/Pipeline/Clip.antt =====
-- internal/pipeline/consumers.go: from a feature vector to a clip, and the timestamps of messages.
pub mod Decision
pub mod Granted
use snipr.Analytics.{ClipEventDoc, ElasticIndexer, index_clip}
use snipr.Base.{
  ◌==◌, ℕ, zero, suc, ◌+◌, ◌*◌, Bool, true, false, not, ◌&&◌, ◌||◌, Option, none, some, List, [],
  ◌∷◌, ◌++◌, if◌then◌else◌, Result, ok, err, ltb,
}
use snipr.Base.Int.{ℤ, pos, negsuc, ltb_ℤ}
use snipr.Float.{Float64}
use snipr.Models.{ChatMessage, FeatureVector, values}
use snipr.Pipeline.Cooldown.{try_cooldown}
use snipr.Text.{Text, codes}
use snipr.Text.Map.{Map, insert}
pub use snipr.Twitch.{ClipResponse}
pub use snipr.Predict.{Predictor}
use snipr.Time.{second, is_zero, sub, abs}

-- `normalizeTS`; `now` is what `time.Now()` gives.
unfoldable pub normalize_ts : ℤ → ChatMessage → ChatMessage
unfolding sub abs
normalize_ts now msg =
    if is_zero msg.timestamp || ltb_ℤ (pos (10 * second)) (abs (sub now msg.timestamp))
    then record msg { timestamp = now }
    else msg

-- What the consumers call of `twitch.HelixClient`, whose state is `S`.
pub record Helix (S : Type 0) : Type 0 where
  pub is_configured : S → Bool
  pub get_user_id : Text → S → S × Result Text Text
  pub create_clip : Text → S → S × Result Text ClipResponse

-- The fields of `Consumers` that the handlers change. A predictor, a client or an indexer that is
-- not there is `none`.
pub record Consumers (F : Type 0) (S : Type 0) : Type 0 where
  pub predictor : Option (Predictor F)
  pub helix : Option S
  pub elastic : Option (ElasticIndexer F)
  pub elastic_online : Bool
  pub cooldowns : Map ℤ
  pub last_prob : Map F

-- How a window ended.
pub data Outcome : Type 0 where
  no_model predict_failed no_hype in_cooldown simulated user_failed clip_failed : Outcome
  created : Text → Outcome

-- The values of the calls of `time.Now()` in one handler.
pub record Clock : Type 0 where
  pub at_cooldown : ℤ
  pub at_url : ℤ
  pub at_index : ℤ

-- `url` of a clip
abbrev pub clip_url : Text → Text
clip_url id = codes "https://clips.twitch.tv/" ++ id

-- `api` is the Helix client, and `unix` the text of `t.Unix()`.
module _ (fl : Float64) {S : Type 0} (api : Helix S) (unix : ℤ → Text) where
  open fl use {F, decimal, leb as leb_F, trunc}

  -- `predict.Decide`, with `ProbThreshold`
  unfoldable pub decide : F → ℕ
  decide prob = if leb_F (decimal 7 1) prob then 1 else 0

  pub clip_doc_of : Clock → FeatureVector F → Text → Text → Text → F → ClipEventDoc F
  clip_doc_of clock fv clip_id url edit_url prob = record {
    timestamp = clock.at_index;
    event_type = [];
    channel = fv.channel;
    clip_id = clip_id;
    url = url;
    edit_url = edit_url;
    title = codes "Auto-Clip on #" ++ (fv.channel ++ codes " (ml)");
    prob = prob;
    prediction = pos 1;
    msg_count = fv.msg_count;
    hype_score = fv.hype_score;
    unique_users = trunc fv.unique_users;
    reason = codes "ml_hype_prediction";
  }

  abbrev pub index_with :
      Clock → ClipEventDoc F → Bool → Option (ElasticIndexer F) → Option (ElasticIndexer F)
  index_with clock doc online none = none
  index_with clock doc online (some e) =
      some (if online then index_clip clock.at_index doc e else e)

  -- `indexClip`
  unfoldable pub index_clip_of :
      Clock → FeatureVector F → Text → Text → Text → F → Consumers F S → Consumers F S
  unfolding clip_doc_of index_clip
  index_clip_of clock fv clip_id url edit_url prob c = record c {
    elastic =
        index_with clock (clip_doc_of clock fv clip_id url edit_url prob) c.elastic_online
          c.elastic;
  }

  abbrev pub with_helix : S → Consumers F S → Consumers F S
  with_helix h c = record c { helix = some h }

  abbrev clip_created :
      Clock
      → FeatureVector F
      → F
      → Consumers F S
      → S × Result Text ClipResponse
      → Consumers F S × Outcome
  clip_created clock fv prob c (h, err _) = (with_helix h c, clip_failed)
  clip_created clock fv prob c (h, ok r) =
      (index_clip_of clock fv r.id (clip_url r.id) r.edit_url prob (with_helix h c), created r.id)

  abbrev user_found :
      Clock → FeatureVector F → F → Consumers F S → S × Result Text Text → Consumers F S × Outcome
  user_found clock fv prob c (h, err _) = (with_helix h c, user_failed)
  user_found clock fv prob c (h, ok user) =
      clip_created clock fv prob (with_helix h c) (api.create_clip user h)

  abbrev clip_simulated : Clock → FeatureVector F → F → Consumers F S → Consumers F S × Outcome
  clip_simulated clock fv prob c =
      let url = clip_url (codes "simulated_" ++ (fv.channel ++ b'_' ∷ unix clock.at_url)) in
      (index_clip_of clock fv (codes "sim_" ++ fv.channel) url [] prob c, simulated)

  abbrev clip_with :
      Clock → FeatureVector F → F → Consumers F S → Option S → Consumers F S × Outcome
  clip_with clock fv prob c none = clip_simulated clock fv prob c
  clip_with clock fv prob c (some h) =
      if not (api.is_configured h)
      then clip_simulated clock fv prob c
      else user_found clock fv prob c (api.get_user_id fv.channel h)

  -- `createClip`
  unfoldable pub create_clip : Clock → FeatureVector F → F → Consumers F S → Consumers F S × Outcome
  unfolding index_clip_of
  create_clip clock fv prob c = clip_with clock fv prob c c.helix

  abbrev pub cooled :
      Clock → FeatureVector F → F → Consumers F S → Map ℤ × Bool → Consumers F S × Outcome
  cooled clock fv prob c (cooldowns, false) = (record c { cooldowns = cooldowns }, in_cooldown)
  cooled clock fv prob c (cooldowns, true) =
      create_clip clock fv prob (record c { cooldowns = cooldowns })

  abbrev pub predicted :
      Clock → FeatureVector F → Consumers F S → Result Text F → Consumers F S × Outcome
  predicted clock fv c (err _) = (c, predict_failed)
  predicted clock fv c (ok prob) =
      let c' = record c { last_prob = insert fv.channel prob c.last_prob } in
      if decide prob == 1
      then cooled clock fv prob c' (try_cooldown fv.channel clock.at_cooldown c'.cooldowns)
      else (c', no_hype)

  abbrev pub with_predictor :
      Clock → FeatureVector F → Consumers F S → Option (Predictor F) → Consumers F S × Outcome
  with_predictor clock fv c none = (c, no_model)
  with_predictor clock fv c (some p) =
      if not p.ready then (c, no_model) else predicted clock fv c (p.predict_proba (values fv))

  -- `onFeatures`
  unfoldable pub on_features : Clock → FeatureVector F → Consumers F S → Consumers F S × Outcome
  unfolding decide create_clip values insert try_cooldown
  on_features clock fv c = with_predictor clock fv c c.predictor
