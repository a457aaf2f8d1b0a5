-- ===== src/Pipeline/Clip/Granted/Exactly.antt =====
-- Windows of the consumers with the client of Helix, from the probability on.
use snipr.Base.{ℕ, ◌≡◌, ◌≢◌, refl, sym, ap, ◌∙◌, true, false, arith, inl, inr, Bool-cases}
use snipr.Base.Int.{ℤ}
use snipr.Float.{Float64}
use snipr.Models.{FeatureVector}
use snipr.Pipeline.Clip.{
  Clock, Consumers, Helix, Outcome, clip_with, create_clip, created, no_hype, on_features,
  in_cooldown,
}
use snipr.Pipeline.Clip.Decision.{IsScored, on_features-predicted, decide-hype, decide-calm}
use snipr.Pipeline.Cooldown.{active}
use snipr.Pipeline.Cooldown.Spacing.{try_let_through, try_refused}
use snipr.Text.{Text}
use snipr.Text.Map.{insert, lookup}
use snipr.Twitch.{ClipResponse, HelixClient, HelixError}
use snipr.Pipeline.Clip.Granted.{Answers, Granted, MakesGranted, helix_of}
use snipr.Pipeline.Clip.Granted.Made.{clip_with-Makes, clip_with-IsMade}

module _ (fl : Float64) (unix : ℤ → Text) (lower : ℕ → ℕ) (words : HelixError → Text)
    (a : Answers) where
  open fl use {F, decimal, leb as leb_F}

  abbrev api : Helix HelixClient
  api = helix_of lower words a

  module _ (clock : Clock) (fv : FeatureVector F) (c : Consumers F HelixClient) (prob : F) where
    abbrev noted : Consumers F HelixClient
    noted = record c { last_prob = insert fv.channel prob c.last_prob }

    free-MakesGranted :
        (c2 : Consumers F HelixClient)
        → leb_F (decimal 7 1) prob ≡ true
        → active (lookup fv.channel c.cooldowns) clock.at_cooldown ≡ false
        → c2.elastic ≡ c.elastic
        → c2.elastic_online ≡ c.elastic_online
        → MakesGranted fl unix lower words a clock fv c prob
            (clip_with fl api unix clock fv prob c2 c.helix)
    free-MakesGranted c2 hype free same_indexer same_online = (
      λ id. (
        λ made.
            let (r, same, makes) =
              clip_with-Makes fl unix lower words a clock fv prob c2 c.helix id made in
            (r, same, (hype, free, makes)),
        λ (r, same, (_, _, makes)).
            (clip_with-IsMade fl unix lower words a clock fv prob c2 c.helix r makes).outcome_is
            ∙ ap created same,
      ),
      λ r (_, _, makes).
          rw (sym same_indexer, sym same_online)
            ((clip_with-IsMade fl unix lower words a clock fv prob c2 c.helix r makes).indexed),
    )

    refused-MakesGranted :
        (x : Consumers F HelixClient × Outcome)
        → ((id : Text) → x.1 ≢ created id)
        → ((r : ClipResponse) → ¬ Granted fl lower a clock fv c prob r)
        → MakesGranted fl unix lower words a clock fv c prob x
    refused-MakesGranted x other refused = (
      λ id. (λ made. absurd (other id made), λ (r, _, granted). absurd (refused r granted)),
      λ r granted. absurd (refused r granted),
    )

    -- Of a window with a probability, with the client of Helix: a clip is made exactly when the
    -- probability is 0.7 or more, the channel is not in its cooldown, the client is there and
    -- configured, the id of the channel's user is in its cache or Twitch gives it for a token, and
    -- Twitch, for a token, gives a clip with status 202 or 200; it is then this clip whose document
    -- goes to the indexer, if that is online.
    pub on_features-MakesGranted :
        IsScored fl api unix clock fv c prob
        → MakesGranted fl unix lower words a clock fv c prob (on_features fl api unix clock fv c)
    on_features-MakesGranted scored =
        rw (on_features-predicted fl api unix clock fv c prob scored)
          (elim (Bool-cases (leb_F (decimal 7 1) prob)) [
            | inl hype ↦
                elim (Bool-cases (active (lookup fv.channel c.cooldowns) clock.at_cooldown)) [
                  | inl busy ↦ rw (decide-hype fl api unix prob hype) (
                      rw (try_refused fv.channel clock.at_cooldown c.cooldowns busy) (
                        refused-MakesGranted (noted, in_cooldown) (λ id e. ground (arith, e))
                          (λ r g. ground (arith, g.1, busy))))
                  | inr free ↦ rw (decide-hype fl api unix prob hype) (
                      rw (try_let_through fv.channel clock.at_cooldown c.cooldowns free)
                        (unfold create_clip in free-MakesGranted _ hype free refl refl))
                ]
            | inr calm ↦ rw (decide-calm fl api unix prob calm) (
                refused-MakesGranted (noted, no_hype) (λ id e. ground (arith, e))
                  (λ r g. ground (arith, g.0, calm)))
          ])
