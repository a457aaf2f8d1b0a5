-- ===== src/Pipeline/Start/Recent.antt =====
-- The timestamps behind `normalizeTS`.
use snipr.Base.{not, ◌*◌, ◌≡◌, ◌&&◌, Bool, true, false, arith, if◌then◌else◌}
use snipr.Base.Int.{ℤ, pos, ltb_ℤ, ◌-ℤ◌}
use snipr.Models.{ChatMessage}
use snipr.Pipeline.Clip.{normalize_ts}
use snipr.Time.{second, sub, abs, is_zero}

-- An instant no more than 10 seconds from `now`.
abbrev pub is_recent : ℤ → ℤ → Bool
is_recent now t = not (ltb_ℤ (pos (10 * second)) (abs (sub now t)))

recent_now : (now : ℤ) → is_recent now now ≡ true
unfolding sub abs ◌-ℤ◌
recent_now now = ground arith

-- With a clock that is past the zero time: a timestamp that is not the zero time and lies within 10
-- seconds of the clock is kept, every other one becomes the clock, and all but the timestamp is as
-- it was; so every message is then within 10 seconds of the clock, and a second pass changes
-- nothing.
pub normalize_ts-recent :
    (now : ℤ) (msg : ChatMessage)
    → is_zero now ≡ false
    → ((normalize_ts now msg).timestamp ≡ (
        if not (is_zero msg.timestamp) && is_recent now msg.timestamp then msg.timestamp else now))
      × (normalize_ts now msg ≡ record msg { timestamp = (normalize_ts now msg).timestamp })
      × (is_recent now (normalize_ts now msg).timestamp ≡ true)
      × (normalize_ts now (normalize_ts now msg) ≡ normalize_ts now msg)
unfolding normalize_ts
normalize_ts-recent now msg h =
    (ground arith, ground arith, ground (arith, recent_now now), ground (arith, recent_now now))
