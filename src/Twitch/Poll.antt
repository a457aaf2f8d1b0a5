-- ===== src/Twitch/Poll.antt =====
-- How the poll for a clip ends.
use snipr.Base.{
  List, ℕ, zero, suc, ◌+◌, ◌≤◌, ◌≡◌, refl, false, Option, arith, Result, ok, err, Bool-cases, inl,
  inr,
}
use snipr.Base.Int.{ℤ}
use snipr.Text.{Text, is_empty}
use snipr.Http.{HttpAnswer, is_unmade}
use snipr.Twitch.{
  HelixClient, HelixError, ClipDetails, Attempt, context_done, attempt, ask, get_token, is_ok,
  judged, polled, poll_from, poll_clip_status, or_five,
}

-- A clip has a URL.
abbrev pub HasUrl : {F : Type 0} → Result HelixError (ClipDetails F) → Type 0
HasUrl (err e) = Unit
HasUrl (ok clip) = is_empty clip.url ≡ false

-- With `n` requests or fewer, any clip that comes out has a URL.
abbrev pub Ends :
    {F : Type 0} → HelixClient → ℕ → HelixClient × Result HelixError (ClipDetails F) → Type 0
Ends c n r = (r.0.asked ≤ c.asked + n) × HasUrl r.1

module _ {F : Type 0} (zero_F : F) where
  ask-asked :
      (provided : Option Text) (answer : HttpAnswer (List (ClipDetails F))) (c : HelixClient)
      → (ask is_ok provided answer c).0.asked ≤ c.asked + 1
  unfolding ask get_token
  ask-asked provided answer c = ground arith

  judged-Ends :
      (again : HelixClient → HelixClient × Result HelixError (ClipDetails F)) (c : HelixClient)
      (n : ℕ) (r : HelixClient × Result HelixError (ClipDetails F))
      → ((c' : HelixClient) → Ends c' n (again c'))
      → r.0.asked ≤ c.asked + 1
      → Ends c (suc n) (judged again r)
  judged-Ends again c n (c', err e) h k = (omega (arith, (h c').0, k), (h c').1)
  judged-Ends again c n (c', ok clip) h k = elim (Bool-cases (is_empty clip.url)) [
    | inl empty ↦ rw empty (omega (arith, (h c').0, k), (h c').1)
    | inr there ↦ rw there (omega (arith, k), there)
  ]

  polled-Ends :
      (again : HelixClient → HelixClient × Result HelixError (ClipDetails F)) (a : Attempt F)
      (c : HelixClient) (n : ℕ)
      → ((c' : HelixClient) → Ends c' n (again c'))
      → Ends c (suc n) (polled again a c)
  polled-Ends again context_done c n h = (omega arith, tt)
  polled-Ends again (attempt provided answer) c n h = elim (Bool-cases (is_unmade answer)) [
    | inl bad ↦ rw bad (omega arith, tt)
    | inr made ↦
        rw made
          (judged-Ends again c n (ask is_ok provided answer c) h (ask-asked provided answer c))
  ]

  poll_from-Ends :
      (clip_id : Text) (attempts : ℕ → Attempt F) (i n : ℕ) (c : HelixClient)
      → Ends c n (poll_from zero_F clip_id attempts i n c)
  unfolding poll_from
  poll_from-Ends clip_id attempts i zero c = (omega arith, refl)
  poll_from-Ends clip_id attempts i (suc n) c =
      polled-Ends (λ c'. poll_from zero_F clip_id attempts (i + 1) n c') (attempts i) c n
        (poll_from-Ends clip_id attempts (i + 1) n)

  -- A poll ends after at most the given number of requests, or five where that number is not
  -- positive, and any clip that it returns has a URL.
  pub poll_clip_status-Ends :
      (clip_id : Text) (max_attempts : ℤ) (attempts : ℕ → Attempt F) (c : HelixClient)
      → Ends c (or_five max_attempts) (poll_clip_status zero_F clip_id max_attempts attempts c)
  unfolding poll_clip_status
  poll_clip_status-Ends clip_id max_attempts attempts c =
      poll_from-Ends clip_id attempts 1 (or_five max_attempts) c
