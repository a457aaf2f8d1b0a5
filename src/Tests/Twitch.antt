-- ===== src/Tests/Twitch.antt =====
-- internal/twitch/helix.go: a lookup and a poll.
use snipr.Base.{if◌then◌else◌, ℕ, ◌≡◌, refl, none, some, [], ◌∷◌, ok, ◌==◌}
use snipr.Base.Int.{pos}
use snipr.Text.{codes}
use snipr.Http.{unanswered, answered}
use snipr.Twitch.{
  HelixClient, Attempt, attempt, new_helix_client, get_user_id, poll_clip_status, fallback,
}
use snipr.Twitch.Cache.{get_user_id-again}
use snipr.Twitch.Poll.{Ends, poll_clip_status-Ends}

abbrev keep : ℕ → ℕ
keep c = c

abbrev client : HelixClient
client = new_helix_client (codes "app") (codes "oauth:abc")

found :
    (get_user_id keep none (answered 200 (some (codes "42" ∷ []))) (codes "#fun") client).1
    ≡ ok (codes "42")
unfolding get_user_id new_helix_client
found = refl

get_user_id-again_example :
    let c' =
      (get_user_id keep none (answered 200 (some (codes "42" ∷ []))) (codes "#fun") client).0 in
    get_user_id keep none unanswered (codes "#fun") c' ≡ (c', ok (codes "42"))
get_user_id-again_example =
    get_user_id-again keep none none (answered 200 (some (codes "42" ∷ []))) unanswered
      (codes "#fun") client (codes "42") found

-- Nothing is ready at the first attempt, and the clip is there at the second one.
abbrev ready_later : ℕ → Attempt ℕ
ready_later i =
    if i == 1
    then attempt none (answered 200 (some []))
    else attempt none (answered 200 (some (fallback 0 (codes "c") ∷ [])))

poll_clip_status-Ends_example :
    Ends client 3 (poll_clip_status 0 (codes "c") (pos 3) ready_later client)
poll_clip_status-Ends_example = poll_clip_status-Ends 0 (codes "c") (pos 3) ready_later client

requests_test : (poll_clip_status 0 (codes "c") (pos 3) ready_later client).0.asked ≡ 2
unfolding poll_clip_status new_helix_client
requests_test = refl
