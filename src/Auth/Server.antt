-- ===== src/Auth/Server.antt =====
-- internal/auth/server.go: the local listener that the browser is redirected to.
pub mod First
use snipr.Base.{
  ℕ, ◌+◌, ◌-◌, ◌/◌, ◌%◌, ltb, Bool, true, false, not, Option, none, some, List, [], ◌∷◌, ◌++◌,
  if◌then◌else◌, Result, ok, err,
}
use snipr.Text.{Text, eq_text, is_empty}

abbrev pub hex_digit : ℕ → ℕ
hex_digit n = if ltb n 10 then b'0' + n else b'a' + (n - 10)

-- `hex.EncodeToString`
unfoldable pub hex : List ℕ → Text
hex [] = []
hex (b ∷ bs) = hex_digit (b / 16) ∷ hex_digit (b % 16) ∷ hex bs

-- `GenerateRandomState`, over the bytes that crypto/rand gives, or none.
unfoldable pub generate_random_state : Option (List ℕ) → Option Text
unfolding hex
generate_random_state none = none
generate_random_state (some bytes) = some (hex bytes)

-- The query of a request for `/callback`: what `query.Get` gives for each key.
pub record Query : Type 0 where
  pub error : Text
  pub error_description : Text
  pub state : Text
  pub code : Text

pub data CallbackError : Type 0 where
  auth_denied : Text → Text → CallbackError
  invalid_state missing_code context_done : CallbackError

-- `CallbackResult`
abbrev pub CallbackResult : Type 0
CallbackResult = Result CallbackError Text

-- `resultCh` has room for one result. A handler that finds it full is blocked, with its result.
pub record CallbackServer : Type 0 where
  pub state : Text
  pub result_ch : Option CallbackResult
  pub blocked : List CallbackResult

-- `NewCallbackServer`
abbrev pub new_callback_server : Text → CallbackServer
new_callback_server state = record { state = state; result_ch = none; blocked = [] }

-- What `handleCallback` makes of a query, and the status of its page.
unfoldable pub judge : Text → Query → CallbackResult × ℕ
unfolding eq_text
judge state q =
    if not (is_empty q.error)
    then (err (auth_denied q.error q.error_description), 403)
    else if not (eq_text q.state state)
    then (err invalid_state, 400)
    else if is_empty q.code
    then (err missing_code, 400)
    else (ok q.code, 200)

abbrev pub send_result : CallbackResult → CallbackServer → Option CallbackResult → CallbackServer
send_result r s none = record s { result_ch = some r }
send_result r s (some _) = record s { blocked = s.blocked ++ r ∷ [] }

-- `handleCallback`, up to its send.
unfoldable pub handle_callback : Query → CallbackServer → CallbackServer
unfolding judge
handle_callback q s = send_result (judge s.state q).0 s s.result_ch

-- Requests before `WaitForCode` comes to its `select`.
unfoldable pub handle_all : List Query → CallbackServer → CallbackServer
unfolding handle_callback
handle_all [] s = s
handle_all (q ∷ qs) s = handle_all qs (handle_callback q s)

-- The end of `WaitForCode`: the context is done, or the channel has a result; `none` while neither
-- is so, and `first` says that the `select` takes the
-- context where both are ready.
unfoldable pub wait_for_code : Bool → Bool → CallbackServer → Option CallbackResult
wait_for_code done first s =
    if done
    then (if first
        then some (err context_done)
        else elim s.result_ch [ none ↦ some (err context_done) | some r ↦ some r ])
    else s.result_ch
