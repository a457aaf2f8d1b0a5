-- ===== src/Auth/Server/First.antt =====
-- The request that decides a login.
use snipr.Base.{◌↔◌, ◌≡◌, refl, ◌∙◌, ap, false, some, List, [], ◌∷◌, ok, arith}
use snipr.Auth.Server.{
  Query, CallbackResult, CallbackServer, new_callback_server, judge, send_result, handle_callback,
  handle_all, wait_for_code,
}
use snipr.Text.{Text, eq_text_iff, is_empty}

-- A query that grants `code` to the server that gave out `state`.
abbrev pub Grants : Text → Text → Query → Type 0
Grants state code q = (q.error ≡ []) × (q.state ≡ state) × (q.code ≡ code) × (is_empty code ≡ false)

judge_iff : (state code : Text) (q : Query) → ((judge state q).0 ≡ ok code) ↔ Grants state code q
unfolding judge
judge_iff state code q = ground (arith, eq_text_iff q.state state)

handle_all-kept :
    (qs : List Query) (s : CallbackServer) {r : CallbackResult}
    → s.result_ch ≡ some r
    → (handle_all qs s).result_ch ≡ some r
unfolding handle_all handle_callback
handle_all-kept [] s h = h
handle_all-kept (q ∷ qs) s h =
    handle_all-kept qs (handle_callback q s)
      (ap (λ o. (send_result (judge s.state q).0 s o).result_ch) h ∙ h)

-- The first request decides a login: whatever requests come behind it and however many, the waiting
-- side gets a code exactly when the first one has no error, the state that was given out, and a code.
pub wait_for_code_iff :
    (state code : Text) (q : Query) (qs : List Query)
    → (wait_for_code false false (handle_all (q ∷ qs) (new_callback_server state)) ≡ some (ok code))
      ↔ Grants state code q
unfolding wait_for_code handle_callback handle_all
wait_for_code_iff state code q qs =
    let first =
      handle_all-kept qs (handle_callback q (new_callback_server state)) {r = (judge state q).0}
        refl in
    ground (arith, first, judge_iff state code q)
