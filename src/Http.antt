-- ===== src/Http.antt =====
-- What comes back from a request over net/http.
use snipr.Base.{ℕ, Bool, true, false, Option}

-- A request cannot be made, it is not answered, its body cannot be read, or there are a status and
-- what `json.Unmarshal` makes of the body.
pub data HttpAnswer (A : Type 0) : Type 0 where
  unmade unanswered unread : HttpAnswer A
  answered : ℕ → Option A → HttpAnswer A

abbrev pub is_unmade : {A : Type 0} → HttpAnswer A → Bool
is_unmade unmade = true
is_unmade _ = false
