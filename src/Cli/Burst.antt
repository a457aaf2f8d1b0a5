-- ===== src/Cli/Burst.antt =====
-- cmd/chat-cli/main.go: the burst of messages of `/simulate`.
use snipr.Base.{ℕ, zero, suc, ◌+◌, ◌^◌, ◌<◌, ◌≤◌, ◌≡◌, ◌≢◌, sym, ap, ◌∙◌, ◌++◌, map, arith, All}
use snipr.Base.Int.{ℤ}
use snipr.Bus.{show_digits, show_int}
use snipr.Bus.Ids.{last_sep, Digits-Lacks, show_digits-IsDigit, value_from, value_from-show_digits}
use snipr.Bus.Delivery.{Pairwise}
use snipr.Cli.{sim_message, burst_from}
use snipr.Text.{Text, codes}
use snipr.Time.{unix_nano}

number-injective :
    (i j : ℕ) → i < 10 ^ 20 → j < 10 ^ 20 → show_digits 20 i ≡ show_digits 20 j → i ≡ j
number-injective i j hi hj e =
    sym (value_from-show_digits 20 i hi) ∙ ap (value_from 0) e ∙ value_from-show_digits 20 j hj

sim_ids :
    (now : ℤ) (ch : Text) (i j : ℕ)
    → i < 10 ^ 20
    → j < 10 ^ 20
    → (sim_message now ch i).id ≡ (sim_message now ch j).id
    → i ≡ j
unfolding sim_message
sim_ids now ch i j hi hj e =
    let front = codes "sim_" ++ show_int (unix_nano now) in
    let (p, q) =
      last_sep b'_' front front (show_digits 20 i) (show_digits 20 j)
        (Digits-Lacks (show_digits 20 i) (show_digits-IsDigit 20 i))
        (Digits-Lacks (show_digits 20 j) (show_digits-IsDigit 20 j)) e in
    number-injective i j hi hj q

later_ids :
    (now : ℤ) (ch : Text) (i j n : ℕ)
    → i < j
    → j + n ≤ 10 ^ 20
    → All (λ t. (sim_message now ch i).id ≢ t) (map (λ m. m.id) (burst_from now ch j n))
unfolding burst_from
later_ids now ch i j zero h k = tt
later_ids now ch i j (suc n) h k = (
  λ e. absurd (let same = sim_ids now ch i j (omega arith) (omega arith) e in omega arith),
  later_ids now ch i (j + 1) n (omega arith) (omega arith),
)

-- Every number of messages, from every first number on that leaves them 20 digits: no two have
-- one id, so neither the bus nor the database takes one for another.
pub burst_from-Distinct :
    (now : ℤ) (ch : Text) (i n : ℕ)
    → i + n ≤ 10 ^ 20
    → Pairwise ◌≢◌ (map (λ m. m.id) (burst_from now ch i n))
unfolding burst_from
burst_from-Distinct now ch i zero h = tt
burst_from-Distinct now ch i (suc n) h = (
  later_ids now ch i (i + 1) n (omega arith) (omega arith),
  burst_from-Distinct now ch (i + 1) n (omega arith),
)
