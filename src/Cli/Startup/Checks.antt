-- ===== src/Cli/Startup/Checks.antt =====
-- The calls that can end the chat program before its loop, against what they need.
use snipr.Base.{
  ℕ, ◌≡◌, inl, inr, refl, sym, Bool, true, false, Option, none, some, [], ◌∷◌, Result, ok, err,
  arith, Bool-cases, ◌++◌,
}
use snipr.Base.Int.{ℤ}
use snipr.Bus.Startup.{Starts}
use snipr.Cli.Startup.{Outside, bus_config, no_options}
use snipr.Ingest.Client.{Client, ClientError, connect, new_client}
use snipr.Ingest.Client.Membership.{Agrees, told, effect}
use snipr.Pipeline.Start.{
  Group, Subscriptions, start, sqlite_group, features_group, elastic_group, predict_group,
}
use snipr.Store.{Database, OpenError, SqliteStore, open_path, open_store}
use snipr.Text.{Text, codes, eq_text}
use snipr.Text.Map.{lookup}
use snipr.Cli.Startup.Joins.{IsOnline}

-- What has to work: the file of the store, the bus, the subscriptions, and the connection to Twitch's
-- chat with the three messages that open it.
abbrev pub IsOpened : Database → Type 0
IsOpened db = (db.opens ≡ true) × (db.answers ≡ true) × (db.migrates ≡ true)

abbrev pub IsConnected : Bool → (ℕ → Bool) → Type 0
IsConnected dials fails = (dials ≡ true) × (fails 0 ≡ false) × (fails 1 ≡ false) × (fails 2 ≡ false)

abbrev pub Subscribes : (Group → Bool) → Type 0
Subscribes refuses =
    (refuses sqlite_group ≡ false)
    × (refuses features_group ≡ false)
    × (refuses elastic_group ≡ false)
    × (refuses predict_group ≡ false)

abbrev pub Works : {F : Type 0} → Outside F → Type 0
Works o =
    IsOpened o.database
    × Starts o.nats bus_config
    × Subscribes o.refuses
    × IsConnected o.dials o.connect_fails

-- What becomes of the calls that can end the program, against what they need.
abbrev pub Opens : Database → ℤ → Bool × Result OpenError SqliteStore → Type 0
Opens db size (b, ok s) = IsOpened db × (s ≡ open_store db.rows size)
Opens db size (b, err e) = ¬ IsOpened db

pub open_path-Opens : (db : Database) (size : ℤ) → Opens db size (open_path db size)
unfolding open_path
open_path-Opens db size = ground arith

abbrev pub all_groups : Subscriptions
all_groups = record {
  subs = sqlite_group ∷ features_group ∷ elastic_group ∷ predict_group ∷ [];
  polling = true;
}

abbrev pub Attaches : (Group → Bool) → Subscriptions × Option Group → Type 0
Attaches refuses (s, none) = Subscribes refuses × (s ≡ all_groups)
Attaches refuses (s, some g) = ¬ Subscribes refuses

pub start-Attaches : (refuses : Group → Bool) → Attaches refuses (start refuses)
unfolding start
start-Attaches refuses = ground arith

abbrev pub Connects : Bool → (ℕ → Bool) → Client × Option ClientError → Type 0
Connects dials fails (c, none) = IsConnected dials fails × IsOnline c × Agrees c
Connects dials fails (c, some e) = ¬ IsConnected dials fails

-- The three messages name no channel.
greeting-Agrees :
    (guest : Text) (k : Text)
    → told k none (
        (codes "CAP REQ :twitch.tv/tags twitch.tv/commands" ++ codes "\r\n")
        ∷ (codes "PASS SCHMOOPIIE" ++ codes "\r\n")
        ∷ ((codes "NICK justinfan" ++ guest) ++ codes "\r\n")
        ∷ [])
      ≡ none
unfolding told effect eq_text
greeting-Agrees guest k = refl

pub connect-Connects :
    (dials : Bool) (fails : ℕ → Bool) (lower : ℕ → ℕ) (guest : Text)
    → Connects dials fails (connect dials fails lower guest (new_client true no_options))
unfolding connect lookup
connect-Connects dials fails lower guest = elim (Bool-cases dials) [
  | inr unreachable ↦ rw unreachable (λ h. ground (arith, h, unreachable))
  | inl dialled ↦ elim (Bool-cases (fails 0)) [
    | inl r ↦ rw (dialled, r) (λ h. ground (arith, h, r))
    | inr a ↦ elim (Bool-cases (fails 1)) [
      | inl r ↦ rw (dialled, a, r) (λ h. ground (arith, h, r))
      | inr b ↦ elim (Bool-cases (fails 2)) [
        | inl r ↦ rw (dialled, a, b, r) (λ h. ground (arith, h, r))
        | inr c ↦
            rw (dialled, a, b, c) ((refl, a, b, c), (_, refl), λ k. sym (greeting-Agrees guest k))
      ]
    ]
  ]
]
