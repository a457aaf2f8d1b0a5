-- ===== src/Cli/Startup/Joins.antt =====
-- The channels that the chat program joins before its loop.
use snipr.Base.{
  ℕ, ◌+◌, ◌≡◌, ◌⊎◌, inl, inr, refl, ap, ◌∙◌, Bool, true, some, List, [], ◌∷◌, arith, Bool-cases,
  if◌then◌else◌,
}
use snipr.Cli.Startup.{join_from}
use snipr.Ingest.Client.{Client, Conn, join, channel_name, write_line}
use snipr.Ingest.Client.Membership.{Agrees, join-Agrees}
use snipr.Text.{Text, eq_text_refl, is_empty}
use snipr.Text.Map.{lookup, insert, lookup-insert}

-- Each channel that has a name and whose message the socket takes is joined; `i` is the number of the
-- message of the first one.
abbrev pub AreJoined : (ℕ → Bool) → (ℕ → ℕ) → ℕ → List Text → Client → Type 0
AreJoined fails lower i [] c = Unit
AreJoined fails lower i (ch ∷ chs) c =
    ((is_empty (channel_name lower ch) ≡ true)
      ⊎ (fails i ≡ true)
      ⊎ (lookup (channel_name lower ch) c.channels ≡ some true))
    × AreJoined fails lower (i + 1) chs c

-- A client with a connection.
abbrev pub IsOnline : Client → Type 0
IsOnline c = (k : Conn) × (c.conn ≡ some k)

pub join_from-Agrees :
    (fails : ℕ → Bool) (lower : ℕ → ℕ) (i : ℕ) (chs : List Text) (c : Client)
    → Agrees c
    → Agrees (join_from fails lower i chs c)
unfolding join_from
join_from-Agrees fails lower i [] c h = h
join_from-Agrees fails lower i (ch ∷ chs) c h =
    join_from-Agrees fails lower (i + 1) chs (join (fails i) lower ch c).0
      (join-Agrees c h (fails i) lower ch)

-- What `Join` does to the channels.
channels-join :
    (fails : Bool) (lower : ℕ → ℕ) (ch : Text) (c : Client)
    → ((join fails lower ch c).0.channels ≡ c.channels)
      ⊎ ((join fails lower ch c).0.channels ≡ insert (channel_name lower ch) true c.channels)
unfolding join write_line
channels-join fails lower ch c = ground arith

-- A channel that is joined stays joined when others are joined.
lookup-join :
    (fails : Bool) (lower : ℕ → ℕ) (ch k : Text) (c : Client)
    → lookup k c.channels ≡ some true
    → lookup k (join fails lower ch c).0.channels ≡ some true
lookup-join fails lower ch k c h = elim (channels-join fails lower ch c) [
  | inl same ↦ rw same h
  | inr more ↦ rw (more, lookup-insert) (ground (arith, h))
]

lookup-join_from :
    (fails : ℕ → Bool) (lower : ℕ → ℕ) (i : ℕ) (chs : List Text) (k : Text) (c : Client)
    → lookup k c.channels ≡ some true
    → lookup k (join_from fails lower i chs c).channels ≡ some true
unfolding join_from
lookup-join_from fails lower i [] k c h = h
lookup-join_from fails lower i (ch ∷ chs) k c h =
    lookup-join_from fails lower (i + 1) chs k (join (fails i) lower ch c).0
      (lookup-join (fails i) lower ch k c h)

join-IsOnline :
    (fails : Bool) (lower : ℕ → ℕ) (ch : Text) (c : Client)
    → IsOnline c
    → IsOnline (join fails lower ch c).0
unfolding join write_line
join-IsOnline fails lower ch c (k, e) = elim (Bool-cases (is_empty (channel_name lower ch))) [
  | inl unnamed ↦ rw unnamed (k, e)
  | inr named ↦ elim (Bool-cases fails) [
    | inl refused ↦ rw (named, refused, e) (k, refl)
    | inr taken ↦ rw (named, taken, e) (_, refl)
  ]
]

-- A channel with a name, on a socket that takes the message.
join-joins :
    (fails : Bool) (lower : ℕ → ℕ) (ch : Text) (c : Client)
    → IsOnline c
    → (is_empty (channel_name lower ch) ≡ true)
      ⊎ (fails ≡ true)
      ⊎ (lookup (channel_name lower ch) (join fails lower ch c).0.channels ≡ some true)
unfolding join write_line
join-joins fails lower ch c (k, e) =
    let name = channel_name lower ch in
    elim (Bool-cases (is_empty name)) [
      | inl unnamed ↦ inl unnamed
      | inr named ↦ elim (Bool-cases fails) [
        | inl refused ↦ inr (inl refused)
        | inr taken ↦ inr (
            inr (
              rw (named, taken, e)
                (lookup-insert name name true c.channels
                  ∙ ap (λ b. if b then some true else lookup name c.channels) (eq_text_refl name))))
      ]
    ]

pub join_from-AreJoined :
    (fails : ℕ → Bool) (lower : ℕ → ℕ) (i : ℕ) (chs : List Text) (c : Client)
    → IsOnline c
    → AreJoined fails lower i chs (join_from fails lower i chs c)
unfolding join_from
join_from-AreJoined fails lower i [] c h = tt
join_from-AreJoined fails lower i (ch ∷ chs) c h =
    let next = (join (fails i) lower ch c).0 in
    (
      elim (join-joins (fails i) lower ch c h) [
        | inl unnamed ↦ inl unnamed
        | inr (inl refused) ↦ inr (inl refused)
        | inr (inr joined) ↦
            inr (inr (lookup-join_from fails lower (i + 1) chs (channel_name lower ch) next joined))
      ],
      join_from-AreJoined fails lower (i + 1) chs next (join-IsOnline (fails i) lower ch c h),
    )
