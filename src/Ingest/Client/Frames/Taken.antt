-- ===== src/Ingest/Client/Frames/Taken.antt =====
-- What a client has taken in behind whole frames.
use snipr.Base.{
  ℕ, ◌+◌, ◌≡◌, refl, ap, sym, ◌∙◌, Bool, true, false, some, List, [], ◌∷◌, ◌++◌, map, All,
  append-nil, append_assoc, subst, Bool-cases, inl, inr,
}
use snipr.Base.Int.{ℤ}
use snipr.Ingest.Client.{Client, Conn, on_lines, start}
use snipr.Ingest.Client.Membership.{sent_by}
use snipr.Ingest.Parser.Wire.{ChatLine, IsReadAs}
use snipr.Models.{ChatMessage}
use snipr.Text.{Text, codes}
use snipr.Ingest.Client.Frames.{
  Piece, said, ping, text_of, IsPiece, IsLive, AreRead, pongs, Frame, read_of, all_pongs, TakesAll,
}
use snipr.Ingest.Client.Frames.Lines.{
  split-frame_text, on_line-said, on_line-ping, on_line-blank, written, answered,
}

-- What a client has taken in behind some lines.
record TakesIn (lower : ℕ → ℕ) (clock : ℕ → ℤ) (fails : ℕ → Bool) (i : ℕ) (xs : List Piece)
    (c c' : Client) : Type 0 where
  messages : List ChatMessage
  published_is : c'.published ≡ c.published ++ messages
  are_read : AreRead lower clock i xs messages
  sent_is : sent_by c'.conn ≡ sent_by c.conn ++ pongs fails i xs
  channels_kept : c'.channels ≡ c.channels
  live : IsLive c'

module _ (lower : ℕ → ℕ) (clock : ℕ → ℤ) (fails : ℕ → Bool) (i : ℕ) (xs : List Piece)
    (c c' : Client) where
  said-TakesIn :
      (l : ChatLine) (m : ChatMessage)
      → IsReadAs lower (clock i) l m
      → TakesIn lower clock fails (i + 1) xs (record c { published = c.published ++ m ∷ [] }) c'
      → TakesIn lower clock fails i (said l ∷ xs) c c'
  said-TakesIn l m is_read t = record {
    messages = m ∷ t.messages;
    published_is = t.published_is ∙ append_assoc c.published (m ∷ []) t.messages;
    are_read = (m, t.messages, refl, is_read, t.are_read);
    sent_is = t.sent_is;
    channels_kept = t.channels_kept;
    live = t.live;
  }

  ping_refused-TakesIn :
      (payload : Text)
      → fails i ≡ true
      → TakesIn lower clock fails (i + 1) xs c c'
      → TakesIn lower clock fails i (ping payload ∷ xs) c c'
  ping_refused-TakesIn payload h t = record {
    messages = t.messages;
    published_is = t.published_is;
    are_read = t.are_read;
    sent_is = rw h t.sent_is;
    channels_kept = t.channels_kept;
    live = t.live;
  }

  ping_answered-TakesIn :
      (payload : Text) (k : Conn)
      → fails i ≡ false
      → c.conn ≡ some k
      → TakesIn lower clock fails
          (i + 1)
          xs
          (record c {
            conn =
                some (record k {
                  sent = k.sent ++ ((codes "PONG :" ++ payload) ++ codes "\r\n") ∷ [];
                });
          })
          c'
      → TakesIn lower clock fails i (ping payload ∷ xs) c c'
  ping_answered-TakesIn payload k h e t = record {
    messages = t.messages;
    published_is = t.published_is;
    are_read = t.are_read;
    sent_is =
        t.sent_is
        ∙ append_assoc k.sent (((codes "PONG :" ++ payload) ++ codes "\r\n") ∷ [])
            (pongs fails (i + 1) xs)
        ∙ rw (h, e) refl;
    channels_kept = t.channels_kept;
    live = t.live;
  }

module _ (lower : ℕ → ℕ) (clock : ℕ → ℤ) (fails : ℕ → Bool) where
  on_lines-TakesIn :
      (i : ℕ) (xs : List Piece) (c : Client)
      → All IsPiece xs
      → IsLive c
      → TakesIn lower clock fails i xs c
          (on_lines fails lower clock i (map text_of xs ++ [] ∷ []) c)
  unfolding on_lines
  on_lines-TakesIn i [] c h live =
      subst (TakesIn lower clock fails i [] c) (sym (on_line-blank (fails i) lower (clock i) c))
        (record {
          messages = [];
          published_is = sym (append-nil c.published);
          are_read = refl;
          sent_is = sym (append-nil (sent_by c.conn));
          channels_kept = refl;
          live = live;
        })
  on_lines-TakesIn i (said l ∷ xs) c h (bus, online) =
      let (m, is_read, e) = on_line-said (fails i) lower (clock i) l c h.0.0 bus in
      let c1 = record c { published = c.published ++ m ∷ [] } in
      let rest = map text_of xs ++ [] ∷ [] in
      subst
        (λ x.
          TakesIn lower clock fails i (said l ∷ xs) c (on_lines fails lower clock (i + 1) rest x))
        (sym e)
        (said-TakesIn lower clock fails i xs c (on_lines fails lower clock (i + 1) rest c1) l m
          is_read (on_lines-TakesIn (i + 1) xs c1 h.1 (bus, online)))
  on_lines-TakesIn i (ping payload ∷ xs) c h (bus, (k, online)) =
      let rest = map text_of xs ++ [] ∷ [] in
      let pong = (codes "PONG :" ++ payload) ++ codes "\r\n" in
      let c1 = record c { conn = some (record k { sent = k.sent ++ pong ∷ [] }) } in
      let pinged = on_line-ping (fails i) lower (clock i) payload c h.0 in
      elim (Bool-cases (fails i)) [
        | inl refused ↦
            subst
              (λ x.
                TakesIn lower clock fails i (ping payload ∷ xs) c
                  (on_lines fails lower clock (i + 1) rest x))
              (sym (
                pinged
                ∙ written (fails i) (codes "PONG :" ++ payload) c k online
                ∙ ap (λ b. answered b pong c k) refused))
              (ping_refused-TakesIn lower clock fails i xs c _ payload refused
                (on_lines-TakesIn (i + 1) xs c h.1 (bus, (k, online))))
        | inr taken ↦
            subst
              (λ x.
                TakesIn lower clock fails i (ping payload ∷ xs) c
                  (on_lines fails lower clock (i + 1) rest x))
              (sym (
                pinged
                ∙ written (fails i) (codes "PONG :" ++ payload) c k online
                ∙ ap (λ b. answered b pong c k) taken))
              (ping_answered-TakesIn lower clock fails i xs c _ payload k taken online
                (on_lines-TakesIn (i + 1) xs c1 h.1 (bus, (_, refl))))
      ]

then-TakesAll :
    (lower : ℕ → ℕ) (f : Frame) (fs : List Frame) (c c1 c' : Client)
    → TakesIn lower f.clock f.fails 0 f.pieces c c1
    → TakesAll lower fs c1 c'
    → TakesAll lower (f ∷ fs) c c'
then-TakesAll lower f fs c c1 c' t u = record {
  messages = t.messages ++ u.messages;
  published_is =
      u.published_is
      ∙ ap (λ l. l ++ u.messages) t.published_is
      ∙ append_assoc c.published t.messages u.messages;
  all_read = (t.messages, u.messages, refl, t.are_read, u.all_read);
  sent_is =
      u.sent_is
      ∙ ap (λ l. l ++ all_pongs fs) t.sent_is
      ∙ append_assoc (sent_by c.conn) (pongs f.fails 0 f.pieces) (all_pongs fs);
  channels_kept = u.channels_kept ∙ t.channels_kept;
}

-- Of a client that is connected and has a bus, over any frames of chat lines and PINGs with no line
-- end inside a line: each chat line is published, once and in order, as the message that it stands for;
-- each PING is answered with its own payload, in order, unless the socket refuses the answer; nothing
-- else is published or sent, and the channels stay as they are.
pub start-TakesAll :
    (lower : ℕ → ℕ) (fs : List Frame) (c : Client)
    → All (λ f. All IsPiece f.pieces) fs
    → IsLive c
    → TakesAll lower fs c (start lower (map read_of fs) c)
unfolding start
start-TakesAll lower [] c h live = record {
  messages = [];
  published_is = sym (append-nil c.published);
  all_read = refl;
  sent_is = sym (append-nil (sent_by c.conn));
  channels_kept = refl;
}
start-TakesAll lower (f ∷ fs) c h live =
    let lines = map text_of f.pieces ++ [] ∷ [] in
    let c1 = on_lines f.fails lower f.clock 0 lines c in
    let taken = on_lines-TakesIn lower f.clock f.fails 0 f.pieces c h.0 live in
    subst
      (λ l.
        TakesAll lower (f ∷ fs) c
          (start lower (map read_of fs) (on_lines f.fails lower f.clock 0 l c)))
      (sym (split-frame_text f.pieces h.0))
      (then-TakesAll lower f fs c c1 _ taken (start-TakesAll lower fs c1 h.1 taken.live))
