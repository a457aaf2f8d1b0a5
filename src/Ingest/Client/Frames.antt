-- ===== src/Ingest/Client/Frames.antt =====
-- Frames of lines, as Twitch sends them, and what becomes of their messages and of their PINGs.
pub mod Lines
pub mod Taken
use snipr.Base.{
  ℕ, ◌+◌, ◌≡◌, Bool, true, false, Option, some, List, [], ◌∷◌, ◌++◌, All, if◌then◌else◌,
}
use snipr.Base.Int.{ℤ}
use snipr.Ingest.Client.{Client, Conn, Read, frame}
use snipr.Ingest.Client.Membership.{sent_by}
use snipr.Ingest.Parser.{is_line_end}
use snipr.Ingest.Parser.Wire.{ChatLine, IsReadAs, IsWire, wire}
use snipr.Models.{ChatMessage}
use snipr.Text.{Text, codes}
use snipr.Text.Split.{Lacks}

-- A line of a frame: a chat line, or a PING with its payload.
pub data Piece : Type 0 where
  said : ChatLine → Piece
  ping : Text → Piece

abbrev pub text_of : Piece → Text
text_of (said l) = wire l
text_of (ping payload) = codes "PING :" ++ payload

-- The lines, each with its line end.
unfoldable pub frame_text : List Piece → Text
frame_text [] = []
frame_text (x ∷ xs) = text_of x ++ b'\r' ∷ b'\n' ∷ frame_text xs

-- No line has a line end inside.
abbrev pub IsPiece : Piece → Type 0
IsPiece (said l) = IsWire l × Lacks b'\r' (wire l)
IsPiece (ping payload) = All (λ c. is_line_end c ≡ false) payload

-- A client that is connected and has a bus.
abbrev pub IsLive : Client → Type 0
IsLive c = (c.has_bus ≡ true) × ((k : Conn) × (c.conn ≡ some k))

-- The messages are those of the chat lines, in order; the i-th line meets the i-th clock.
abbrev pub AreRead : (ℕ → ℕ) → (ℕ → ℤ) → ℕ → List Piece → List ChatMessage → Type 0
AreRead lower clock i [] ms = ms ≡ []
AreRead lower clock i (said l ∷ xs) ms =
    (m : ChatMessage) × (rest : List ChatMessage) × (ms ≡ m ∷ rest)
    × IsReadAs lower (clock i) l m
    × AreRead lower clock (i + 1) xs rest
AreRead lower clock i (ping payload ∷ xs) ms = AreRead lower clock (i + 1) xs ms

-- The answers to the PINGs: a PONG with the same payload each, unless the socket refuses it.
abbrev pub pongs : (ℕ → Bool) → ℕ → List Piece → List Text
pongs fails i [] = []
pongs fails i (said l ∷ xs) = pongs fails (i + 1) xs
pongs fails i (ping payload ∷ xs) =
    let rest = pongs fails (i + 1) xs in
    if fails i then rest else (codes "PONG :" ++ (payload ++ codes "\r\n")) ∷ rest

-- A frame that comes in, with the answers of the socket and the clock that its lines meet.
pub record Frame : Type 0 where
  pub fails : ℕ → Bool
  pub clock : ℕ → ℤ
  pub pieces : List Piece

abbrev pub read_of : Frame → Read
read_of f = frame f.fails f.clock (frame_text f.pieces)

abbrev pub AllRead : (ℕ → ℕ) → List Frame → List ChatMessage → Type 0
AllRead lower [] ms = ms ≡ []
AllRead lower (f ∷ fs) ms =
    (first : List ChatMessage) × (rest : List ChatMessage) × (ms ≡ first ++ rest)
    × AreRead lower f.clock 0 f.pieces first
    × AllRead lower fs rest

abbrev pub all_pongs : List Frame → List Text
all_pongs [] = []
all_pongs (f ∷ fs) = pongs f.fails 0 f.pieces ++ all_pongs fs

-- What a client has taken in behind some frames.
pub record TakesAll (lower : ℕ → ℕ) (fs : List Frame) (c c' : Client) : Type 0 where
  pub messages : List ChatMessage
  pub published_is : c'.published ≡ c.published ++ messages
  pub all_read : AllRead lower fs messages
  pub sent_is : sent_by c'.conn ≡ sent_by c.conn ++ all_pongs fs
  pub channels_kept : c'.channels ≡ c.channels
