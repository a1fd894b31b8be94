-- ===== src/Library/MemChan/Pieces.antt =====
-- Formats of `mc_vprintf` of `lib/memchan.c` in pieces, and what a piece is to print.
use cs4411_p.Base.{ℕ, ◌+◌, ◌^◌, ◌<◌, ◌≡◌, false, some, List, [], ◌∷◌, ◌++◌, ◌==◌, length, to_int}
use cs4411_p.Library.MemChan.Numbers.{read_digits}
use cs4411_p.Library.MemChan.Signed.{read_signed}
use cs4411_p.Library.MemChan.Format.{Arg, word, string}

-- A piece of a format: a character, or one of the directives `%d`, `%u`, `%x` and `%s` with its
-- argument.
pub data Piece : Type 0 where
  lit : ℕ → Piece
  decimal : ℕ → Piece
  unsigned : ℕ → Piece
  hex : ℕ → Piece
  str : List ℕ → Piece

-- The piece in the format.
abbrev pub spelled : Piece → List ℕ
spelled (lit c) = c ∷ []
spelled (decimal w) = b'%' ∷ b'd' ∷ []
spelled (unsigned w) = b'%' ∷ b'u' ∷ []
spelled (hex w) = b'%' ∷ b'x' ∷ []
spelled (str s) = b'%' ∷ b's' ∷ []

abbrev pub format : List Piece → List ℕ
format [] = []
format (p ∷ ps) = spelled p ++ format ps

abbrev pub arguments : (D : Type 0) → List Piece → List (Arg D)
arguments D [] = []
arguments D (lit c ∷ ps) = arguments D ps
arguments D (decimal w ∷ ps) = word w ∷ arguments D ps
arguments D (unsigned w ∷ ps) = word w ∷ arguments D ps
arguments D (hex w ∷ ps) = word w ∷ arguments D ps
arguments D (str s ∷ ps) = string s ∷ arguments D ps

-- A character of a format is not `%`, an `int` has 32 bits.
abbrev pub IsPiece : Piece → Type 0
IsPiece (lit c) = (c == b'%') ≡ false
IsPiece (decimal w) = w < 2 ^ 32
IsPiece (unsigned w) = w < 2 ^ 32
IsPiece (hex w) = w < 2 ^ 32
IsPiece (str s) = length s < 2 ^ 31

-- A text says what a piece is to print: numerals read back as the argument.
abbrev pub Says : Piece → List ℕ → Type 0
Says (lit c) t = t ≡ c ∷ []
Says (decimal w) t = read_signed 10 t ≡ some (to_int w)
Says (unsigned w) t = read_digits 10 0 t ≡ some w
Says (hex w) t = read_digits 16 0 t ≡ some w
Says (str s) t = t ≡ s

-- Enough room for what a piece prints.
abbrev pub room_for : Piece → ℕ
room_for (str s) = length s
room_for _ = 66

-- A text is what the pieces are to print, one behind the other.
abbrev pub SaysAll : List Piece → List ℕ → Type 0
SaysAll [] t = t ≡ []
SaysAll (p ∷ ps) t = (t1 : List ℕ) × (t2 : List ℕ) × (t ≡ t1 ++ t2) × Says p t1 × SaysAll ps t2

abbrev pub room_for_all : List Piece → ℕ
room_for_all [] = 0
room_for_all (p ∷ ps) = room_for p + room_for_all ps
