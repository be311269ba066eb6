-- ===== src/Hexdump.antt =====
-- src/util/hexdump.hpp: bytes as text, sixteen in a row. Which characters `isprint` lets pass is given.
use clientplugin.Base.{
  ℕ, zero, suc, ◌+◌, ◌/◌, ◌%◌, Bool, not, ◌&&◌, List, [], ◌∷◌, ◌++◌, map, Text, codes, ltb, ◌==◌,
  if◌then◌else◌,
}
pub mod Undump
mod Runs

-- A digit of "{:02x}", and the text "{:02x} ".
pub hex_digit : ℕ → ℕ
hex_digit n = if ltb n 10 then 48 + n else 87 + n

pub hex_byte : ℕ → Text
unfolding hex_digit
hex_byte b = hex_digit (b / 16) ∷ hex_digit (b % 16) ∷ 32 ∷ []

abbrev pub newline : ℕ
newline = 10

module _ (isprint : ℕ → Bool) where
  -- The character of a byte: itself, or a dot.
  pub shown : ℕ → ℕ
  shown b = if not (b == newline) && isprint b then b else 46

  pub hex_part : List ℕ → Text
  unfolding hex_byte
  hex_part [] = []
  hex_part (b ∷ row) = hex_byte b ++ hex_part row

  pub dump_row : List ℕ → Text
  unfolding hex_part shown
  dump_row row = hex_part row ++ (codes " | " ++ (map shown row ++ (newline ∷ [])))

  -- The rows that `views::chunk` gives, of at most so many bytes.
  pub dump_rows : List (List ℕ) → Text
  unfolding dump_row
  dump_rows [] = []
  dump_rows (row ∷ rows) = dump_row row ++ dump_rows rows

-- The next bytes are put into the row that is open, as far as it has room.
pub chunk_into : (n room : ℕ) → List ℕ → List ℕ → List (List ℕ)
chunk_into n room row [] = row ∷ []
chunk_into n zero row (b ∷ bs) = row ∷ chunk_into n n (b ∷ []) bs
chunk_into n (suc room) row (b ∷ bs) = chunk_into n room (row ++ (b ∷ [])) bs

-- `views::chunk(n + 1)`
pub chunk : ℕ → List ℕ → List (List ℕ)
unfolding chunk_into
chunk n [] = []
chunk n (b ∷ bs) = chunk_into n n (b ∷ []) bs

abbrev pub dump_end : Text
dump_end = codes "\n---------------------\n"

pub hexdump : (ℕ → Bool) → List ℕ → Text
unfolding dump_rows chunk
hexdump isprint bytes = dump_rows isprint (chunk 15 bytes) ++ dump_end
