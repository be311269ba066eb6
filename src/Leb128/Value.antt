-- ===== src/Leb128/Value.antt =====
-- LEB128 numbers as lists of bytes: what they stand for, independently of the decoders.
use clientplugin.Base.{
  ℕ, ◌+◌, ◌*◌, ◌%◌, ◌^◌, ◌≤◌, ◌<◌, ◌≡◌, ◌≢◌, List, [], ◌∷◌, Memory, some, add32, length, leb,
  if◌then◌else◌,
}
use clientplugin.Base.Int.{ℤ, pos, negsuc, sub_ℕ}

-- All bytes but the last have the top bit set.
abbrev pub IsLeb : List ℕ → Type 0
IsLeb [] = ⊥
IsLeb (b ∷ []) = b < 128
IsLeb (b ∷ c ∷ bs) = (128 ≤ b) × IsLeb (c ∷ bs)

-- The groups of seven bits, lowest first.
unfoldable pub uleb_value : List ℕ → ℕ
uleb_value [] = 0
uleb_value (b ∷ bs) = b % 128 + 128 * uleb_value bs

-- The bytes stand in memory from p on, and none of them stands at `end`.
abbrev pub HoldsBefore : Memory → ℕ → ℕ → List ℕ → Type 0
HoldsBefore m end p [] = Unit {0}
HoldsBefore m end p (b ∷ bs) = (p ≢ end) × (m p ≡ some b) × HoldsBefore m end (add32 p 1) bs

-- The last byte of a run.
abbrev pub last_byte : List ℕ → ℕ
last_byte [] = 0
last_byte (b ∷ []) = b
last_byte (b ∷ c ∷ bs) = last_byte (c ∷ bs)

-- A signed number counts the last group's bit 6 as its sign: that bit takes 128 ^ length away.
abbrev pub sign_weight : List ℕ → ℕ
sign_weight bs = if leb 64 (last_byte bs % 128) then 128 ^ length bs else 0

unfoldable pub sleb_value : List ℕ → ℤ
unfolding uleb_value
sleb_value bs = sub_ℕ (uleb_value bs) (sign_weight bs)

-- The numbers that an int64_t holds.
abbrev pub FitsInt64 : ℤ → Type 0
FitsInt64 (pos n) = n < 2 ^ 63
FitsInt64 (negsuc n) = n < 2 ^ 63
