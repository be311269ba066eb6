-- ===== src/Leb128.antt =====
-- src/util/leb128.hpp: decodeULEB128 and decodeSLEB128.
-- A run of bytes is read from memory. `n` and `error` are the two results that the callers always ask for.
use clientplugin.Base.{
  ℕ, zero, suc, ◌+◌, ◌-◌, ◌^◌, ◌%◌, bit_or, Bool, not, ◌&&◌, ◌||◌, Option, none, some, Memory, load,
  Result, ok, err, stuck, undefined, ◌>>=◌, LebError, past_end, too_big, ltb, leb, ◌==◌,
  if◌then◌else◌, add32, sub32, low_bits, shl64, shr64,
}
pub mod Value
mod Groups
pub mod Unsigned
pub mod Signed
pub mod Encode
pub mod Advance
mod Runs

-- The value, a `uint64_t` or the bit pattern of an `int64_t`; `*n`; `*error`.
pub record Leb : Type 0 where
  pub value : ℕ
  pub n : ℕ
  pub error : Option LebError

-- An early return: value 0, the bytes passed so far, and the message.
pub failed : ℕ → ℕ → LebError → Result Leb
failed orig p e = ok (record { value = 0; n = sub32 p orig; error = some e })

pub finished : ℕ → ℕ → ℕ → Result Leb
finished orig p value = ok (record { value = value; n = sub32 p orig; error = none })

-- The do loop of `decodeULEB128`, with orig_p, end, p, Value and Shift. A shift by 64 or more is
-- undefined in C++; the test `Shift >= 64 && Slice != 0` stands before it in an `||`, so the code
-- gets there when Slice is 0. Shift is 70 at most, so its 32 bits cannot wrap.
pub uleb_loop : ℕ → Memory → ℕ → ℕ → ℕ → ℕ → ℕ → Result Leb
unfolding failed finished
uleb_loop zero m orig end p value shift = stuck
uleb_loop (suc fuel) m orig end p value shift = if p == end then failed orig p past_end else do
  byte ← load m p
  let slice = low_bits byte 7
  let value' = (value + shl64 slice shift) % 2 ^ 64
  let rest = uleb_loop fuel m orig end (add32 p 1) value' (shift + 7)
  if leb 64 shift && not (slice == 0)
      then failed orig p too_big
      else if leb 64 shift
      then err undefined
      else if not (shr64 (shl64 slice shift) shift == slice)
      then failed orig p too_big
      else if leb 128 byte
      then rest
      else finished orig (add32 p 1) value'

-- Round 11 has a shift of 70, and ends in every case.
abbrev pub max_rounds : ℕ
max_rounds = 11

pub decode_uleb128 : Memory → ℕ → ℕ → Result Leb
unfolding uleb_loop
decode_uleb128 m p end = uleb_loop max_rounds m p end p 0 0

-- `Value < 0` of an int64_t.
abbrev pub is_negative64 : ℕ → Bool
is_negative64 value = leb (2 ^ 63) value

-- `if (Shift < 64 && (Byte & 0x40)) Value |= (-1ULL) << Shift;`
sign_extend : ℕ → ℕ → ℕ → ℕ
sign_extend byte value shift =
    if ltb shift 64 && leb 64 (low_bits byte 7)
    then bit_or value (shl64 (2 ^ 64 - 1) shift)
    else value

-- The do loop of `decodeSLEB128` and what follows it.
pub sleb_loop : ℕ → Memory → ℕ → ℕ → ℕ → ℕ → ℕ → Result Leb
unfolding failed finished sign_extend
sleb_loop zero m orig end p value shift = stuck
sleb_loop (suc fuel) m orig end p value shift = if p == end then failed orig p past_end else do
  byte ← load m p
  let slice = low_bits byte 7
  let value' = bit_or value (shl64 slice shift)
  let rest = sleb_loop fuel m orig end (add32 p 1) value' (shift + 7)
  if (leb 64 shift && not (slice == (if is_negative64 value then 0x7f else 0)))
        || ((shift == 63) && not (slice == 0) && not (slice == 0x7f))
      then failed orig p too_big
      else if leb 64 shift
      then err undefined
      else if leb 128 byte
      then rest
      else finished orig (add32 p 1) (sign_extend byte value' (shift + 7))

pub decode_sleb128 : Memory → ℕ → ℕ → Result Leb
unfolding sleb_loop
decode_sleb128 m p end = sleb_loop max_rounds m p end p 0 0
