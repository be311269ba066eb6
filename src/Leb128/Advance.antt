-- ===== src/Leb128/Advance.antt =====
-- A number that is decoded without an error, in user space, ends before the top of the address
-- space: the pointer does not wrap.
use clientplugin.Base.{
  ℕ, zero, suc, ◌+◌, ◌%◌, ◌^◌, ◌≤◌, ◌<◌, ◌≡◌, bit_or, none, Option-cases, inl, inr, arith, Memory,
  IsUserSpace, load, ok, add32, word, shl64, low_bits,
}
use clientplugin.Leb128.{
  Leb, uleb_loop, sleb_loop, decode_uleb128, decode_sleb128, failed, finished, max_rounds,
}

module _ {m : Memory} (user : IsUserSpace m) (orig end : ℕ) (r : Leb) where
  uleb_loop_advance :
      (fuel p value shift : ℕ)
      → orig ≤ p
      → p < word
      → uleb_loop fuel m orig end p value shift ≡ ok r
      → r.error ≡ none
      → (p < orig + r.n) × (orig + r.n < word)
  unfolding uleb_loop load failed finished
  uleb_loop_advance zero p value shift ho hp e ok_ = cc
  uleb_loop_advance (suc fuel) p value shift ho hp e fine = elim (Option-cases (m p)) [
    | inl unmapped ↦ ground arith
    | inr (b, mapped) ↦ ground (
      arith,
      user.kernel_space,
      uleb_loop_advance fuel (add32 p 1) ((value + shl64 (low_bits b 7) shift) % 2 ^ 64)
          (shift + 7),
    )
  ]

  sleb_loop_advance :
      (fuel p value shift : ℕ)
      → orig ≤ p
      → p < word
      → sleb_loop fuel m orig end p value shift ≡ ok r
      → r.error ≡ none
      → (p < orig + r.n) × (orig + r.n < word)
  unfolding sleb_loop load failed finished
  sleb_loop_advance zero p value shift ho hp e ok_ = cc
  sleb_loop_advance (suc fuel) p value shift ho hp e fine = elim (Option-cases (m p)) [
    | inl unmapped ↦ ground arith
    | inr (b, mapped) ↦ ground (
      arith,
      user.kernel_space,
      sleb_loop_advance fuel (add32 p 1) (bit_or value (shl64 (low_bits b 7) shift)) (shift + 7),
    )
  ]

pub decode_uleb128_advance :
    {m : Memory} (user : IsUserSpace m) (p end : ℕ) (r : Leb)
    → p < word
    → decode_uleb128 m p end ≡ ok r
    → r.error ≡ none
    → (p < p + r.n) × (p + r.n < word)
unfolding decode_uleb128
decode_uleb128_advance user p end r hp =
    uleb_loop_advance user p end r max_rounds p 0 0 (omega arith) hp

pub decode_sleb128_advance :
    {m : Memory} (user : IsUserSpace m) (p end : ℕ) (r : Leb)
    → p < word
    → decode_sleb128 m p end ≡ ok r
    → r.error ≡ none
    → (p < p + r.n) × (p + r.n < word)
unfolding decode_sleb128
decode_sleb128_advance user p end r hp =
    sleb_loop_advance user p end r max_rounds p 0 0 (omega arith) hp
