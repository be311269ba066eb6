-- ===== src/DataView/Total.antt =====
-- Termination of the methods of `DataView`.
use clientplugin.Base.{
  ℕ, zero, suc, ◌+◌, ◌*◌, ◌/◌, ◌%◌, ◌≤◌, ◌<◌, ◌≡◌, Bool-cases, inl, inr, Option, none, some, arith,
  Memory, IsUserSpace, load, load_le, Result, err, fault, ◌==◌, add32, word, Ends, ok-Ends,
  err-Ends, or_throw-Ends, >>=-Ends, low_bits,
}
use clientplugin.Base.Int.{ℤ}
use clientplugin.Leb128.{Leb}
use clientplugin.Leb128.Unsigned.{decode_uleb128-ne-stuck}
use clientplugin.Leb128.Signed.{decode_sleb128-ne-stuck}
use clientplugin.DataView.{
  read, string_at, read_string, checked_leb, read_uleb128, read_sleb128, EhDwarfFormat, absptr,
  uleb128, udata2, udata4, udata8, sleb128, sdata2, sdata4, sdata8, as_unsigned, as_signed,
  read_format, read_known_format, read_dwarf_encoded_no_application, apply_value, apply,
  application_of, read_dwarf_encoded, format_of,
}
use clientplugin.DataView.Advance.{load-lt}

pub load-Ends : (m : Memory) (p : ℕ) → Ends (load m p)
unfolding load
load-Ends m p = or_throw-Ends (m p) _

pub load_le-Ends : (n : ℕ) (m : Memory) (p : ℕ) → Ends (load_le n m p)
unfolding load_le
load_le-Ends zero m p = ok-Ends 0
load_le-Ends (suc n) m p =
    >>=-Ends (load m p) _ (load-Ends m p)
      λ b _. >>=-Ends (load_le n m (add32 p 1)) _ (load_le-Ends n m (add32 p 1)) λ r _. ok-Ends _

pub read-Ends : (size : ℕ) (m : Memory) (p : ℕ) → Ends (read size m p)
unfolding read
read-Ends size m p = >>=-Ends (load_le size m p) _ (load_le-Ends size m p) λ v _. ok-Ends _

checked_leb-Ends : (r : Leb) (p : ℕ) → Ends (checked_leb r p)
unfolding checked_leb
checked_leb-Ends r p = ground arith

pub read_uleb128-Ends : (m : Memory) (p : ℕ) → Ends (read_uleb128 m p)
unfolding read_uleb128
read_uleb128-Ends m p = >>=-Ends _ _ (decode_uleb128-ne-stuck m p 0) λ r _. checked_leb-Ends r p

pub read_sleb128-Ends : (m : Memory) (p : ℕ) → Ends (read_sleb128 m p)
unfolding read_sleb128
read_sleb128-Ends m p = >>=-Ends _ _ (decode_sleb128-ne-stuck m p 0) λ r _. checked_leb-Ends r p

unsigned-Ends : (r : Result (ℕ × ℕ)) → Ends r → Ends (as_unsigned r)
unfolding as_unsigned
unsigned-Ends r h = >>=-Ends r _ h λ v _. ok-Ends _

signed-Ends : (half : ℕ) (r : Result (ℕ × ℕ)) → Ends r → Ends (as_signed half r)
unfolding as_signed
signed-Ends half r h = >>=-Ends r _ h λ v _. ok-Ends _

read_format-Ends : (format : EhDwarfFormat) (m : Memory) (p : ℕ) → Ends (read_format format m p)
unfolding read_format
read_format-Ends absptr m p = unsigned-Ends _ (read-Ends _ m p)
read_format-Ends uleb128 m p = unsigned-Ends _ (read_uleb128-Ends m p)
read_format-Ends udata2 m p = unsigned-Ends _ (read-Ends _ m p)
read_format-Ends udata4 m p = unsigned-Ends _ (read-Ends _ m p)
read_format-Ends udata8 m p = unsigned-Ends _ (read-Ends _ m p)
read_format-Ends sleb128 m p = signed-Ends _ _ (read_sleb128-Ends m p)
read_format-Ends sdata2 m p = signed-Ends _ _ (read-Ends _ m p)
read_format-Ends sdata4 m p = signed-Ends _ _ (read-Ends _ m p)
read_format-Ends sdata8 m p = signed-Ends _ _ (read-Ends _ m p)

known-Ends :
    (o : Option EhDwarfFormat) (code : ℕ) (m : Memory) (p : ℕ) → Ends (read_known_format o code m p)
unfolding read_known_format
known-Ends none code m p = err-Ends _
known-Ends (some format) code m p = >>=-Ends _ _ (read_format-Ends format m p) λ v _. ok-Ends _

pub no_application-Ends :
    (encoding : ℕ) (m : Memory) (p : ℕ) → Ends (read_dwarf_encoded_no_application encoding m p)
unfolding read_dwarf_encoded_no_application
no_application-Ends encoding m p =
    ground (arith, known-Ends (format_of (low_bits encoding 4)) (low_bits encoding 4) m p)

apply_value-Ends : (code pc : ℕ) (v : Option ℤ) → Ends (apply_value code pc v)
unfolding apply_value apply application_of
apply_value-Ends code pc none = ok-Ends _
apply_value-Ends code pc (some v) = ground arith

pub read_dwarf_encoded-Ends :
    (encoding : ℕ) (m : Memory) (p : ℕ) → Ends (read_dwarf_encoded encoding m p)
unfolding read_dwarf_encoded
read_dwarf_encoded-Ends encoding m p =
    >>=-Ends _ _ (no_application-Ends encoding m p)
      λ v _. >>=-Ends _ _ (apply_value-Ends (encoding / 16 % 16 * 16) p v.0) λ a _. ok-Ends _

module _ {m : Memory} (user : IsUserSpace m) where
  string_at-Ends : (fuel p : ℕ) → p < word → word ≤ p + fuel → Ends (string_at fuel m p)
  unfolding string_at
  string_at-Ends zero p hp hf = absurd (omega arith)
  string_at-Ends (suc fuel) p hp hf = >>=-Ends (load m p) _ (load-Ends m p) λ c ec.
      let next = load-lt user p hp ec in
      elim (Bool-cases (c == 0)) [
        | inl ends ↦ rw ends (ok-Ends _)
        | inr more ↦ rw more (
            >>=-Ends _ _ (string_at-Ends fuel (add32 p 1) (omega arith) (omega arith))
              λ cs _. ok-Ends _)
      ]

  -- The string ends before the top of the address space, or the read faults there.
  pub read_string-Ends : (p : ℕ) → p < word → Ends (read_string m p)
  unfolding read_string
  read_string-Ends p hp =
      >>=-Ends (string_at word m p) _ (string_at-Ends word p hp (omega arith)) λ s _. ok-Ends _

  -- The null pointer cannot be read.
  pub read_null : read 4 m 0 ≡ err fault
  unfolding read load_le load
  read_null = rw user.null_page
