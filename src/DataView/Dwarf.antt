-- ===== src/DataView/Dwarf.antt =====
-- What the methods of `DataView` read.
use mathlib.Core.Path.{subst₂}
use native.Mathlib.Nat.{pow-suc}
use clientplugin.Base.{
  ℕ, zero, suc, ◌+◌, ◌*◌, ◌/◌, ◌%◌, ◌^◌, ◌<◌, ◌≡◌, ◌≢◌, refl, sym, ok-pair, Option, none, some, ◌⊎◌,
  inl, inr, List, [], ◌∷◌, arith, Memory, IsByteMemory, Holds, load, load_le, ok, add32, word,
  length, >>=-eq-ok, Result-cases,
}
use clientplugin.Base.Int.{ℤ, pos, signed, mod_ℤ, ◌+ℤ◌}
use clientplugin.DataView.{
  read, read_dwarf_encoded, read_dwarf_encoded_no_application, apply_value, apply,
  read_known_format, read_format, EhDwarfFormat, format_of, application_of,
}

-- The number that bytes stand for, the lowest first.
unfoldable pub little_endian : List ℕ → ℕ
little_endian [] = 0
little_endian (b ∷ bs) = b + 256 * little_endian bs

load-byte : (m : Memory) (p : ℕ) {b : ℕ} → IsByteMemory m → load m p ≡ ok b → b < 256
unfolding load
load-byte m p {b} bytes e = ground (arith, bytes p b)

load_le-little_endian :
    (bs : List ℕ) (m : Memory) (p : ℕ)
    → Holds m p bs
    → load_le (length bs) m p ≡ ok (little_endian bs)
unfolding load_le load little_endian
load_le-little_endian [] m p held = refl
load_le-little_endian (b ∷ bs) m p (hb, held) = rw (hb, load_le-little_endian bs m (add32 p 1) held)

-- `read<T>` of as many bytes as stand at p returns their little-endian value, and moves past them.
pub read-little_endian :
    (bs : List ℕ) (m : Memory) (p : ℕ)
    → Holds m p bs
    → read (length bs) m p ≡ ok (little_endian bs, add32 p (length bs))
unfolding read
read-little_endian bs m p held = rw (load_le-little_endian bs m p held)

pub load_le_bound :
    (n : ℕ) (m : Memory) (p v : ℕ) → IsByteMemory m → load_le n m p ≡ ok v → v < 256 ^ n
unfolding load_le
load_le_bound zero m p v bytes e = ground arith
load_le_bound (suc n) m p v bytes e =
    let (b, eb, rest) = >>=-eq-ok (load m p) _ e in
    let (w, ew, done) = >>=-eq-ok (load_le n m (add32 p 1)) _ rest in
    ground (arith, load-byte m p bytes eb, load_le_bound n m (add32 p 1) w bytes ew, pow-suc 256 n)

same_address :
    (p v : ℕ)
    → v < 2 ^ 32
    → mod_ℤ (pos p +ℤ signed (2 ^ 31) v) (2 ^ 128) % word ≡ mod_ℤ (pos p +ℤ pos v) (2 ^ 128) % word
same_address p v h = ground arith

-- With application `pcrel`, the four-byte formats give one address, whether the offset is read as
-- signed (0x1B) or as unsigned (0x13), on every memory of bytes.
pub pcrel-sdata4-udata4 :
    (m : Memory) (p : ℕ)
    → IsByteMemory m
    → read_dwarf_encoded 0x1B m p ≡ read_dwarf_encoded 0x13 m p
unfolding read_dwarf_encoded read_dwarf_encoded_no_application apply_value read
pcrel-sdata4-udata4 m p bytes = elim (Result-cases (load_le 4 m p)) [
  | inl (v, e) ↦ rw e (rw (same_address p v (load_le_bound 4 m p v bytes e)))
  | inr (inl (x, e)) ↦ rw e
  | inr (inr e) ↦ rw e
]

-- The address that a four-byte offset from p stands for, at four bytes in memory.
pub pcrel-little_endian :
    (bs : List ℕ) (m : Memory) (p : ℕ)
    → length bs ≡ 4
    → Holds m p bs
    → little_endian bs < 2 ^ 32
    → read_dwarf_encoded 0x1B m p ≡ ok (some ((p + little_endian bs) % word), add32 p 4)
unfolding read_dwarf_encoded read_dwarf_encoded_no_application apply_value read
pcrel-little_endian bs m p four held small =
    let e : load_le 4 m p ≡ ok (little_endian bs) =
      rw (← four) (load_le-little_endian bs m p held) in
    rw e (ground (arith, same_address p (little_endian bs) small))

apply-pcrel :
    (code pc : ℕ) (v : ℤ) (x : ℕ)
    → apply (application_of code) code pc v ≡ ok x
    → (code ≡ 16) × (x < word)
unfolding apply application_of
apply-pcrel code pc v x e = ground arith

apply_value-some :
    (code pc : ℕ) (v : ℤ) (a : Option ℕ)
    → apply_value code pc (some v) ≡ ok a
    → (x : ℕ) × (a ≡ some x) × (x < word) × (code ≡ 16)
unfolding apply_value
apply_value-some code pc v a e =
    let (x, ex, done) = >>=-eq-ok (apply (application_of code) code pc v) _ e in
    let (at16, small) = apply-pcrel code pc v x ex in (x, ground arith, small, at16)

known_value :
    (o : Option EhDwarfFormat) (code : ℕ) (m : Memory) (p : ℕ) (v : Option ℤ) (q : ℕ)
    → read_known_format o code m p ≡ ok (v, q)
    → (o ≢ none) × ((z : ℤ) × (v ≡ some z))
unfolding read_known_format
known_value none code m p v q e = cc
known_value (some format) code m p v q e =
    let (zq, ez, done) = >>=-eq-ok (read_format format m p) _ e in (λ h. cc, (zq.0, ground arith))

omitted_value : (code pc : ℕ) (b : Option ℕ) → apply_value code pc none ≡ ok b → none ≡ b
unfolding apply_value
omitted_value code pc b e = cc

no_application_outcome :
    (encoding : ℕ) (m : Memory) (p : ℕ) (v : Option ℤ) (q : ℕ)
    → read_dwarf_encoded_no_application encoding m p ≡ ok (v, q)
    → ((encoding ≡ 0xFF) × (v ≡ none) × (q ≡ p))
      ⊎ (read_known_format (format_of (encoding % 16)) (encoding % 16) m p ≡ ok (v, q))
unfolding read_dwarf_encoded_no_application
no_application_outcome encoding m p v q e = ground arith

abbrev Outcome : ℕ → ℕ → Option ℕ → ℕ → Type 0
Outcome encoding p a q =
    ((encoding ≡ 0xFF) × (a ≡ none) × (q ≡ p))
    ⊎ ((x : ℕ) × (a ≡ some x)
        × (x < word)
        × (encoding / 16 ≡ 1)
        × (format_of (encoding % 16) ≢ none))

outcome_of :
    (encoding : ℕ) (m : Memory) (p : ℕ) (v : Option ℤ) (a : Option ℕ) (q : ℕ)
    → encoding < 256
    → read_dwarf_encoded_no_application encoding m p ≡ ok (v, q)
    → apply_value (encoding / 16 % 16 * 16) p v ≡ ok a
    → Outcome encoding p a q
outcome_of encoding m p v a q small ev ea = elim (no_application_outcome encoding m p v q ev) [
  | inl (omitted, nothing, stays) ↦
      inl (omitted, sym (omitted_value _ p a (rw nothing at ea)), stays)
  | inr known ↦
      let (there, (z, ez)) = known_value _ _ m p v q known in
      let (x, ex, narrow, at16) = apply_value-some _ p z a (rw ez at ea) in
      inr (x, ex, narrow, omega arith, there)
]

-- `read_dwarf_encoded` returns no address for the encoding 0xFF only, and then reads nothing. It
-- returns an address, of 32 bits, only if the application is `pcrel` and the format one of the nine.
pub read_dwarf_encoded_outcome :
    (encoding : ℕ) (m : Memory) (p : ℕ) (a : Option ℕ) (q : ℕ)
    → encoding < 256
    → read_dwarf_encoded encoding m p ≡ ok (a, q)
    → ((encoding ≡ 0xFF) × (a ≡ none) × (q ≡ p))
      ⊎ ((x : ℕ) × (a ≡ some x)
          × (x < word)
          × (encoding / 16 ≡ 1)
          × (format_of (encoding % 16) ≢ none))
unfolding read_dwarf_encoded
read_dwarf_encoded_outcome encoding m p a q small e =
    let (vq, ev, rest) = >>=-eq-ok (read_dwarf_encoded_no_application encoding m p) _ e in
    let (b, eb, done) = >>=-eq-ok (apply_value (encoding / 16 % 16 * 16) p vq.0) _ rest in
    let (same, at) = ok-pair done in
    subst₂ (Outcome encoding p) same at (outcome_of encoding m p vq.0 b vq.1 small ev eb)
