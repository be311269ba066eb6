-- ===== src/DataView/Advance.antt =====
-- Where the pointer of a `DataView` stands after a read in user space.
use clientplugin.Base.{
  ℕ, zero, suc, ◌+◌, ◌*◌, ◌/◌, ◌%◌, ◌≤◌, ◌<◌, ◌≡◌, inl, inr, Option, none, some, Bool-cases, arith,
  Memory, IsUserSpace, load, load_le, Result, ok, err, stuck, ◌==◌, add32, word, length, low_bits,
  >>=-eq-ok, List,
}
use clientplugin.Leb128.{decode_uleb128, decode_sleb128}
use clientplugin.Leb128.Advance.{decode_uleb128_advance, decode_sleb128_advance}
use clientplugin.DataView.{
  read, string_at, read_string, read_uleb128, read_sleb128, read_format, EhDwarfFormat, absptr,
  uleb128, udata2, udata4, udata8, sleb128, sdata2, sdata4, sdata8, read_known_format, as_unsigned,
  as_signed, apply_value, read_dwarf_encoded_no_application, read_dwarf_encoded, format_of,
}
use clientplugin.Base.Int.{ℤ}

module _ {m : Memory} (user : IsUserSpace m) where
  pub load-lt : (p : ℕ) {b : ℕ} → p < word → load m p ≡ ok b → suc p < word
  unfolding load
  load-lt p hp e = ground (arith, user.kernel_space)

  pub load_le-lt : (n p : ℕ) {v : ℕ} → p < word → load_le n m p ≡ ok v → p + n < word
  unfolding load_le
  load_le-lt zero p hp e = omega arith
  load_le-lt (suc n) p hp e =
      let (b, eb, rest) = >>=-eq-ok (load m p) _ e in
      let (v, ev, _) = >>=-eq-ok (load_le n m (add32 p 1)) _ rest in
      let next = load-lt p hp eb in omega (arith, load_le-lt n (add32 p 1) (omega arith) ev)

  pub read_advance :
      (size p : ℕ) {v q : ℕ} → p < word → read size m p ≡ ok (v, q) → (q ≡ p + size) × (q < word)
  unfolding read
  read_advance size p hp e =
      let (v, ev, done) = >>=-eq-ok (load_le size m p) _ e in
      ground (arith, load_le-lt size p hp ev)

  string_at_advance :
      (fuel p : ℕ) (cs : List ℕ) → p < word → string_at fuel m p ≡ ok cs → p + length cs + 1 < word
  unfolding string_at
  string_at_advance zero p cs hp e = cc
  string_at_advance (suc fuel) p cs hp e =
      let (c, ec, rest) = >>=-eq-ok (load m p) _ e in
      let next = load-lt p hp ec in
      elim (Bool-cases (c == 0)) [
        | inl ends ↦ ground arith
        | inr more ↦
            let (cs', e', whole) = >>=-eq-ok (string_at fuel m (add32 p 1)) _ (rw more at rest) in
            ground (arith, string_at_advance fuel (add32 p 1) cs' (omega arith) e')
      ]

  pub read_string_advance :
      (p : ℕ) {cs : List ℕ} {q : ℕ} → p < word → read_string m p ≡ ok (cs, q) → (p < q) × (q < word)
  unfolding read_string
  read_string_advance p hp e =
      let (cs, ecs, done) = >>=-eq-ok (string_at word m p) _ e in
      ground (arith, string_at_advance word p cs hp ecs)

  pub read_uleb128_advance :
      (p : ℕ) {v q : ℕ} → p < word → read_uleb128 m p ≡ ok (v, q) → (p < q) × (q < word)
  unfolding read_uleb128
  read_uleb128_advance p hp e =
      let (r, er, done) = >>=-eq-ok (decode_uleb128 m p 0) _ e in
      ground (arith, decode_uleb128_advance user p 0 r hp er)

  pub read_sleb128_advance :
      (p : ℕ) {v q : ℕ} → p < word → read_sleb128 m p ≡ ok (v, q) → (p < q) × (q < word)
  unfolding read_sleb128
  read_sleb128_advance p hp e =
      let (r, er, done) = >>=-eq-ok (decode_sleb128 m p 0) _ e in
      ground (arith, decode_sleb128_advance user p 0 r hp er)

  unsigned_advance :
      (r : Result (ℕ × ℕ)) (p : ℕ) {v : ℤ} {q : ℕ}
      → ((v' q' : ℕ) → r ≡ ok (v', q') → (p < q') × (q' < word))
      → as_unsigned r ≡ ok (v, q)
      → (p < q) × (q < word)
  unfolding as_unsigned
  unsigned_advance (ok (v', q')) p moves e = ground (arith, moves v' q')
  unsigned_advance (err x) p moves e = cc
  unsigned_advance stuck p moves e = cc

  signed_advance :
      (half : ℕ) (r : Result (ℕ × ℕ)) (p : ℕ) {v : ℤ} {q : ℕ}
      → ((v' q' : ℕ) → r ≡ ok (v', q') → (p < q') × (q' < word))
      → as_signed half r ≡ ok (v, q)
      → (p < q) × (q < word)
  unfolding as_signed
  signed_advance half (ok (v', q')) p moves e = ground (arith, moves v' q')
  signed_advance half (err x) p moves e = cc
  signed_advance half stuck p moves e = cc

  fixed_advance :
      (size p : ℕ)
      → 0 < size
      → p < word
      → (v q : ℕ) → read size m p ≡ ok (v, q)
      → (p < q) × (q < word)
  fixed_advance size p pos_ hp v q e = omega (arith, read_advance size p hp e)

  pub read_format_advance :
      (format : EhDwarfFormat) (p : ℕ) {v : ℤ} {q : ℕ}
      → p < word
      → read_format format m p ≡ ok (v, q)
      → (p < q) × (q < word)
  unfolding read_format
  read_format_advance absptr p hp = unsigned_advance _ p (fixed_advance 4 p (omega arith) hp)
  read_format_advance uleb128 p hp = unsigned_advance _ p (λ v q. read_uleb128_advance p hp)
  read_format_advance udata2 p hp = unsigned_advance _ p (fixed_advance 2 p (omega arith) hp)
  read_format_advance udata4 p hp = unsigned_advance _ p (fixed_advance 4 p (omega arith) hp)
  read_format_advance udata8 p hp = unsigned_advance _ p (fixed_advance 8 p (omega arith) hp)
  read_format_advance sleb128 p hp = signed_advance _ _ p (λ v q. read_sleb128_advance p hp)
  read_format_advance sdata2 p hp = signed_advance _ _ p (fixed_advance 2 p (omega arith) hp)
  read_format_advance sdata4 p hp = signed_advance _ _ p (fixed_advance 4 p (omega arith) hp)
  read_format_advance sdata8 p hp = signed_advance _ _ p (fixed_advance 8 p (omega arith) hp)

  known_advance :
      (o : Option EhDwarfFormat) (code p : ℕ) {v : Option ℤ} {q : ℕ}
      → p < word
      → read_known_format o code m p ≡ ok (v, q)
      → (p < q) × (q < word)
  unfolding read_known_format
  known_advance none code p hp e = cc
  known_advance (some format) code p hp e =
      let (vq, ev, done) = >>=-eq-ok (read_format format m p) _ e in
      ground (arith, read_format_advance format p {v = vq.0} {q = vq.1} hp ev)

  pub no_application_advance :
      (encoding p : ℕ) {v : Option ℤ} {q : ℕ}
      → p < word
      → read_dwarf_encoded_no_application encoding m p ≡ ok (v, q)
      → (p ≤ q) × (q < word)
  unfolding read_dwarf_encoded_no_application
  no_application_advance encoding p {v} {q} hp e = ground (
    arith,
    known_advance (format_of (low_bits encoding 4)) (low_bits encoding 4) p {v = v} {q = q} hp,
  )

  pub read_dwarf_encoded_advance :
      (encoding p : ℕ) {v : Option ℕ} {q : ℕ}
      → p < word
      → read_dwarf_encoded encoding m p ≡ ok (v, q)
      → (p ≤ q) × (q < word)
  unfolding read_dwarf_encoded
  read_dwarf_encoded_advance encoding p hp e =
      let (vq, ev, rest) = >>=-eq-ok (read_dwarf_encoded_no_application encoding m p) _ e in
      let (a, ea, done) = >>=-eq-ok (apply_value (encoding / 16 % 16 * 16) p vq.0) _ rest in
      ground (arith, no_application_advance encoding p {v = vq.0} {q = vq.1} hp ev)
