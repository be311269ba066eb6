-- ===== src/Hexdump/Undump.antt =====
-- The bytes can be read back from the text.
use mathlib.Core.List.{append_assoc}
use clientplugin.Base.{
  ℕ, zero, suc, ◌+◌, ◌-◌, ◌*◌, ◌/◌, ◌%◌, ◌<◌, ◌≡◌, ◌≢◌, refl, sym, ap, subst, ◌∙◌, Bool, false, All,
  List, [], ◌∷◌, ◌++◌, map, Text, codes, ltb, arith, ◌==◌, if◌then◌else◌,
}
use clientplugin.Hexdump.{
  hex_digit, hex_byte, newline, shown, hex_part, dump_row, dump_rows, chunk_into, chunk, dump_end,
  hexdump,
}

-- Where a reader of the text stands: before a byte, or behind the bytes of a row.
pub data Place : Type 0 where
  at_byte behind : Place

abbrev pub hex_value : ℕ → ℕ
hex_value c = if ltb c 58 then c - 48 else c - 87

abbrev pub read : Place → Text → List ℕ
read at_byte (c ∷ d ∷ e ∷ rest) =
    let row_over = read behind rest in
    let bytes = read at_byte rest in
    if c == 32
    then row_over
    else if c == newline
    then []
    else (hex_value c * 16 + hex_value d) ∷ bytes
read at_byte _ = []
read behind [] = []
read behind (c ∷ rest) =
    let next_row = read at_byte rest in
    let more = read behind rest in if c == newline then next_row else more

abbrev pub undump : Text → List ℕ
undump text = read at_byte text

not_equal : (a b : ℕ) → a ≢ b → (a == b) ≡ false
not_equal a b n = ground arith

concat : List (List ℕ) → List ℕ
concat [] = []
concat (row ∷ rows) = row ++ concat rows

All-append : (P : ℕ → Type 0) (xs ys : List ℕ) → All P (xs ++ ys) → All P xs × All P ys
All-append P [] ys h = (tt, h)
All-append P (x ∷ xs) ys h = let (hx, hy) = All-append P xs ys h.1 in ((h.0, hx), hy)

concat-chunk_into : (n room : ℕ) (row bs : List ℕ) → concat (chunk_into n room row bs) ≡ row ++ bs
unfolding chunk_into concat
concat-chunk_into n room row [] = refl
concat-chunk_into n zero row (b ∷ bs) =
    ap (λ (t : List ℕ). row ++ t) (concat-chunk_into n n (b ∷ []) bs)
concat-chunk_into n (suc room) row (b ∷ bs) =
    concat-chunk_into n room (row ++ (b ∷ [])) bs ∙ append_assoc row (b ∷ []) bs

concat-chunk : (n : ℕ) (bs : List ℕ) → concat (chunk n bs) ≡ bs
unfolding chunk concat
concat-chunk n [] = refl
concat-chunk n (b ∷ bs) = concat-chunk_into n n (b ∷ []) bs

hex_digit_lem :
    (n : ℕ) → n < 16 → (hex_value (hex_digit n) ≡ n) × (hex_digit n ≢ 32) × (hex_digit n ≢ newline)
unfolding hex_digit
hex_digit_lem n h = (ground arith, λ e. ground arith, λ e. ground arith)

read-hex_byte :
    (b : ℕ) (rest : Text) → b < 256 → read at_byte (hex_byte b ++ rest) ≡ b ∷ read at_byte rest
unfolding hex_byte
read-hex_byte b rest h =
    let (high, space, line) = hex_digit_lem (b / 16) (omega arith) in
    let (low, _, _) = hex_digit_lem (b % 16) (omega arith) in
    let not_space : (hex_digit (b / 16) == 32) ≡ false = ground arith in
    let not_line : (hex_digit (b / 16) == newline) ≡ false = ground arith in
    rw (not_space, not_line) (ap (λ (n : ℕ). n ∷ read at_byte rest) (omega (arith, high, low)))

module _ (isprint : ℕ → Bool) where
  shown-ne-newline : (b : ℕ) → shown isprint b ≢ newline
  unfolding shown
  shown-ne-newline b e = ground arith

  read-hex_part :
      (row : List ℕ) (rest : Text)
      → All (λ (b : ℕ). b < 256) row
      → read at_byte (hex_part isprint row ++ rest) ≡ row ++ read at_byte rest
  unfolding hex_part
  read-hex_part [] rest small = refl
  read-hex_part (b ∷ row) rest small =
      read-hex_byte b (hex_part isprint row ++ rest) small.0
      ∙ ap (λ (t : List ℕ). b ∷ t) (read-hex_part row rest small.1)

  read-shown :
      (row : List ℕ) (rest : Text)
      → read behind (map (shown isprint) row ++ (newline ∷ rest)) ≡ read at_byte rest
  read-shown [] rest = refl
  read-shown (b ∷ row) rest =
      let not_line : (shown isprint b == newline) ≡ false =
        not_equal (shown isprint b) newline (shown-ne-newline b) in
      rw not_line (read-shown row rest)

  read-dump_row :
      (row : List ℕ) (rest : Text)
      → All (λ (b : ℕ). b < 256) row
      → read at_byte (dump_row isprint row ++ rest) ≡ row ++ read at_byte rest
  unfolding dump_row
  read-dump_row row rest small =
      ap (read at_byte) (
        append_assoc (hex_part isprint row)
          (codes " | " ++ (map (shown isprint) row ++ (newline ∷ []))) rest)
      ∙ read-hex_part row _ small
      ∙ ap (λ (t : List ℕ). row ++ t)
          (ap (read behind) (append_assoc (map (shown isprint) row) (newline ∷ []) rest)
            ∙ read-shown row rest)

  read-dump_rows :
      (rows : List (List ℕ))
      → All (λ (b : ℕ). b < 256) (concat rows)
      → read at_byte (dump_rows isprint rows ++ dump_end) ≡ concat rows
  unfolding dump_rows concat
  read-dump_rows [] small = refl
  read-dump_rows (row ∷ rows) small =
      let (first, others) = All-append (λ (b : ℕ). b < 256) row (concat rows) small in
      ap (read at_byte) (append_assoc (dump_row isprint row) (dump_rows isprint rows) dump_end)
      ∙ read-dump_row row (dump_rows isprint rows ++ dump_end) first
      ∙ ap (λ (t : List ℕ). row ++ t) (read-dump_rows rows others)

  -- Whichever characters are shown as they are, the bytes can be read back from the text of a dump.
  pub undump-hexdump :
      (bytes : List ℕ) → All (λ (b : ℕ). b < 256) bytes → undump (hexdump isprint bytes) ≡ bytes
  unfolding hexdump
  undump-hexdump bytes small =
      read-dump_rows (chunk 15 bytes)
        (subst (All (λ (b : ℕ). b < 256)) (sym (concat-chunk 15 bytes)) small)
      ∙ concat-chunk 15 bytes
