-- ===== src/Leb128/Encode.antt =====
-- The shortest LEB128 form of a number, as a producer of such data writes it, read back.
use clientplugin.Base.{
  ℕ, zero, suc, ◌+◌, ◌/◌, ◌%◌, ◌^◌, ◌≤◌, ◌<◌, ◌≡◌, List, [], ◌∷◌, none, arith, Memory, ok, ap, ◌∙◌,
  ltb, if◌then◌else◌, length, word,
}
use clientplugin.Leb128.{decode_uleb128}
use clientplugin.Leb128.Value.{IsLeb, uleb_value, HoldsBefore}
use clientplugin.Leb128.Unsigned.{decode_uleb128_value}

-- At most k + 1 groups; enough for a number below 128 ^ (k + 1).
unfoldable pub encode_uleb128 : ℕ → ℕ → List ℕ
encode_uleb128 zero v = v ∷ []
encode_uleb128 (suc k) v =
    let rest = encode_uleb128 k (v / 128) in if ltb v 128 then v ∷ [] else (v % 128 + 128) ∷ rest

uleb_value-encode_uleb128 : (k v : ℕ) → v < 128 ^ suc k → uleb_value (encode_uleb128 k v) ≡ v
unfolding encode_uleb128 uleb_value
uleb_value-encode_uleb128 zero v h = omega arith
uleb_value-encode_uleb128 (suc k) v h =
    ground (arith, uleb_value-encode_uleb128 k (v / 128) (omega arith))

IsLeb-cons : (b : ℕ) (bs : List ℕ) → 128 ≤ b → IsLeb bs → IsLeb (b ∷ bs)
IsLeb-cons b [] h run = absurd run
IsLeb-cons b (c ∷ bs) h run = (h, run)

encode_uleb128_shape :
    (k v : ℕ) → v < 128 ^ suc k → IsLeb (encode_uleb128 k v) × (length (encode_uleb128 k v) ≤ suc k)
unfolding encode_uleb128
encode_uleb128_shape zero v h = omega arith
encode_uleb128_shape (suc k) v h = ground (
  arith,
  encode_uleb128_shape k (v / 128) (omega arith),
  IsLeb-cons (v % 128 + 128) (encode_uleb128 k (v / 128)),
)

-- `decode_uleb128` reads back every uint64_t whose encoding stands in memory, none of it at `end`,
-- and counts its bytes.
pub decode_uleb128-encode_uleb128 :
    (v : ℕ) (m : Memory) (p end : ℕ)
    → v < 2 ^ 64
    → p < word
    → HoldsBefore m end p (encode_uleb128 9 v)
    → decode_uleb128 m p end
      ≡ ok (record { value = v; n = length (encode_uleb128 9 v); error = none })
decode_uleb128-encode_uleb128 v m p end hv hp held =
    let same = uleb_value-encode_uleb128 9 v (omega arith) in
    let (run, short) = encode_uleb128_shape 9 v (omega arith) in
    decode_uleb128_value (encode_uleb128 9 v) m p end hp run (omega arith) held (omega arith)
    ∙ ap (λ x. ok (record { value = x; n = length (encode_uleb128 9 v); error = none })) same
