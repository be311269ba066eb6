-- ===== src/Leb128/Runs.antt =====
-- Runs of the decoders of src/util/leb128.hpp.
use clientplugin.Base.{
  ℕ, ◌≡◌, ◌≢◌, ◌^◌, refl, none, some, List, [], ◌∷◌, arith, Memory, ok, stuck, ◌≤◌, leb, ◌==◌,
  if◌then◌else◌,
}
use clientplugin.Leb128.{decode_uleb128, decode_sleb128}
use clientplugin.Leb128.Value.{IsLeb, HoldsBefore, uleb_value, sleb_value, FitsInt64}
use clientplugin.Leb128.Unsigned.{decode_uleb128-ne-stuck, decode_uleb128_value}
use clientplugin.Leb128.Signed.{decode_sleb128-ne-stuck}
use clientplugin.Leb128.Encode.{encode_uleb128}

-- 624485 at 16, and -123456 at 32; ten bytes of a number beyond 64 bits at 48.
abbrev bytes_at : Memory
bytes_at a =
    if a == 16
    then some 0xE5
    else if a == 17
    then some 0x8E
    else if a == 18
    then some 0x26
    else if a == 32
    then some 0xC0
    else if a == 33
    then some 0xBB
    else if a == 34
    then some 0x78
    else none

-- Ten bytes from 0 on, of a number beyond 64 bits.
abbrev wide_at : Memory
wide_at a = if leb a 8 then some 0xFF else if a == 9 then some 0x02 else none

abbrev wide : List ℕ
wide = 0xFF ∷ 0xFF ∷ 0xFF ∷ 0xFF ∷ 0xFF ∷ 0xFF ∷ 0xFF ∷ 0xFF ∷ 0xFF ∷ 0x02 ∷ []

decode_uleb128_value_example :
    decode_uleb128 bytes_at 16 100 ≡ ok (record { value = 624485; n = 3; error = none })
unfolding uleb_value
decode_uleb128_value_example =
    decode_uleb128_value (0xE5 ∷ 0x8E ∷ 0x26 ∷ []) bytes_at 16 100 (omega arith)
      (omega arith, (omega arith, omega arith)) (omega arith)
      ((λ e. omega arith), refl, ((λ e. omega arith), refl, ((λ e. omega arith), refl, tt)))
      (omega arith)

wide-IsLeb : IsLeb wide
wide-IsLeb = (
  omega arith,
  (
    omega arith,
    (
      omega arith,
      (
        omega arith,
        (omega arith, (omega arith, (omega arith, (omega arith, (omega arith, omega arith))))),
      ),
    ),
  ),
)

wide-HoldsBefore : HoldsBefore wide_at 100 0 wide
wide-HoldsBefore = (
  (λ e. omega arith),
  refl,
  (
    (λ e. omega arith),
    refl,
    (
      (λ e. omega arith),
      refl,
      (
        (λ e. omega arith),
        refl,
        (
          (λ e. omega arith),
          refl,
          (
            (λ e. omega arith),
            refl,
            (
              (λ e. omega arith),
              refl,
              (
                (λ e. omega arith),
                refl,
                ((λ e. omega arith), refl, ((λ e. omega arith), refl, tt)),
              ),
            ),
          ),
        ),
      ),
    ),
  ),
)

wide_large : 2 ^ 64 ≤ uleb_value wide
unfolding uleb_value
wide_large = omega arith

wide_outside : ¬ FitsInt64 (sleb_value wide)
unfolding sleb_value uleb_value
wide_outside h = omega arith

decode_uleb128-ne-stuck_example : decode_uleb128 wide_at 0 100 ≢ stuck
decode_uleb128-ne-stuck_example = decode_uleb128-ne-stuck wide_at 0 100

decode_sleb128-ne-stuck_example : decode_sleb128 wide_at 0 100 ≢ stuck
decode_sleb128-ne-stuck_example = decode_sleb128-ne-stuck wide_at 0 100

encoded_at : HoldsBefore bytes_at 100 16 (encode_uleb128 9 624485)
unfolding encode_uleb128
encoded_at = ((λ e. omega arith), refl, ((λ e. omega arith), refl, ((λ e. omega arith), refl, tt)))
