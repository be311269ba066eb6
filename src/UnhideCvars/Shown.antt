-- ===== src/UnhideCvars/Shown.antt =====
-- Which flags are left.
use clientplugin.Base.Bits.{bit, bit-bit_and, bit-bit_or, bit-complement, bit_le_one, bit_or_lt}
use clientplugin.Base.{
  ℕ, ◌≡◌, refl, ap, ◌∙◌, ◌<◌, ◌-◌, ◌^◌, min, max, arith, ◌&&◌, ◌==◌, if◌then◌else◌, List, [], ◌∷◌,
  map, bit_and, bit_or,
}
use clientplugin.UnhideCvars.{Command, set_flags, get_flags, mask, unhide_cvars}

module _ (development_only hidden i : ℕ) where
  -- What is left of the flag at place `i`.
  abbrev pub left_of : Command → ℕ
  left_of var = if (bit i development_only == 0) && (bit i hidden == 0) then bit i var.flags else 0

  module _ (d : development_only < 2 ^ 32) (h : hidden < 2 ^ 32) (lt : i < 32) where
    masked :
        (flags : ℕ)
        → bit i (bit_and flags (mask development_only hidden))
          ≡ min (bit i flags) (1 - max (bit i development_only) (bit i hidden))
    unfolding mask
    masked flags =
        bit-bit_and i flags (mask development_only hidden)
        ∙ ap (min (bit i flags)) (
            bit-complement i 32 (bit_or development_only hidden) lt
              (bit_or_lt 32 development_only hidden d h)
            ∙ ap (λ t. 1 - t) (bit-bit_or i development_only hidden))

    left_one :
        (var : Command) → bit i (bit_and var.flags (mask development_only hidden)) ≡ left_of var
    left_one var = ground (
      arith,
      masked var.flags,
      bit_le_one i var.flags,
      bit_le_one i development_only,
      bit_le_one i hidden,
    )

    -- If the values of the two flags fit 32 bits, then at each of the 32 places every command has what it had where
    -- neither flag has a one, and zero elsewhere; the names of the commands stay.
    pub unhide_cvars-left_of :
        (commands : List Command)
        → (map
              (λ (var : Command). bit i (get_flags var))
              (unhide_cvars development_only hidden commands)
            ≡ map left_of commands)
          × (map (λ (var : Command). var.name) (unhide_cvars development_only hidden commands)
              ≡ map (λ (var : Command). var.name) commands)
    unfolding unhide_cvars get_flags set_flags
    unhide_cvars-left_of [] = (refl, refl)
    unhide_cvars-left_of (var ∷ commands) =
        let (flags, names) = unhide_cvars-left_of commands in
        (rw (left_one var, flags) refl, ap (λ t. var.name ∷ t) names)
