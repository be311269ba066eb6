-- ===== src/Offsets/Constants/Nonzero.antt =====
-- The members of the constants that have been found.
use clientplugin.Base.{
  ok_value, ℕ, zero, suc, ◌+◌, ◌-◌, ◌<◌, ◌≡◌, ◌≢◌, ap, none, some, List, [], ◌∷◌, All, length,
  get_elem?, arith, Text, Result, ok, >>=-eq-ok,
}
use clientplugin.Offsets.{Offset, make_offset}
use clientplugin.Offsets.Constants.{OffsetName, number, constant, construct, address_of}

-- The constructions make the list as much longer as there are constants.
pub construct-length :
    (unhex : Text → Result (List ℕ)) (names : List OffsetName) (before : List (Offset × ℕ))
    {after : List (Offset × ℕ)}
    → construct unhex names before ≡ ok after
    → length after ≡ length names + length before
unfolding construct make_offset
construct-length unhex [] before e = omega (arith, ap length (ok_value e))
construct-length unhex (name ∷ names) before e =
    let (offset, _, rest) = >>=-eq-ok (constant unhex name) _ e in
    omega (arith, construct-length unhex names ((offset, 0) ∷ before) rest)

abbrev member_at : List (Offset × ℕ) → ℕ → ℕ
member_at offsets i = elim (get_elem? offsets i) [ none ↦ 0 | some o ↦ o.1 ]

nth-nonzero :
    (offsets : List (Offset × ℕ)) (i : ℕ)
    → All (λ o. o.1 ≢ 0) offsets
    → i < length offsets
    → member_at offsets i ≢ 0
nth-nonzero [] i each h = absurd (omega arith)
nth-nonzero (o ∷ offsets) zero each h = each.0
nth-nonzero (o ∷ offsets) (suc i) each h = nth-nonzero offsets i each.1 (omega arith)

-- The constants are found at addresses that are not null.
pub address_of-nonzero :
    (offsets : List (Offset × ℕ))
    → All (λ o. o.1 ≢ 0) offsets
    → length offsets ≡ 15
    → (name : OffsetName) → address_of offsets name ≢ 0
unfolding address_of
address_of-nonzero offsets each l name = nth-nonzero offsets (14 - number name) each (omega arith)
