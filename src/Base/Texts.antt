-- ===== src/Base/Texts.antt =====
-- Texts as lists of bytes, and maps with texts or numbers for keys.
use Prim.Native.Nat.{ℕ, zero, suc, ◌+◌, ◌/◌, ◌%◌}
use Prim.Native.Char.{code}
use Prim.Native.String.{String}
use mathlib.Core.Path.{◌≡◌, refl, ap, ◌∙◌}
use mathlib.Core.Logic.{◌↔◌, inl, inr}
use mathlib.Core.Bool.{Bool, true, false, ◌&&◌, ◌||◌}
use mathlib.Core.Option.{Option, none, some}
use mathlib.Core.List.{List, [], ◌∷◌, ◌++◌}
use native.Mathlib.Omega.{arith}
use clientplugin.Base.Tests.{◌==◌, ltb, Bool-cases, if◌then◌else◌}

abbrev pub Text : Type 0
Text = List ℕ

abbrev pub codes : String → Text
codes String.[] = []
codes (String.◌∷◌ c s) = code c ∷ codes s

unfoldable pub text_eq : Text → Text → Bool
text_eq [] [] = true
text_eq (a ∷ as') (b ∷ bs) = (a == b) && text_eq as' bs
text_eq _ _ = false

pub text_eq_iff : (s t : Text) → (text_eq s t ≡ true) ↔ (s ≡ t)
unfolding text_eq
text_eq_iff [] [] = (λ _. refl, λ _. refl)
text_eq_iff [] (b ∷ t) = (λ e. cc, λ e. cc)
text_eq_iff (a ∷ s) [] = (λ e. cc, λ e. cc)
text_eq_iff (a ∷ s) (b ∷ t) =
    let rest = text_eq_iff s t in (λ e. ground (arith, rest.0), λ e. ground (arith, rest.1))

-- `ends_with`
unfoldable pub ends_with : Text → Text → Bool
unfolding text_eq
ends_with [] suffix = text_eq [] suffix
ends_with (c ∷ s) suffix = text_eq (c ∷ s) suffix || ends_with s suffix

-- Whether a text starts with another.
unfoldable pub starts_with : Text → Text → Bool
starts_with s [] = true
starts_with [] (p ∷ ps) = false
starts_with (c ∷ s) (p ∷ ps) = let rest = starts_with s ps in if c == p then rest else false

-- `std::to_string` of an unsigned number. A number has no more digits than it counts.
unfoldable pub decimal : ℕ → ℕ → Text
decimal zero n = (48 + n % 10) ∷ []
decimal (suc fuel) n =
    let front = decimal fuel (n / 10) in
    if ltb n 10 then (48 + n) ∷ [] else (front ++ ((48 + n % 10) ∷ []))

unfoldable pub to_string : ℕ → Text
unfolding decimal
to_string n = decimal n n

-- A map as the list of its entries, with the key's test of equality.
module _ {ℓ κ} {K : Type ℓ} {V : Type κ} (eq : K → K → Bool) where
  unfoldable pub lookup : K → List (K × V) → Option V
  lookup k [] = none
  lookup k ((j, v) ∷ m) = if eq j k then some v else lookup k m

  -- `insert` of a map keeps an entry that is there.
  unfoldable pub insert : K → V → List (K × V) → List (K × V)
  insert k v [] = (k, v) ∷ []
  insert k v ((j, w) ∷ m) = if eq j k then (j, w) ∷ m else (j, w) ∷ insert k v m

  -- `map[key] = value`
  unfoldable pub assign : K → V → List (K × V) → List (K × V)
  assign k v [] = (k, v) ∷ []
  assign k v ((j, w) ∷ m) = if eq j k then (j, v) ∷ m else (j, w) ∷ assign k v m

pub lookup-assign :
    {V : Type 0} (k : Text) (v : V) (entries : List (Text × V))
    → lookup text_eq k (assign text_eq k v entries) ≡ some v
unfolding lookup assign
lookup-assign k v [] = let same = (text_eq_iff k k).1 refl in ground arith
lookup-assign k v ((j, w) ∷ entries) =
    let rest = lookup-assign k v entries in
    elim (Bool-cases (text_eq j k)) [ inl b ↦ ground arith | inr b ↦ ground arith ]

-- Another key's entry stays.
pub lookup-assign_other :
    {V : Type 0} (k h : Text) (v : V) (entries : List (Text × V))
    → text_eq k h ≡ false
    → lookup text_eq h (assign text_eq k v entries) ≡ lookup text_eq h entries
unfolding lookup assign
lookup-assign_other k h v [] e = ground arith
lookup-assign_other k h v ((j, w) ∷ entries) e =
    let rest = lookup-assign_other k h v entries e in
    elim (Bool-cases (text_eq j k)) [
      | inl b ↦
          let same = (text_eq_iff j k).0 b in
          let other = ap (λ t. text_eq t h) same ∙ e in ground arith
      | inr b ↦ elim (Bool-cases (text_eq j h)) [ inl c ↦ ground arith | inr c ↦ ground arith ]
    ]
