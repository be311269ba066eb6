-- ===== src/PartyChat/Terminated.antt =====
-- Whether the name that the party chat is given ends.
use clientplugin.Base.{
  ℕ, zero, suc, ◌/◌, ◌≤◌, ◌<◌, ◌≡◌, ◌≢◌, ◌↔◌, refl, inl, inr, ◌⊎◌, All, List, [], ◌∷◌, length, Text,
  ok, arith,
}
use clientplugin.PartyChat.{wcsncpy, test_name, get_player_name_for_steam_id}

-- A null character among the first n, and no character behind them is looked at.
abbrev pub IsTerminated : ℕ → List ℕ → Type 0
IsTerminated zero cs = ⊥
IsTerminated (suc n) [] = ⊥
IsTerminated (suc n) (c ∷ cs) = (c ≡ 0) ⊎ IsTerminated n cs

copied :
    (n : ℕ) (src : Text) (dest : List ℕ)
    → All (λ c. c ≢ 0) src
    → n ≤ length dest
    → (after : List ℕ) × (wcsncpy n src dest ≡ ok after) × (IsTerminated n after ↔ length src < n)
unfolding wcsncpy
copied zero src dest letters h = (dest, refl, (λ t. absurd t, λ l. absurd (omega arith)))
copied (suc n) src [] letters h = absurd (omega arith)
copied (suc n) [] (d ∷ dest) letters h =
    let (rest, e, _) = copied n [] dest tt (omega arith) in
    (0 ∷ rest, rw (e, wcsncpy) refl, (λ t. omega arith, λ l. inl refl))
copied (suc n) (c ∷ src) (d ∷ dest) letters h =
    let (rest, e, ends) = copied n src dest letters.1 (omega arith) in
    (
      c ∷ rest,
      rw (e, wcsncpy) refl,
      (
        λ t. elim t [ inl z ↦ absurd (letters.0 z) | inr r ↦ omega (arith, ends.0 r) ],
        λ l. inr (ends.1 (omega arith)),
      ),
    )

test_name-letters : All (λ c. c ≢ 0) test_name
test_name-letters = ground arith

-- If the buffer is as long as `len` says, then the name is written, and it ends within the buffer if and only if
-- that has 20 bytes.
pub party_name-IsTerminated :
    (name : List ℕ) (len : ℕ)
    → len / 4 ≤ length name
    → (after : List ℕ) × (get_player_name_for_steam_id name len ≡ ok after)
      × (IsTerminated (len / 4) after ↔ 20 ≤ len)
unfolding get_player_name_for_steam_id
party_name-IsTerminated name len h =
    let (after, e, ends) = copied (len / 4) test_name name test_name-letters h in
    (after, e, (λ t. four (ends.0 t), λ l. ends.1 (four' l)))
  where
    four : 4 < len / 4 → 20 ≤ len
    four l = omega arith

    four' : 20 ≤ len → 4 < len / 4
    four' l = omega arith
