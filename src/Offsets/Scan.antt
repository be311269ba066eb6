-- ===== src/Offsets/Scan.antt =====
-- `SharedLibSignature::get_address`: which window the scan finds.
use clientplugin.Base.{
  ℕ, zero, suc, ◌+◌, ◌<◌, ◌≤◌, bit_and, ◌≡◌, ◌↔◌, refl, sym, subst, inl, inr, ◌⊎◌, true, false,
  Bool-cases, some, List, [], ◌∷◌, length, arith, Text, text_eq, lookup, Memory, Holds, load, ok,
  err, Result-cases, no_pattern, ◌==◌, add32,
}
use clientplugin.RangeChecker.{DataRange}
use clientplugin.Offsets.{
  ModuleRangeMap, ModuleVtables, shared_lib_signature, window_matches, scan, windows_of,
  get_address,
}

-- Each byte agrees with the signature in the bits of the mask.
abbrev pub Masked : List ℕ → List ℕ → List ℕ → Type 0
Masked (b ∷ bs) (s ∷ ss) (k ∷ ks) = (bit_and b k ≡ bit_and s k) × Masked bs ss ks
Masked _ _ _ = Unit {0}

-- If as many bytes stand at p as the signature and the mask have, then the comparison succeeds if
-- and only if each byte agrees with the signature in the bits of the mask.
pub window_matches_lem :
    (m : Memory) (p : ℕ) (bytes signature mask : List ℕ)
    → Holds m p bytes
    → length signature ≡ length bytes
    → length mask ≡ length bytes
    → (window_matches m p signature mask ≡ ok true) ↔ Masked bytes signature mask
unfolding window_matches load
window_matches_lem m p [] [] [] h l k = (λ _. tt, λ _. refl)
window_matches_lem m p [] [] (y ∷ ys) h l k = absurd (ground arith)
window_matches_lem m p [] (x ∷ xs) mask h l k = absurd (ground arith)
window_matches_lem m p (b ∷ bytes) [] mask h l k = absurd (ground arith)
window_matches_lem m p (b ∷ bytes) (x ∷ xs) [] h l k = absurd (ground arith)
window_matches_lem m p (b ∷ bytes) (x ∷ xs) (y ∷ ys) (here, h) l k =
    let rest = window_matches_lem m (add32 p 1) bytes xs ys h (ground arith) (ground arith) in
    elim (Bool-cases (bit_and b y == bit_and x y)) [
      | inl same ↦ (
        λ e. (ground arith, rest.0 (ground arith)),
        λ masked. let e = rest.1 masked.1 in ground arith,
      )
      | inr other ↦ (λ e. absurd (ground arith), λ masked. absurd (ground arith))
    ]

eq-or-lt : (a b : ℕ) → a ≤ b → (a ≡ b) ⊎ (a < b)
eq-or-lt a b h = ground arith

module _ (m : Memory) (signature mask : List ℕ) where
  -- The first window that matches, of those from the one at idx on.
  pub record IsFirst (begin idx i : ℕ) : Type 0 where
    pub matches : window_matches m (add32 begin i) signature mask ≡ ok true
    pub earlier :
        (j : ℕ) → idx ≤ j → j < i → window_matches m (add32 begin j) signature mask ≡ ok false

  scan-IsFirst :
      (begin idx windows a : ℕ)
      → scan m begin signature mask idx windows ≡ ok a
      → (i : ℕ) × (idx ≤ i) × (i < idx + windows) × (a ≡ add32 i begin) × IsFirst begin idx i
  unfolding scan
  scan-IsFirst begin idx zero a e = absurd (ground arith)
  scan-IsFirst begin idx (suc windows) a e =
      elim (Result-cases (window_matches m (add32 begin idx) signature mask)) [
        | inr (inl (x, r)) ↦ absurd (ground arith)
        | inr (inr r) ↦ absurd (ground arith)
        | inl (true, r) ↦ (
          idx,
          omega arith,
          omega arith,
          ground arith,
          record { matches = r; earlier = λ j lo hi. absurd (omega arith) },
        )
        | inl (false, r) ↦
            let (i, lo, hi, v, f) = scan-IsFirst begin (suc idx) windows a (ground arith) in
            (
              i,
              omega arith,
              omega arith,
              v,
              record { matches = f.matches; earlier = earlier_or begin idx i r f },
            )
      ]
    where
      earlier_or :
          (begin idx i : ℕ)
          → window_matches m (add32 begin idx) signature mask ≡ ok false
          → IsFirst begin (suc idx) i
          → (j : ℕ) → idx ≤ j
          → j < i
          → window_matches m (add32 begin j) signature mask ≡ ok false
      earlier_or begin idx i r f j lo hi = elim (eq-or-lt idx j lo) [
        | inl e ↦ subst (λ k. window_matches m (add32 begin k) signature mask ≡ ok false) e r
        | inr after ↦ f.earlier j after hi
      ]

  IsFirst-scan :
      (begin idx windows i : ℕ)
      → idx ≤ i
      → i < idx + windows
      → IsFirst begin idx i
      → scan m begin signature mask idx windows ≡ ok (add32 i begin)
  unfolding scan
  IsFirst-scan begin idx zero i lo hi f = absurd (omega arith)
  IsFirst-scan begin idx (suc windows) i lo hi f = elim (eq-or-lt idx i lo) [
    | inl e ↦
        let here =
          subst (λ k. window_matches m (add32 begin k) signature mask ≡ ok true) (sym e)
            f.matches in
        ground arith
    | inr after ↦
        let now = f.earlier idx (omega arith) after in
        let later =
          IsFirst-scan begin (suc idx) windows i after (omega arith)
            (record { matches = f.matches; earlier = λ j from to. f.earlier j (omega arith) to }) in
        ground arith
  ]

  scan-none :
      (begin idx windows : ℕ)
      → ((j : ℕ)
          → idx ≤ j
          → j < idx + windows
          → window_matches m (add32 begin j) signature mask ≡ ok false)
      → scan m begin signature mask idx windows ≡ err no_pattern
  unfolding scan
  scan-none begin idx zero none_ = refl
  scan-none begin idx (suc windows) none_ =
      let now = none_ idx (omega arith) (omega arith) in
      let later =
        scan-none begin (suc idx) windows (λ j lo hi. none_ j (omega arith) (omega arith)) in
      ground arith

module _ (dlopen : Text → ℕ) (dlsym : ℕ → Text → ℕ) (m : Memory) (modules : ModuleRangeMap)
    (vtables : ModuleVtables) (lib : Text) (signature mask : List ℕ) (range : DataRange) where
  -- If the module has a range, then the window i of it is the address found if it is the first that
  -- matches.
  pub get_address-finds :
      (i : ℕ)
      → lookup text_eq lib modules ≡ some range
      → i < windows_of range signature
      → IsFirst m signature mask range.begin 0 i
      → get_address dlopen dlsym m modules vtables (shared_lib_signature lib signature mask)
        ≡ ok (add32 i range.begin)
  unfolding get_address
  get_address-finds i e hi f = rw e (
      IsFirst-scan m signature mask range.begin 0 (windows_of range signature) i (omega arith)
        (omega (arith, hi)) f)

  -- If the module has a range, then an address that is found is that of the first window of the
  -- range that matches.
  pub get_address-IsFirst :
      (a : ℕ)
      → lookup text_eq lib modules ≡ some range
      → get_address dlopen dlsym m modules vtables (shared_lib_signature lib signature mask) ≡ ok a
      → (i : ℕ) × (i < windows_of range signature)
        × (a ≡ add32 i range.begin)
        × IsFirst m signature mask range.begin 0 i
  unfolding get_address
  get_address-IsFirst a e found =
      let (i, lo, hi, v, f) =
        scan-IsFirst m signature mask range.begin 0 (windows_of range signature) a
          (rw e at found) in
      (i, omega (arith, hi), v, f)

  -- If the module has a range and none of its windows matches, then the search throws that there is
  -- no such pattern.
  pub get_address-no_pattern :
      lookup text_eq lib modules ≡ some range
      → ((j : ℕ)
          → j < windows_of range signature
          → window_matches m (add32 range.begin j) signature mask ≡ ok false)
      → get_address dlopen dlsym m modules vtables (shared_lib_signature lib signature mask)
        ≡ err no_pattern
  unfolding get_address
  get_address-no_pattern e none_ = rw e (
      scan-none m signature mask range.begin 0 (windows_of range signature)
        (λ j lo hi. none_ j (omega (arith, hi))))
