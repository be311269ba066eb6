-- ===== src/Patcher/Restore.antt =====
-- What a patcher leaves of the code.
use clientplugin.Base.{
  ℕ, zero, suc, ◌+◌, ◌≤◌, ◌<◌, ◌≡◌, ◌⊎◌, refl, sym, ap, ◌∙◌, inl, inr, Bool, true, false, not, ◌&&◌,
  Bool-cases, Option, List, [], ◌∷◌, length, ==_iff, lt→ltb, arith, some, none, err, undefined, ltb,
  ◌==◌, if◌then◌else◌,
}
use clientplugin.Patcher.{
  Code, peek, poke, X86Patcher, delete_object, Outcome, done, size_mismatch, enable, disable,
  patcher_at, made, make_patcher, Method, enables, disables, call_methods, destroy,
}

poke-outside :
    (a x : ℕ) (bs : List ℕ) (c : Code) → (x < a) ⊎ (a + length bs ≤ x) → poke a bs c x ≡ c x
unfolding poke
poke-outside a x [] c h = refl
poke-outside a x (b ∷ bs) c h = poke-outside (suc a) x bs _ (ground arith) ∙ other
  where
    other : (if x == a then b else c x) ≡ c x
    other = ground arith

-- To write back the bytes that stood somewhere gives the code that stood there.
poke-peek : (n a x : ℕ) (c d : Code) → a ≤ x → x < a + n → poke a (peek c a n) d x ≡ c x
unfolding poke
poke-peek zero a x c d lo hi = absurd (omega arith)
poke-peek (suc n) a x c d lo hi = elim (Bool-cases (x == a)) [
  | inl e ↦ poke-outside (suc a) x (peek c (suc a) n) _ (inl (ground arith)) ∙ here e
  | inr e ↦ poke-peek n (suc a) x c _ (ground arith) (omega arith)
]
  where
    here : (x == a) ≡ true → (if x == a then c a else d x) ≡ c x
    here e = let same = (==_iff x a).0 e in rw (e, same) refl

length-peek : (n a : ℕ) (c : Code) → length (peek c a n) ≡ n
length-peek zero a c = refl
length-peek (suc n) a c = ap suc (length-peek n (suc a) c)

-- Whether an address is before, in or behind a range.
place : (a n x : ℕ) → ((a ≤ x) × (x < a + n)) ⊎ (x < a) ⊎ (a + n ≤ x)
place a n x = ground arith

-- Whether the code is patched after some calls.
abbrev pub patched_after : List Method → Bool → Bool
patched_after [] patched = patched
patched_after (enables ∷ ms) patched = patched_after ms true
patched_after (disables ∷ ms) patched = patched_after ms false

enable-done :
    (p : X86Patcher) (c : Code)
    → length p.function ≤ p.code_size
    → enable p c ≡ (poke p.address p.function c, done)
unfolding enable
enable-done p c fits =
    let small : ltb p.code_size (length p.function) ≡ false = ground arith in
    rw (small, enable) refl

enable-size_mismatch :
    (p : X86Patcher) (c : Code)
    → p.code_size < length p.function
    → enable p c ≡ (poke p.address p.function c, size_mismatch)
unfolding enable
enable-size_mismatch p c large =
    let over = lt→ltb p.code_size (length p.function) large in rw (over, enable) refl

-- A byte that is written does not depend on what stood there.
poke-inside :
    (a x : ℕ) (bs : List ℕ) (c d : Code) → a ≤ x → x < a + length bs → poke a bs c x ≡ poke a bs d x
unfolding poke
poke-inside a x [] c d lo hi = absurd (omega arith)
poke-inside a x (b ∷ bs) c d lo hi = elim (Bool-cases (x == a)) [
  | inl e ↦
      poke-outside (suc a) x bs _ (inl (ground arith))
      ∙ here e
      ∙ sym (poke-outside (suc a) x bs _ (inl (ground arith)))
  | inr e ↦ poke-inside (suc a) x bs _ _ (ground arith) (omega arith)
]
  where
    here : (x == a) ≡ true → (if x == a then b else c x) ≡ (if x == a then b else d x)
    here e = rw e refl

-- The code is as it was, or it is patched.
module _ (address code_size : ℕ) (function : List ℕ) (c : Code)
    (fits : length function ≤ code_size) where
  abbrev IsLeft : Bool → Code → Type 0
  IsLeft patched d = (x : ℕ) → d x ≡ (if patched then poke address function c x else c x)

  patched-IsLeft : (b : Bool) (d : Code) → IsLeft b d → IsLeft true (poke address function d)
  patched-IsLeft b d left x = elim (place address (length function) x) [
    | inl (lo, hi) ↦ poke-inside address x function d c lo hi
    | inr outside ↦
        poke-outside address x function d outside
        ∙ left x
        ∙ either b (poke-outside address x function c outside)
        ∙ sym (poke-outside address x function c outside)
  ]
    where
      either :
          (b : Bool)
          → poke address function c x ≡ c x
          → (if b then poke address function c x else c x) ≡ c x
      either true e = e
      either false e = refl

  restored-IsLeft :
      (b : Bool) (d : Code) → IsLeft b d → IsLeft false (poke address (peek c address code_size) d)
  restored-IsLeft b d left x = elim (place address code_size x) [
    | inl (lo, hi) ↦ poke-peek code_size address x c d lo hi
    | inr outside ↦
        poke-outside address x (peek c address code_size) d (wide outside)
        ∙ left x
        ∙ either b (inner outside)
  ]
    where
      wide :
          (x < address) ⊎ (address + code_size ≤ x)
          → (x < address) ⊎ (address + length (peek c address code_size) ≤ x)
      wide (inl before) = inl before
      wide (inr behind) = inr (omega (arith, length-peek code_size address c, behind))

      inner : (x < address) ⊎ (address + code_size ≤ x) → poke address function c x ≡ c x
      inner (inl before) = poke-outside address x function c (inl before)
      inner (inr behind) = poke-outside address x function c (inr (omega (arith, behind, fits)))

      either :
          (b : Bool)
          → poke address function c x ≡ c x
          → (if b then poke address function c x else c x) ≡ c x
      either true e = e
      either false e = refl

  call_methods-IsLeft :
      (enabled b : Bool) (ms : List Method) (d : Code)
      → IsLeft b d
      → (e : Code) × (call_methods ms (patcher_at address code_size function enabled c) d
          ≡ (e, done))
        × IsLeft (patched_after ms b) e
  unfolding call_methods disable
  call_methods-IsLeft enabled b [] d left = (d, refl, left)
  call_methods-IsLeft enabled b (enables ∷ ms) d left =
      let p = patcher_at address code_size function enabled c in
      let (e, run, after) =
        call_methods-IsLeft enabled true ms (poke address function d) (patched-IsLeft b d left) in
      (
        e,
        ap
              (λ (r : Code × Outcome). elim r.1 as (λ _. Code × Outcome) [
                | done ↦ call_methods ms p r.0
                | size_mismatch ↦ r
              ])
              (enable-done p d fits)
            ∙ run,
        after,
      )
  call_methods-IsLeft enabled b (disables ∷ ms) d left =
      call_methods-IsLeft enabled false ms (poke address (peek c address code_size) d)
        (restored-IsLeft b d left)

  -- If the patch fits, then the constructor makes a patcher, and calls of `enable` and `disable` in any order
  -- return. When the destructor comes to its `delete`, each byte is as it was before the constructor, unless
  -- the patcher was made without being enabled and the last call was of `enable`: then the patch stays. And
  -- that `delete` is undefined.
  pub destroy-call_methods :
      (enabled : Bool) (ms : List Method)
      → (p : X86Patcher) × (e : Code) × ((make_patcher address code_size function enabled c).1
          ≡ some p)
        × (call_methods ms p (make_patcher address code_size function enabled c).0 ≡ (e, done))
        × ((x : ℕ)
            → (destroy p e).0 x
              ≡ (if not enabled && patched_after ms false then poke address function c x else c x))
        × ((destroy p e).1 ≡ err undefined)
  unfolding make_patcher made destroy disable delete_object
  destroy-call_methods false ms =
      let (e, run, left) = call_methods-IsLeft false false ms c (λ x. refl) in
      (patcher_at address code_size function false c, e, refl, run, left, refl)
  destroy-call_methods true ms =
      let p = patcher_at address code_size function true c in
      let whole = ap (λ r. made r p) (enable-done p c fits) in
      let (e, run, left) = call_methods-IsLeft true true ms (poke address function c) (λ x. refl) in
      (
        p,
        e,
        ap (λ r. r.1) whole,
        ap (λ (r : Code × Option X86Patcher). call_methods ms p r.0) whole ∙ run,
        restored-IsLeft (patched_after ms true) e left,
        refl,
      )

-- If the patch does not fit, then the constructor throws, and each byte of the patch stays in the
-- code, those behind the range that was to be patched included.
pub make_patcher-size_mismatch :
    (address code_size : ℕ) (function : List ℕ) (c : Code)
    → code_size < length function
    → make_patcher address code_size function true c ≡ (poke address function c, none)
unfolding make_patcher made
make_patcher-size_mismatch address code_size function c large =
    let p = patcher_at address code_size function true c in
    ap (λ r. made r p) (enable-size_mismatch p c large)
