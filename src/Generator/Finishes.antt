-- ===== src/Generator/Finishes.antt =====
-- Coroutines that come to an end, and the loops over them.
use clientplugin.Base.{
  ◌≡◌, refl, Bool, true, false, All, Error, Result, ok, err, stuck, if◌then◌else◌, Ends, >>=-Ends,
  ok-Ends, err-Ends,
}
use clientplugin.Generator.{
  Gen, returns, throws, yields, hangs, yielded, outcome, for_each, followed_by,
}
use clientplugin.Generator.Bind.{◌>>=◌}

-- The coroutine stops or throws.
abbrev pub Finishes {ℓ} : {A : Type ℓ} → Gen A → Type 0
Finishes g = Ends (outcome g)

pub throws-Finishes {ℓ} : (A : Type ℓ) (x : Error) → Finishes {A = A} (throws x)
unfolding outcome
throws-Finishes A x e = cc

pub returns-Finishes {ℓ} : (A : Type ℓ) → Finishes {A = A} returns
unfolding outcome
returns-Finishes A e = cc

module _ {ℓ} {A : Type ℓ} where
  pub yields-Finishes : (a : A) (g : Gen A) → Finishes g → Finishes (yields a g)
  unfolding outcome
  yields-Finishes a g h = h

  pub bind-Finishes {κ} :
      {B : Type κ} (r : Result B) (f : B → Gen A)
      → Ends r
      → ((b : B) → r ≡ ok b → Finishes (f b))
      → Finishes (r >>= f)
  bind-Finishes (ok b) f er ef = ef b refl
  bind-Finishes (err x) f er ef = throws-Finishes A x
  bind-Finishes stuck f er ef = absurd (er refl)

  pub if-Finishes :
      (b : Bool) (x y : Gen A)
      → (b ≡ true → Finishes x)
      → (b ≡ false → Finishes y)
      → Finishes (if b then x else y)
  if-Finishes true x y ex ey = ex refl
  if-Finishes false x y ex ey = ey refl

  pub followed_by-Finishes : (g h : Gen A) → Finishes g → Finishes h → Finishes (followed_by g h)
  unfolding outcome followed_by
  followed_by-Finishes returns h eg eh = eh
  followed_by-Finishes (throws x) h eg eh = eg
  followed_by-Finishes (yields a g) h eg eh = followed_by-Finishes g h eg eh
  followed_by-Finishes hangs h eg eh = eg

  -- A loop over a coroutine ends if the coroutine does, and the body on what it yields.
  pub for_each-Ends {κ μ} :
      {S : Type κ} (P : A → Type μ) (body : S → A → Result S) (g : Gen A) (s : S)
      → Finishes g
      → All P (yielded g)
      → ((t : S) (a : A) → P a → Ends (body t a))
      → Ends (for_each body g s)
  unfolding outcome yielded for_each
  for_each-Ends P body returns s eg each h = ok-Ends s
  for_each-Ends P body (throws x) s eg each h = err-Ends x
  for_each-Ends P body (yields a g) s eg each h =
      >>=-Ends (body s a) _ (h s a each.0) λ t _. for_each-Ends P body g t eg each.1 h
  for_each-Ends P body hangs s eg each h = absurd (eg refl)

  -- The same where the body ends on everything.
  pub for_each-Ends_always {κ} :
      {S : Type κ} (body : S → A → Result S) (g : Gen A) (s : S)
      → Finishes g
      → ((t : S) (a : A) → Ends (body t a))
      → Ends (for_each body g s)
  unfolding outcome for_each
  for_each-Ends_always body returns s eg h = ok-Ends s
  for_each-Ends_always body (throws x) s eg h = err-Ends x
  for_each-Ends_always body (yields a g) s eg h =
      >>=-Ends (body s a) _ (h s a) λ t _. for_each-Ends_always body g t eg h
  for_each-Ends_always body hangs s eg h = absurd (eg refl)
