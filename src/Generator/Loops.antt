-- ===== src/Generator/Loops.antt =====
-- What a loop over a coroutine keeps, and what its success shows of the coroutine.
use clientplugin.Base.{ok_value, ◌≡◌, refl, subst, All, Result, ok, err, stuck, >>=-eq-ok}
use clientplugin.Generator.{Gen, returns, throws, yields, hangs, yielded, outcome, for_each}
use clientplugin.Generator.Bind

module _ {ℓ} {A : Type ℓ} where
  -- Of the state, what each round keeps.
  pub for_each-keeps {κ μ ν} :
      {S : Type κ} (P : A → Type μ) (Q : S → Type ν) (body : S → A → Result S)
      → ((t : S) (a : A) (t' : S) → P a → body t a ≡ ok t' → Q t → Q t')
      → (g : Gen A) (s s' : S) → All P (yielded g)
      → for_each body g s ≡ ok s'
      → Q s
      → Q s'
  unfolding yielded for_each
  for_each-keeps P Q body keeps returns s s' each e q = subst Q (ok_value e) q
  for_each-keeps P Q body keeps (throws x) s s' each e q = cc
  for_each-keeps P Q body keeps (yields a g) s s' each e q =
      let (t, one, rest) = >>=-eq-ok (body s a) _ e in
      for_each-keeps P Q body keeps g t s' each.1 rest (keeps s a t each.0 one q)
  for_each-keeps P Q body keeps hangs s s' each e q = cc

  -- A loop that ends well has passed the whole coroutine, and that has ended well.
  pub for_each-outcome {κ} :
      {S : Type κ} (body : S → A → Result S) (g : Gen A) (s s' : S)
      → for_each body g s ≡ ok s'
      → outcome g ≡ ok tt
  unfolding outcome for_each
  for_each-outcome body returns s s' e = refl
  for_each-outcome body (throws x) s s' e = cc
  for_each-outcome body (yields a g) s s' e =
      let (t, one, rest) = >>=-eq-ok (body s a) _ e in for_each-outcome body g t s' rest
  for_each-outcome body hangs s s' e = cc

  pub bind-outcome {κ} :
      {B : Type κ} (r : Result B) (f : B → Gen A)
      → outcome (Bind.◌>>=◌ r f) ≡ ok tt
      → (b : B) × (r ≡ ok b) × (outcome (f b) ≡ ok tt)
  unfolding outcome
  bind-outcome (ok b) f e = (b, refl, e)
  bind-outcome (err x) f e = cc
  bind-outcome stuck f e = cc

  -- What is yielded behind a result.
  pub bind-yielded {κ μ} :
      {B : Type κ} (P : A → Type μ) (r : Result B) (f : B → Gen A)
      → ((b : B) → r ≡ ok b → All P (yielded (f b)))
      → All P (yielded (Bind.◌>>=◌ r f))
  unfolding yielded
  bind-yielded P (ok b) f h = h b refl
  bind-yielded P (err x) f h = tt
  bind-yielded P stuck f h = tt
