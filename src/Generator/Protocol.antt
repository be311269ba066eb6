-- ===== src/Generator/Protocol.antt =====
-- The cursor protocol of `Generator` against the plain loop over its yields.
use clientplugin.Base.{ℕ, zero, suc, ◌<◌, ◌≡◌, refl, Result, arith, Result-cases, inl, inr, length}
use clientplugin.Generator.{
  Gen, returns, throws, yields, hangs, range_for, for_each, next, equal, read, yielded,
}

module _ {ℓ κ} {A : Type ℓ} {S : Type κ} (body : S → A → Result S) where
  resumed_loop :
      (g : Gen A) (fuel : ℕ) (s : S)
      → length (yielded g) < fuel
      → range_for body fuel g s ≡ for_each body g s
  unfolding range_for for_each equal next read yielded
  resumed_loop g zero s h = elim h [ ]
  resumed_loop returns (suc fuel) s h = refl
  resumed_loop (throws e) (suc fuel) s h = refl
  resumed_loop hangs (suc fuel) s h = refl
  resumed_loop (yields a g) (suc fuel) s h = elim (Result-cases (body s a)) [
    | inl (s', e) ↦ rw e (resumed_loop g fuel s' (omega arith))
    | inr (inl (x, e)) ↦ rw e
    | inr (inr e) ↦ rw e
  ]

  -- A range-for over a generator runs its body on each value that the coroutine yields, in order,
  -- and passes on an error that the body or the coroutine throws, where it is thrown. One round
  -- more than there are yields is enough.
  pub range_for-for_each :
      (g : Gen A) (s : S) → range_for body (suc (length (yielded g))) g s ≡ for_each body g s
  range_for-for_each g s = resumed_loop g (suc (length (yielded g))) s (omega arith)
