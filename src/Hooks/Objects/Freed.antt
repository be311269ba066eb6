-- ===== src/Hooks/Objects/Freed.antt =====
-- Which objects are ever given back, and which are read after they are gone.
use clientplugin.Base.{
  ℕ, ◌+◌, ◌<◌, ◌≤◌, ◌≡◌, ◌≢◌, ◌↔◌, refl, sym, ap, ◌∙◌, Bool, true, false, List, [], ◌++◌, err,
  undefined, arith,
}
use clientplugin.Hooks.Objects.{destroy_interceptor, Owned}
use clientplugin.Hooks.Objects.References.{one, holds, Reach, NoHooks, NoHooks-Inv, Reach-Inv}
use clientplugin.Interceptor.{GumCall}
use clientplugin.Interceptor.Destroyed.{destroy-undefined}

dead_of_zero : (b : Bool) → one b ≡ 0 → b ≡ false
dead_of_zero true e = absurd (omega (arith, e))
dead_of_zero false e = refl

one_le_one : (b : Bool) → one b ≤ 1
one_le_one true = omega arith
one_le_one false = omega arith

module _ (attaches replaces : List GumCall → ℕ → ℕ → Bool) (new_refs : ℕ) where
  -- From the first hook on, however hooks are made and destroyed, and whichever frida-gum refuses: of the object of
  -- every listener that was ever made as many references are held as frida-gum gave with it, and one more while
  -- its hook exists. With a reference from frida-gum no such object is ever freed.
  pub refs-Reach :
      {start o : Owned}
      → NoHooks attaches replaces new_refs start
      → Reach attaches replaces new_refs start o
      → (l : ℕ) → l < o.world.next
      → (o.objects.refs l ≡ new_refs + holds l o.hooks) × (holds l o.hooks ≤ 1)
  refs-Reach {start} {o} first r l made =
      let inv =
        Reach-Inv attaches replaces new_refs (NoHooks-Inv attaches replaces new_refs start first)
          r in
      (
        omega (arith, inv.held l made, inv.counted l),
        omega (arith, inv.counted l, one_le_one (o.objects.alive l)),
      )

  -- When all hooks that were made have been destroyed, then the destructor of the interceptor reads a listener that
  -- is gone, if and only if the interceptor keeps a listener.
  pub destroy_interceptor-undefined :
      {start o : Owned}
      → NoHooks attaches replaces new_refs start
      → Reach attaches replaces new_refs start o
      → o.hooks ≡ []
      → (destroy_interceptor o.objects o.world.interceptor ≡ err undefined)
        ↔ (o.world.interceptor.call_listeners ++ o.world.interceptor.probe_listeners ≢ [])
  unfolding destroy_interceptor
  destroy_interceptor-undefined {start} {o} first r gone =
      let inv =
        Reach-Inv attaches replaces new_refs (NoHooks-Inv attaches replaces new_refs start first)
          r in
      let dead : (l : ℕ) → o.objects.alive l ≡ false =
        λ l. dead_of_zero (o.objects.alive l) (sym (inv.counted l) ∙ ap (holds l) gone) in
      destroy-undefined o.objects.alive o.world.interceptor dead
