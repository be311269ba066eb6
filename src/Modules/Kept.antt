-- ===== src/Modules/Kept.antt =====
-- The listeners that the interceptor keeps when the modules have come and gone.
use clientplugin.Base.{
  ℕ, ◌≡◌, ◌≢◌, refl, ◌∙◌, Bool, Bool-cases, inl, inr, List, [], ◌∷◌, ◌++◌, arith,
}
use clientplugin.Interceptor.{
  GumCall, begin_call, begin_transaction, call, end_transaction, attach_probe_listener, detach,
  revert,
}
use clientplugin.Hooks.{
  enter_hook, Hook, attachment, replacement, Attempt-cases, made, threw, Thrown, World, hook_of,
  make_probe_hook, make_hook, destroy_hook, destroy_hooks,
}
use clientplugin.Modules.{
  Module, make_members, make_module, clear, Manager, make_rest, make_manager, destroy_manager,
}

abbrev pub kept : World → List ℕ
kept w = w.interceptor.probe_listeners

last-nonempty : (xs : List ℕ) (x : ℕ) → (xs ++ (x ∷ [])) ≢ []
last-nonempty [] x e = cc
last-nonempty (y ∷ xs) x e = cc

destroy_hooks-kept : (hs : List Hook) (w : World) → kept (destroy_hooks hs w) ≡ kept w
unfolding destroy_hooks destroy_hook detach revert call
destroy_hooks-kept [] w = refl
destroy_hooks-kept (attachment l ∷ hs) w = destroy_hooks-kept hs (destroy_hook (attachment l) w)
destroy_hooks-kept (replacement a ∷ hs) w = destroy_hooks-kept hs (destroy_hook (replacement a) w)

clear-kept : (ms : List (List Hook)) (w : World) → kept (clear ms w) ≡ kept w
unfolding clear
clear-kept [] w = refl
clear-kept (m ∷ ms) w = clear-kept ms (destroy_hooks m w) ∙ destroy_hooks-kept m w

not_made : {A : Type 0} {why : Thrown} {a : A} → threw why ≡ made a → ⊥
not_made f = cc

-- Destructors of hooks take no listener off the interceptor's list.
pub destroy_manager-kept :
    (manager : Manager) (w : World) → kept (destroy_manager manager w) ≡ kept w
unfolding destroy_manager
destroy_manager-kept manager w =
    clear-kept manager.modules (destroy_hooks manager.gfx_overlay w)
    ∙ destroy_hooks-kept manager.gfx_overlay w

module _ (attaches replaces : List GumCall → ℕ → ℕ → Bool) where
  probe-kept :
      (a : ℕ) (w : World) {h : Hook}
      → (make_probe_hook attaches replaces a w).1 ≡ made h
      → kept (make_probe_hook attaches replaces a w).0 ≢ []
  unfolding make_probe_hook attach_probe_listener hook_of begin_transaction call end_transaction
  probe-kept a w e =
      elim (Bool-cases (attaches (w.interceptor.calls ++ (begin_call ∷ [])) a w.next)) [
        | inl y ↦
            rw (y, make_probe_hook, attach_probe_listener)
              (last-nonempty w.interceptor.probe_listeners w.next)
        | inr n ↦ absurd (ground arith)
      ]

  -- A module with one hook of this class.
  abbrev pub IsOneProbe : Module → ℕ → Type 0
  IsOneProbe m a = (m.prepare ≡ made tt) × (m.specs ≡ enter_hook a ∷ [])

  make_module-kept :
      (m : Module) (a : ℕ) (one : IsOneProbe m a) (w : World) {hs : List Hook}
      → (make_module attaches replaces m w).1 ≡ made hs
      → kept (make_module attaches replaces m w).0 ≢ []
  unfolding make_module make_members make_hook
  make_module-kept m a (p, s) w e = elim (Attempt-cases (make_probe_hook attaches replaces a w).1) [
    | inl (h, y) ↦ rw (p, s, y, make_module, make_members) (probe-kept a w y)
    | inr (why, n) ↦ absurd (not_made (rw (p, s, n, make_module, make_members) at e))
  ]

  make_rest-kept :
      (descs : List Module) (overlay : Module) (a : ℕ) (one : IsOneProbe overlay a)
      (modules : List (List Hook)) (w : World) {manager : Manager}
      → (make_rest attaches replaces descs overlay modules w).1 ≡ made manager
      → kept (make_rest attaches replaces descs overlay modules w).0 ≢ []
  unfolding make_rest
  make_rest-kept [] overlay a one modules w e =
      elim (Attempt-cases (make_module attaches replaces overlay w).1) [
        | inl (o, y) ↦ rw (y, make_rest) (make_module-kept overlay a one w y)
        | inr (why, n) ↦ absurd (not_made (rw (n, make_rest) at e))
      ]
  make_rest-kept (desc ∷ descs) overlay a one modules w e =
      elim (Attempt-cases (make_module attaches replaces desc w).1) [
        | inl (m, y) ↦
            rw (y, make_rest)
              (make_rest-kept descs overlay a one (modules ++ (m ∷ []))
                (make_module attaches replaces desc w).0 (rw (y, make_rest) at e))
        | inr (why, n) ↦ absurd (not_made (rw (n, make_rest) at e))
      ]

  -- If the manager is made, and the overlay hooks with one probe, the interceptor keeps a listener.
  pub make_manager-kept :
      (descs : List Module) (overlay : Module) (a : ℕ) (one : IsOneProbe overlay a) (w : World)
      {manager : Manager}
      → (make_manager attaches replaces descs overlay w).1 ≡ made manager
      → kept (make_manager attaches replaces descs overlay w).0 ≢ []
  unfolding make_manager
  make_manager-kept descs overlay a one w e = make_rest-kept descs overlay a one [] w e
