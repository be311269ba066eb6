-- ===== src/Modules/Unhooked.antt =====
-- What is hooked after the modules have been made and destroyed.
use mathlib.Core.List.{append-nil}
use clientplugin.Base.{
  ℕ, ◌≡◌, refl, sym, ap, subst, ◌∙◌, Bool, true, List, [], ◌∷◌, ◌++◌, All, inl, inr, arith,
}
use clientplugin.Interceptor.{GumCall}
use clientplugin.Hooks.{
  HookSpec, Hook, Attempt, Attempt-cases, made, threw, World, make_hook, destroy_hooks,
}
use clientplugin.Hooks.Active.{active, gained, make_hook-active, destroy_hooks-active}
use clientplugin.Hooks.Cover.{
  covers, Covered, covers-append, Covered-map, without_all-Covered, Covered-none, covers-left,
  Covered-add, without_all, without_all-append,
}
use clientplugin.Modules.{
  Module, make_members, make_module, clear, Manager, make_rest, make_manager, destroy_manager,
}

-- The destruction of the members leaves out no hook.
abbrev pub IsComplete : Module → Type 0
IsComplete m =
    (hooks : List Hook) (h : Hook) → covers hooks h ≡ true → covers (m.members hooks) h ≡ true

abbrev concat : List (List Hook) → List Hook
concat [] = []
concat (m ∷ ms) = m ++ concat ms

concat-covers :
    (ms : List (List Hook)) (m : List Hook) (t : Hook)
    → covers (m ++ concat ms) t ≡ true
    → covers (concat (ms ++ (m ∷ []))) t ≡ true
concat-covers [] m t e = e
concat-covers (n ∷ ms) m t e = ground (
  arith,
  covers-append m (n ++ concat ms) t,
  covers-append n (concat ms) t,
  covers-append n (concat (ms ++ (m ∷ []))) t,
  covers-append m (concat ms) t,
  concat-covers ms m t,
)

module _ (attaches replaces : List GumCall → ℕ → ℕ → Bool) where
  abbrev hooked : World → List Hook
  hooked w = active attaches replaces w.interceptor.calls

  -- After an attempt at a module: each hook of the game is the module's or another's.
  abbrev IsKept : List Hook → World × Attempt (List Hook) → Type 0
  IsKept others (w, made hooks) = Covered (hooks ++ others) (hooked w)
  IsKept others (w, threw why) = Covered others (hooked w)

  released :
      (hooks others : List Hook) (w : World)
      → Covered (hooks ++ others) (hooked w)
      → Covered others (hooked (destroy_hooks hooks w))
  released hooks others w c =
      subst (Covered others) (sym (destroy_hooks-active attaches replaces hooks w))
        (without_all-Covered hooks others (hooked w) c)

  make_members-IsKept :
      (order : List Hook → List Hook)
      (all : (hooks : List Hook) (h : Hook) → covers hooks h ≡ true → covers (order hooks) h ≡ true)
      (specs : List HookSpec) (hooks others : List Hook) (w : World)
      → Covered (hooks ++ others) (hooked w)
      → IsKept others (make_members attaches replaces order specs hooks w)
  unfolding make_members
  make_members-IsKept order all [] hooks others w c =
      Covered-map (hooks ++ others) (order hooks ++ others) (hooked w)
        (λ t. covers-left hooks (order hooks) others t (all hooks t)) c
  make_members-IsKept order all (spec ∷ specs) hooks others w c =
      let tried = make_hook attaches replaces spec w in
      let now = make_hook-active attaches replaces spec w in
      elim (Attempt-cases tried.1) [
        | inl (h, e) ↦
            rw (e, make_members)
              (make_members-IsKept order all specs (hooks ++ (h ∷ [])) others tried.0 (
                subst (Covered ((hooks ++ (h ∷ [])) ++ others))
                  (sym (now ∙ ap (λ r. gained attaches replaces r (hooked w)) e))
                  (Covered-add hooks others (hooked w) h c)))
        | inr (why, e) ↦
            rw (e, make_members)
              (released (order hooks) others tried.0 (
                subst (Covered (order hooks ++ others))
                  (sym (now ∙ ap (λ r. gained attaches replaces r (hooked w)) e))
                  (Covered-map (hooks ++ others) (order hooks ++ others) (hooked w)
                    (λ t. covers-left hooks (order hooks) others t (all hooks t)) c)))
      ]

  make_module-IsKept :
      (m : Module) (complete : IsComplete m) (others : List Hook) (w : World)
      → Covered others (hooked w)
      → IsKept others (make_module attaches replaces m w)
  unfolding make_module
  make_module-IsKept m complete others w c = elim (Attempt-cases m.prepare) [
    | inl (u, e) ↦
        rw (e, make_module) (make_members-IsKept m.members complete m.specs [] others w c)
    | inr (why, e) ↦ rw (e, make_module) c
  ]

  clear-active :
      (ms : List (List Hook)) (w : World) → hooked (clear ms w) ≡ without_all (concat ms) (hooked w)
  unfolding clear
  clear-active [] w = refl
  clear-active (m ∷ ms) w =
      clear-active ms (destroy_hooks m w)
      ∙ ap (without_all (concat ms)) (destroy_hooks-active attaches replaces m w)
      ∙ sym (without_all-append m (concat ms) (hooked w))

  cleared :
      (ms : List (List Hook)) (w : World)
      → Covered (concat ms) (hooked w)
      → hooked (clear ms w) ≡ []
  cleared ms w c =
      clear-active ms w
      ∙ Covered-none _ (
          without_all-Covered (concat ms) [] (hooked w)
            (subst (λ hs. Covered hs (hooked w)) (sym (append-nil (concat ms))) c))

  -- After an attempt at the manager: each hook of the game is one of its hooks.
  abbrev IsManaged : World × Attempt Manager → Type 0
  IsManaged (w, made manager) = Covered (manager.gfx_overlay ++ concat manager.modules) (hooked w)
  IsManaged (w, threw why) = hooked w ≡ []

  make_rest-IsManaged :
      (descs : List Module) (overlay : Module) (modules : List (List Hook)) (w : World)
      → All IsComplete descs
      → IsComplete overlay
      → Covered (concat modules) (hooked w)
      → IsManaged (make_rest attaches replaces descs overlay modules w)
  unfolding make_rest
  make_rest-IsManaged [] overlay modules w each complete c =
      let kept = make_module-IsKept overlay complete (concat modules) w c in
      elim (Attempt-cases (make_module attaches replaces overlay w).1) [
        | inl (o, e) ↦
            rw (e, make_rest)
              (subst (λ r. IsKept (concat modules) ((make_module attaches replaces overlay w).0, r))
                e kept)
        | inr (why, e) ↦
            rw (e, make_rest)
              (cleared modules _ (
                subst
                  (λ r. IsKept (concat modules) ((make_module attaches replaces overlay w).0, r)) e
                  kept))
      ]
  make_rest-IsManaged (desc ∷ descs) overlay modules w each complete c =
      let tried = make_module attaches replaces desc w in
      let kept = make_module-IsKept desc each.0 (concat modules) w c in
      elim (Attempt-cases tried.1) [
        | inl (m, e) ↦
            rw (e, make_rest)
              (make_rest-IsManaged descs overlay (modules ++ (m ∷ [])) tried.0 each.1 complete (
                Covered-map (m ++ concat modules) (concat (modules ++ (m ∷ []))) (hooked tried.0)
                  (concat-covers modules m)
                  (subst (λ r. IsKept (concat modules) (tried.0, r)) e kept)))
        | inr (why, e) ↦
            rw (e, make_rest)
              (cleared modules tried.0 (subst (λ r. IsKept (concat modules) (tried.0, r)) e kept))
      ]

  -- The manager has come and gone: its destructor has run if its constructor has returned.
  abbrev pub afterwards : World × Attempt Manager → World
  afterwards (w, made manager) = destroy_manager manager w
  afterwards (w, threw why) = w

  destroyed :
      (made_or_not : World × Attempt Manager)
      → IsManaged made_or_not
      → hooked (afterwards made_or_not) ≡ []
  unfolding destroy_manager
  destroyed (w, made manager) c =
      cleared manager.modules (destroy_hooks manager.gfx_overlay w)
        (released manager.gfx_overlay (concat manager.modules) w c)
  destroyed (w, threw why) c = c

  pub manager-unhooked :
      (g_module_list : List Module) (overlay : Module) (w : World)
      → All IsComplete g_module_list
      → IsComplete overlay
      → active attaches replaces w.interceptor.calls ≡ []
      → active attaches replaces
          (afterwards (make_manager attaches replaces g_module_list overlay w)).interceptor.calls
        ≡ []
  unfolding make_manager
  manager-unhooked descs overlay w each complete e =
      destroyed (make_manager attaches replaces descs overlay w)
        (make_rest-IsManaged descs overlay [] w each complete (subst (Covered []) (sym e) tt))
