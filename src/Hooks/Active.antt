-- ===== src/Hooks/Active.antt =====
-- What is hooked after a list of frida-gum's calls, as its documentation describes them: an
-- attachment or replacement that gum accepts lasts until the listener is detached or the function is
-- reverted.
use mathlib.Core.List.{append_assoc, append-nil}
use clientplugin.Base.{
  ap, ◌∙◌, ℕ, ◌≡◌, refl, Bool, List, [], ◌∷◌, ◌++◌, inl, inr, Bool-cases, if◌then◌else◌,
}
use clientplugin.Interceptor.{
  GumCall, begin_call, end_call, attach_call, detach_call, replace_call, revert_call,
  begin_transaction, call, end_transaction, detach, revert, attach_call_listener,
  attach_probe_listener, replace,
}
use clientplugin.Hooks.{
  HookSpec, enter_hook, leave_hook, both_hook, replace_hook, Hook, attachment, replacement, Attempt,
  made, threw, World, hook_of, make_call_hook, make_probe_hook, make_replacement_hook, make_hook,
  destroy_hook, destroy_hooks,
}
use clientplugin.Hooks.Cover.{without, without_all}

module _ (attaches replaces : List GumCall → ℕ → ℕ → Bool) where
  -- A call, after the calls before it.
  abbrev effect : List GumCall → GumCall → List Hook → List Hook
  effect before (attach_call a l) ts = if attaches before a l then ts ++ (attachment l ∷ []) else ts
  effect before (replace_call a r) ts =
      if replaces before a r then ts ++ (replacement a ∷ []) else ts
  effect before (detach_call l) ts = without (attachment l) ts
  effect before (revert_call a) ts = without (replacement a) ts
  effect before _ ts = ts

  abbrev active_from : List GumCall → List Hook → List GumCall → List Hook
  active_from before ts [] = ts
  active_from before ts (c ∷ calls) = active_from (before ++ (c ∷ [])) (effect before c ts) calls

  abbrev pub active : List GumCall → List Hook
  active calls = active_from [] [] calls

  active_from-last :
      (before calls : List GumCall) (c : GumCall) (ts : List Hook)
      → active_from before ts (calls ++ (c ∷ []))
        ≡ effect (before ++ calls) c (active_from before ts calls)
  active_from-last before [] c ts = rw (append-nil before) refl
  active_from-last before (d ∷ calls) c ts =
      active_from-last (before ++ (d ∷ [])) calls c (effect before d ts)
      ∙ ap (λ b. effect b c (active_from (before ++ (d ∷ [])) (effect before d ts) calls))
          (append_assoc before (d ∷ []) calls)

  pub active-last :
      (calls : List GumCall) (c : GumCall)
      → active (calls ++ (c ∷ [])) ≡ effect calls c (active calls)
  active-last calls c = active_from-last [] calls c []

  -- What an attempt adds.
  abbrev pub gained : Attempt Hook → List Hook → List Hook
  gained (made h) ts = ts ++ (h ∷ [])
  gained (threw e) ts = ts

  asked :
      (calls : List GumCall) (a l : ℕ)
      → active ((calls ++ (begin_call ∷ [])) ++ (attach_call a l ∷ [])) ≡ (
          if attaches (calls ++ (begin_call ∷ [])) a l
          then active calls ++ (attachment l ∷ [])
          else active calls)
  asked calls a l =
      active-last (calls ++ (begin_call ∷ [])) (attach_call a l)
      ∙ ap
          (λ ts.
            if attaches (calls ++ (begin_call ∷ [])) a l then ts ++ (attachment l ∷ []) else ts)
          (active-last calls begin_call)

  ended : (calls : List GumCall) → active (calls ++ (end_call ∷ [])) ≡ active calls
  ended calls = active-last calls end_call

  make_call_hook-active :
      (a : ℕ) (w : World)
      → active (make_call_hook attaches replaces a w).0.interceptor.calls
        ≡ gained (make_call_hook attaches replaces a w).1 (active w.interceptor.calls)
  unfolding make_call_hook attach_call_listener hook_of begin_transaction call end_transaction
  make_call_hook-active a w =
      let before = w.interceptor.calls ++ (begin_call ∷ []) in
      elim (Bool-cases (attaches before a w.next)) [
        | inl e ↦
            rw (e, make_call_hook, attach_call_listener, hook_of)
              (ended (before ++ (attach_call a w.next ∷ []))
                ∙ asked w.interceptor.calls a w.next
                ∙ rw e refl)
        | inr e ↦
            rw (e, make_call_hook, attach_call_listener, hook_of)
              (asked w.interceptor.calls a w.next ∙ rw e refl)
      ]

  make_probe_hook-active :
      (a : ℕ) (w : World)
      → active (make_probe_hook attaches replaces a w).0.interceptor.calls
        ≡ gained (make_probe_hook attaches replaces a w).1 (active w.interceptor.calls)
  unfolding make_probe_hook attach_probe_listener hook_of begin_transaction call end_transaction
  make_probe_hook-active a w =
      let before = w.interceptor.calls ++ (begin_call ∷ []) in
      elim (Bool-cases (attaches before a w.next)) [
        | inl e ↦
            rw (e, make_probe_hook, attach_probe_listener, hook_of)
              (ended (before ++ (attach_call a w.next ∷ []))
                ∙ asked w.interceptor.calls a w.next
                ∙ rw e refl)
        | inr e ↦
            rw (e, make_probe_hook, attach_probe_listener, hook_of)
              (asked w.interceptor.calls a w.next ∙ rw e refl)
      ]

  make_replacement_hook-active :
      (a r : ℕ) (w : World)
      → active (make_replacement_hook attaches replaces a r w).0.interceptor.calls
        ≡ gained (make_replacement_hook attaches replaces a r w).1 (active w.interceptor.calls)
  unfolding make_replacement_hook replace hook_of call
  make_replacement_hook-active a r w = elim (Bool-cases (replaces w.interceptor.calls a r)) [
    | inl e ↦
        rw (e, make_replacement_hook, replace, hook_of)
          (active-last w.interceptor.calls (replace_call a r) ∙ rw e refl)
    | inr e ↦
        rw (e, make_replacement_hook, replace, hook_of)
          (active-last w.interceptor.calls (replace_call a r) ∙ rw e refl)
  ]

  -- A hook that is made is added to what is hooked; a constructor that throws adds nothing.
  pub make_hook-active :
      (spec : HookSpec) (w : World)
      → active (make_hook attaches replaces spec w).0.interceptor.calls
        ≡ gained (make_hook attaches replaces spec w).1 (active w.interceptor.calls)
  unfolding make_hook
  make_hook-active (enter_hook a) w = make_probe_hook-active a w
  make_hook-active (leave_hook a) w = make_call_hook-active a w
  make_hook-active (both_hook a) w = make_call_hook-active a w
  make_hook-active (replace_hook a r) w = make_replacement_hook-active a r w

  pub destroy_hook-active :
      (h : Hook) (w : World)
      → active (destroy_hook h w).interceptor.calls ≡ without h (active w.interceptor.calls)
  unfolding destroy_hook detach revert call
  destroy_hook-active (attachment l) w = active-last w.interceptor.calls (detach_call l)
  destroy_hook-active (replacement a) w = active-last w.interceptor.calls (revert_call a)

  pub destroy_hooks-active :
      (hs : List Hook) (w : World)
      → active (destroy_hooks hs w).interceptor.calls ≡ without_all hs (active w.interceptor.calls)
  unfolding destroy_hooks
  destroy_hooks-active [] w = refl
  destroy_hooks-active (h ∷ hs) w =
      destroy_hooks-active hs (destroy_hook h w) ∙ ap (without_all hs) (destroy_hook-active h w)
