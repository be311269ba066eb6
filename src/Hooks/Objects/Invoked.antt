-- ===== src/Hooks/Objects/Invoked.antt =====
-- What frida-gum may call: the listeners that are attached.
use clientplugin.Base.{
  ℕ, ◌+◌, ◌<◌, ◌≤◌, ◌≡◌, refl, ap, ◌∙◌, Bool, true, false, List, [], ◌∷◌, ◌++◌, ok, arith, ◌==◌,
  if◌then◌else◌,
}
use clientplugin.Hooks.{
  HookSpec, enter_hook, leave_hook, both_hook, replace_hook, Hook, attachment, replacement, Attempt,
  made, threw, World, make_hook, Callbacks, on_enter, on_leave,
}
use clientplugin.Hooks.Active.{active, gained, make_hook-active, destroy_hook-active}
use clientplugin.Hooks.Cover.{without}
use clientplugin.Hooks.Objects.{
  Objects, on_enter_wrapper, on_leave_wrapper, Owned, keep, make_owned, destroy_owned,
}
use clientplugin.Hooks.Objects.References.{
  one, holds, holds-middle, makes, destroys, Reach, here, next, NoHooks, NoHooks-Inv, Reach-Inv,
}
use clientplugin.Interceptor.{GumCall, get_listener}

-- What is left without a hook.
holds-without_attachment :
    (l k : ℕ) (xs : List Hook)
    → holds l (without (attachment k) xs) + (if k == l then holds l xs else 0) ≡ holds l xs
holds-without_attachment l k [] = ground arith
holds-without_attachment l k (attachment j ∷ xs) = ground (arith, holds-without_attachment l k xs)
holds-without_attachment l k (replacement a ∷ xs) = ground (arith, holds-without_attachment l k xs)

holds-without_replacement :
    (l a : ℕ) (xs : List Hook) → holds l (without (replacement a) xs) ≡ holds l xs
holds-without_replacement l a [] = refl
holds-without_replacement l a (attachment j ∷ xs) =
    ap (λ (n : ℕ). one (j == l) + n) (holds-without_replacement l a xs)
holds-without_replacement l a (replacement b ∷ xs) =
    ground (arith, holds-without_replacement l a xs)

append-nil_cons : (xs : List Hook) → xs ++ [] ≡ xs
append-nil_cons [] = refl
append-nil_cons (x ∷ xs) = ap (λ (t : List Hook). x ∷ t) (append-nil_cons xs)

holds-last : (l : ℕ) (xs : List Hook) (h : Hook) → holds l (xs ++ (h ∷ [])) ≡ holds l (h ∷ xs)
holds-last l xs h =
    holds-middle l xs h [] ∙ ap (λ (t : List Hook). holds l (h ∷ t)) (append-nil_cons xs)

module _ (attaches replaces : List GumCall → ℕ → ℕ → Bool) (new_refs : ℕ) where
  -- What is attached belongs to a hook that exists.
  abbrev Safe : Owned → Type 0
  Safe o = (l : ℕ) → holds l (active attaches replaces o.world.interceptor.calls) ≤ holds l o.hooks

  holds-cons :
      (l : ℕ) (h : Hook) (xs ys : List Hook)
      → holds l xs ≤ holds l ys
      → holds l (h ∷ xs) ≤ holds l (h ∷ ys)
  holds-cons l (attachment k) xs ys le = omega (arith, le)
  holds-cons l (replacement a) xs ys le = le

  keep-Safe :
      (tried : World × Attempt Hook) (o : Owned) (after after_throw : Objects)
      → active attaches replaces tried.0.interceptor.calls
        ≡ gained attaches replaces tried.1 (active attaches replaces o.world.interceptor.calls)
      → Safe o
      → Safe (keep tried after after_throw o.hooks)
  unfolding keep
  keep-Safe (w, made h) o after after_throw e safe l =
      rw (e, holds-last l (active attaches replaces o.world.interceptor.calls) h)
        (holds-cons l h (active attaches replaces o.world.interceptor.calls) o.hooks (safe l))
  keep-Safe (w, threw why) o after after_throw e safe l = rw e (safe l)

  made-Safe :
      (spec : HookSpec) (o : Owned) → Safe o → Safe (make_owned attaches replaces new_refs spec o)
  unfolding make_owned
  made-Safe (enter_hook a) o safe =
      keep-Safe (make_hook attaches replaces (enter_hook a) o.world) o _ _
        (make_hook-active attaches replaces (enter_hook a) o.world) safe
  made-Safe (leave_hook a) o safe =
      keep-Safe (make_hook attaches replaces (leave_hook a) o.world) o _ _
        (make_hook-active attaches replaces (leave_hook a) o.world) safe
  made-Safe (both_hook a) o safe =
      keep-Safe (make_hook attaches replaces (both_hook a) o.world) o _ _
        (make_hook-active attaches replaces (both_hook a) o.world) safe
  made-Safe (replace_hook a f) o safe =
      keep-Safe (make_hook attaches replaces (replace_hook a f) o.world) o _ _
        (make_hook-active attaches replaces (replace_hook a f) o.world) safe

  destroyed-Safe :
      (h : Hook) (before after : List Hook) (o : Owned)
      → o.hooks ≡ before ++ (h ∷ after)
      → Safe o
      → Safe (destroy_owned h (before ++ after) o)
  unfolding destroy_owned
  destroyed-Safe (attachment k) before after o e safe l =
      let split : holds l o.hooks ≡ one (k == l) + holds l (before ++ after) =
        ap (holds l) e ∙ holds-middle l before (attachment k) after in
      rw (destroy_hook-active attaches replaces (attachment k) o.world) (
        ground (
          arith,
          safe l,
          split,
          holds-without_attachment l k (active attaches replaces o.world.interceptor.calls),
        ))
  destroyed-Safe (replacement a) before after o e safe l =
      let split : holds l o.hooks ≡ holds l (before ++ after) =
        ap (holds l) e ∙ holds-middle l before (replacement a) after in
      rw
        (
          destroy_hook-active attaches replaces (replacement a) o.world,
          holds-without_replacement l a (active attaches replaces o.world.interceptor.calls),
          ← split,
        )
        (safe l)

  Reach-Safe : {start o : Owned} → Safe start → Reach attaches replaces new_refs start o → Safe o
  Reach-Safe safe here = safe
  Reach-Safe safe (next r (makes spec o)) = made-Safe spec o (Reach-Safe safe r)
  Reach-Safe safe (next r (destroys h before after o e)) =
      destroyed-Safe h before after o e (Reach-Safe safe r)

  exists_of : (b : Bool) (n : ℕ) → 0 < n → n ≤ one b → b ≡ true
  exists_of true n p q = refl
  exists_of false n p q = absurd (omega (arith, p, q))

  -- From the first hook on, however hooks are made and destroyed, and whichever frida-gum refuses: a listener that is
  -- attached exists, so that what frida-gum calls when the function is entered and left reaches the hook's own
  -- functions.
  pub attached-alive :
      {C S : Type 0} (callbacks : ℕ → Callbacks C S) {start o : Owned}
      → NoHooks attaches replaces new_refs start
      → active attaches replaces start.world.interceptor.calls ≡ []
      → Reach attaches replaces new_refs start o
      → (l : ℕ) → 0 < holds l (active attaches replaces o.world.interceptor.calls)
      → (context : C) (s : S)
      → (on_enter_wrapper callbacks context l o.objects s ≡ ok (on_enter (callbacks l) context s))
        × (on_leave_wrapper callbacks context l o.objects s ≡ ok (on_leave (callbacks l) context s))
  unfolding on_enter_wrapper on_leave_wrapper get_listener
  attached-alive callbacks {start} {o} first unhooked r l attached context s =
      let inv =
        Reach-Inv attaches replaces new_refs (NoHooks-Inv attaches replaces new_refs start first)
          r in
      let safe = Reach-Safe (λ k. rw unhooked (omega arith)) r in
      let alive : o.objects.alive l ≡ true =
        exists_of (o.objects.alive l) (holds l (active attaches replaces o.world.interceptor.calls))
          attached (omega (arith, safe l, inv.counted l)) in
      rw alive (refl, refl)
