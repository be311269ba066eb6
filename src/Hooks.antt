-- ===== src/Hooks.antt =====
-- src/hook/hook.hpp: the hooks that the modules keep. A hook's constructor asks the interceptor for an
-- attachment or a replacement, and its destructor takes it back.
use clientplugin.Base.{refl, inl, inr, ◌⊎◌, ℕ, suc, ◌≡◌, List, [], ◌∷◌, ◌++◌, Bool, Error}
use clientplugin.Interceptor.{
  GumCall, Interceptor, Outcome, done, failed_to_attach, failed_to_replace, attach_call_listener,
  attach_probe_listener, detach, replace, revert,
}
pub mod Active
pub mod Cover
pub mod Objects
pub mod Context
pub mod Phases

-- What a module asks to hook: the class of the hook, the address, and for a replacement the function.
pub data HookSpec : Type 0 where
  enter_hook leave_hook both_hook : (address : ℕ) → HookSpec
  replace_hook : (address func : ℕ) → HookSpec

-- A hook that exists: its listener, or the member `offset` of a ReplacementHook.
pub data Hook : Type 0 where
  attachment : (listener : ℕ) → Hook
  replacement : (offset : ℕ) → Hook

-- What leaves a constructor by an exception.
pub data Thrown : Type 0 where
  not_hooked : Outcome → Thrown
  other_error : Error → Thrown

pub data Attempt {ℓ} (A : Type ℓ) : Type ℓ where
  made : (value : A) → Attempt A
  threw : (why : Thrown) → Attempt A

pub Attempt-cases {ℓ} :
    {A : Type ℓ} (r : Attempt A) → ((a : A) × (r ≡ made a)) ⊎ ((why : Thrown) × (r ≡ threw why))
Attempt-cases (made a) = inl (a, refl)
Attempt-cases (threw why) = inr (why, refl)

-- The interceptor, and the next listener: each new one is another object.
pub record World : Type 0 where
  pub interceptor : Interceptor
  pub next : ℕ

unfoldable pub hook_of : Outcome → Hook → Attempt Hook
hook_of done h = made h
hook_of (failed_to_attach a) h = threw (not_hooked (failed_to_attach a))
hook_of (failed_to_replace a) h = threw (not_hooked (failed_to_replace a))

module _ (attaches replaces : List GumCall → ℕ → ℕ → Bool) where
  -- _CallAttachmentHook
  unfoldable pub make_call_hook : ℕ → World → World × Attempt Hook
  unfolding hook_of
  make_call_hook address w =
      let asked = attach_call_listener attaches replaces address w.next w.interceptor in
      (record { interceptor = asked.0; next = suc w.next }, hook_of asked.1 (attachment w.next))

  -- _ProbeAttachmentHook
  unfoldable pub make_probe_hook : ℕ → World → World × Attempt Hook
  unfolding hook_of
  make_probe_hook address w =
      let asked = attach_probe_listener attaches replaces address w.next w.interceptor in
      (record { interceptor = asked.0; next = suc w.next }, hook_of asked.1 (attachment w.next))

  -- ReplacementHook
  unfoldable pub make_replacement_hook : ℕ → ℕ → World → World × Attempt Hook
  unfolding hook_of
  make_replacement_hook address func w =
      let asked = replace attaches replaces address func w.interceptor in
      (record w { interceptor = asked.0 }, hook_of asked.1 (replacement address))

  -- The constructors of the classes.
  unfoldable pub make_hook : HookSpec → World → World × Attempt Hook
  unfolding make_call_hook make_probe_hook make_replacement_hook
  make_hook (enter_hook address) w = make_probe_hook address w
  make_hook (leave_hook address) w = make_call_hook address w
  make_hook (both_hook address) w = make_call_hook address w
  make_hook (replace_hook address func) w = make_replacement_hook address func w

-- The destructors.
unfoldable pub destroy_hook : Hook → World → World
destroy_hook (attachment listener) w = record w { interceptor = detach listener w.interceptor }
destroy_hook (replacement offset) w = record w { interceptor = revert offset w.interceptor }

unfoldable pub destroy_hooks : List Hook → World → World
unfolding destroy_hook
destroy_hooks [] w = w
destroy_hooks (h ∷ hs) w = destroy_hooks hs (destroy_hook h w)

-- The functions that the three attachment hooks are made with. C is the context of an invocation, and S is
-- what the functions change.
pub data Callbacks (C S : Type 0) : Type 0 where
  enter_func leave_func : (func : C → S → S) → Callbacks C S
  both_funcs : (enter leave : C → S → S) → Callbacks C S

-- What a hook does when the function that it is attached to is entered (`on_hit` of an AttachmentHookEnter), and
-- when it is left.
unfoldable pub on_enter : {C S : Type 0} → Callbacks C S → C → S → S
on_enter (enter_func func) context s = func context s
on_enter (leave_func func) context s = s
on_enter (both_funcs enter leave) context s = enter context s

unfoldable pub on_leave : {C S : Type 0} → Callbacks C S → C → S → S
on_leave (enter_func func) context s = s
on_leave (leave_func func) context s = func context s
on_leave (both_funcs enter leave) context s = leave context s
