-- ===== src/Hooks/Objects/Runs.antt =====
-- A run of src/hook: one hook is made and destroyed.
use clientplugin.Base.{
  ℕ, ◌+◌, ◌≡◌, ◌≢◌, ◌↔◌, refl, Bool, true, false, List, [], ◌++◌, ok, err, undefined, ◌≤◌, arith,
}
use clientplugin.Hooks.{
  attachment, enter_hook, make_hook, make_probe_hook, hook_of, destroy_hook, Callbacks, enter_func,
  on_enter, on_leave,
}
use clientplugin.Hooks.Objects.{
  Owned, make_owned, destroy_owned, destroy_interceptor, on_enter_wrapper, on_leave_wrapper,
}
use clientplugin.Hooks.Objects.Invoked.{attached-alive}
use clientplugin.Hooks.Objects.Freed.{refs-Reach, destroy_interceptor-undefined}
use clientplugin.Hooks.Objects.References.{holds, makes, destroys, Reach, here, next}
use clientplugin.Interceptor.{
  GumCall, make_interceptor, attach_probe_listener, begin_transaction, call, end_transaction,
}

accepts : List GumCall → ℕ → ℕ → Bool
accepts calls address what = true

abbrev nothing_hooked : Owned
nothing_hooked = record {
  world = record { interceptor = make_interceptor; next = 0 };
  objects = record { refs = λ l. 0; alive = λ l. false };
  hooks = [];
}

abbrev one_hooked : Owned
one_hooked = make_owned accepts accepts 1 (enter_hook 4096) nothing_hooked

abbrev unhooked : Owned
unhooked = destroy_owned (attachment 0) [] one_hooked

comes_and_goes : Reach accepts accepts 1 nothing_hooked unhooked
unfolding make_owned make_hook make_probe_hook attach_probe_listener hook_of accepts
comes_and_goes =
    next (next here (makes (enter_hook 4096) nothing_hooked))
      (destroys (attachment 0) [] [] one_hooked refl)

refs-Reach_example :
    (unhooked.objects.refs 0 ≡ 1 + holds 0 unhooked.hooks) × (holds 0 unhooked.hooks ≤ 1)
unfolding make_owned make_hook make_probe_hook attach_probe_listener hook_of accepts destroy_owned
    destroy_hook
refs-Reach_example =
    refs-Reach accepts accepts 1 (refl, λ l. refl, refl) comes_and_goes 0 (omega arith)

destroy_interceptor-undefined_example :
    (destroy_interceptor unhooked.objects unhooked.world.interceptor ≡ err undefined)
    ↔ (unhooked.world.interceptor.call_listeners ++ unhooked.world.interceptor.probe_listeners ≢ [])
unfolding destroy_owned
destroy_interceptor-undefined_example =
    destroy_interceptor-undefined accepts accepts 1 (refl, λ l. refl, refl) comes_and_goes refl

-- A function that adds its context up.
abbrev adds : ℕ → Callbacks ℕ ℕ
adds listener = enter_func (λ context sum. sum + context)

attached-alive_example :
    (on_enter_wrapper adds 5 0 one_hooked.objects 2 ≡ ok (on_enter (adds 0) 5 2))
    × (on_leave_wrapper adds 5 0 one_hooked.objects 2 ≡ ok (on_leave (adds 0) 5 2))
unfolding make_owned make_hook make_probe_hook attach_probe_listener hook_of accepts
    make_interceptor begin_transaction call end_transaction
attached-alive_example =
    attached-alive accepts accepts 1 adds (refl, λ l. refl, refl) refl
      (next here (makes (enter_hook 4096) nothing_hooked)) 0 (omega arith) 5 2
