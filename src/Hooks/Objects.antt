-- ===== src/Hooks/Objects.antt =====
-- The objects behind the hooks: the C++ listeners of src/hook/gum/interceptor.cpp, which are the bases of the
-- attachment hooks, and the objects of frida-gum that GumObjectWrapper (src/hook/gum/objectwrapper.hpp) refers to.
-- A listener and its object have one number.
use clientplugin.Base.{
  ℕ, zero, suc, ◌+◌, ◌-◌, ◌≡◌, Bool, true, false, List, [], ◌∷◌, ◌++◌, Result, ok, err, undefined,
  ◌>>=◌, ◌==◌, if◌then◌else◌,
}
use clientplugin.Hooks.{
  HookSpec, enter_hook, leave_hook, both_hook, replace_hook, Hook, attachment, replacement, Attempt,
  made, threw, World, make_hook, destroy_hook, Callbacks, on_enter, on_leave,
}
use clientplugin.Interceptor.{GumCall, Interceptor, get_listener, destroy}
pub mod References
pub mod Freed
pub mod Invoked
mod Runs

-- How many references there are to each object, and whether each listener exists.
pub record Objects : Type 0 where
  pub refs : ℕ → ℕ
  pub alive : ℕ → Bool

abbrev pub set {ℓ} : {A : Type ℓ} → (ℕ → A) → ℕ → A → ℕ → A
set f l v j = if l == j then v else f j

-- `gum_object_ref` and `gum_object_unref`.
pub object_ref : ℕ → Objects → Objects
object_ref l o = record o { refs = set o.refs l (o.refs l + 1) }

pub object_unref : ℕ → Objects → Objects
object_unref l o = record o { refs = set o.refs l (o.refs l - 1) }

-- The constructor and the destructor of GumObjectWrapper.
pub wrap : Bool → ℕ → Objects → Objects
unfolding object_ref
wrap obtain_ref l o = if obtain_ref then object_ref l o else o

pub unwrap : ℕ → Objects → Objects
unfolding object_unref
unwrap l o = object_unref l o

-- How many references an object has when frida-gum has made it.
module _ (new_refs : ℕ) where
  -- The constructors of ProbeListener and CallListener.
  pub make_listener : ℕ → Objects → Objects
  unfolding wrap
  make_listener l o =
      wrap true l (record { refs = set o.refs l new_refs; alive = set o.alive l true })

-- Their destructors.
pub destroy_listener : ℕ → Objects → Objects
unfolding unwrap
destroy_listener l o = record (unwrap l o) { alive = set o.alive l false }

-- `on_hit_wrapper`, `on_enter_wrapper` and `on_leave_wrapper`: frida-gum hands over the listener that it was made
-- with. The callbacks are those of the hook that each listener is the base of.
module _ {C S : Type 0} (callbacks : ℕ → Callbacks C S) where
  pub on_enter_wrapper : C → ℕ → Objects → S → Result S
  unfolding get_listener
  on_enter_wrapper context user_data o s = do
    listener ← get_listener o.alive user_data
    ok (on_enter (callbacks listener) context s)

  pub on_leave_wrapper : C → ℕ → Objects → S → Result S
  unfolding get_listener
  on_leave_wrapper context user_data o s = do
    listener ← get_listener o.alive user_data
    ok (on_leave (callbacks listener) context s)

-- `~Interceptor`, with the listeners that exist.
pub destroy_interceptor : Objects → Interceptor → Result Interceptor
unfolding destroy
destroy_interceptor o i = destroy o.alive i

-- The interceptor, the objects, and the hooks that exist.
pub record Owned : Type 0 where
  pub world : World
  pub objects : Objects
  pub hooks : List Hook

-- The listener is made before it is attached, and destroyed if that throws.
pub keep : World × Attempt Hook → (after after_throw : Objects) → List Hook → Owned
keep (w, made h) after after_throw hooks = record { world = w; objects = after; hooks = h ∷ hooks }
keep (w, threw why) after after_throw hooks = record {
  world = w;
  objects = after_throw;
  hooks = hooks;
}

module _ (attaches replaces : List GumCall → ℕ → ℕ → Bool) (new_refs : ℕ) where
  pub make_owned : HookSpec → Owned → Owned
  unfolding keep make_listener
  make_owned (replace_hook address func) o =
      keep (make_hook attaches replaces (replace_hook address func) o.world) o.objects o.objects
        o.hooks
  make_owned spec o =
      let listener = make_listener new_refs o.world.next o.objects in
      keep (make_hook attaches replaces spec o.world) listener
        (destroy_listener o.world.next listener) o.hooks

-- The destructor of a hook, which is one of those that exist.
pub destroy_owned : Hook → List Hook → Owned → Owned
unfolding destroy_listener
destroy_owned (attachment l) others o = record {
  world = destroy_hook (attachment l) o.world;
  objects = destroy_listener l o.objects;
  hooks = others;
}
destroy_owned (replacement a) others o = record o {
  world = destroy_hook (replacement a) o.world;
  hooks = others;
}
