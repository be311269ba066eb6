-- ===== src/Hooks/Phases.antt =====
-- The life of an attachment hook of src/hook/hook.hpp among the threads of the game. The constructor of the base
-- attaches the listener before the members of the hook are made, and the destructor of the base
-- detaches it after they are destroyed, while other threads may run the function that is hooked.
use clientplugin.Base.{
  ◌≡◌, refl, ap, ◌∙◌, Bool, true, false, ◌&&◌, Option, none, some, List, [], ◌∷◌, ◌++◌, Result, ok,
  err, undefined, ◌>>=◌, if◌then◌else◌,
}
use clientplugin.Hooks.{Callbacks, on_enter, on_leave}
mod Runs

-- What another thread does: it enters or leaves the function.
pub data Hit (C : Type 0) : Type 0 where
  enters leaves : (context : C) → Hit C

-- What happens to a hook: the base's constructor attaches it, the members are made and destroyed, and the base's
-- destructor detaches it.
pub data Step (C S : Type 0) : Type 0 where
  attaches : Step C S
  makes_members : (callbacks : Callbacks C S) → Step C S
  hits : (hit : Hit C) → Step C S
  destroys_members : Step C S
  detaches : Step C S

-- `members` is none where the object is its base only, whose `on_hit`, `on_enter` and `on_leave` are pure, or its
-- members are destroyed.
pub record Life (C S : Type 0) : Type 0 where
  pub is_attached : Bool
  pub members : Option (Callbacks C S)
  pub state : S

-- The virtual call of a wrapper of the listener.
pub invoke : {C S : Type 0} → Option (Callbacks C S) → Hit C → S → Result S
invoke none hit s = err undefined
invoke (some callbacks) (enters context) s = ok (on_enter callbacks context s)
invoke (some callbacks) (leaves context) s = ok (on_leave callbacks context s)

-- frida-gum calls a listener that is attached.
pub step : {C S : Type 0} → Step C S → Life C S → Result (Life C S)
unfolding invoke
step attaches life = ok (record life { is_attached = true })
step (makes_members callbacks) life = ok (record life { members = some callbacks })
step (hits hit) life =
    if life.is_attached
    then (invoke life.members hit life.state >>= λ s. ok (record life { state = s }))
    else ok life
step destroys_members life = ok (record life { members = none })
step detaches life = ok (record life { is_attached = false })

pub run : {C S : Type 0} → List (Step C S) → Life C S → Result (Life C S)
unfolding step
run [] life = ok life
run (s ∷ steps) life = step s life >>= run steps

abbrev pub all_hits : {C S : Type 0} → List (Hit C) → List (Step C S) → List (Step C S)
all_hits [] steps = steps
all_hits (hit ∷ rest) steps = hits hit ∷ all_hits rest steps

-- The constructor and the destructor, with what the other threads do before the members are made, while the hook is
-- whole, after the members are destroyed, and after the end.
pub hook_life :
    {C S : Type 0} → Callbacks C S → (early during late after : List (Hit C)) → List (Step C S)
hook_life callbacks early during late after =
    attaches
    ∷ all_hits early (
        makes_members callbacks
        ∷ all_hits during (destroys_members ∷ all_hits late (detaches ∷ all_hits after [])))

abbrev pub unmade : {C S : Type 0} → S → Life C S
unmade s = record { is_attached = false; members = none; state = s }

-- The functions that the hook is made with, on each call in turn.
abbrev pub served : {C S : Type 0} → Callbacks C S → List (Hit C) → S → S
served callbacks [] s = s
served callbacks (enters context ∷ rest) s = served callbacks rest (on_enter callbacks context s)
served callbacks (leaves context ∷ rest) s = served callbacks rest (on_leave callbacks context s)

abbrev pub no_hits : {C : Type 0} → List (Hit C) → Bool
no_hits [] = true
no_hits (hit ∷ rest) = false

module _ {C S : Type 0} (callbacks : Callbacks C S) where
  run-during :
      (during : List (Hit C)) (steps : List (Step C S)) (s : S)
      → run
          (all_hits during steps)
          (record { is_attached = true; members = some callbacks; state = s })
        ≡ run steps (record {
          is_attached = true;
          members = some callbacks;
          state = served callbacks during s;
        })
  unfolding run step invoke
  run-during [] steps s = refl
  run-during (enters context ∷ rest) steps s = run-during rest steps (on_enter callbacks context s)
  run-during (leaves context ∷ rest) steps s = run-during rest steps (on_leave callbacks context s)

  run-base :
      (early : List (Hit C)) (steps : List (Step C S)) (s : S)
      → run (all_hits early steps) (record { is_attached = true; members = none; state = s }) ≡ (
          if no_hits early
          then run steps (record { is_attached = true; members = none; state = s })
          else err undefined)
  unfolding run step invoke
  run-base [] steps s = refl
  run-base (hit ∷ rest) steps s = refl

  run-after : (after : List (Hit C)) (s : S) → run (all_hits after []) (unmade s) ≡ ok (unmade s)
  unfolding run step
  run-after [] s = refl
  run-after (hit ∷ rest) s = run-after rest s

  -- A hook runs its functions on the calls that come while it is whole, and no other, if no thread is in the hooked
  -- function between the attachment and the end of the constructor or between the destruction of the
  -- members and the detachment; if one is, the behaviour is undefined.
  pub run-hook_life :
      (early during late after : List (Hit C)) (s : S)
      → run (hook_life callbacks early during late after) (unmade s) ≡ (
          if no_hits early && no_hits late
          then ok (unmade (served callbacks during s))
          else err undefined)
  unfolding run step hook_life
  run-hook_life [] during [] after s =
      run-during during _ s ∙ run-after after (served callbacks during s)
  run-hook_life [] during (hit ∷ late) after s = run-during during _ s
  run-hook_life (hit ∷ early) during late after s = refl
