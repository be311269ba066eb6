-- ===== src/Profiler/Attached.antt =====
-- The functions that src/modules/profiler.cpp attaches to the game's frames and to the naming of its threads, and what
-- it draws.
use clientplugin.Base.{
  ℕ, ◌≡◌, refl, sym, ap, ◌∙◌, inl, inr, Bool, not, Bool-cases, List, [], ◌∷◌, ◌++◌, Text, codes,
  to_string, uint32_max, ◌==◌, if◌then◌else◌,
}
use mathlib.Core.List.{append_assoc, append-nil}
use clientplugin.Hooks.{Callbacks, enter_func, on_enter, on_leave}
use clientplugin.Hooks.Context.{GumInvocation, get_arg}
use clientplugin.Profiler.{LevelState}

-- What Tracy is told, and what is printed.
pub data Report : Type 0 where
  frame_mark : Report
  thread_named : (name : ℕ) → Report
  not_saved : (id name : ℕ) → Report

module _ {C : Type 0} ⦃gum : GumInvocation C⦄ where
  -- `frame_hook`
  pub frame_callbacks : Callbacks C (List Report)
  frame_callbacks = enter_func (λ context reports. reports ++ (frame_mark ∷ []))

  -- `thread_name_hook`. The id -1 is that of the thread itself.
  pub name_thread : C → List Report → List Report
  name_thread context reports =
      let name = get_arg context 1 in
      let id = get_arg context 0 in
      if not (id == uint32_max)
      then (reports ++ (not_saved id name ∷ []))
      else (reports ++ (thread_named name ∷ []))

  pub thread_name_callbacks : Callbacks C (List Report)
  unfolding name_thread
  thread_name_callbacks = enter_func name_thread

-- `ProfilerMod::draw_overlay`: the two texts, in the mode that is compiled.
pub draw_overlay : LevelState → List Text
draw_overlay state = codes "Mode: Telemetry" ∷ (codes "Level: " ++ to_string state.level) ∷ []

-- `ProfilerMod::should_draw_overlay`
pub should_draw_overlay : Bool → Bool
should_draw_overlay tracy_is_connected = tracy_is_connected

-- The game draws frames and names threads.
pub data Invoked (C : Type 0) : Type 0 where
  frame named : (context : C) → Invoked C

module _ {C : Type 0} ⦃gum : GumInvocation C⦄ where
  -- Each invocation is entered and left.
  pub reported : List (Invoked C) → List Report → List Report
  reported [] reports = reports
  reported (frame c ∷ rest) reports =
      reported rest (on_leave frame_callbacks c (on_enter frame_callbacks c reports))
  reported (named c ∷ rest) reports =
      reported rest (on_leave thread_name_callbacks c (on_enter thread_name_callbacks c reports))

  abbrev pub own_names : List (Invoked C) → List ℕ
  own_names [] = []
  own_names (frame c ∷ rest) = own_names rest
  own_names (named c ∷ rest) =
      let names = own_names rest in if get_arg c 0 == uint32_max then get_arg c 1 ∷ names else names

abbrev pub names_of : List Report → List ℕ
names_of [] = []
names_of (thread_named name ∷ reports) = name ∷ names_of reports
names_of (r ∷ reports) = names_of reports

names_of-append : (xs ys : List Report) → names_of (xs ++ ys) ≡ names_of xs ++ names_of ys
names_of-append [] ys = refl
names_of-append (frame_mark ∷ xs) ys = names_of-append xs ys
names_of-append (thread_named n ∷ xs) ys = ap (λ (r : List ℕ). n ∷ r) (names_of-append xs ys)
names_of-append (not_saved i n ∷ xs) ys = names_of-append xs ys

module _ {C : Type 0} ⦃gum : GumInvocation C⦄ where
  -- Tracy is told the names that threads give to themselves, in their order, and no other.
  pub names_of-reported :
      (calls : List (Invoked C)) (reports : List Report)
      → names_of (reported calls reports) ≡ names_of reports ++ own_names calls
  unfolding reported frame_callbacks thread_name_callbacks on_enter on_leave
  names_of-reported [] reports = sym (append-nil (names_of reports))
  names_of-reported (frame c ∷ rest) reports =
      names_of-reported rest (reports ++ (frame_mark ∷ []))
      ∙ ap (λ (names : List ℕ). names ++ own_names rest)
          (names_of-append reports (frame_mark ∷ []) ∙ append-nil (names_of reports))
  names_of-reported (named c ∷ rest) reports =
      names_of-reported rest (name_thread c reports)
      ∙ elim (Bool-cases (get_arg c 0 == uint32_max)) [
        | inl own ↦
            rw (own, name_thread)
              (ap (λ (names : List ℕ). names ++ own_names rest)
                  (names_of-append reports (thread_named (get_arg c 1) ∷ []))
                ∙ append_assoc (names_of reports) (get_arg c 1 ∷ []) (own_names rest))
        | inr other ↦
            rw (other, name_thread)
              (ap (λ (names : List ℕ). names ++ own_names rest)
                (names_of-append reports (not_saved (get_arg c 0) (get_arg c 1) ∷ [])
                  ∙ append-nil (names_of reports)))
      ]
