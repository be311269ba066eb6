-- ===== src/Offsets/Init/Tasks.antt =====
-- The tasks of `init_offsets`, which the scheduler runs at the same time. A task appends ranges to one vector and
-- inserts vtables into one map, those of its base name; each of these is a write here. A schedule is the
-- order in which the writes of all tasks come.
use clientplugin.Base.{
  ℕ, ◌≡◌, refl, sym, ap, subst, ◌∙◌, inl, inr, Bool, true, false, Bool-cases, Option, none, some,
  List, [], ◌∷◌, ◌++◌, map, All, Text, text_eq, text_eq_iff, insert, Memory, Result, ok, err, ◌>>=◌,
  arith, if◌then◌else◌,
}
use clientplugin.EhFrame.{get_eh_frame_ranges}
use clientplugin.Generator.{yielded}
use clientplugin.LoadedModule.{Elf, LoadedModule, load_module}
use clientplugin.Offsets.{Vtables, ModuleRangeMap}
use clientplugin.RangeChecker.{DataRange}
use clientplugin.Rtti.Vtables.{Vtable, get_vtables_from_module}
pub mod Sequential
mod Runs

pub data Write : Type 0 where
  pushes_range : DataRange → Write
  inserts_vtable : Vtable → Write

-- What one base name has: `mod_eh_frame_ranges` and `vtables`.
abbrev pub Entry : Type 0
Entry = List DataRange × Vtables

pub apply : Write → Entry → Entry
apply (pushes_range r) e = (e.0 ++ (r ∷ []), e.1)
apply (inserts_vtable v) e = (e.0, insert text_eq v.0 v.1 e.1)

pub apply_all : List Write → Entry → Entry
unfolding apply
apply_all [] e = e
apply_all (w ∷ ws) e = apply_all ws (apply w e)

-- The tables, by base name.
pub run : List (Text × Write) → (Text → Entry) → Text → Entry
unfolding apply
run [] entries = entries
run ((k, w) ∷ schedule) entries =
    run schedule (λ j. if text_eq k j then apply w (entries k) else entries j)

-- A task that has a write left makes it.
pub data Takes : List (Text × List Write) → Text → Write → List (Text × List Write) → Type 0 where
  first :
      {k : Text} {w : Write} {ws : List Write} {tasks : List (Text × List Write)}
      → Takes ((k, w ∷ ws) ∷ tasks) k w ((k, ws) ∷ tasks)
  other :
      {t : Text × List Write} {k : Text} {w : Write} {tasks tasks' : List (Text × List Write)}
      → Takes tasks k w tasks'
      → Takes (t ∷ tasks) k w (t ∷ tasks')

-- The schedules of some tasks: in the end no task has a write left.
pub data Schedules : List (Text × List Write) → List (Text × Write) → Type 0 where
  finished :
      {tasks : List (Text × List Write)}
      → All (λ (t : Text × List Write). t.1 ≡ []) tasks
      → Schedules tasks []
  then_ :
      {tasks tasks' : List (Text × List Write)} {k : Text} {w : Write}
      {schedule : List (Text × Write)}
      → Takes tasks k w tasks'
      → Schedules tasks' schedule
      → Schedules tasks ((k, w) ∷ schedule)

-- What a task writes: what the two coroutines yield.
module _ (sort : List ℕ → List ℕ) (open_elf : Text → Elf) (m : Memory) where
  pub writes_of : LoadedModule → List Write
  writes_of loaded_mod =
      map pushes_range (yielded (get_eh_frame_ranges m loaded_mod))
      ++ map inserts_vtable (yielded (get_vtables_from_module sort m loaded_mod))

  pub task_writes : Text → DataRange → List Write
  unfolding writes_of
  task_writes mod_name mod_range = elim (load_module (open_elf mod_name) mod_range) [
    | ok loaded_mod ↦ writes_of loaded_mod
    | _ ↦ []
  ]

  -- The tasks that the loop over the modules schedules.
  pub tasks_of : (Option Text → Result Text) → ModuleRangeMap → Result (List (Text × List Write))
  unfolding task_writes
  tasks_of basename [] = ok []
  tasks_of basename ((mod_name, mod_range) ∷ modules) = do
    fname ← basename (some mod_name)
    rest ← tasks_of basename modules
    ok ((fname, task_writes mod_name mod_range) ∷ rest)

-- What is written under one name.
abbrev pub writes_for : Text → List (Text × List Write) → List Write
writes_for k [] = []
writes_for k ((j, ws) ∷ tasks) =
    let rest = writes_for k tasks in if text_eq j k then ws ++ rest else rest

abbrev own : Text → List (Text × Write) → List Write
own k [] = []
own k ((j, w) ∷ schedule) = let rest = own k schedule in if text_eq j k then w ∷ rest else rest

-- No two tasks have one base name.
abbrev pub Distinct : List (Text × List Write) → Type 0
Distinct [] = Unit {0}
Distinct ((k, ws) ∷ tasks) =
    All (λ (t : Text × List Write). text_eq k t.0 ≡ false) tasks × Distinct tasks

-- The writes under other names leave an entry alone.
run-own :
    (schedule : List (Text × Write)) (entries : Text → Entry) (k : Text)
    → run schedule entries k ≡ apply_all (own k schedule) (entries k)
unfolding run apply_all
run-own [] entries k = refl
run-own ((j, w) ∷ schedule) entries k = elim (Bool-cases (text_eq j k)) [
  | inl y ↦
      run-own schedule _ k
      ∙ subst
          (λ (i : Text).
            apply_all (own k schedule) (if text_eq j k then apply w (entries j) else entries k)
            ≡ apply_all (own k schedule) (if text_eq j k then apply w (entries i) else entries k))
          ((text_eq_iff j k).0 y) refl
      ∙ rw y refl
  | inr n ↦ run-own schedule _ k ∙ rw n refl
]

abbrev Apart : Text → List (Text × List Write) → Type 0
Apart i tasks = All (λ (t : Text × List Write). text_eq i t.0 ≡ false) tasks

Takes-Apart :
    (i : Text) {k : Text} {w : Write} {tasks tasks' : List (Text × List Write)}
    → Takes tasks k w tasks'
    → Apart i tasks
    → (text_eq i k ≡ false) × Apart i tasks'
Takes-Apart i first apart = (apart.0, (apart.0, apart.1))
Takes-Apart i (other t) apart = let (e, rest) = Takes-Apart i t apart.1 in (e, (apart.0, rest))

Takes-Distinct :
    {k : Text} {w : Write} {tasks tasks' : List (Text × List Write)}
    → Takes tasks k w tasks'
    → Distinct tasks
    → Distinct tasks'
Takes-Distinct first d = d
Takes-Distinct (other {t} r) d = ((Takes-Apart t.0 r d.0).1, Takes-Distinct r d.1)

Takes-writes :
    (j : Text) {k : Text} {w : Write} {tasks tasks' : List (Text × List Write)}
    → Takes tasks k w tasks'
    → Distinct tasks
    → writes_for j tasks ≡ (if text_eq k j then w ∷ writes_for j tasks' else writes_for j tasks')
Takes-writes j (first {k} {w} {ws} {tasks}) d = elim (Bool-cases (text_eq k j)) [
  | inl y ↦ rw y refl
  | inr n ↦ rw n refl
]
Takes-writes j {k} (other {t} r) d = elim (Bool-cases (text_eq t.0 j)) [
  | inr n ↦ rw n (Takes-writes j r d.1)
  | inl y ↦ elim (Bool-cases (text_eq k j)) [
    | inr n ↦ rw (y, n) (ap (λ (ws : List Write). t.1 ++ ws) (Takes-writes j r d.1 ∙ rw n refl))
    | inl z ↦ absurd (
        both_ways ((text_eq_iff t.0 k).1 ((text_eq_iff t.0 j).0 y ∙ sym ((text_eq_iff k j).0 z)))
          (Takes-Apart t.0 r d.0).0)
  ]
]
  where
    both_ways : {b : Bool} → b ≡ true → b ≡ false → ⊥
    both_ways p q = cc

none_left :
    (j : Text) (tasks : List (Text × List Write))
    → All (λ (t : Text × List Write). t.1 ≡ []) tasks
    → writes_for j tasks ≡ []
none_left j [] e = refl
none_left j ((k, ws) ∷ tasks) e = rw (none_left j tasks e.1, e.0) (same_branches (text_eq k j) [])
  where
    same_branches : (b : Bool) (e : List Write) → (if b then e else e) ≡ e
    same_branches true e = refl
    same_branches false e = refl

Schedules-own :
    (j : Text) {tasks : List (Text × List Write)} {schedule : List (Text × Write)}
    → Schedules tasks schedule
    → Distinct tasks
    → own j schedule ≡ writes_for j tasks
Schedules-own j (finished {tasks} e) d = sym (none_left j tasks e)
Schedules-own j (then_ {k} {w} r s) d =
    let rest = Schedules-own j s (Takes-Distinct r d) in rw rest (sym (Takes-writes j r d))

-- If no two tasks have one base name, then whatever the order in which their writes come, each entry is in the end what
-- its own task alone makes of it.
pub run-Schedules :
    {tasks : List (Text × List Write)} {schedule : List (Text × Write)} (entries : Text → Entry)
    (k : Text)
    → Schedules tasks schedule
    → Distinct tasks
    → run schedule entries k ≡ apply_all (writes_for k tasks) (entries k)
run-Schedules {tasks} {schedule} entries k s d =
    run-own schedule entries k
    ∙ ap (λ (ws : List Write). apply_all ws (entries k)) (Schedules-own k s d)
