-- ===== src/Offsets/Init/Tasks/Sequential.antt =====
-- The tasks one after the other, as `handle_modules` runs them, and in any other order of their writes.
use clientplugin.Base.{
  ok_value, ℕ, ◌≡◌, refl, sym, ap, ◌∙◌, inl, inr, Bool-cases, Option, some, List, [], ◌∷◌, ◌++◌,
  map, Text, text_eq, text_eq_iff, assign, lookup-assign, lookup-assign_other, insert, Memory,
  Result, ok, >>=-eq-ok, if◌then◌else◌,
}
use clientplugin.EhFrame.{get_eh_frame_ranges}
use clientplugin.Generator.{Gen, returns, throws, yields, hangs, yielded, for_each}
use clientplugin.LoadedModule.{Elf, load_module}
use clientplugin.Offsets.{Vtables, ModuleRangeMap}
use clientplugin.Offsets.Init.Tasks.{
  Write, pushes_range, inserts_vtable, Entry, apply, apply_all, run, Schedules, writes_of,
  task_writes, tasks_of, writes_for, Distinct, run-Schedules,
}
use clientplugin.Offsets.Init.{
  Tables, entry_of, push_range, insert_vtable, handle_module, add_module, handle_modules,
}
use clientplugin.RangeChecker.{DataRange}
use clientplugin.Rtti.Vtables.{Vtable, get_vtables_from_module}

-- What the tables have under a base name.
abbrev pub entry : Tables → Text → Entry
entry tables k = (entry_of k tables.eh_frame_ranges, entry_of k tables.module_vtables)

apply_all-append :
    (xs ys : List Write) (e : Entry) → apply_all (xs ++ ys) e ≡ apply_all ys (apply_all xs e)
unfolding apply_all
apply_all-append [] ys e = refl
apply_all-append (w ∷ xs) ys e = apply_all-append xs ys (apply w e)

pushes_all :
    (g : Gen DataRange) (ranges : List DataRange) (vtables : Vtables) {ranges' : List DataRange}
    → for_each push_range g ranges ≡ ok ranges'
    → apply_all (map pushes_range (yielded g)) (ranges, vtables) ≡ (ranges', vtables)
unfolding for_each yielded apply_all apply push_range
pushes_all returns ranges vtables e =
    ap (λ (r : List DataRange). let p : Entry = (r, vtables) in p) (ok_value e)
pushes_all (throws x) ranges vtables e = cc
pushes_all (yields r g) ranges vtables e = pushes_all g (ranges ++ (r ∷ [])) vtables e
pushes_all hangs ranges vtables e = cc

inserts_all :
    (g : Gen Vtable) (ranges : List DataRange) (vtables : Vtables) {vtables' : Vtables}
    → for_each insert_vtable g vtables ≡ ok vtables'
    → apply_all (map inserts_vtable (yielded g)) (ranges, vtables) ≡ (ranges, vtables')
unfolding for_each yielded apply_all apply insert_vtable
inserts_all returns ranges vtables e =
    ap (λ (v : Vtables). let p : Entry = (ranges, v) in p) (ok_value e)
inserts_all (throws x) ranges vtables e = cc
inserts_all (yields (name, vftables) g) ranges vtables e =
    inserts_all g ranges (insert text_eq name vftables vtables) e
inserts_all hangs ranges vtables e = cc

entry_of-assign :
    {A : Type 0} (j k : Text) (v : List A) (table : List (Text × List A))
    → entry_of k (assign text_eq j v table) ≡ (if text_eq j k then v else entry_of k table)
entry_of-assign j k v table = elim (Bool-cases (text_eq j k)) [
  | inl y ↦
      let same = (text_eq_iff j k).0 y in rw (y, sym same, lookup-assign j v table, entry_of) refl
  | inr n ↦ rw (n, lookup-assign_other j k v table n, entry_of) refl
]

module _ (sort : List ℕ → List ℕ) (open_elf : Text → Elf) (m : Memory) where
  handle_module-writes :
      (mod_name : Text) (mod_range : DataRange) (ranges : List DataRange) (vtables : Vtables)
      {after : Entry}
      → handle_module sort open_elf m mod_name mod_range ranges vtables ≡ ok after
      → apply_all (task_writes sort open_elf m mod_name mod_range) (ranges, vtables) ≡ after
  unfolding handle_module task_writes writes_of
  handle_module-writes mod_name mod_range ranges vtables e =
      let (loaded_mod, el, e1) = >>=-eq-ok (load_module (open_elf mod_name) mod_range) _ e in
      let (ranges', pushed, e2) =
        >>=-eq-ok (for_each push_range (get_eh_frame_ranges m loaded_mod) ranges) _ e1 in
      let (vtables', filled, e3) =
        >>=-eq-ok (for_each insert_vtable (get_vtables_from_module sort m loaded_mod) vtables) _
          e2 in
      rw (el, task_writes)
        (apply_all-append (map pushes_range (yielded (get_eh_frame_ranges m loaded_mod))) _
            (ranges, vtables)
          ∙ ap
              (apply_all (map inserts_vtable (yielded (get_vtables_from_module sort m loaded_mod))))
              (pushes_all _ ranges vtables pushed)
          ∙ inserts_all _ ranges' vtables filled
          ∙ ok_value e3)

  add_module-entry :
      (fname mod_name : Text) (mod_range : DataRange) (tables : Tables) {tables' : Tables}
      → add_module sort open_elf m fname mod_name mod_range tables ≡ ok tables'
      → (k : Text)
      → entry tables' k ≡ (
          if text_eq fname k
          then apply_all (task_writes sort open_elf m mod_name mod_range) (entry tables k)
          else entry tables k)
  unfolding add_module
  add_module-entry fname mod_name mod_range tables e k =
      let (after, handled, last) =
        >>=-eq-ok
          (handle_module sort open_elf m mod_name mod_range (entry_of fname tables.eh_frame_ranges)
            (entry_of fname tables.module_vtables))
          _ e in
      let written =
        handle_module-writes mod_name mod_range (entry_of fname tables.eh_frame_ranges)
          (entry_of fname tables.module_vtables) handled in
      ap (λ (t : Tables). entry t k) (sym (ok_value last)) ∙ elim (Bool-cases (text_eq fname k)) [
        | inl y ↦
            rw
              (
                entry_of-assign fname k after.0 tables.eh_frame_ranges,
                entry_of-assign fname k after.1 tables.module_vtables,
                y,
              )
              (sym written
                ∙ ap
                    (λ (t : Text).
                      apply_all (task_writes sort open_elf m mod_name mod_range) (entry tables t))
                    ((text_eq_iff fname k).0 y))
        | inr n ↦
            rw
              (
                entry_of-assign fname k after.0 tables.eh_frame_ranges,
                entry_of-assign fname k after.1 tables.module_vtables,
                n,
              )
              refl
      ]

  handle_modules-writes :
      (basename : Option Text → Result Text) (modules : ModuleRangeMap) (tables : Tables)
      {tables' : Tables}
      → handle_modules sort open_elf m basename modules tables ≡ ok tables'
      → (tasks : List (Text × List Write)) × (tasks_of sort open_elf m basename modules ≡ ok tasks)
        × ((k : Text) → entry tables' k ≡ apply_all (writes_for k tasks) (entry tables k))
  unfolding handle_modules tasks_of apply_all
  handle_modules-writes basename [] tables e =
      ([], refl, λ k. ap (λ (t : Tables). entry t k) (sym (ok_value e)))
  handle_modules-writes basename ((mod_name, mod_range) ∷ modules) tables e =
      let (fname, ef, e1) = >>=-eq-ok (basename (some mod_name)) _ e in
      let (between, added, rest) =
        >>=-eq-ok (add_module sort open_elf m fname mod_name mod_range tables) _ e1 in
      let (tasks, et, later) = handle_modules-writes basename modules between rest in
      (
        (fname, task_writes sort open_elf m mod_name mod_range) ∷ tasks,
        rw (ef, et) refl,
        λ k.
            later k
            ∙ ap (apply_all (writes_for k tasks))
                (add_module-entry fname mod_name mod_range tables added k)
            ∙ elim (Bool-cases (text_eq fname k)) [
              | inl y ↦ rw y (
                  sym (
                    apply_all-append (task_writes sort open_elf m mod_name mod_range)
                      (writes_for k tasks) (entry tables k)))
              | inr n ↦ rw n refl
            ],
      )

  -- If no two modules have one base name, then in whatever order the writes of their tasks come, each entry of the
  -- tables is in the end as when the tasks run one after the other.
  pub handle_modules-Schedules :
      (basename : Option Text → Result Text) (modules : ModuleRangeMap) (tables : Tables)
      {tables' : Tables} (tasks : List (Text × List Write)) (schedule : List (Text × Write))
      → handle_modules sort open_elf m basename modules tables ≡ ok tables'
      → tasks_of sort open_elf m basename modules ≡ ok tasks
      → Distinct tasks
      → Schedules tasks schedule
      → (k : Text) → run schedule (entry tables) k ≡ entry tables' k
  handle_modules-Schedules basename modules tables tasks schedule e et d s k =
      let (tasks', et', writes) = handle_modules-writes basename modules tables e in
      let same : tasks' ≡ tasks = ok_value (sym et' ∙ et) in
      run-Schedules (entry tables) k s d
      ∙ sym (
          writes k
          ∙ ap (λ (ts : List (Text × List Write)). apply_all (writes_for k ts) (entry tables k))
              same)
