-- ===== src/Offsets/Init/Told.antt =====
-- The modules that the dynamic linker has told of, and the entries that are made of them.
use clientplugin.Base.{
  ok_value, ℕ, ◌≡◌, ◌≢◌, ◌⊎◌, refl, sym, ap, subst, ◌∙◌, inl, inr, Bool, false, Bool-cases, Option,
  Option-cases, some, List, [], ◌∷◌, All, Text, text_eq, Memory, Result, ok, >>=-eq-ok, arith, ◌||◌,
  ◌==◌,
}
use clientplugin.LoadedModule.{Elf}
use clientplugin.RangeChecker.{DataRange}
use clientplugin.Offsets.{ModuleRangeMap}
use clientplugin.Offsets.Init.Entries.{insert-All}
use clientplugin.Offsets.Init.{
  PhdrInfo, Tables, is_excluded, named_module, on_phdr, iterate_phdr, entry_of, handle_module,
  add_module, handle_modules,
}

-- The dynamic linker has told of a module that is not excluded, with this base name, at this address.
abbrev pub IsModule : (Option Text → Result Text) → PhdrInfo → Text → ℕ → Type 0
IsModule basename info lib begin =
    (name : Text) × (info.dlpi_name ≡ some name)
    × (basename (some name) ≡ ok lib)
    × (is_excluded lib ≡ false)
    × (info.dlpi_addr ≡ begin)
    × (begin ≢ 0)

abbrev pub IsTold : (Option Text → Result Text) → List PhdrInfo → Text → ℕ → Type 0
IsTold basename [] lib begin = ⊥
IsTold basename (info ∷ infos) lib begin =
    IsModule basename info lib begin ⊎ IsTold basename infos lib begin

-- Every module that is told is one of the list.
pub told_of_list :
    (basename : Option Text → Result Text) (told : Text → ℕ → Type 0) (infos : List PhdrInfo)
    → ((lib : Text) (begin : ℕ) → IsTold basename infos lib begin → told lib begin)
    → All
        (λ (info : PhdrInfo).
          (lib : Text) (begin : ℕ) → IsModule basename info lib begin → told lib begin)
        infos
told_of_list basename told [] each = tt
told_of_list basename told (info ∷ infos) each = (
  (λ lib begin m. each lib begin (inl m)),
  told_of_list basename told infos (λ lib begin t. each lib begin (inr t)),
)

module _ (basename : Option Text → Result Text) (told : Text → ℕ → Type 0) where
  -- An entry under its full name, and one under its base name.
  abbrev pub IsToldAs : Text × DataRange → Type 0
  IsToldAs (name, range) = (lib : Text) → basename (some name) ≡ ok lib → told lib range.begin

  abbrev pub IsToldOf : Text × DataRange → Type 0
  IsToldOf (lib, range) = told lib range.begin

  abbrev pub Tells : PhdrInfo → Type 0
  Tells info = (lib : Text) (begin : ℕ) → IsModule basename info lib begin → told lib begin

  not_null : (a : ℕ) (b : Bool) → ((a == 0) || b) ≡ false → a ≢ 0
  not_null a b e z = ground arith

  named_module-told :
      (info : PhdrInfo) (name fname : Text) (entries : ModuleRangeMap)
      → Tells info
      → info.dlpi_name ≡ some name
      → basename (some name) ≡ ok fname
      → All IsToldAs entries
      → All IsToldAs (named_module basename info name fname entries)
  unfolding named_module
  named_module-told info name fname entries tells en ef each =
      elim (Bool-cases ((info.dlpi_addr == 0) || text_eq name [])) [
        | inl y ↦ rw y each
        | inr n ↦ elim (Bool-cases (is_excluded fname)) [
          | inl y ↦ rw (n, y) each
          | inr nx ↦
              rw (n, nx)
                (insert-All IsToldAs name _ entries each (λ lib e. tells lib info.dlpi_addr (
                  name,
                  en,
                  e,
                  subst (λ f. is_excluded f ≡ false) (ok_value (sym ef ∙ e)) nx,
                  refl,
                  not_null info.dlpi_addr (text_eq name []) n,
                )))
        ]
      ]

  on_phdr-told :
      (info : PhdrInfo) (entries entries' : ModuleRangeMap)
      → Tells info
      → on_phdr basename info entries ≡ ok entries'
      → All IsToldAs entries
      → All IsToldAs entries'
  unfolding on_phdr
  on_phdr-told info entries entries' tells e each =
      let (fname, ef, r) = >>=-eq-ok (basename info.dlpi_name) _ e in
      elim (Option-cases info.dlpi_name) [
        | inl unnamed ↦ subst (All IsToldAs) (ok_value (rw unnamed at r)) each
        | inr (name, en) ↦
            subst (All IsToldAs) (ok_value (rw en at r))
              (named_module-told info name fname entries tells en (sym (ap basename en) ∙ ef) each)
      ]

  pub iterate_phdr-told :
      (infos : List PhdrInfo) (entries : ModuleRangeMap) {entries' : ModuleRangeMap}
      → All Tells infos
      → iterate_phdr basename infos entries ≡ ok entries'
      → All IsToldAs entries
      → All IsToldAs entries'
  unfolding iterate_phdr
  iterate_phdr-told [] entries tells e each = subst (All IsToldAs) (ok_value e) each
  iterate_phdr-told (info ∷ infos) entries tells e each =
      let (between, one, rest) = >>=-eq-ok (on_phdr basename info entries) _ e in
      iterate_phdr-told infos between tells.1 rest
        (on_phdr-told info entries between tells.0 one each)

  module _ (sort : List ℕ → List ℕ) (open_elf : Text → Elf) (m : Memory) where
    add_module-told :
        (fname mod_name : Text) (mod_range : DataRange) (tables : Tables) {tables' : Tables}
        → add_module sort open_elf m fname mod_name mod_range tables ≡ ok tables'
        → told fname mod_range.begin
        → All IsToldOf tables.cleaned_modules
        → All IsToldOf tables'.cleaned_modules
    unfolding add_module
    add_module-told fname mod_name mod_range tables e t each =
        let (after, _, last) =
          >>=-eq-ok
            (handle_module sort open_elf m mod_name mod_range
              (entry_of fname tables.eh_frame_ranges) (entry_of fname tables.module_vtables))
            _ e in
        subst (λ (t : Tables). All IsToldOf t.cleaned_modules) (ok_value last)
          (insert-All IsToldOf fname mod_range tables.cleaned_modules each t)

    pub handle_modules-told :
        (modules : ModuleRangeMap) (tables : Tables) {tables' : Tables}
        → handle_modules sort open_elf m basename modules tables ≡ ok tables'
        → All IsToldAs modules
        → All IsToldOf tables.cleaned_modules
        → All IsToldOf tables'.cleaned_modules
    unfolding handle_modules
    handle_modules-told [] tables e named each =
        subst (λ (t : Tables). All IsToldOf t.cleaned_modules) (ok_value e) each
    handle_modules-told ((mod_name, mod_range) ∷ modules) tables e named each =
        let (fname, ef, e1) = >>=-eq-ok (basename (some mod_name)) _ e in
        let (between, added, rest) =
          >>=-eq-ok (add_module sort open_elf m fname mod_name mod_range tables) _ e1 in
        handle_modules-told modules between rest named.1
          (add_module-told fname mod_name mod_range tables added (named.0 fname ef) each)
