-- ===== src/Rtti/Candidates.antt =====
-- `locate_vftables` of src/offsets/rtti.cpp.
use mathlib.Core.List.{map}
use clientplugin.Base.{
  ℕ, zero, suc, ◌+◌, ◌-◌, ◌/◌, Bool, true, false, not, ◌&&◌, ◌||◌, Option, none, some, List, [],
  ◌∷◌, ◌++◌, Memory, load_le, lookup, Result, ok, err, stuck, ◌>>=◌, ltb, ◌==◌, if◌then◌else◌,
  add32, sub32, pointer_size,
}
use clientplugin.Generator.{Gen, returns, throws, yields, hangs, for_each}
use clientplugin.Generator.Bind
use clientplugin.RangeChecker.{
  DataRange, DataRangeChecker, make_checker, add_range, is_position_in_range,
}
use clientplugin.LoadedModule.{LoadedModule}
use clientplugin.Rtti.Relocations.{
  RelocMap, section_ranges, get_typeinfo_size, get_typeinfo_addr_from_vtable,
}
pub mod Filter
pub mod Termination
pub mod Bounds

-- `relocations.contains(addr)`
unfoldable pub is_typeinfo : RelocMap → ℕ → Bool
is_typeinfo relocs addr = elim (lookup ◌==◌ addr relocs) [ none ↦ false | some name ↦ true ]

-- The candidates found so far, and the ranges of the typeinfos that they refer to.
pub record Found : Type 0 where
  pub candidates : List ℕ
  pub typeinfo_ranges : DataRangeChecker

module _ (m : Memory) (typeinfo_relocs : RelocMap) (function_ranges : DataRangeChecker) where
  -- The body of the loops over the words of a section.
  unfoldable pub visit : Found → ℕ → Result Found
  visit found addr = do
    potential_typeinfo_addr ← load_le 4 m addr
    in_function ← is_position_in_range function_ranges addr
    if not in_function && is_typeinfo typeinfo_relocs potential_typeinfo_addr
        then (do
          size ← get_typeinfo_size m typeinfo_relocs potential_typeinfo_addr
          ranges ←
              add_range found.typeinfo_ranges
                (record { begin = potential_typeinfo_addr; length = size })
          ok (record { candidates = found.candidates ++ (addr ∷ []); typeinfo_ranges = ranges }))
        else ok found

  -- `for (addr = range.begin; addr < range.begin + range.length; addr += sizeof(void*))`
  unfoldable pub visit_words : ℕ → ℕ → ℕ → Found → Result Found
  unfolding visit
  visit_words zero addr end found = if ltb addr end then stuck else ok found
  visit_words (suc fuel) addr end found =
      let rest = λ (found' : Found). visit_words fuel (add32 addr pointer_size) end found' in
      if ltb addr end then (visit found addr >>= rest) else ok found

  -- A round for each four bytes, and one more.
  unfoldable pub visit_range : Found → DataRange → Result Found
  unfolding visit_words
  visit_range found range =
      let end = add32 range.begin range.length in
      visit_words (suc ((end - range.begin) / pointer_size)) range.begin end found

  unfoldable pub find_candidates : LoadedModule → Result Found
  unfolding visit_range
  find_candidates loaded_mod =
      for_each visit_range (section_ranges loaded_mod)
        (record { candidates = []; typeinfo_ranges = make_checker loaded_mod.online_baseaddr })

-- `remove_if`: a reference inside of a typeinfo is not a vtable.
unfoldable pub remove_inside : DataRangeChecker → List ℕ → Result (List ℕ)
remove_inside typeinfo_ranges [] = ok []
remove_inside typeinfo_ranges (candidate ∷ rest) = do
  inside ← is_position_in_range typeinfo_ranges candidate
  kept ← remove_inside typeinfo_ranges rest
  if inside then ok kept else ok (candidate ∷ kept)

-- `seen_typeinfo.contains`
unfoldable pub seen : ℕ → List ℕ → Bool
seen t [] = false
seen t (u ∷ us) = (u == t) || seen t us

-- The last loop, with `seen_typeinfo` and `prev_typeinfo`.
unfoldable pub filter_seen : Memory → List ℕ → List ℕ → ℕ → Gen ℕ
filter_seen m [] seen_typeinfo prev_typeinfo = returns
filter_seen m (candidate ∷ rest) seen_typeinfo prev_typeinfo =
    Bind.◌>>=◌ (get_typeinfo_addr_from_vtable m candidate) λ typeinfo_addr.
      let more = filter_seen m rest (typeinfo_addr ∷ seen_typeinfo) typeinfo_addr in
      if not (not (typeinfo_addr == prev_typeinfo) && seen typeinfo_addr seen_typeinfo)
      then yields candidate more
      else more

-- `sort` is the algorithm of range-v3.
module _ (sort : List ℕ → List ℕ) where
  unfoldable pub locate_vftables : Memory → LoadedModule → RelocMap → DataRangeChecker → Gen ℕ
  unfolding find_candidates remove_inside filter_seen
  locate_vftables m loaded_mod typeinfo_relocs function_ranges =
      Bind.◌>>=◌ (find_candidates m typeinfo_relocs function_ranges loaded_mod) λ found.
        Bind.◌>>=◌ (remove_inside found.typeinfo_ranges found.candidates)
          λ kept. filter_seen m (sort (map (λ v. add32 v pointer_size) kept)) [] 0
