-- ===== src/Rtti/Candidates/Termination.antt =====
-- Termination of `locate_vftables`.
use clientplugin.Base.{
  ◌==◌, ℕ, zero, suc, ◌+◌, ◌-◌, ◌*◌, ◌/◌, ◌≤◌, ◌<◌, ◌≡◌, not, ◌&&◌, List, [], ◌∷◌, arith, Memory,
  IsUserSpace, load_le, ok, ltb, add32, word, pointer_size, Ends, ok-Ends, if-Ends, >>=-Ends,
  >>=-eq-ok,
}
use clientplugin.DataView.Advance.{load_le-lt}
use clientplugin.DataView.Total.{load_le-Ends}
use clientplugin.Generator.{yields}
use clientplugin.Generator.Finishes.{
  Finishes, returns-Finishes, yields-Finishes, bind-Finishes, if-Finishes, for_each-Ends,
}
use clientplugin.RangeChecker.{DataRange, DataRangeChecker}
use clientplugin.RangeChecker.Laws.{add_range-Ends, is_position_in_range-Ends}
use clientplugin.LoadedModule.{LoadedModule}
use clientplugin.Rtti.Relocations.{RelocMap}
use clientplugin.Rtti.Relocations.Termination.{
  BeginsAtWord, section_ranges-Finishes, section_ranges-BeginsAtWord, get_typeinfo_size-Ends,
  get_typeinfo_addr-Ends,
}
use clientplugin.Rtti.Candidates.{
  Found, visit, visit_words, visit_range, find_candidates, remove_inside, seen, filter_seen,
  locate_vftables,
}

module _ {m : Memory} (user : IsUserSpace m) (typeinfo_relocs : RelocMap)
    (function_ranges : DataRangeChecker) where
  visit-Ends :
      (found : Found) (addr : ℕ) → Ends (visit m typeinfo_relocs function_ranges found addr)
  unfolding visit
  visit-Ends found addr = >>=-Ends _ _ (load_le-Ends 4 m addr) λ t _.
      >>=-Ends _ _ (is_position_in_range-Ends function_ranges addr) λ inside _.
        if-Ends _ _ _
          (>>=-Ends _ _ (get_typeinfo_size-Ends m typeinfo_relocs t)
            λ size _. >>=-Ends _ _ (add_range-Ends _ _) λ ranges _. ok-Ends _)
          (ok-Ends found)

  -- A word that has been read does not reach the top of the address space.
  visit-lt :
      (found found' : Found) (addr : ℕ)
      → addr < word
      → visit m typeinfo_relocs function_ranges found addr ≡ ok found'
      → addr + 4 < word
  unfolding visit
  visit-lt found found' addr small e =
      let (t, read, rest) = >>=-eq-ok (load_le 4 m addr) _ e in load_le-lt user 4 addr small read

  visit_words-Ends :
      (fuel addr end : ℕ) (found : Found)
      → addr < word
      → end ≤ addr + pointer_size * fuel
      → Ends (visit_words m typeinfo_relocs function_ranges fuel addr end found)
  unfolding visit_words
  visit_words-Ends zero addr end found small enough = ground arith
  visit_words-Ends (suc fuel) addr end found small enough =
      if-Ends (ltb addr end) _ _
        (>>=-Ends (visit m typeinfo_relocs function_ranges found addr) _ (visit-Ends found addr)
          λ found' e.
            let below = visit-lt found found' addr small e in
            visit_words-Ends fuel (add32 addr pointer_size) end found' (omega arith) (omega arith))
        (ok-Ends found)

  visit_range-Ends :
      (found : Found) (range : DataRange)
      → range.begin < word
      → Ends (visit_range m typeinfo_relocs function_ranges found range)
  unfolding visit_range
  visit_range-Ends found range small =
      let end = add32 range.begin range.length in
      visit_words-Ends (suc ((end - range.begin) / pointer_size)) range.begin end found small
        (omega arith)

  find_candidates-Ends :
      (loaded_mod : LoadedModule)
      → Ends (find_candidates m typeinfo_relocs function_ranges loaded_mod)
  unfolding find_candidates
  find_candidates-Ends loaded_mod =
      for_each-Ends (BeginsAtWord loaded_mod) _ _ _ (section_ranges-Finishes loaded_mod)
        (section_ranges-BeginsAtWord loaded_mod) visit_range-Ends

remove_inside-Ends :
    (ranges : DataRangeChecker) (candidates : List ℕ) → Ends (remove_inside ranges candidates)
unfolding remove_inside
remove_inside-Ends ranges [] = ok-Ends []
remove_inside-Ends ranges (c ∷ rest) = >>=-Ends _ _ (is_position_in_range-Ends ranges c) λ inside _.
    >>=-Ends _ _ (remove_inside-Ends ranges rest)
      λ kept _. if-Ends inside _ _ (ok-Ends _) (ok-Ends _)

filter_seen-Finishes :
    (m : Memory) (candidates seen_typeinfo : List ℕ) (prev : ℕ)
    → Finishes (filter_seen m candidates seen_typeinfo prev)
unfolding filter_seen
filter_seen-Finishes m [] seen_typeinfo prev = returns-Finishes ℕ
filter_seen-Finishes m (c ∷ rest) seen_typeinfo prev =
    bind-Finishes _ _ (get_typeinfo_addr-Ends m c) λ t _.
      let more = filter_seen-Finishes m rest (t ∷ seen_typeinfo) t in
      if-Finishes (not (not (t == prev) && seen t seen_typeinfo))
        (yields c (filter_seen m rest (t ∷ seen_typeinfo) t)) _ (λ _. yields-Finishes _ _ more)
        (λ _. more)

-- In user space `locate_vftables` comes to an end on every module.
pub locate_vftables-Finishes :
    {m : Memory} (user : IsUserSpace m) (sort : List ℕ → List ℕ) (loaded_mod : LoadedModule)
    (typeinfo_relocs : RelocMap) (function_ranges : DataRangeChecker)
    → Finishes (locate_vftables sort m loaded_mod typeinfo_relocs function_ranges)
unfolding locate_vftables
locate_vftables-Finishes {m} user sort loaded_mod relocs functions =
    bind-Finishes _ _ (find_candidates-Ends user relocs functions loaded_mod) λ found _.
      bind-Finishes _ _ (remove_inside-Ends found.typeinfo_ranges found.candidates)
        λ kept _. filter_seen-Finishes m _ [] 0
