-- ===== src/Rtti/Candidates/Bounds.antt =====
-- Where the vftables stand that `locate_vftables` yields.
use mathlib.Core.List.{map}
use clientplugin.Base.{
  ok_value, ℕ, zero, suc, ◌+◌, ◌-◌, ◌/◌, ◌<◌, ◌≡◌, ◌≢◌, subst, not, ◌&&◌, Bool-cases, inl, inr,
  List, [], ◌∷◌, ◌++◌, All, arith, Memory, IsUserSpace, load_le, ok, >>=-eq-ok, ltb, add32, word,
  pointer_size, ◌==◌,
}
use clientplugin.DataView.Advance.{load_le-lt}
use clientplugin.Generator.{yielded}
use clientplugin.Generator.Loops.{for_each-keeps, bind-yielded}
use clientplugin.LoadedModule.{LoadedModule}
use clientplugin.RangeChecker.{DataRangeChecker, add_range, is_position_in_range}
use clientplugin.Rtti.Relocations.{RelocMap, get_typeinfo_size, get_typeinfo_addr_from_vtable}
use clientplugin.Rtti.Relocations.Termination.{BeginsAtWord, section_ranges-BeginsAtWord}
use clientplugin.Rtti.Candidates.{
  Found, is_typeinfo, seen, visit, visit_words, visit_range, find_candidates, remove_inside,
  filter_seen, locate_vftables,
}

-- The word at the address lies in the address space, and another byte behind it.
abbrev IsBelow : ℕ → Type 0
IsBelow addr = addr + 4 < word

abbrev AreBelow : Found → Type 0
AreBelow found = All IsBelow found.candidates

All-last : (P : ℕ → Type 0) (xs : List ℕ) (x : ℕ) → All P xs → P x → All P (xs ++ (x ∷ []))
All-last P [] x each h = (h, tt)
All-last P (y ∷ xs) x each h = (each.0, All-last P xs x each.1 h)

module _ {m : Memory} (user : IsUserSpace m) (typeinfo_relocs : RelocMap)
    (function_ranges : DataRangeChecker) where
  visit-AreBelow :
      (found : Found) (addr : ℕ) (found' : Found)
      → addr < word
      → visit m typeinfo_relocs function_ranges found addr ≡ ok found'
      → AreBelow found
      → AreBelow found' × IsBelow addr
  unfolding visit
  visit-AreBelow found addr found' small e below =
      let (t, read, after) = >>=-eq-ok (load_le 4 m addr) _ e in
      let (inside, _, chosen) = >>=-eq-ok (is_position_in_range function_ranges addr) _ after in
      let here = load_le-lt user 4 addr small read in
      elim (Bool-cases (not inside && is_typeinfo typeinfo_relocs t)) [
        | inl y ↦
            let (size, _, sized) =
              >>=-eq-ok (get_typeinfo_size m typeinfo_relocs t) _ (rw y at chosen) in
            let (ranges, _, last) =
              >>=-eq-ok (add_range found.typeinfo_ranges (record { begin = t; length = size })) _
                sized in
            (
              subst AreBelow (ok_value last) (All-last IsBelow found.candidates addr below here),
              here,
            )
        | inr n ↦ (subst AreBelow (ok_value (rw n at chosen)) below, here)
      ]

  visit_words-AreBelow :
      (fuel addr end : ℕ) (found found' : Found)
      → addr < word
      → visit_words m typeinfo_relocs function_ranges fuel addr end found ≡ ok found'
      → AreBelow found
      → AreBelow found'
  unfolding visit_words
  visit_words-AreBelow zero addr end found found' small e below = elim (Bool-cases (ltb addr end)) [
    | inl y ↦ absurd (ground arith)
    | inr n ↦ subst AreBelow (ok_value (rw n at e)) below
  ]
  visit_words-AreBelow (suc fuel) addr end found found' small e below =
      elim (Bool-cases (ltb addr end)) [
        | inl y ↦
            let (found2, one, rest) =
              >>=-eq-ok (visit m typeinfo_relocs function_ranges found addr) _ (rw y at e) in
            let (below2, here) = visit-AreBelow found addr found2 small one below in
            visit_words-AreBelow fuel (add32 addr pointer_size) end found2 found' (omega arith) rest
              below2
        | inr n ↦ subst AreBelow (ok_value (rw n at e)) below
      ]

  find_candidates-AreBelow :
      (loaded_mod : LoadedModule) (found : Found)
      → find_candidates m typeinfo_relocs function_ranges loaded_mod ≡ ok found
      → AreBelow found
  unfolding find_candidates visit_range
  find_candidates-AreBelow loaded_mod found e =
      for_each-keeps (BeginsAtWord loaded_mod) AreBelow
        (visit_range m typeinfo_relocs function_ranges)
        (λ t range t' small one below.
          let end = add32 range.begin range.length in
          visit_words-AreBelow (suc ((end - range.begin) / pointer_size)) range.begin end t t' small
            one below)
        _ _ found (section_ranges-BeginsAtWord loaded_mod) e tt

module _ (P : ℕ → Type 0) where
  remove_inside-All :
      (ranges : DataRangeChecker) (candidates kept : List ℕ)
      → remove_inside ranges candidates ≡ ok kept
      → All P candidates
      → All P kept
  unfolding remove_inside
  remove_inside-All ranges [] kept e each = subst (All P) (ok_value e) tt
  remove_inside-All ranges (c ∷ rest) kept e each =
      let (inside, _, after) = >>=-eq-ok (is_position_in_range ranges c) _ e in
      let (kept', r, chosen) = >>=-eq-ok (remove_inside ranges rest) _ after in
      let others = remove_inside-All ranges rest kept' r each.1 in
      elim (Bool-cases inside) [
        | inl y ↦ subst (All P) (ok_value (rw y at chosen)) others
        | inr n ↦ subst (All P) (ok_value (rw n at chosen)) (each.0, others)
      ]

  filter_seen-All :
      (m : Memory) (candidates seen_typeinfo : List ℕ) (prev : ℕ)
      → All P candidates
      → All P (yielded (filter_seen m candidates seen_typeinfo prev))
  unfolding filter_seen yielded
  filter_seen-All m [] seen_typeinfo prev each = tt
  filter_seen-All m (c ∷ rest) seen_typeinfo prev each =
      bind-yielded P (get_typeinfo_addr_from_vtable m c) _ λ t _.
        let others = filter_seen-All m rest (t ∷ seen_typeinfo) t each.1 in
        elim (Bool-cases (not (not (t == prev) && seen t seen_typeinfo))) [
          | inl y ↦ rw (y, filter_seen) (each.0, others)
          | inr n ↦ rw (n, filter_seen) others
        ]

-- What the sort gives back is among what it is given.
abbrev pub IsRearranging : (List ℕ → List ℕ) → Type 1
IsRearranging sort = (P : ℕ → Type 0) (xs : List ℕ) → All P xs → All P (sort xs)

behind-nonzero :
    (kept : List ℕ) → All IsBelow kept → All (λ v. v ≢ 0) (map (λ v. add32 v pointer_size) kept)
behind-nonzero [] each = tt
behind-nonzero (c ∷ kept) each = (λ e. omega arith, behind-nonzero kept each.1)

-- In user space no vftable that `locate_vftables` yields is at 0.
pub locate_vftables-nonzero :
    {m : Memory} (user : IsUserSpace m) (sort : List ℕ → List ℕ) (sorts : IsRearranging sort)
    (loaded_mod : LoadedModule) (typeinfo_relocs : RelocMap) (function_ranges : DataRangeChecker)
    → All (λ v. v ≢ 0) (yielded (locate_vftables sort m loaded_mod typeinfo_relocs function_ranges))
unfolding locate_vftables
locate_vftables-nonzero {m} user sort sorts loaded_mod relocs functions =
    bind-yielded _ (find_candidates m relocs functions loaded_mod) _ λ found e.
      bind-yielded _ (remove_inside found.typeinfo_ranges found.candidates) _ λ kept r.
        filter_seen-All _ m _ [] 0 (
          sorts (λ v. v ≢ 0) _
            (behind-nonzero kept (
              remove_inside-All IsBelow _ _ kept r
                (find_candidates-AreBelow user relocs functions loaded_mod found e))))
