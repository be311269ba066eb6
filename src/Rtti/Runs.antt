-- ===== src/Rtti/Runs.antt =====
-- Runs of src/offsets/rtti.cpp: three vftables of two typeinfos, at 1000, 2000 and 3000. The vftables at
-- 1000 and 2000 refer to the typeinfo at 64, and that at 3000 to the one at 96, both with the name
-- at 200, which is "A".
use clientplugin.Base.{
  ℕ, ◌≡◌, ◌≢◌, refl, some, List, [], ◌∷◌, ◌++◌, All, arith, Memory, load, load_le, ok, ◌==◌,
  if◌then◌else◌,
}
use clientplugin.DataView.{read_string, string_at}
use clientplugin.Generator.{Gen, returns, yields, yielded, outcome}
use clientplugin.Rtti.Relocations.{get_typeinfo_addr_from_vtable}
use clientplugin.Rtti.Candidates.{filter_seen}
use clientplugin.Rtti.Candidates.Filter.{Reads, reappears, inserted, filter_seen_lem}
use clientplugin.Rtti.Vtables.{build_chunks}
use clientplugin.Rtti.Vtables.Grouping.{vftables, build_chunks-rest}
use clientplugin.Rtti.Vtables.Groups.{IsGroup, build_chunks-IsGroup}

abbrev image : Memory
image a =
    if a == 996
    then some 64
    else if a == 1996
    then some 64
    else if a == 2996
    then some 96
    else if a == 68
    then some 200
    else if a == 100
    then some 200
    else if a == 200
    then some 65
    else some 0

abbrev entries : Gen ℕ
entries = yields 1000 (yields 2000 (yields 3000 returns))

entries_end : outcome (build_chunks image entries [] 0) ≡ ok tt
unfolding build_chunks outcome get_typeinfo_addr_from_vtable load_le load read_string string_at
entries_end = refl

entries_nonempty : yielded entries ≢ []
unfolding yielded
entries_nonempty e = cc

entries_nonzero : All (λ v. v ≢ 0) (yielded entries)
unfolding yielded
entries_nonzero = ((λ e. omega arith), ((λ e. omega arith), ((λ e. omega arith), tt)))

build_chunks-rest_example :
    (first : ℕ) × (lost : List ℕ) × (yielded entries
      ≡ vftables (yielded (build_chunks image entries [] 0)) ++ (first ∷ lost))
build_chunks-rest_example = build_chunks-rest image entries [] 0 entries_end entries_nonempty

build_chunks-IsGroup_example : All (IsGroup image) (yielded (build_chunks image entries [] 0))
build_chunks-IsGroup_example =
    build_chunks-IsGroup image entries [] 0 refl entries_nonzero entries_end

Reads-two : Reads image (1000 ∷ 3000 ∷ []) (64 ∷ 96 ∷ [])
unfolding get_typeinfo_addr_from_vtable load_le load
Reads-two = (refl, (refl, tt))

reads_again : get_typeinfo_addr_from_vtable image 2000 ≡ ok 64
unfolding get_typeinfo_addr_from_vtable load_le load
reads_again = refl

-- The typeinfo at 64 comes back behind that at 96: its candidate 2000 is dropped.
filter_seen_lem_example :
    yielded (filter_seen image ((1000 ∷ 3000 ∷ []) ++ (2000 ∷ [])) [] 0)
    ≡ yielded (filter_seen image (1000 ∷ 3000 ∷ []) [] 0)
      ++ ((if reappears 64 (64 ∷ 96 ∷ []) then [] else 2000 ∷ [])
          ++ yielded (filter_seen image [] (64 ∷ inserted (64 ∷ 96 ∷ []) []) 64))
filter_seen_lem_example =
    filter_seen_lem image (1000 ∷ 3000 ∷ []) [] (64 ∷ 96 ∷ []) 2000 64 Reads-two reads_again
