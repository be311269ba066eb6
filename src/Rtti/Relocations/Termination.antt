-- ===== src/Rtti/Relocations/Termination.antt =====
-- Termination of the functions on the relocations and sections of a module.
use clientplugin.Base.{
  ok, err, codes, load_le, ◌>>=◌, add32, unknown_rtti, ◌%◌, ℕ, suc, ◌<◌, Option, none, some, List,
  [], ◌∷◌, All, arith, Memory, Text, ends_with, Ends, ok-Ends, err-Ends, or_throw-Ends, if-Ends,
  >>=-Ends, word, ◌==◌, ◌||◌, inl, inr, Bool-cases,
}
use clientplugin.DataView.Total.{load_le-Ends}
use clientplugin.Generator.{Gen, yields, yielded}
use clientplugin.Generator.Finishes.{
  Finishes, returns-Finishes, throws-Finishes, yields-Finishes, if-Finishes,
}
use clientplugin.RangeChecker.{DataRange}
use clientplugin.LoadedModule.{
  LoadedModule, Section, Symbol, Relocation, get_online_address_from_offline,
}
use clientplugin.Rtti.Relocations.{
  RelocMap, stn_undef, add_bases, relocation, relocations_from, get_relocations, ranges_of,
  section_ranges, typeinfo_size, get_typeinfo_size, get_typeinfo_addr_from_vtable,
}

module _ (loaded_mod : LoadedModule) where
  relocation-Finishes :
      (r : Relocation) (symbol : Option Symbol) (rest : Gen (ℕ × Text))
      → Finishes rest
      → Finishes (relocation loaded_mod r symbol rest)
  unfolding relocation
  relocation-Finishes r none rest h = h
  relocation-Finishes r (some symbol) rest h =
      if-Finishes (r.type == 0 || symbol.type == stn_undef) rest
        (yields (get_online_address_from_offline loaded_mod (r.offset % word), symbol.name) rest)
        (λ _. h) (λ _. yields-Finishes _ _ h)

  relocations_from-Finishes :
      (section : Section) (relidx : ℕ) (entries : List (Option Relocation))
      → Finishes (relocations_from loaded_mod section relidx entries)
  unfolding relocations_from
  relocations_from-Finishes section relidx [] = returns-Finishes (ℕ × Text)
  relocations_from-Finishes section relidx (none ∷ entries) = throws-Finishes (ℕ × Text) _
  relocations_from-Finishes section relidx (some r ∷ entries) =
      relocation-Finishes r (section.get_symbol r.symbol) _
        (relocations_from-Finishes section (suc relidx) entries)

  pub get_relocations-Finishes : (section : Section) → Finishes (get_relocations loaded_mod section)
  unfolding get_relocations
  get_relocations-Finishes section = relocations_from-Finishes section 0 section.entries

  ranges_of-Finishes : (sections : List Section) → Finishes (ranges_of loaded_mod sections)
  unfolding ranges_of
  ranges_of-Finishes [] = returns-Finishes DataRange
  ranges_of-Finishes (s ∷ sections) =
      if-Finishes (s.address == 0) _ _ (λ _. ranges_of-Finishes sections)
        (λ _. yields-Finishes _ _ (ranges_of-Finishes sections))

  pub section_ranges-Finishes : Finishes (section_ranges loaded_mod)
  unfolding section_ranges
  section_ranges-Finishes = ranges_of-Finishes loaded_mod.elf.sections

  -- The ranges begin at words.
  abbrev pub BeginsAtWord : DataRange → Type 0
  BeginsAtWord range = range.begin < word

  ranges_of-BeginsAtWord :
      (sections : List Section) → All BeginsAtWord (yielded (ranges_of loaded_mod sections))
  unfolding ranges_of yielded get_online_address_from_offline
  ranges_of-BeginsAtWord [] = tt
  ranges_of-BeginsAtWord (s ∷ sections) = elim (Bool-cases (s.address == 0)) [
    | inl e ↦ rw (e, ranges_of) (ranges_of-BeginsAtWord sections)
    | inr e ↦ rw (e, ranges_of) (omega arith, ranges_of-BeginsAtWord sections)
  ]

  pub section_ranges-BeginsAtWord : All BeginsAtWord (yielded (section_ranges loaded_mod))
  unfolding section_ranges
  section_ranges-BeginsAtWord = ranges_of-BeginsAtWord loaded_mod.elf.sections

typeinfo_size-Ends : (m : Memory) (addr : ℕ) (name : Text) → Ends (typeinfo_size m addr name)
unfolding typeinfo_size
typeinfo_size-Ends m addr name =
    if-Ends (ends_with name (codes "__si_class_type_infoE")) (ok 12) _ (ok-Ends 12) (
      if-Ends (ends_with name (codes "__vmi_class_type_infoE"))
        (load_le 4 m (add32 addr 12) >>= λ n. ok (add_bases n 16)) _
        (>>=-Ends _ _ (load_le-Ends 4 m _) λ n _. ok-Ends _)
        (if-Ends (ends_with name (codes "__class_type_infoE")) (ok 8) (err (unknown_rtti name))
          (ok-Ends 8) (err-Ends _)))

pub get_typeinfo_size-Ends :
    (m : Memory) (relocations : RelocMap) (addr : ℕ) → Ends (get_typeinfo_size m relocations addr)
unfolding get_typeinfo_size
get_typeinfo_size-Ends m relocations addr =
    >>=-Ends _ _ (or_throw-Ends _ _) λ name _. typeinfo_size-Ends m addr name

pub get_typeinfo_addr-Ends : (m : Memory) (v : ℕ) → Ends (get_typeinfo_addr_from_vtable m v)
unfolding get_typeinfo_addr_from_vtable
get_typeinfo_addr-Ends m v = load_le-Ends 4 m _
