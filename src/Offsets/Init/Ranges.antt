-- ===== src/Offsets/Init/Ranges.antt =====
-- The ranges that `init_offsets` takes the modules to have.
use clientplugin.Base.{
  ℕ, ◌≡◌, ◌≢◌, refl, ap, ◌∙◌, inl, inr, false, Bool-cases, Option, none, some, List, [], ◌∷◌, arith,
  Text, text_eq, text_eq_iff, lookup, insert, Result, ok, ◌==◌, add32, sub32, ◌<◌, word,
}
use clientplugin.RangeChecker.{DataRange}
use clientplugin.Offsets.{ModuleRangeMap}
use clientplugin.Offsets.Init.{PhdrInfo, is_excluded, end_loop, module_end, named_module, on_phdr}

-- The last round decides, and all rounds are alike.
end_loop_lem :
    (a : ℕ) (first : ℕ × ℕ) (rest : List (ℕ × ℕ)) (e : ℕ)
    → e ≡ add32 a (add32 first.0 first.1)
    → end_loop a first rest e ≡ add32 a (add32 first.0 first.1)
unfolding end_loop
end_loop_lem a first [] e h = h
end_loop_lem a first (x ∷ rest) e h = end_loop_lem a first rest _ refl

-- The end of a module is that of its first program header, whatever the others say.
module_end_lem :
    (a : ℕ) (first : ℕ × ℕ) (rest : List (ℕ × ℕ))
    → module_end a (first ∷ rest) ≡ add32 a (add32 first.0 first.1)
unfolding module_end end_loop
module_end_lem a first rest = end_loop_lem a first rest _ refl

lookup-insert :
    {V : Type 0} (k : Text) (v : V) (entries : List (Text × V))
    → lookup text_eq k entries ≡ none
    → lookup text_eq k (insert text_eq k v entries) ≡ some v
unfolding lookup insert
lookup-insert k v [] e = let same = (text_eq_iff k k).1 refl in ground arith
lookup-insert k v ((j, w) ∷ entries) e = elim (Bool-cases (text_eq j k)) [
  | inl b ↦ absurd (ground arith)
  | inr b ↦ let rest = lookup-insert k v entries (ground arith) in ground arith
]

==-false : (a : ℕ) → a ≢ 0 → (a == 0) ≡ false
==-false a h = ground arith

back : (a n : ℕ) → a < word → n < word → sub32 (add32 a n) a ≡ n
back a n ha hn = ground arith

named : (name : Text) → name ≢ [] → text_eq name [] ≡ false
unfolding text_eq
named [] ne = absurd (ne refl)
named (c ∷ name) ne = refl

length_lem :
    (a : ℕ) (first : ℕ × ℕ) (rest headers : List (ℕ × ℕ))
    → headers ≡ first ∷ rest
    → a < word
    → sub32 (module_end a headers) a ≡ add32 first.0 first.1
length_lem a first rest headers e small =
    ap (λ h. sub32 (module_end a h) a) e
    ∙ ap (λ x. sub32 x a) (module_end_lem a first rest)
    ∙ back a (add32 first.0 first.1) small (omega arith)

named_module_lem :
    (basename : Option Text → Result Text) (info : PhdrInfo) (name fname : Text) (first : ℕ × ℕ)
    (rest : List (ℕ × ℕ)) (modules : ModuleRangeMap)
    → info.dlpi_phdr ≡ first ∷ rest
    → info.dlpi_addr ≢ 0
    → info.dlpi_addr < word
    → name ≢ []
    → is_excluded fname ≡ false
    → named_module basename info name fname modules
      ≡ insert text_eq name
          (record { begin = info.dlpi_addr; length = add32 first.0 first.1 })
          modules
unfolding named_module
named_module_lem basename info name fname first rest modules ep nz small ne nx =
    let unnamed = named name ne in
    let at_zero = ==-false info.dlpi_addr nz in
    rw (at_zero, unnamed, nx, length_lem info.dlpi_addr first rest info.dlpi_phdr ep small) refl

-- A module that is mapped elsewhere than at 0, has a name, is not excluded and is not in the map
-- yet is entered under its name, from its address on, and as long as its first program header
-- reaches, whatever the headers behind it say.
pub on_phdr_lem :
    (basename : Option Text → Result Text) (info : PhdrInfo) (name fname : Text) (first : ℕ × ℕ)
    (rest : List (ℕ × ℕ)) (modules : ModuleRangeMap)
    → basename info.dlpi_name ≡ ok fname
    → info.dlpi_name ≡ some name
    → info.dlpi_phdr ≡ first ∷ rest
    → info.dlpi_addr ≢ 0
    → info.dlpi_addr < word
    → name ≢ []
    → is_excluded fname ≡ false
    → lookup text_eq name modules ≡ none
    → (modules' : ModuleRangeMap) × (on_phdr basename info modules ≡ ok modules')
      × (lookup text_eq name modules'
          ≡ some (record { begin = info.dlpi_addr; length = add32 first.0 first.1 }))
unfolding on_phdr
on_phdr_lem basename info name fname first rest modules eb en ep nz small ne nx absent =
    let range : DataRange = record { begin = info.dlpi_addr; length = add32 first.0 first.1 } in
    (
      insert text_eq name range modules,
      rw (eb, en)
          (ap ok (named_module_lem basename info name fname first rest modules ep nz small ne nx)),
      lookup-insert name range modules absent,
    )
