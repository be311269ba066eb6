-- ===== src/DataView/Runs.antt =====
-- Runs of src/util/data_view.hpp.
use clientplugin.Base.{
  ℕ, ◌+◌, ◌/◌, ◌%◌, ◌<◌, ◌≡◌, ◌≢◌, ◌⊎◌, refl, Option, none, some, List, [], ◌∷◌, arith, Memory,
  IsByteMemory, ok, ◌==◌, if◌then◌else◌, word,
}
use clientplugin.DataView.{format_of, read_dwarf_encoded}
use clientplugin.DataView.Dwarf.{little_endian, pcrel-little_endian, read_dwarf_encoded_outcome}

-- The four bytes of -256, at 16.
abbrev offset_at : Memory
offset_at a =
    if a == 16
    then some 0
    else if a == 17
    then some 0xFF
    else if a == 18
    then some 0xFF
    else if a == 19
    then some 0xFF
    else none

abbrev offset_bytes : List ℕ
offset_bytes = 0 ∷ 0xFF ∷ 0xFF ∷ 0xFF ∷ []

offset_bytes-IsByte : IsByteMemory offset_at
offset_bytes-IsByte a b e = ground arith

offset_encoded : read_dwarf_encoded 0x1B offset_at 16 ≡ ok (some 0xFFFFFF10, 20)
unfolding little_endian
offset_encoded =
    pcrel-little_endian offset_bytes offset_at 16 refl (refl, (refl, (refl, (refl, tt))))
      (omega arith)

abbrev code : ℕ
code = 0x1B

abbrev first_byte : ℕ
first_byte = 16

abbrev found : Option ℕ
found = some 0xFFFFFF10

read_dwarf_encoded_outcome_example :
    ((code ≡ 0xFF) × (found ≡ none) × (first_byte + 4 ≡ first_byte))
    ⊎ ((x : ℕ) × (found ≡ some x) × (x < word) × (code / 16 ≡ 1) × (format_of (code % 16) ≢ none))
read_dwarf_encoded_outcome_example =
    read_dwarf_encoded_outcome code offset_at first_byte found (first_byte + 4) (omega arith)
      offset_encoded
