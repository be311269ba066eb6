-- ===== src/Offsets/Runs.antt =====
-- Runs of src/offsets/offsets.cpp.
use clientplugin.Base.{
  ℕ, zero, suc, ◌<◌, ◌≡◌, ◌≢◌, refl, false, Option, none, some, List, [], ◌∷◌, arith, Text, codes,
  text_eq, lookup, Memory, load, Result, ok, ◌==◌, if◌then◌else◌, add32,
}
use clientplugin.RangeChecker.{DataRange}
use clientplugin.Offsets.{
  shared_lib_signature, ModuleRangeMap, window_matches, windows_of, get_address,
}
use clientplugin.Offsets.Scan.{IsFirst, get_address-finds, get_address-IsFirst}
use clientplugin.Offsets.Init.{PhdrInfo, is_excluded, on_phdr}
use clientplugin.Offsets.Init.Ranges.{on_phdr_lem}

-- "xyxz" at 4096.
abbrev image : Memory
image a =
    if a == 4096
    then some 120
    else if a == 4097
    then some 121
    else if a == 4098
    then some 120
    else if a == 4099
    then some 122
    else none

abbrev client : Text
client = codes "client.so"

abbrev range : DataRange
range = record { begin = 4096; length = 4 }

abbrev modules : ModuleRangeMap
modules = (client, range) ∷ []

-- "xz", and "qz", to be compared in all bits.
abbrev present : List ℕ
present = 120 ∷ 122 ∷ []

abbrev absent : List ℕ
absent = 113 ∷ 122 ∷ []

abbrev mask : List ℕ
mask = 255 ∷ 255 ∷ []

abbrev no_handle_ : Text → ℕ
no_handle_ lib = 0

abbrev no_symbol_ : ℕ → Text → ℕ
no_symbol_ handle symbol = 0

client_there : lookup text_eq client modules ≡ some range
unfolding lookup text_eq
client_there = refl

third-IsFirst : IsFirst image present mask 4096 0 2
unfolding window_matches load
third-IsFirst = record { matches = refl; earlier = λ j lo hi. earlier_windows j hi }
  where
    earlier_windows : (j : ℕ) → j < 2 → window_matches image (add32 4096 j) present mask ≡ ok false
    earlier_windows zero hi = refl
    earlier_windows (suc zero) hi = refl
    earlier_windows (suc (suc j)) hi = absurd (omega arith)

none_match : (j : ℕ) → j < 3 → window_matches image (add32 4096 j) absent mask ≡ ok false
unfolding window_matches load
none_match zero hi = refl
none_match (suc zero) hi = refl
none_match (suc (suc zero)) hi = refl
none_match (suc (suc (suc j))) hi = absurd (omega arith)

third_found :
    get_address no_handle_ no_symbol_ image modules [] (shared_lib_signature client present mask)
    ≡ ok 4098
third_found =
    get_address-finds no_handle_ no_symbol_ image modules [] client present mask range 2
      client_there (omega arith) third-IsFirst

get_address-IsFirst_example :
    (i : ℕ) × (i < windows_of range present)
    × (4098 ≡ add32 i range.begin)
    × IsFirst image present mask range.begin 0 i
get_address-IsFirst_example =
    get_address-IsFirst no_handle_ no_symbol_ image modules [] client present mask range 4098
      client_there third_found

abbrev basename : Option Text → Result Text
basename none = ok []
basename (some name) = ok name

-- Two headers, of which the second reaches further.
abbrev info : PhdrInfo
info = record {
  dlpi_addr = 4096;
  dlpi_name = some client;
  dlpi_phdr = (0, 100) ∷ (4096, 5000) ∷ [];
}

client_nonempty : client ≢ []
client_nonempty e = cc

client_kept : is_excluded client ≡ false
unfolding is_excluded text_eq
client_kept = refl

client_absent : lookup {V = DataRange} text_eq client [] ≡ none
unfolding lookup
client_absent = refl

on_phdr_lem_example :
    (modules' : ModuleRangeMap) × (on_phdr basename info [] ≡ ok modules')
    × (lookup text_eq client modules' ≡ some (record { begin = 4096; length = 100 }))
on_phdr_lem_example =
    on_phdr_lem basename info client client (0, 100) ((4096, 5000) ∷ []) [] refl refl refl
      (λ e. omega arith) (omega arith) client_nonempty client_kept client_absent
