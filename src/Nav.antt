-- ===== src/Nav.antt =====
-- src/modules/nav_workshop_fix.cpp: where the navigation mesh of a map is read from.
-- The functions of strtools.h and `ReadFile` of the file system are given; the latter fills the
-- buffer or fails.
use clientplugin.Base.{
  ℕ, zero, suc, ◌+◌, ◌-◌, ◌≤◌, Bool, true, false, Option, none, some, List, [], ◌∷◌, ◌++◌, length,
  Text, codes, starts_with, ◌==◌, ltb, if◌then◌else◌,
}
pub mod CleanName
mod Runs

abbrev pub ugc : Text
ugc = codes ".ugc"

-- The text up to the first occurrence of ".ugc", which `strstr` finds.
pub cut_ugc : Text → Text
unfolding starts_with
cut_ugc [] = []
cut_ugc (c ∷ s) = let rest = cut_ugc s in if starts_with (c ∷ s) ugc then [] else c ∷ rest

-- `clean_name` for the two prefixes of maps, and for the two others.
first_of : Option Text → Option Text → Option Text
first_of (some s) other = some s
first_of none other = other

-- What `GetCleanMapName` returns is its input, or else the buffer that it has filled.
pub data Cleaned : Type 0 where
  is_inp is_out : Cleaned

-- StringAfterPrefixCaseSensitive
module _ (after_prefix : Text → Text → Option Text) where
  pub in_maps : Text → Option Text
  unfolding first_of
  in_maps inp =
      first_of (after_prefix inp (codes "maps/workshop/"))
        (after_prefix inp (codes "maps\\workshop\\"))

  pub in_workshop : Text → Option Text
  unfolding first_of
  in_workshop inp =
      first_of (after_prefix inp (codes "workshop/")) (after_prefix inp (codes "workshop\\"))

-- The same, and V_strncpy and V_strncat with the size of the buffer.
module _ (after_prefix : Text → Text → Option Text) (strncpy : ℕ → Text → Text)
    (strncat : ℕ → Text → Text → Text) where
  -- `GetCleanMapName`: which text it returns, and the buffer `out` after the call.
  pub clean_map_name : Text → Text → Cleaned × Text
  unfolding in_maps in_workshop cut_ugc
  clean_map_name inp out = elim (in_maps after_prefix inp) [
    | some clean_name ↦ (is_out, cut_ugc (strncat 0x100 (strncpy 0x100 (codes "maps/")) clean_name))
    | none ↦ elim (in_workshop after_prefix inp) [
      | some clean_name ↦ (is_out, cut_ugc (strncpy 0x100 clean_name))
      | none ↦ (is_inp, out)
    ]
  ]

pub data NavErrorType : Type 0 where
  fine cant_access_file : NavErrorType

-- The buffer, what `*pNavDataFromBSP` is afterwards, if there is one, and the result.
pub record NavData : Type 0 where
  pub out_buffer : Option (List ℕ)
  pub from_bsp : Option Bool
  pub result : NavErrorType

-- `pNavDataFromBSP` is set, unless it is null.
set_from_bsp : Option Bool → Option Bool
set_from_bsp none = none
set_from_bsp (some b) = some true

-- A file out of the map.
found_in_bsp : List ℕ → Option Bool → NavData
unfolding set_from_bsp
found_in_bsp data_ from_bsp = record {
  out_buffer = some data_;
  from_bsp = set_from_bsp from_bsp;
  result = fine;
}

-- V_snprintf with the size of the buffer, the format and its argument, and `ReadFile` of a name and
-- a search path.
module _ (after_prefix : Text → Text → Option Text) (strncpy : ℕ → Text → Text)
    (strncat : ℕ → Text → Text → Text) (snprintf : ℕ → Text → Text → Text)
    (read_file : Text → Text → Option (List ℕ)) where
  pub nav_path : Text → Text
  nav_path name = snprintf 260 (codes "maps\\%s.nav") name

  -- `GetNavDataFromFile_replace`. The local array `cleaned_map_name` holds `uninitialised` at first.
  pub get_nav_data : Text → Text → Option Bool → NavData
  unfolding nav_path found_in_bsp clean_map_name
  get_nav_data uninitialised mapname from_bsp = elim (read_file (nav_path mapname) (codes "MOD")) [
    | some data_ ↦ record { out_buffer = some data_; from_bsp = from_bsp; result = fine }
    | none ↦
        (let cleaned_map_name =
            (clean_map_name after_prefix strncpy strncat mapname uninitialised).1 in
          elim (read_file (nav_path cleaned_map_name) (codes "BSP")) [
            | some data_ ↦ found_in_bsp data_ from_bsp
            | none ↦ elim (read_file (codes "maps\\embed.nav") (codes "BSP")) [
              | some data_ ↦ found_in_bsp data_ from_bsp
              | none ↦ record { out_buffer = none; from_bsp = from_bsp; result = cant_access_file }
            ]
          ])
  ]
