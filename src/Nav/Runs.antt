-- ===== src/Nav/Runs.antt =====
-- Runs of src/modules/nav_workshop_fix.cpp.
use clientplugin.Base.{
  ℕ, ◌≡◌, ◌≢◌, ◌↔◌, inl, inr, refl, false, Option, none, some, List, [], ◌∷◌, ◌++◌, Text, codes,
  starts_with,
}
use clientplugin.Nav.{cut_ugc, in_maps, in_workshop, get_nav_data}
use clientplugin.Nav.CleanName.{IsWorkshop, get_nav_data-uninitialised}

cut_at_ugc : cut_ugc (codes "ab.ugc1") ≡ [] ++ (97 ∷ 98 ∷ [])
unfolding cut_ugc starts_with
cut_at_ugc = refl

-- The functions of the SDK, as far as these runs use them.
abbrev after_prefix : Text → Text → Option Text
after_prefix s p = none

abbrev strncpy : ℕ → Text → Text
strncpy n s = s

abbrev strncat : ℕ → Text → Text → Text
strncat n s t = s ++ t

abbrev snprintf : ℕ → Text → Text → Text
snprintf n format s = s

no_prefix : ¬ IsWorkshop after_prefix strncpy strncat (codes "koth")
unfolding in_maps in_workshop
no_prefix (inl (rest, e)) = cc
no_prefix (inr (rest, e)) = cc

differ : codes "xx" ≢ []
differ e = cc

-- Two texts that may have stood in the array.
get_nav_data-uninitialised_example :
    ((read_file : Text → Text → Option (List ℕ))
      → get_nav_data after_prefix strncpy strncat snprintf read_file
          (codes "xx")
          (codes "koth")
          (some false)
        ≡ get_nav_data after_prefix strncpy strncat snprintf read_file []
            (codes "koth")
            (some false))
    ↔ IsWorkshop after_prefix strncpy strncat (codes "koth")
get_nav_data-uninitialised_example =
    get_nav_data-uninitialised after_prefix strncpy strncat snprintf (codes "koth") (codes "xx") []
      (some false) differ
