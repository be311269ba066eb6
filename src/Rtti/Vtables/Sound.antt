-- ===== src/Rtti/Vtables/Sound.antt =====
-- The vtables of a module that is read in user space.
use clientplugin.Base.{
  ℕ, ◌≡◌, refl, subst, List, [], ◌∷◌, All, Text, Memory, IsUserSpace, some, get_elem?, ok, zero,
  suc,
}
use clientplugin.Generator.{yielded, outcome}
use clientplugin.Generator.Loops.{bind-outcome}
use clientplugin.LoadedModule.{LoadedModule}
use clientplugin.Rtti.Candidates.Bounds.{IsRearranging, locate_vftables-nonzero}
use clientplugin.Rtti.Vtables.{
  collect_functions, collect_typeinfos, typeinfo_name, get_vtables_from_module,
}
use clientplugin.Rtti.Vtables.Groups.{IsGroup, SharesTypeinfo}
use clientplugin.Rtti.Vtables.Whole.{get_vtables_from_module-IsGroup}

-- In user space, if the coroutine over the vtables of a module ends well, then each vtable that it
-- yields holds vftables that share a typeinfo, under that typeinfo's name.
pub get_vtables-IsGroup :
    {m : Memory} (user : IsUserSpace m) (sort : List ℕ → List ℕ) (sorts : IsRearranging sort)
    (loaded_mod : LoadedModule)
    → outcome (get_vtables_from_module sort m loaded_mod) ≡ ok tt
    → All (IsGroup m) (yielded (get_vtables_from_module sort m loaded_mod))
unfolding get_vtables_from_module
get_vtables-IsGroup {m} user sort sorts loaded_mod e =
    let (functions, ef, after) = bind-outcome (collect_functions m loaded_mod) _ e in
    let (relocs, er, rest) =
      bind-outcome (collect_typeinfos loaded_mod loaded_mod.elf.sections []) _ after in
    get_vtables_from_module-IsGroup sort m loaded_mod functions relocs ef er
      (locate_vftables-nonzero user sort sorts loaded_mod relocs functions) e

some_value : {v w : ℕ} → some v ≡ some w → v ≡ w
some_value e = cc

All-get : (P : ℕ → Type 0) (xs : List ℕ) (i v : ℕ) → All P xs → get_elem? xs i ≡ some v → P v
All-get P [] i v each e = cc
All-get P (x ∷ xs) zero v each e = subst P (some_value e) each.0
All-get P (x ∷ xs) (suc i) v each e = All-get P xs i v each.1 e

-- The name depends on the typeinfo only.
same_name :
    (m : Memory) (name : Text) (v w : ℕ) (ws : List ℕ)
    → SharesTypeinfo m w v
    → typeinfo_name m (w ∷ ws) ≡ ok name
    → typeinfo_name m (v ∷ []) ≡ ok name
unfolding typeinfo_name
same_name m name v w ws same named = rw same named

-- Each vftable of a vtable has the typeinfo of its name.
pub IsGroup-member :
    (m : Memory) (name : Text) (vftables : List ℕ) (i v : ℕ)
    → IsGroup m (name, vftables)
    → get_elem? vftables i ≡ some v
    → typeinfo_name m (v ∷ []) ≡ ok name
IsGroup-member m name [] i v g e = cc
IsGroup-member m name (w ∷ ws) i v g e =
    same_name m name v w ws (All-get (SharesTypeinfo m w) (w ∷ ws) i v (refl, g.1) e) g.0
