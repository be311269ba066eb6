-- ===== src/Patcher.antt =====
-- src/hook/gum/x86patcher.hpp and .cpp: a patch of the code at an address.
-- Memory is mapped and writable there. The writer's function is given: the bytes that it writes, with pc from the
-- address on. `gum_memory_patch_code` makes the code writable and runs the callback on it.
use clientplugin.Base.{
  ℕ, zero, suc, ◌+◌, ◌-◌, Bool, true, false, List, [], ◌∷◌, length, Result, ok, err, undefined, ltb,
  ◌==◌, if◌then◌else◌, add32, Option, none, some,
}
pub mod Restore
mod Runs

-- The bytes of the process.
abbrev pub Code : Type 0
Code = ℕ → ℕ

abbrev pub peek : Code → ℕ → ℕ → List ℕ
peek c a zero = []
peek c a (suc n) = c a ∷ peek c (suc a) n

pub poke : ℕ → List ℕ → Code → Code
poke a [] c = c
poke a (b ∷ bs) c = poke (suc a) bs (λ x. if x == a then b else c x)

-- What `new` has made, and which form of `delete` is right for it.
pub data Allocation : Type 0 where
  of_object of_array : Allocation

-- `delete`, without brackets, of what is not one object is undefined.
pub delete_object : Allocation → Result (Unit {0})
delete_object of_object = ok tt
delete_object of_array = err undefined

-- The object: `callback_data` with what it holds, with how `original_code` was allocated, and `is_enabled`.
pub record X86Patcher : Type 0 where
  pub address : ℕ
  pub code_size : ℕ
  pub function : List ℕ
  pub original_code : List ℕ
  pub allocation : Allocation
  pub is_enabled : Bool

-- How a call ends: the size of the patch is tested after the patch has been written.
pub data Outcome : Type 0 where
  done size_mismatch : Outcome

pub enable : X86Patcher → Code → Code × Outcome
unfolding poke
enable p c =
    let patched = poke p.address p.function c in
    if ltb p.code_size (length p.function) then (patched, size_mismatch) else (patched, done)

pub disable : X86Patcher → Code → Code
unfolding poke
disable p c = poke p.address p.original_code c

-- The object with the members that the constructor sets.
abbrev pub patcher_at : ℕ → ℕ → List ℕ → Bool → Code → X86Patcher
patcher_at address code_size function enabled c = record {
  address = address;
  code_size = code_size;
  function = function;
  original_code = peek c address code_size;
  allocation = of_array;
  is_enabled = enabled;
}

-- What is left of the constructor when `enable` has returned, or thrown.
pub made : Code × Outcome → X86Patcher → Code × Option X86Patcher
made (c, done) p = (c, some p)
made (c, size_mismatch) p = (c, none)

-- The constructor. If `enable` throws, there is no object, and no destructor is run.
pub make_patcher : ℕ → ℕ → List ℕ → Bool → Code → Code × Option X86Patcher
unfolding enable made
make_patcher address code_size function enabled c =
    let p = patcher_at address code_size function enabled c in
    if enabled then made (enable p c) p else (c, some p)

-- The public methods, which leave `is_enabled` as it is.
pub data Method : Type 0 where
  enables disables : Method

-- Calls of the methods, up to one that throws.
pub call_methods : List Method → X86Patcher → Code → Code × Outcome
unfolding enable disable
call_methods [] p c = (c, done)
call_methods (enables ∷ ms) p c =
    let enabled = enable p c in
    let rest = call_methods ms p enabled.0 in
    elim enabled.1 [ done ↦ rest | size_mismatch ↦ enabled ]
call_methods (disables ∷ ms) p c = call_methods ms p (disable p c)

-- The destructor: the code when it comes to its `delete`, and how that ends.
pub destroy : X86Patcher → Code → Code × Result (Unit {0})
unfolding disable delete_object
destroy p c = (if p.is_enabled then disable p c else c, delete_object p.allocation)
