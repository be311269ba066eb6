-- ===== src/Offsets.antt =====
-- src/offsets/offsets.hpp and .cpp: addresses in the game's modules, and how each is found.
-- `init_offsets`, which fills the tables and the caches, is in the child Init.
-- `dlopen`, `dlsym` and boost's `unhex` are given.
use clientplugin.Base.{
  ℕ, zero, suc, ◌+◌, ◌-◌, ◌*◌, ◌%◌, ◌^◌, bit_and, Bool, true, false, not, Option, none, some, List,
  [], ◌∷◌, ◌++◌, length, get_elem?, Text, text_eq, to_string, lookup, Memory, load, load_le, Result,
  ok, err, stuck, ◌>>=◌, ◌>>◌, require, or_throw, out_of_range, null_module, no_handle, no_symbol,
  no_pattern, null_offset, mask_size, empty_signature, ◌==◌, if◌then◌else◌, add32, pointer_size,
}
use clientplugin.RangeChecker.{DataRange}
pub mod Init
pub mod Scan
pub mod Cache
pub mod Constants
mod Runs

-- `Vtables`, `ModuleVtables` and `ModuleRangeMap`. `EhFrameRanges` is passed along, but not read.
abbrev pub Vtables : Type 0
Vtables = List (Text × List ℕ)

abbrev pub ModuleVtables : Type 0
ModuleVtables = List (Text × Vtables)

abbrev pub ModuleRangeMap : Type 0
ModuleRangeMap = List (Text × DataRange)

-- The subclasses of `Offset`, each with its constant members.
pub data Offset : Type 0 where
  manual_offset : (manual_address : ℕ) → Offset
  shared_lib_offset : (lib : Text) (offset : ℕ) → Offset
  vtable_offset : (lib name : Text) (function vftable : ℕ) → Offset
  shared_lib_symbol : (lib symbol : Text) → Offset
  shared_lib_signature : (lib : Text) (signature mask : List ℕ) → Offset

-- The constructor of `VtableOffset` takes a uint32_t, and the member that it fills is a uint16_t.
unfoldable pub make_vtable_offset : Text → Text → ℕ → ℕ → Offset
make_vtable_offset lib name function vftable =
    vtable_offset lib name (function % 2 ^ 16) (vftable % 2 ^ 16)

module _ (unhex : Text → Result (List ℕ)) where
  -- The constructor of `SharedLibSignature`.
  unfoldable pub make_signature : Text → Text → Text → Result Offset
  make_signature lib signature_str mask_str = do
    signature ← unhex signature_str
    mask ← unhex mask_str
    require (length signature == length mask) mask_size
    require (not (length signature == 0)) empty_signature
    ok (shared_lib_signature lib signature mask)

-- `all_of` over the window, the signature and the mask: it reads no byte behind the first that differs.
unfoldable pub window_matches : Memory → ℕ → List ℕ → List ℕ → Result Bool
window_matches m p (sig_byte ∷ signature) (mask_byte ∷ mask) = do
  let rest = window_matches m (add32 p 1) signature mask
  orig_byte ← load m p
  if bit_and orig_byte mask_byte == bit_and sig_byte mask_byte then rest else ok false
window_matches m p _ _ = ok true

-- The loop over so many windows, from the one at idx on.
unfoldable pub scan : Memory → ℕ → List ℕ → List ℕ → ℕ → ℕ → Result ℕ
unfolding window_matches
scan m begin signature mask idx zero = err no_pattern
scan m begin signature mask idx (suc windows) = do
  let rest = scan m begin signature mask (suc idx) windows
  matched ← window_matches m (add32 begin idx) signature mask
  if matched then ok (add32 idx begin) else rest

-- The windows of `ranges::views::sliding`: none where the range is shorter than a window.
abbrev pub windows_of : DataRange → List ℕ → ℕ
windows_of range signature = suc range.length - length signature

module _ (dlopen : Text → ℕ) (dlsym : ℕ → Text → ℕ) (m : Memory) (modules : ModuleRangeMap)
    (vtables : ModuleVtables) where
  -- The `get_address` of each subclass.
  unfoldable pub get_address : Offset → Result ℕ
  unfolding scan
  get_address (manual_offset manual_address) = ok manual_address
  get_address (shared_lib_offset lib offset) = do
    range ← or_throw (lookup text_eq lib modules) out_of_range
    if range.begin == 0 then err null_module else ok (add32 range.begin offset)
  get_address (vtable_offset lib name function vftable) = do
    of_module ← or_throw (lookup text_eq lib vtables) out_of_range
    vftables ← or_throw (lookup text_eq (to_string (length name) ++ name) of_module) out_of_range
    vftable_ptr ← or_throw (get_elem? vftables vftable) out_of_range
    load_le 4 m (add32 vftable_ptr (pointer_size * function))
  get_address (shared_lib_symbol lib symbol) =
      let handle = dlopen lib in
      let addr = dlsym handle symbol in
      if handle == 0 then err no_handle else if addr == 0 then err no_symbol else ok addr
  get_address (shared_lib_signature lib signature mask) = do
    range ← or_throw (lookup text_eq lib modules) out_of_range
    scan m range.begin signature mask 0 (windows_of range signature)

  -- `cache_address`: the member after the call, and how the call ends. It is set before the test.
  unfoldable pub cache_address : Offset → ℕ → ℕ × Result (Unit {0})
  unfolding get_address
  cache_address offset cached_address = elim (get_address offset) [
    | ok zero ↦ (0, err null_offset)
    | ok (suc a) ↦ (suc a, ok tt)
    | err e ↦ (cached_address, err e)
    | stuck ↦ (cached_address, stuck)
  ]

  -- The loop over `g_offset_list`, with the members of the offsets; an exception leaves it.
  unfoldable pub cache_all : List (Offset × ℕ) → List (Offset × ℕ) × Result (Unit {0})
  unfolding cache_address
  cache_all [] = ([], ok tt)
  cache_all ((offset, cached_address) ∷ offsets) =
      let one = cache_address offset cached_address in
      let rest = cache_all offsets in
      elim one.1 [
        | ok u ↦ ((offset, one.0) ∷ rest.0, rest.1)
        | err e ↦ ((offset, one.0) ∷ offsets, err e)
        | stuck ↦ ((offset, one.0) ∷ offsets, stuck)
      ]

-- The constructor of `Offset` puts it at the front of `g_offset_list`.
unfoldable pub make_offset : Offset → List (Offset × ℕ) → List (Offset × ℕ)
make_offset offset g_offset_list = (offset, 0) ∷ g_offset_list

-- `operator+` of an offset, from the member.
pub plus : ℕ → ℕ → ℕ
plus cached_address rhs = add32 cached_address rhs
