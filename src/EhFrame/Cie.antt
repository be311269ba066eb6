-- ===== src/EhFrame/Cie.antt =====
-- `handle_cie` of src/offsets/eh_frame.cpp.
pub mod Total
use clientplugin.Base.{
  ℕ, Option, none, some, List, [], ◌∷◌, Bool, true, false, Memory, Result, ok, err, stuck, ◌>>=◌,
  ◌>>◌, require, Error, extended_length, bad_cie_id, bad_cie_version, no_personality,
  unknown_augmentation, not, ◌==◌, if◌then◌else◌, uint32_max,
}
use clientplugin.Base.Int.{ℤ}
use clientplugin.DataView.{
  read, read_string, read_uleb128, read_sleb128, read_dwarf_encoded_no_application,
}

pub record CieInfo : Type 0 where
  pub fde_pointer_encoding : ℕ

-- `if (!...) throw StringError("Expected personality routine.");`
personality : Option ℤ → ℕ → ℕ → Result (ℕ × ℕ)
personality none encoding p = err no_personality
personality (some value) encoding p = ok (encoding, p)

-- One augmentation character: the pointer encoding so far, and the pointer.
pub augment : ℕ → Memory → ℕ → ℕ → Result (ℕ × ℕ)
unfolding personality
augment c m encoding p =
    if c == b'z'
    then ok (encoding, p)
    else if c == b'R'
    then read 1 m p
    else if c == b'L'
    then (do (lsda_pointer_encoding, q) ← read 1 m p; ok (encoding, q))
    else if c == b'P'
    then (do
      (pointer_encoding, q) ← read 1 m p
      (value, q') ← read_dwarf_encoded_no_application pointer_encoding m q
      personality value encoding q')
    else err (unknown_augmentation c)

-- `for (const auto augmentation : cie_augmentation_string)`
pub augment_all : List ℕ → Memory → ℕ → ℕ → Result (ℕ × ℕ)
unfolding augment
augment_all [] m encoding p = ok (encoding, p)
augment_all (c ∷ cs) m encoding p = do
  (encoding', q) ← augment c m encoding p
  augment_all cs m encoding' q

-- `cie_augmentation_string[0] == 'z'`; of an empty string the first character is its null byte.
pub starts_with_z : List ℕ → Bool
starts_with_z [] = false
starts_with_z (c ∷ cs) = c == b'z'

-- `handle_cie` behind the augmentation string.
pub cie_body : List ℕ → Memory → ℕ → Result CieInfo
unfolding augment_all starts_with_z
cie_body cie_augmentation_string m p4 = do
  (cie_code_alignment_factor, p5) ← read_uleb128 m p4
  (cie_data_alignment_factor, p6) ← read_sleb128 m p5
  (return_address_register, p7) ← read 1 m p6
  if starts_with_z cie_augmentation_string
      then (do
        (cie_augmentation_length, p8) ← read_uleb128 m p7
        (encoding, p9) ← augment_all cie_augmentation_string m 0 p8
        ok (record { fde_pointer_encoding = encoding }))
      else ok (record { fde_pointer_encoding = 0 })

pub handle_cie : Memory → ℕ → Result CieInfo
unfolding cie_body
handle_cie m cie_address = do
  (cie_length, p1) ← read 4 m cie_address
  require (not (cie_length == uint32_max)) extended_length
  (cie_id, p2) ← read 4 m p1
  require (cie_id == 0) (bad_cie_id cie_id)
  (cie_version, p3) ← read 1 m p2
  require (cie_version == 1) (bad_cie_version cie_version)
  (cie_augmentation_string, p4) ← read_string m p3
  cie_body cie_augmentation_string m p4
