-- ===== src/DataView.antt =====
-- src/util/data_view.hpp: `DataView`, a cursor over the memory of the process.
-- A DataView is its `data_ptr`; a method takes memory and the pointer, and returns what it reads
-- with the pointer moved on. An error leaves no pointer, since every caller drops the view then.
use Prim.Native.Nat.{ℕ, zero, suc, ◌+◌, ◌*◌, ◌/◌, ◌%◌, ◌^◌}
use clientplugin.Base.{
  Bool, true, false, Option, none, some, List, [], ◌∷◌, Memory, load, load_le, Result, ok, err,
  stuck, ◌>>=◌, Error, leb_error, unknown_format, unknown_application, ◌==◌, if◌then◌else◌, add32,
  low_bits, word, pointer_size, length,
}
use clientplugin.Base.Int.{ℤ, pos, signed, mod_ℤ, ◌+ℤ◌}
use clientplugin.Leb128.{Leb, decode_uleb128, decode_sleb128}
pub mod Dwarf
pub mod Advance
pub mod Total
mod Runs

-- `read<T>()` for an unsigned T of `size` bytes.
pub read : ℕ → Memory → ℕ → Result (ℕ × ℕ)
read size m p = do value ← load_le size m p; ok (value, add32 p size)

-- The length that `strlen` finds, with the bytes before the null.
unfoldable pub string_at : ℕ → Memory → ℕ → Result (List ℕ)
string_at zero m p = stuck
string_at (suc fuel) m p = do
  c ← load m p
  let rest = string_at fuel m (add32 p 1)
  elim (c == 0) [ true ↦ ok [] | false ↦ rest >>= λ cs. ok (c ∷ cs) ]

-- A string that does not wrap round the address space has fewer than 2 ^ 32 bytes.
unfoldable pub read_string : Memory → ℕ → Result (List ℕ × ℕ)
read_string m p = do
  string_raw ← string_at word m p
  ok (string_raw, add32 p (length string_raw + 1))

checked_leb : Leb → ℕ → Result (ℕ × ℕ)
checked_leb r p = elim r.error [ none ↦ ok (r.value, add32 p r.n) | some e ↦ err (leb_error e) ]

-- The decoders are called with no end: `end` is the null pointer.
pub read_uleb128 : Memory → ℕ → Result (ℕ × ℕ)
unfolding checked_leb
read_uleb128 m p = do decoded ← decode_uleb128 m p 0; checked_leb decoded p

-- The value is the pattern of an int64_t.
pub read_sleb128 : Memory → ℕ → Result (ℕ × ℕ)
unfolding checked_leb
read_sleb128 m p = do decoded ← decode_sleb128 m p 0; checked_leb decoded p

pub data EhDwarfFormat : Type 0 where
  absptr uleb128 udata2 udata4 udata8 sleb128 sdata2 sdata4 sdata8 : EhDwarfFormat

-- The enumerators of `eh_dwarf_format`; another value of four bits is none of them.
pub format_of : ℕ → Option EhDwarfFormat
format_of code =
    if code == 0x00
    then some absptr
    else if code == 0x01
    then some uleb128
    else if code == 0x02
    then some udata2
    else if code == 0x03
    then some udata4
    else if code == 0x04
    then some udata8
    else if code == 0x09
    then some sleb128
    else if code == 0x0A
    then some sdata2
    else if code == 0x0B
    then some sdata4
    else if code == 0x0C
    then some sdata8
    else none

-- The enumerators of `eh_dwarf_application`.
pub data EhDwarfApplication : Type 0 where
  pcrel textrel datarel funcrel aligned indirect : EhDwarfApplication

pub application_of : ℕ → Option EhDwarfApplication
application_of code =
    if code == 0x10
    then some pcrel
    else if code == 0x20
    then some textrel
    else if code == 0x30
    then some datarel
    else if code == 0x40
    then some funcrel
    else if code == 0x50
    then some aligned
    else if code == 0x80
    then some indirect
    else none

-- DW_EH_PE_omit
abbrev pub dw_eh_pe_omit : ℕ
dw_eh_pe_omit = 0xFF

as_unsigned : Result (ℕ × ℕ) → Result (ℤ × ℕ)
as_unsigned r = do (value, p) ← r; ok (pos value, p)

as_signed : ℕ → Result (ℕ × ℕ) → Result (ℤ × ℕ)
as_signed half r = do (value, p) ← r; ok (signed half value, p)

-- The switch over the formats, which sets an absl::int128.
pub read_format : EhDwarfFormat → Memory → ℕ → Result (ℤ × ℕ)
unfolding as_unsigned as_signed
read_format absptr m p = as_unsigned (read pointer_size m p)
read_format uleb128 m p = as_unsigned (read_uleb128 m p)
read_format udata2 m p = as_unsigned (read 2 m p)
read_format udata4 m p = as_unsigned (read 4 m p)
read_format udata8 m p = as_unsigned (read 8 m p)
read_format sleb128 m p = as_signed (2 ^ 63) (read_sleb128 m p)
read_format sdata2 m p = as_signed (2 ^ 15) (read 2 m p)
read_format sdata4 m p = as_signed (2 ^ 31) (read 4 m p)
read_format sdata8 m p = as_signed (2 ^ 63) (read 8 m p)

read_known_format : Option EhDwarfFormat → ℕ → Memory → ℕ → Result (Option ℤ × ℕ)
unfolding read_format
read_known_format none code m p = err (unknown_format code)
read_known_format (some format) code m p = do
  (value, q) ← read_format format m p
  ok (some value, q)

pub read_dwarf_encoded_no_application : ℕ → Memory → ℕ → Result (Option ℤ × ℕ)
unfolding read_known_format format_of
read_dwarf_encoded_no_application encoding m p =
    if encoding == dw_eh_pe_omit
    then ok (none, p)
    else read_known_format (format_of (low_bits encoding 4)) (low_bits encoding 4) m p

-- The switch over the applications: all but `pcrel` throw. The sum is taken in 128 bits.
apply : Option EhDwarfApplication → ℕ → ℕ → ℤ → Result ℕ
apply (some pcrel) code pc value = ok (mod_ℤ (pos pc +ℤ value) (2 ^ 128) % word)
apply _ code pc value = err (unknown_application code)

apply_value : ℕ → ℕ → Option ℤ → Result (Option ℕ)
unfolding apply application_of
apply_value code pc none = ok none
apply_value code pc (some value) = do
  address ← apply (application_of code) code pc value
  ok (some address)

pub read_dwarf_encoded : ℕ → Memory → ℕ → Result (Option ℕ × ℕ)
unfolding apply_value
read_dwarf_encoded encoding m p = do
  (value, q) ← read_dwarf_encoded_no_application encoding m p
  address ← apply_value (encoding / 16 % 16 * 16) p value
  ok (address, q)
