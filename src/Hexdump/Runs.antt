-- ===== src/Hexdump/Runs.antt =====
-- A dump of twenty bytes.
use clientplugin.Base.{ℕ, Bool, ◌&&◌, ◌≡◌, refl, List, ◌∷◌, codes, ◌++◌, ltb, arith}
use clientplugin.Hexdump.{
  hexdump, dump_rows, dump_row, hex_part, hex_byte, hex_digit, shown, chunk, chunk_into,
}
use clientplugin.Hexdump.Undump.{undump, undump-hexdump}

-- The printable characters of ASCII.
printable : ℕ → Bool
printable c = ltb 31 c && ltb c 127

abbrev bytes : List ℕ
bytes = codes "fiendhook" ++ (10 ∷ 0 ∷ 255 ∷ 32 ∷ codes "rtti.cpp")

undump-hexdump_example : undump (hexdump printable bytes) ≡ bytes
undump-hexdump_example = undump-hexdump printable bytes (omega arith)

two_rows :
    hexdump printable bytes
    ≡ codes
        "66 69 65 6e 64 68 6f 6f 6b 0a 00 ff 20 72 74 74  | fiendhook... rtt\n69 2e 63 70 70  | i.cpp\n\n---------------------\n"
unfolding hexdump dump_rows dump_row hex_part hex_byte hex_digit shown chunk chunk_into printable
two_rows = refl
