-- ===== src/Rtti/Relocations/Sizes.antt =====
-- The size of a typeinfo with several bases.
use clientplugin.Base.{ℕ, zero, suc, ◌+◌, ◌*◌, ◌%◌, ◌<◌, ◌≡◌, arith, word, add32}
use clientplugin.Rtti.Relocations.{add_bases}

-- The loop adds eight bytes for each base, in a word.
pub add_bases_lem :
    (base_count size : ℕ) → size < word → add_bases base_count size ≡ (size + 8 * base_count) % word
unfolding add_bases
add_bases_lem zero size h = omega arith
add_bases_lem (suc n) size h = omega (arith, add_bases_lem n (add32 (add32 size 4) 4) (omega arith))
