-- ===== src/EhFrame/Align.antt =====
-- The padding behind a record.
use clientplugin.Base.{ℕ, ◌+◌, ◌*◌, ◌/◌, ◌%◌, ◌<◌, ◌≡◌, arith, word}
use clientplugin.EhFrame.{align}

-- `align` rounds up to a multiple of four, in a word.
pub align_lem : (p : ℕ) → p < word → align p ≡ (p + 3) / 4 * 4 % word
unfolding align
align_lem p h = ground arith

pub align-lt : (p : ℕ) → p < word → align p < word
align-lt p h = omega (arith, align_lem p h)
