-- ===== src/EhFrame/Termination.antt =====
-- Termination of `handle_eh_frame`.
use clientplugin.Base.{
  ℕ, zero, suc, ◌+◌, ◌-◌, ◌≤◌, ◌<◌, ◌≡◌, false, ◌||◌, uint32_max, extended_length, Bool-cases,
  ==_iff, ltb→lt, Option, inl, inr, arith, Memory, IsUserSpace, add32, sub32, word, ◌==◌, ltb, leb,
  if◌then◌else◌, or_throw-Ends, List, [], ◌∷◌, text_eq,
}
use clientplugin.Generator.{Gen, returns, throws}
use clientplugin.Generator.Bind.{◌>>=◌}
use clientplugin.Generator.Finishes.{
  Finishes, throws-Finishes, returns-Finishes, yields-Finishes, bind-Finishes, if-Finishes,
  followed_by-Finishes,
}
use clientplugin.DataView.{read, read_dwarf_encoded}
use clientplugin.DataView.Advance.{read_advance, read_dwarf_encoded_advance}
use clientplugin.DataView.Total.{read-Ends, read_dwarf_encoded-Ends, read_null}
use clientplugin.EhFrame.Cie.Total.{handle_cie-Ends}
use clientplugin.EhFrame.Align.{align_lem, align-lt}
use clientplugin.RangeChecker.{DataRange}
use clientplugin.EhFrame.{
  align, move_on, fde_record, frame_record, frame_loop, handle_eh_frame, eh_frame_name,
  section_frames, frames_of, get_eh_frame_ranges,
}
use clientplugin.LoadedModule.{LoadedModule, Section, get_online_address_from_offline}

-- The record is passed only if its end lies behind what was read of it.
move_on-Finishes :
    (q next : ℕ) (rest : Gen DataRange)
    → (q < next → Finishes rest)
    → Finishes (move_on q next rest)
unfolding move_on
move_on-Finishes q next rest h =
    if-Finishes (leb next q) _ _ (λ _. throws-Finishes DataRange _) (λ e. h (ground arith))

module _ {m : Memory} (user : IsUserSpace m) where
  read_then :
      (size p : ℕ) (f : ℕ × ℕ → Gen DataRange)
      → p < word
      → ((v q : ℕ) → q ≡ p + size → q < word → Finishes (f (v, q)))
      → Finishes (read size m p >>= f)
  read_then size p f hp after =
      bind-Finishes (read size m p) f (read-Ends size m p)
        λ r e. after r.0 r.1 (read_advance user size p hp e).0 (read_advance user size p hp e).1

  encoded_then :
      (encoding p : ℕ) (f : Option ℕ × ℕ → Gen DataRange)
      → p < word
      → ((v : Option ℕ) (q : ℕ) → p ≤ q → q < word → Finishes (f (v, q)))
      → Finishes (read_dwarf_encoded encoding m p >>= f)
  encoded_then encoding p f hp after =
      bind-Finishes (read_dwarf_encoded encoding m p) f (read_dwarf_encoded-Ends encoding m p)
        λ r e.
          after r.0 r.1 (read_dwarf_encoded_advance user encoding p hp e).0
            (read_dwarf_encoded_advance user encoding p hp e).1

  fde_record-Finishes :
      (p2 offset next : ℕ) (rest : Gen DataRange)
      → p2 < word
      → (p2 < next → Finishes rest)
      → Finishes (fde_record m p2 offset next rest)
  unfolding fde_record
  fde_record-Finishes p2 offset next rest hp h =
      bind-Finishes _ _ (handle_cie-Ends user (sub32 (sub32 p2 offset) 4) (omega arith)) λ c _.
        encoded_then c.fde_pointer_encoding p2 _ hp λ v p3 le h3.
          bind-Finishes _ _ (or_throw-Ends v _) λ b _. read_then 4 p3 _ h3 λ r p4 e4 h4.
            yields-Finishes _ _ (move_on-Finishes p4 next rest (λ lt. h (omega arith)))

  frame_record-Finishes :
      (p1 next : ℕ) (rest : Gen DataRange)
      → p1 < word
      → (p1 < next → Finishes rest)
      → Finishes (frame_record m p1 next rest)
  unfolding frame_record
  frame_record-Finishes p1 next rest hp h = read_then 4 p1 _ hp λ c p2 e2 h2.
      if-Finishes (c == 0) _ _ (λ _. move_on-Finishes p2 next rest (λ lt. h (omega arith)))
        (λ _. fde_record-Finishes p2 c next rest h2 (λ lt. h (omega arith)))

  -- The null page cannot be read, so a pointer that has wrapped to it ends the loop.
  null_read : (f : ℕ × ℕ → Gen DataRange) → Finishes (read 4 m 0 >>= f)
  null_read f = rw (read_null user) (throws-Finishes DataRange _)

  -- The rounds that are enough.
  abbrev rounds : ℕ → ℕ → ℕ
  rounds p end = if p == 0 then 1 else end - p + 2

  -- The next record stands behind this one, or its padding wraps to the null page.
  next_rounds :
      (p next end fuel : ℕ)
      → p < end
      → p < next
      → next < word
      → (p == 0) ≡ false
      → rounds p end ≤ suc fuel
      → rounds (align next) end ≤ fuel
  next_rounds p next end fuel inside further small there enough =
      ground (arith, align_lem next small)

  frame_loop-Finishes :
      (fuel p end : ℕ) → p < word → rounds p end ≤ fuel → Finishes (frame_loop fuel m p end)
  unfolding frame_loop
  frame_loop-Finishes zero p end hp hf = absurd (ground arith)
  frame_loop-Finishes (suc fuel) p end hp hf =
      if-Finishes (ltb p end) _ _
        (λ inside. elim (Bool-cases (p == 0)) [
          | inl null ↦ rw ((==_iff p 0).0 null) (null_read _)
          | inr there ↦ read_then 4 p _ hp λ length p1 e1 h1.
              if-Finishes (leb end p1 || (length == 0)) returns _ (λ _. returns-Finishes DataRange)
                λ _.
                  if-Finishes (length == uint32_max) (throws extended_length) _
                    (λ _. throws-Finishes DataRange _)
                    λ _. frame_record-Finishes p1 (add32 p1 length) _ h1 λ lt.
                      frame_loop-Finishes fuel (align (add32 p1 length)) end
                        (align-lt _ (omega arith))
                        (next_rounds p (add32 p1 length) end fuel (ltb→lt p end inside)
                          (omega arith) (omega arith) there hf)
        ])
        (λ _. returns-Finishes DataRange)

-- In user space `handle_eh_frame` comes to an end on every section, well formed or not: it stops,
-- or it throws. Records and padding move the pointer on, and the fuel is two rounds more than there
-- are bytes.
pub handle_eh_frame-Finishes :
    {m : Memory} (user : IsUserSpace m) (start_address end_address : ℕ)
    → start_address < word
    → Finishes (handle_eh_frame m start_address end_address)
unfolding handle_eh_frame
handle_eh_frame-Finishes user start end hs =
    frame_loop-Finishes user (suc (suc (end - start))) start end hs (ground arith)

section_frames-Finishes :
    {m : Memory} (user : IsUserSpace m) (loaded_mod : LoadedModule) (section : Section)
    → Finishes (section_frames m loaded_mod section)
unfolding section_frames get_online_address_from_offline
section_frames-Finishes user loaded_mod section = handle_eh_frame-Finishes user _ _ (omega arith)

-- In user space the coroutine over all .eh_frame sections of a module comes to an end.
pub get_eh_frame_ranges-Finishes :
    {m : Memory} (user : IsUserSpace m) (loaded_mod : LoadedModule)
    → Finishes (get_eh_frame_ranges m loaded_mod)
unfolding get_eh_frame_ranges
get_eh_frame_ranges-Finishes {m} user loaded_mod = sections_end loaded_mod.elf.sections
  where
    sections_end : (sections : List Section) → Finishes (frames_of m loaded_mod sections)
    sections_end [] = returns-Finishes DataRange
    sections_end (section ∷ sections) =
        if-Finishes (text_eq section.name eh_frame_name) _ _
          (λ _.
            followed_by-Finishes _ _ (section_frames-Finishes user loaded_mod section)
              (sections_end sections))
          (λ _. sections_end sections)
