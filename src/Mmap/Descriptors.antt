-- ===== src/Mmap/Descriptors.antt =====
-- The descriptors that are open after a file has been mapped.
use clientplugin.Base.{
  ℕ, ◌≡◌, inl, inr, Option-cases, ap, Option, none, some, List, [], ◌∷◌, Text, arith, ◌==◌,
  if◌then◌else◌,
}
use clientplugin.Mmap.{
  open_file, seek_start, seek_end, close_file, SystemCalls, Mapped, mapped, failed_to_open,
  failed_to_mmap, map_descriptor, map_memory,
}

-- `close` takes a descriptor off.
abbrev closed : ℕ → List ℕ → List ℕ
closed fd [] = []
closed fd (g ∷ fds) = let rest = closed fd fds in if g == fd then fds else g ∷ rest

closed-first : (fd : ℕ) (fds : List ℕ) → closed fd (fd ∷ fds) ≡ fds
closed-first fd fds = ground arith

abbrev opened : Option ℕ → List ℕ → List ℕ
opened none fds = fds
opened (some fd) fds = fd ∷ fds

module _ (opens : SystemCalls → Text → Option ℕ) (file_length : SystemCalls → ℕ → ℕ)
    (maps : SystemCalls → ℕ → ℕ → Option ℕ) where
  -- The descriptors that the calls have opened and not closed, the last first.
  abbrev pub open_fds : SystemCalls → List ℕ
  open_fds [] = []
  open_fds (open_file fname ∷ before) = opened (opens before fname) (open_fds before)
  open_fds (close_file fd ∷ before) = closed fd (open_fds before)
  open_fds (_ ∷ before) = open_fds before

  -- How the descriptors are left: as they were, or with one more where the mapping has failed.
  abbrev pub Leaves : Mapped → List ℕ → List ℕ → Type 0
  Leaves (failed_to_mmap fname) before after = (fd : ℕ) × (after ≡ fd ∷ before)
  Leaves (mapped file) before after = after ≡ before
  Leaves (failed_to_open fname) before after = after ≡ before

  map_descriptor-Leaves :
      (fname : Text) (fd : ℕ) (calls : SystemCalls) (before : List ℕ)
      → open_fds calls ≡ fd ∷ before
      → Leaves
          (map_descriptor opens file_length maps fname fd calls).0
          before
          (open_fds (map_descriptor opens file_length maps fname fd calls).1)
  unfolding map_descriptor
  map_descriptor-Leaves fname fd calls before e =
      elim (Option-cases (maps (seek_start fd ∷ seek_end fd ∷ calls) (file_length calls fd) fd)) [
        | inl f ↦ rw (f, map_descriptor) (fd, e)
        | inr (address, f) ↦ rw (f, map_descriptor) (rw e (closed-first fd before))
      ]

  -- The constructor leaves the descriptors of the process as they were, whether it succeeds or the file cannot be
  -- opened; if the mapping fails, then it leaves a descriptor open.
  pub map_memory-Leaves :
      (fname : Text) (calls : SystemCalls)
      → Leaves
          (map_memory opens file_length maps fname calls).0
          (open_fds calls)
          (open_fds (map_memory opens file_length maps fname calls).1)
  unfolding map_memory
  map_memory-Leaves fname calls = elim (Option-cases (opens calls fname)) [
    | inl f ↦ rw (f, map_memory) (ap (λ o. opened o (open_fds calls)) f)
    | inr (fd, f) ↦
        rw (f, map_memory)
          (map_descriptor-Leaves fname fd (open_file fname ∷ calls) (open_fds calls)
            (ap (λ o. opened o (open_fds calls)) f))
  ]
