-- ===== src/LoadedModule/Addresses.antt =====
-- Online and offline addresses of a module.
use mathlib.Core.List.{Mem, mem-cons_self, mem-cons_of_mem}
use clientplugin.Base.{
  ℕ, ◌%◌, ◌≤◌, ◌<◌, ◌≡◌, ◌⊎◌, inl, inr, refl, ◌∙◌, subst, List, [], ◌∷◌, ◌++◌, All, arith, min, ok,
  word, uint32_max, ◌==◌, if◌then◌else◌,
}
use clientplugin.RangeChecker.{DataRange}
use clientplugin.LoadedModule.{
  Segment, Elf, LoadedModule, pt_load, lowest, load_module, get_online_address_from_offline,
  get_offline_address_from_online,
}

-- The two base addresses are words.
pub record IsPlaced (m : LoadedModule) : Type 0 where
  pub online_word : m.online_baseaddr < word
  pub offline_word : m.offline_baseaddr < word

-- The two translations of addresses undo one another, on all words.
pub offline-online :
    (m : LoadedModule) (a : ℕ)
    → IsPlaced m
    → a < word
    → (get_offline_address_from_online m (get_online_address_from_offline m a) ≡ a)
      × (get_online_address_from_offline m (get_offline_address_from_online m a) ≡ a)
unfolding get_offline_address_from_online get_online_address_from_offline
offline-online m a placed ha = (omega arith, omega arith)

abbrev pub IsLoadable : Segment → Type 0
IsLoadable s = s.type ≡ pt_load

-- The base that one segment leaves.
abbrev after : Segment → ℕ → ℕ
after s base = if s.type == pt_load then min base (s.virtual_address % word) else base

lowest_bounds :
    (segments : List Segment) (base : ℕ)
    → (lowest segments base ≤ base)
      × All (λ s. IsLoadable s → lowest segments base ≤ s.virtual_address % word) segments
unfolding lowest
lowest_bounds [] base = (omega arith, tt)
lowest_bounds (s ∷ rest) base =
    let (low, each) = lowest_bounds rest (after s base) in
    (ground (arith, low), (λ loadable. ground (arith, low), each))

-- The least address is that of a segment, or the start value.
abbrev Reached : List Segment → ℕ → Type 0
Reached segments base =
    (lowest segments base ≡ base)
    ⊎ ((s : Segment) × Mem s segments
        × (IsLoadable s)
        × (lowest segments base ≡ s.virtual_address % word))

after_cases :
    (s : Segment) (base : ℕ)
    → (after s base ≡ base) ⊎ (IsLoadable s × (after s base ≡ s.virtual_address % word))
after_cases s base = ground arith

lowest-Reached : (segments : List Segment) (base : ℕ) → Reached segments base
unfolding lowest
lowest-Reached [] base = inl refl
lowest-Reached (s ∷ rest) base = elim (lowest-Reached rest (after s base)) [
  | inr (t, there, loadable, e) ↦ inr (t, mem-cons_of_mem s there, loadable, e)
  | inl e ↦ elim (after_cases s base) [
    | inl same ↦ inl (e ∙ same)
    | inr (loadable, low) ↦ inr (s, mem-cons_self, loadable, e ∙ low)
  ]
]

-- The offline base is a lower bound that is reached.
offline_baseaddr-All :
    (elf : Elf) (range : DataRange) (m : LoadedModule)
    → load_module elf range ≡ ok m
    → (All (λ s. IsLoadable s → m.offline_baseaddr ≤ s.virtual_address % word) elf.segments)
      × ((m.offline_baseaddr ≡ uint32_max)
          ⊎ ((s : Segment) × Mem s elf.segments
              × (IsLoadable s)
              × (m.offline_baseaddr ≡ s.virtual_address % word)))
unfolding load_module
offline_baseaddr-All elf range m e =
    let low : lowest elf.segments uint32_max ≡ m.offline_baseaddr = ground arith in
    subst
      (λ b.
        (All (λ s. IsLoadable s → b ≤ s.virtual_address % word) elf.segments)
        × ((b ≡ uint32_max)
            ⊎ ((s : Segment) × Mem s elf.segments
                × (IsLoadable s)
                × (b ≡ s.virtual_address % word))))
      low ((lowest_bounds elf.segments uint32_max).1, lowest-Reached elf.segments uint32_max)

All-middle :
    (P : Segment → Type 0) (before : List Segment) (s : Segment) (behind : List Segment)
    → All P (before ++ (s ∷ behind))
    → P s
All-middle P [] s behind each = each.0
All-middle P (t ∷ before) s behind each = All-middle P before s behind each.1

-- The offline base of a module that is loaded is the least address of its PT_LOAD segments: no such
-- segment lies below it, and it is the address of one of them, or the start value UINTPTR_MAX.
pub load_module-offline_baseaddr :
    (elf : Elf) (range : DataRange) (m : LoadedModule) (before : List Segment) (s : Segment)
    (behind : List Segment)
    → load_module elf range ≡ ok m
    → elf.segments ≡ before ++ (s ∷ behind)
    → IsLoadable s
    → (m.offline_baseaddr ≤ s.virtual_address % word)
      × ((m.offline_baseaddr ≡ uint32_max)
          ⊎ ((t : Segment) × Mem t elf.segments
              × (IsLoadable t)
              × (m.offline_baseaddr ≡ t.virtual_address % word)))
load_module-offline_baseaddr elf range m before s behind e split loadable =
    let (each, reached) = offline_baseaddr-All elf range m e in
    let moved =
      subst (All (λ t. IsLoadable t → m.offline_baseaddr ≤ t.virtual_address % word)) split each in
    (
      All-middle (λ t. IsLoadable t → m.offline_baseaddr ≤ t.virtual_address % word) before s behind
          moved loadable,
      reached,
    )

-- A module that is loaded has its two base addresses in words, so its translations invert.
pub load_module-IsPlaced :
    (elf : Elf) (range : DataRange) (m : LoadedModule)
    → range.begin < word
    → load_module elf range ≡ ok m
    → IsPlaced m
unfolding load_module
load_module-IsPlaced elf range m hb e = ground (arith, (lowest_bounds elf.segments uint32_max).0)
