-- ===== src/Rtti/Candidates/Filter.antt =====
-- Which of the sorted candidates `locate_vftables` yields.
use mathlib.Core.List.{append_assoc}
use clientplugin.Base.{
  ℕ, ◌≡◌, refl, sym, ap, ◌∙◌, inl, inr, Bool, true, false, not, ◌&&◌, ◌||◌, Bool-cases, List, [],
  ◌∷◌, ◌++◌, Memory, ok, ◌==◌, if◌then◌else◌,
}
use clientplugin.Generator.{yielded}
use clientplugin.Rtti.Relocations.{get_typeinfo_addr_from_vtable}
use clientplugin.Rtti.Candidates.{seen, filter_seen}

-- The typeinfos that a list of candidates refers to.
abbrev pub Reads : Memory → List ℕ → List ℕ → Type 0
Reads m [] [] = Unit {0}
Reads m [] (t ∷ ts) = ⊥
Reads m (c ∷ cs) [] = ⊥
Reads m (c ∷ cs) (t ∷ ts) = (get_typeinfo_addr_from_vtable m c ≡ ok t) × Reads m cs ts

-- The last of some typeinfos, or else t.
abbrev pub last_or : ℕ → List ℕ → ℕ
last_or t [] = t
last_or t (u ∷ us) = last_or u us

-- The typeinfos inserted, one after the other.
abbrev pub inserted : List ℕ → List ℕ → List ℕ
inserted [] s = s
inserted (t ∷ ts) s = inserted ts (t ∷ s)

-- A typeinfo occurs among earlier ones, but is not the latest.
abbrev pub reappears : ℕ → List ℕ → Bool
reappears t ts = seen t ts && not (t == last_or 0 ts)

or_true : (b : Bool) → (b || true) ≡ true
or_true true = refl
or_true false = refl

or_false : (b : Bool) → (b || false) ≡ b
or_false true = refl
or_false false = refl

seen-inserted : (t : ℕ) (ts s : List ℕ) → seen t (inserted ts s) ≡ (seen t ts || seen t s)
unfolding seen
seen-inserted t [] s = refl
seen-inserted t (u ∷ ts) s = elim (Bool-cases (u == t)) [
  | inl e ↦ rw (seen-inserted t ts (u ∷ s), e) (or_true (seen t ts))
  | inr e ↦ rw (seen-inserted t ts (u ∷ s), e) refl
]

module _ (m : Memory) where
  -- The effect of one candidate.
  one :
      (c : ℕ) (rest s : List ℕ) (p t : ℕ)
      → get_typeinfo_addr_from_vtable m c ≡ ok t
      → yielded (filter_seen m (c ∷ rest) s p)
        ≡ (if seen t s && not (t == p) then [] else c ∷ [])
          ++ yielded (filter_seen m rest (t ∷ s) t)
  unfolding filter_seen yielded
  one c rest s p t e = elim (Bool-cases (seen t s)) [
    | inl a ↦ elim (Bool-cases (t == p)) [ inl b ↦ rw (e, a, b) refl | inr b ↦ rw (e, a, b) refl ]
    | inr a ↦ elim (Bool-cases (t == p)) [ inl b ↦ rw (e, a, b) refl | inr b ↦ rw (e, a, b) refl ]
  ]

  prefix :
      (before rest ts s : List ℕ) (p : ℕ)
      → Reads m before ts
      → yielded (filter_seen m (before ++ rest) s p)
        ≡ yielded (filter_seen m before s p)
          ++ yielded (filter_seen m rest (inserted ts s) (last_or p ts))
  unfolding filter_seen yielded
  prefix [] rest [] s p r = refl
  prefix [] rest (t ∷ ts) s p r = absurd r
  prefix (c ∷ before) rest [] s p r = absurd r
  prefix (c ∷ before) rest (t ∷ ts) s p (e, r) =
      one c (before ++ rest) s p t e
      ∙ ap (λ l. (if seen t s && not (t == p) then [] else c ∷ []) ++ l)
          (prefix before rest ts (t ∷ s) t r)
      ∙ sym (
          append_assoc (if seen t s && not (t == p) then [] else c ∷ [])
            (yielded (filter_seen m before (t ∷ s) t)) _)
      ∙ ap (λ l. l ++ yielded (filter_seen m rest (inserted ts (t ∷ s)) (last_or t ts)))
          (sym (one c before s p t e))

  -- If the typeinfos of the candidates before c, and of c, can be read, then what is yielded before
  -- c and after it does not depend on whether c is, and c is yielded unless its typeinfo occurs
  -- before and is not that of the candidate right before.
  pub filter_seen_lem :
      (before after ts : List ℕ) (c t : ℕ)
      → Reads m before ts
      → get_typeinfo_addr_from_vtable m c ≡ ok t
      → yielded (filter_seen m (before ++ (c ∷ after)) [] 0)
        ≡ yielded (filter_seen m before [] 0)
          ++ ((if reappears t ts then [] else c ∷ [])
              ++ yielded (filter_seen m after (t ∷ inserted ts []) t))
  unfolding seen
  filter_seen_lem before after ts c t r e =
      prefix before (c ∷ after) ts [] 0 r
      ∙ ap (λ l. yielded (filter_seen m before [] 0) ++ l)
          (one c after (inserted ts []) (last_or 0 ts) t e
            ∙ ap
                (λ b.
                  (if b && not (t == last_or 0 ts) then [] else c ∷ [])
                  ++ yielded (filter_seen m after (t ∷ inserted ts []) t))
                (seen-inserted t ts [] ∙ or_false (seen t ts)))
