-- ===== src/Hooks/Cover.antt =====
-- Lists of hooks: which of them remain without others, and which are among others.
use clientplugin.Base.{
  ◌≡◌, refl, Bool, true, false, ◌||◌, List, [], ◌∷◌, ◌++◌, All, inl, inr, Bool-cases, arith, ◌==◌,
  if◌then◌else◌,
}
use clientplugin.Hooks.{Hook, attachment, replacement}

abbrev pub same : Hook → Hook → Bool
same (attachment l) (attachment k) = l == k
same (replacement a) (replacement b) = a == b
same _ _ = false

-- The list without the hooks that are the same as h.
abbrev pub without : Hook → List Hook → List Hook
without h [] = []
without h (t ∷ ts) = let rest = without h ts in if same t h then rest else t ∷ rest

abbrev pub without_all : List Hook → List Hook → List Hook
without_all [] ts = ts
without_all (h ∷ hs) ts = without_all hs (without h ts)

-- Whether a hook of the list is the same as t.
abbrev pub covers : List Hook → Hook → Bool
covers [] t = false
covers (h ∷ hs) t = same t h || covers hs t

abbrev pub Covered : List Hook → List Hook → Type 0
Covered hs ts = All (λ t. covers hs t ≡ true) ts

pub same_refl : (h : Hook) → same h h ≡ true
same_refl (attachment l) = ground arith
same_refl (replacement a) = ground arith

pub covers-append :
    (xs ys : List Hook) (t : Hook) → covers (xs ++ ys) t ≡ (covers xs t || covers ys t)
covers-append [] ys t = refl
covers-append (x ∷ xs) ys t = ground (arith, covers-append xs ys t)

-- What a longer list covers.
pub Covered-map :
    (hs ks ts : List Hook)
    → ((t : Hook) → covers hs t ≡ true → covers ks t ≡ true)
    → Covered hs ts
    → Covered ks ts
Covered-map hs ks [] more c = tt
Covered-map hs ks (t ∷ ts) more c = (more t c.0, Covered-map hs ks ts more c.1)

pub Covered-append : (hs ts us : List Hook) → Covered hs ts → Covered hs us → Covered hs (ts ++ us)
Covered-append hs [] us ct cu = cu
Covered-append hs (t ∷ ts) us ct cu = (ct.0, Covered-append hs ts us ct.1 cu)

-- Without a hook, the others cover what is left.
without-Covered : (h : Hook) (hs ts : List Hook) → Covered (h ∷ hs) ts → Covered hs (without h ts)
without-Covered h hs [] c = tt
without-Covered h hs (t ∷ ts) c =
    let rest = without-Covered h hs ts c.1 in
    elim (Bool-cases (same t h)) [ inl e ↦ rw e rest | inr e ↦ rw e (ground arith, rest) ]

pub without_all-Covered :
    (xs ys ts : List Hook) → Covered (xs ++ ys) ts → Covered ys (without_all xs ts)
without_all-Covered [] ys ts c = c
without_all-Covered (x ∷ xs) ys ts c =
    without_all-Covered xs ys (without x ts) (without-Covered x (xs ++ ys) ts c)

pub Covered-none : (ts : List Hook) → Covered [] ts → ts ≡ []
Covered-none [] c = refl
Covered-none (t ∷ ts) c = cc

pub without_all-append :
    (xs ys ts : List Hook) → without_all (xs ++ ys) ts ≡ without_all ys (without_all xs ts)
without_all-append [] ys ts = refl
without_all-append (x ∷ xs) ys ts = without_all-append xs ys (without x ts)

pub covers-last :
    (xs : List Hook) (x : Hook) (ys : List Hook) (t : Hook)
    → covers (x ∷ xs ++ ys) t ≡ true
    → covers ((xs ++ (x ∷ [])) ++ ys) t ≡ true
covers-last xs x ys t e =
    ground (
      arith,
      covers-append xs ys t,
      covers-append (xs ++ (x ∷ [])) ys t,
      covers-append xs (x ∷ []) t,
    )

pub covers-left :
    (xs ys zs : List Hook) (t : Hook)
    → (covers xs t ≡ true → covers ys t ≡ true)
    → covers (xs ++ zs) t ≡ true
    → covers (ys ++ zs) t ≡ true
covers-left xs ys zs t more e = elim (Bool-cases (covers xs t)) [
  | inl there ↦ ground (arith, covers-append ys zs t, more there)
  | inr missing ↦ ground (arith, covers-append xs zs t, covers-append ys zs t)
]

-- A hook that is added is covered by itself.
pub Covered-add :
    (xs ys ts : List Hook) (h : Hook)
    → Covered (xs ++ ys) ts
    → Covered ((xs ++ (h ∷ [])) ++ ys) (ts ++ (h ∷ []))
Covered-add xs ys ts h c =
    Covered-append ((xs ++ (h ∷ [])) ++ ys) ts (h ∷ [])
      (Covered-map (xs ++ ys) ((xs ++ (h ∷ [])) ++ ys) ts
        (λ t e. covers-last xs h ys t (ground arith)) c)
      (covers-last xs h ys h (ground (arith, same_refl h)), tt)
