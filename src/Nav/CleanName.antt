-- ===== src/Nav/CleanName.antt =====
-- Where `GetCleanMapName` cuts a name, and what `GetNavDataFromFile_replace` reads.
use clientplugin.Base.{
  ℕ, ◌≡◌, ◌⊎◌, ◌↔◌, refl, sym, ap, subst, ◌∙◌, inl, inr, Bool, true, false, Bool-cases,
  Option-cases, Option, none, some, List, [], ◌∷◌, ◌++◌, Text, codes, starts_with, text_eq,
  text_eq_iff, ◌≢◌, if◌then◌else◌, arith,
}
use clientplugin.Nav.{
  cut_ugc, ugc, in_maps, in_workshop, clean_map_name, NavData, get_nav_data, cant_access_file,
  is_inp,
}

-- A text is cut into kept and off: off is empty or starts with ".ugc", and no suffix that starts
-- before it does.
abbrev pub IsCut : Text → Text → Text → Type 0
IsCut s kept off =
    (s ≡ kept ++ off)
    × ((off ≡ []) ⊎ (starts_with off ugc ≡ true))
    × ((a b : Text) (c : ℕ) → kept ≡ a ++ (c ∷ b) → starts_with (c ∷ (b ++ off)) ugc ≡ false)

no_inside : (a b : Text) (c : ℕ) → [] ≡ a ++ (c ∷ b) → ⊥
no_inside [] b c e = cc
no_inside (x ∷ a) b c e = cc

cut_here : (x : ℕ) (s : Text) → starts_with (x ∷ s) ugc ≡ true → cut_ugc (x ∷ s) ≡ []
unfolding cut_ugc
cut_here x s e = rw e refl

cut_later : (x : ℕ) (s : Text) → starts_with (x ∷ s) ugc ≡ false → cut_ugc (x ∷ s) ≡ x ∷ cut_ugc s
unfolding cut_ugc
cut_later x s e = rw e refl

longer :
    (x : ℕ) (s kept off : Text)
    → starts_with (x ∷ s) ugc ≡ false
    → IsCut s kept off
    → IsCut (x ∷ s) (x ∷ kept) off
longer x s kept off e (whole, start, none_) = (ap (λ l. x ∷ l) whole, start, inside)
  where
    inside :
        (a b : Text) (c : ℕ) → x ∷ kept ≡ a ++ (c ∷ b) → starts_with (c ∷ (b ++ off)) ugc ≡ false
    inside [] b c h =
        let hx : x ≡ c = cc in
        let hb : kept ≡ b = cc in
        subst (λ t. starts_with t ugc ≡ false) (ap (λ l. x ∷ l) whole ∙ ap (λ l. l ++ off) h) e
    inside (y ∷ a) b c h = none_ a b c cc

cut_ugc-IsCut : (s : Text) → (off : Text) × IsCut s (cut_ugc s) off
unfolding cut_ugc
cut_ugc-IsCut [] = ([], (refl, inl refl, λ a b c e. absurd (no_inside a b c e)))
cut_ugc-IsCut (x ∷ s) = elim (Bool-cases (starts_with (x ∷ s) ugc)) [
  | inl here ↦ (
    x ∷ s,
    subst (λ k. IsCut (x ∷ s) k (x ∷ s)) (sym (cut_here x s here))
        (refl, inr here, λ a b c e. absurd (no_inside a b c e)),
  )
  | inr elsewhere ↦
      let (off, cut) = cut_ugc-IsCut s in
      (
        off,
        subst (λ k. IsCut (x ∷ s) k off) (sym (cut_later x s elsewhere))
            (longer x s (cut_ugc s) off elsewhere cut),
      )
]

-- `GetCleanMapName` cuts its buffer at the first ".ugc": what it cuts off is nothing, or starts with
-- ".ugc", and the text from any character on that it keeps does not start with ".ugc".
pub cut_ugc-first :
    (s a b : Text) (c : ℕ)
    → cut_ugc s ≡ a ++ (c ∷ b)
    → (off : Text) × (s ≡ cut_ugc s ++ off)
      × ((off ≡ []) ⊎ (starts_with off ugc ≡ true))
      × (starts_with (c ∷ (b ++ off)) ugc ≡ false)
cut_ugc-first s a b c e =
    let (off, (whole, start, none_)) = cut_ugc-IsCut s in (off, whole, start, none_ a b c e)

module _ (after_prefix : Text → Text → Option Text) (strncpy : ℕ → Text → Text)
    (strncat : ℕ → Text → Text → Text) where
  -- A name of a map in the workshop: it has one of the prefixes.
  abbrev pub IsWorkshop : Text → Type 0
  IsWorkshop inp =
      ((rest : Text) × (in_maps after_prefix inp ≡ some rest))
      ⊎ ((rest : Text) × (in_workshop after_prefix inp ≡ some rest))

  clean_map_name-workshop :
      (inp u v : Text)
      → IsWorkshop inp
      → clean_map_name after_prefix strncpy strncat inp u
        ≡ clean_map_name after_prefix strncpy strncat inp v
  unfolding clean_map_name
  clean_map_name-workshop inp u v (inl (rest, e)) = rw (e, clean_map_name) refl
  clean_map_name-workshop inp u v (inr (rest, e)) = elim (Option-cases (in_maps after_prefix inp)) [
    | inl n ↦ rw (n, e, clean_map_name) refl
    | inr (other, y) ↦ rw (y, clean_map_name) refl
  ]

  -- The buffer is written for these names only.
  clean_map_name-cases :
      (inp out : Text)
      → IsWorkshop inp ⊎ (clean_map_name after_prefix strncpy strncat inp out ≡ (is_inp, out))
  unfolding clean_map_name
  clean_map_name-cases inp out = elim (Option-cases (in_maps after_prefix inp)) [
    | inr found ↦ inl (inl found)
    | inl em ↦ elim (Option-cases (in_workshop after_prefix inp)) [
      | inr found ↦ inl (inr found)
      | inl ew ↦ inr (rw (em, ew, clean_map_name) refl)
    ]
  ]

  module _ (snprintf : ℕ → Text → Text → Text) where
    abbrev answer : Text → Option Bool → Text → (Text → Text → Option (List ℕ)) → NavData
    answer mapname from_bsp u read_file =
        get_nav_data after_prefix strncpy strncat snprintf read_file u mapname from_bsp

    -- A file system with every file of the search path "BSP", one of which has other bytes.
    telling : Text → Text → Text → Option (List ℕ)
    telling path name search_path =
        if text_eq search_path (codes "BSP")
        then some ((if text_eq name path then 1 else 2) ∷ [])
        else none

    other_bytes : {a b : Option (List ℕ)} → a ≡ some (1 ∷ []) → b ≡ some (2 ∷ []) → a ≡ b → ⊥
    other_bytes p q e = cc

    -- A missing name is read as what stood in the buffer.
    telling-read :
        (path u mapname : Text) (from_bsp : Option Bool)
        → clean_map_name after_prefix strncpy strncat mapname u ≡ (is_inp, u)
        → (answer mapname from_bsp u (telling path)).out_buffer
          ≡ some ((if text_eq (snprintf 260 (codes "maps\\%s.nav") u) path then 1 else 2) ∷ [])
    unfolding get_nav_data telling text_eq
    telling-read path u mapname from_bsp e = rw (e, get_nav_data) refl

    -- Where `V_snprintf` makes two paths of two texts, `GetNavDataFromFile_replace` gives the same answer whichever of
    -- the two stood in its uninitialised array, whatever the file system holds, if and only if the map's name
    -- has one of the prefixes of the workshop.
    pub get_nav_data-uninitialised :
        (mapname u v : Text) (from_bsp : Option Bool)
        → snprintf 260 (codes "maps\\%s.nav") u ≢ snprintf 260 (codes "maps\\%s.nav") v
        → ((read_file : Text → Text → Option (List ℕ))
            → answer mapname from_bsp u read_file ≡ answer mapname from_bsp v read_file)
          ↔ IsWorkshop mapname
    unfolding get_nav_data
    get_nav_data-uninitialised mapname u v from_bsp apart = (only, λ w read_file. same w read_file)
      where
        same :
            IsWorkshop mapname
            → (read_file : Text → Text → Option (List ℕ))
            → answer mapname from_bsp u read_file ≡ answer mapname from_bsp v read_file
        same w read_file =
            elim (Option-cases
              (read_file (snprintf 260 (codes "maps\\%s.nav") mapname) (codes "MOD"))) [
                | inl r ↦ rw (r, clean_map_name-workshop mapname u v w, get_nav_data) refl
                | inr (d, r) ↦ rw (r, get_nav_data) refl
              ]

        tells :
            clean_map_name after_prefix strncpy strncat mapname u ≡ (is_inp, u)
            → clean_map_name after_prefix strncpy strncat mapname v ≡ (is_inp, v)
            → answer mapname from_bsp u (telling (snprintf 260 (codes "maps\\%s.nav") u))
              ≡ answer mapname from_bsp v (telling (snprintf 260 (codes "maps\\%s.nav") u))
            → ⊥
        tells eu ev e =
            let path = snprintf 260 (codes "maps\\%s.nav") u in
            let first = telling-read path u mapname from_bsp eu in
            let second = telling-read path v mapname from_bsp ev in
            let self = (text_eq_iff path path).1 refl in
            elim (Bool-cases (text_eq (snprintf 260 (codes "maps\\%s.nav") v) path)) [
              | inl y ↦ apart (sym ((text_eq_iff _ path).0 y))
              | inr n ↦
                  other_bytes (rw self at first) (rw n at second)
                    (ap (λ (r : NavData). r.out_buffer) e)
            ]

        only :
            ((read_file : Text → Text → Option (List ℕ))
              → answer mapname from_bsp u read_file ≡ answer mapname from_bsp v read_file)
            → IsWorkshop mapname
        only all = elim (clean_map_name-cases mapname u) [
          | inl w ↦ w
          | inr eu ↦ elim (clean_map_name-cases mapname v) [
            | inl w ↦ w
            | inr ev ↦ absurd (tells eu ev (all (telling (snprintf 260 (codes "maps\\%s.nav") u))))
          ]
        ]

module _ (after_prefix : Text → Text → Option Text) (strncpy : ℕ → Text → Text)
    (strncat : ℕ → Text → Text → Text) (snprintf : ℕ → Text → Text → Text)
    (read_file : Text → Text → Option (List ℕ)) where
  -- The file cannot be accessed if and only if none of the three reads succeeds.
  pub get_nav_data-cant_access_file :
      (u mapname : Text) (from_bsp : Option Bool)
      → ((get_nav_data after_prefix strncpy strncat snprintf read_file u mapname from_bsp).result
          ≡ cant_access_file)
        ↔ ((read_file (snprintf 260 (codes "maps\\%s.nav") mapname) (codes "MOD") ≡ none)
            × (read_file
                  (snprintf 260
                    (codes "maps\\%s.nav")
                    (clean_map_name after_prefix strncpy strncat mapname u).1)
                  (codes "BSP")
                ≡ none)
            × (read_file (codes "maps\\embed.nav") (codes "BSP") ≡ none))
  unfolding get_nav_data
  get_nav_data-cant_access_file u mapname from_bsp =
      elim (Option-cases (read_file (snprintf 260 (codes "maps\\%s.nav") mapname) (codes "MOD"))) [
        | inr (d, r) ↦ (λ e. absurd (ground arith), λ e. absurd (ground arith))
        | inl r ↦
            elim (Option-cases (
              read_file
                (snprintf 260 (codes "maps\\%s.nav")
                  (clean_map_name after_prefix strncpy strncat mapname u).1)
                (codes "BSP"))) [
                  | inr (d, q) ↦ (λ e. absurd (ground arith), λ e. absurd (ground arith))
                  | inl q ↦
                      elim (Option-cases (read_file (codes "maps\\embed.nav") (codes "BSP"))) [
                        | inr (d, p) ↦ (λ e. absurd (ground arith), λ e. absurd (ground arith))
                        | inl p ↦ (λ e. (r, q, p), λ e. ground arith)
                      ]
                ]
      ]
