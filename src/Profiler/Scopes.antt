-- ===== src/Profiler/Scopes.antt =====
-- Scopes of the game that nest, while the level stays what the thread has observed.
use clientplugin.Base.{
  ℕ, zero, suc, ◌+◌, ◌≡◌, refl, sym, ap, ◌∙◌, inl, inr, true, Bool-cases, some, List, [], ◌∷◌, Text,
  codes, starts_with, arith, if◌then◌else◌,
}
use clientplugin.Profiler.Zones.{IsBracketed, open_zones, entered, left, react-IsBracketed}
use clientplugin.Profiler.{
  TracyCall, LevelState, Thread, push, pop, pop_from, same_level, check_level, enter, leave,
}

-- What the game runs in one thread: scopes with others inside.
mutual
  pub data Scope : Type 0 where
    scope : (line : ℕ) (location buf : Text) (inner : Scopes) → Scope

  pub data Scopes : Type 0 where
    done : Scopes
    next : (first : Scope) (rest : Scopes) → Scopes

-- A scope calls the two functions around what is inside.
unfoldable mutual
  pub run_scope : (List TracyCall → ℕ) → LevelState → Scope → Thread → Thread
  run_scope emit state (scope line location buf inner) t =
      leave state (run_scopes emit state inner (enter emit state line location buf t))

  pub run_scopes : (List TracyCall → ℕ) → LevelState → Scopes → Thread → Thread
  run_scopes emit state done t = t
  run_scopes emit state (next first rest) t =
      run_scopes emit state rest (run_scope emit state first t)

-- How many scopes have a text that starts with "Wait".
unfoldable mutual
  pub waits : Scope → ℕ
  waits (scope line location buf inner) =
      (if starts_with buf (codes "Wait") then 1 else 0) + waits_of inner

  pub waits_of : Scopes → ℕ
  waits_of done = 0
  waits_of (next first rest) = waits first + waits_of rest

abbrev pub drop {ℓ} : {A : Type ℓ} → ℕ → List A → List A
drop zero xs = xs
drop (suc n) [] = []
drop (suc n) (x ∷ xs) = drop n xs

drop-nil {ℓ} : {A : Type ℓ} (n : ℕ) → drop {A = A} n [] ≡ []
drop-nil zero = refl
drop-nil (suc n) = refl

drop-add {ℓ} : {A : Type ℓ} (m n : ℕ) (xs : List A) → drop n (drop m xs) ≡ drop (m + n) xs
drop-add zero n xs = ap (λ (k : ℕ). drop k xs) (omega arith)
drop-add (suc m) n [] = drop-nil n ∙ sym (drop-nil (suc m + n))
drop-add (suc m) n (x ∷ xs) =
    drop-add m n xs
    ∙ ap (λ (k : ℕ). drop k (x ∷ xs)) (let e : suc (m + n) ≡ suc m + n = omega arith in e)

module _ (emit : List TracyCall → ℕ) (state : LevelState) where
  -- The thread has observed the level.
  abbrev pub Observed : Thread → Type 0
  Observed t = same_level t.last_observed state ≡ true

  enter-Observed :
      (line : ℕ) (location buf : Text) (t : Thread)
      → Observed t
      → ((enter emit state line location buf t).last_observed ≡ t.last_observed)
        × (drop 1 ((enter emit state line location buf t).ctx_stack)
            ≡ drop (if starts_with buf (codes "Wait") then 1 else 0) t.ctx_stack)
  unfolding enter check_level push
  enter-Observed line location buf t o = elim (Bool-cases (starts_with buf (codes "Wait"))) [
    | inl w ↦ rw (o, enter, check_level, w) (refl, refl)
    | inr w ↦ rw (o, enter, check_level, w) (refl, refl)
  ]

  leave-Observed :
      (t : Thread)
      → Observed t
      → ((leave state t).last_observed ≡ t.last_observed)
        × ((leave state t).ctx_stack ≡ drop 1 t.ctx_stack)
  unfolding leave check_level pop
  leave-Observed t o = rw (o, leave, check_level) (popped t.ctx_stack t refl)
    where
      popped :
          (zones : List ℕ) (t : Thread)
          → t.ctx_stack ≡ zones
          → ((pop_from zones t).last_observed ≡ t.last_observed)
            × ((pop_from zones t).ctx_stack ≡ drop 1 t.ctx_stack)
      popped [] t e = (refl, rw e refl)
      popped (ctx ∷ rest) t e = (refl, rw e refl)

  mutual
    unfolding run_scope run_scopes waits waits_of

    scope-drop :
        (s : Scope) (t : Thread)
        → Observed t
        → ((run_scope emit state s t).last_observed ≡ t.last_observed)
          × ((run_scope emit state s t).ctx_stack ≡ drop (waits s) t.ctx_stack)
    scope-drop (scope line location buf inner) t o =
        let entered = enter emit state line location buf t in
        let k : ℕ = if starts_with buf (codes "Wait") then 1 else 0 in
        let (kept, dropped) = enter-Observed line location buf t o in
        let o1 : Observed entered = rw kept o in
        let (kept2, dropped2) = scopes-drop inner entered o1 in
        let o2 : Observed (run_scopes emit state inner entered) = rw kept2 o1 in
        let (kept3, dropped3) = leave-Observed (run_scopes emit state inner entered) o2 in
        (
          kept3 ∙ kept2 ∙ kept,
          dropped3
              ∙ ap (drop 1) dropped2
              ∙ drop-add (waits_of inner) 1 entered.ctx_stack
              ∙ ap (λ (n : ℕ). drop n entered.ctx_stack) (omega arith)
              ∙ sym (drop-add 1 (waits_of inner) entered.ctx_stack)
              ∙ ap (drop (waits_of inner)) dropped
              ∙ drop-add k (waits_of inner) t.ctx_stack,
        )

    scopes-drop :
        (ss : Scopes) (t : Thread)
        → Observed t
        → ((run_scopes emit state ss t).last_observed ≡ t.last_observed)
          × ((run_scopes emit state ss t).ctx_stack ≡ drop (waits_of ss) t.ctx_stack)
    scopes-drop done t o = (refl, refl)
    scopes-drop (next first rest) t o =
        let (kept, dropped) = scope-drop first t o in
        let t1 = run_scope emit state first t in
        let o1 : Observed t1 = rw kept o in
        let (kept2, dropped2) = scopes-drop rest t1 o1 in
        (
          kept2 ∙ kept,
          dropped2
              ∙ ap (drop (waits_of rest)) dropped
              ∙ drop-add (waits first) (waits_of rest) t.ctx_stack,
        )

  mutual
    unfolding run_scope run_scopes

    scope-IsBracketed :
        (s : Scope) (t : Thread) → IsBracketed t → IsBracketed (run_scope emit state s t)
    scope-IsBracketed (scope line location buf inner) t b =
        react-IsBracketed emit (left state) _ (
          scopes-IsBracketed inner _ (react-IsBracketed emit (entered state line location buf) t b))

    scopes-IsBracketed :
        (ss : Scopes) (t : Thread) → IsBracketed t → IsBracketed (run_scopes emit state ss t)
    scopes-IsBracketed done t b = b
    scopes-IsBracketed (next first rest) t b =
        scopes-IsBracketed rest _ (scope-IsBracketed first t b)

  -- If the thread has observed the level and its stack is the open zones, then after scopes that nest the open
  -- zones are those that were open before, but for as many of the innermost as there are scopes whose text
  -- starts with "Wait": without such a scope all zones that were open are left, and each such scope ends
  -- one of them, while there are any.
  pub open_zones-run_scopes :
      (ss : Scopes) (t : Thread)
      → Observed t
      → IsBracketed t
      → open_zones [] (run_scopes emit state ss t).calls ≡ some (drop (waits_of ss) t.ctx_stack)
  open_zones-run_scopes ss t o b = scopes-IsBracketed ss t b ∙ ap some (scopes-drop ss t o).1
