-- ===== src/Profiler/Zones.antt =====
-- The zones that a thread opens and closes in Tracy.
use clientplugin.Base.{
  ℕ, ◌≡◌, refl, sym, ap, ◌∙◌, inl, inr, true, false, Bool-cases, Option, none, some, List, [], ◌∷◌,
  ◌++◌, Text, codes, starts_with, arith, ◌==◌, if◌then◌else◌,
}
use clientplugin.Profiler.{
  TracyCall, zone_begin, zone_end, LevelState, Thread, new_thread, push, pop, pop_from, clear,
  clear_from, same_level, check_level, enter, leave, unavailable,
}

-- What the profiler sees: the open zones after some calls, the innermost first. A call that ends another zone
-- than the innermost is an error.
abbrev pub close : ℕ → List ℕ → Option (List ℕ)
close ctx [] = none
close ctx (top ∷ rest) = if top == ctx then some rest else none

abbrev pub open_zones : List ℕ → List TracyCall → Option (List ℕ)
open_zones zones [] = some zones
open_zones zones (zone_begin l s f n ctx ∷ calls) = open_zones (ctx ∷ zones) calls
open_zones zones (zone_end ctx ∷ calls) = elim (close ctx zones) [
  | none ↦ none
  | some rest ↦ open_zones rest calls
]

-- The stack of the thread is what is open.
abbrev pub IsBracketed : Thread → Type 0
IsBracketed t = open_zones [] t.calls ≡ some t.ctx_stack

closes :
    (top ctx : ℕ) (rest : List ℕ) (xs : List TracyCall)
    → (top == ctx) ≡ true
    → open_zones (top ∷ rest) (zone_end ctx ∷ xs) ≡ open_zones rest xs
closes top ctx rest xs e = rw (e, open_zones) refl

open_zones-append :
    (zones zones' : List ℕ) (xs ys : List TracyCall)
    → open_zones zones xs ≡ some zones'
    → open_zones zones (xs ++ ys) ≡ open_zones zones' ys
open_zones-append zones zones' [] ys e = ap (λ z. open_zones z ys) cc
open_zones-append zones zones' (zone_begin l s f n ctx ∷ xs) ys e =
    open_zones-append (ctx ∷ zones) zones' xs ys e
open_zones-append [] zones' (zone_end ctx ∷ xs) ys e = absurd cc
open_zones-append (top ∷ rest) zones' (zone_end ctx ∷ xs) ys e = elim (Bool-cases (top == ctx)) [
  | inl b ↦
      closes top ctx rest (xs ++ ys) b
      ∙ open_zones-append rest zones' xs ys (sym (closes top ctx rest xs b) ∙ e)
  | inr b ↦ absurd (ground arith)
]

same : (n : ℕ) → (n == n) ≡ true
same n = ground arith

push-IsBracketed :
    (emit : List TracyCall → ℕ) (l : ℕ) (s f n : Text) (t : Thread)
    → IsBracketed t
    → IsBracketed (push emit l s f n t)
unfolding push
push-IsBracketed emit l s f n t b = open_zones-append [] t.ctx_stack t.calls _ b

pop_from-IsBracketed :
    (zones : List ℕ) (t : Thread)
    → t.ctx_stack ≡ zones
    → IsBracketed t
    → IsBracketed (pop_from zones t)
unfolding pop_from
pop_from-IsBracketed [] t e b = b
pop_from-IsBracketed (ctx ∷ rest) t e b =
    open_zones-append [] (ctx ∷ rest) t.calls (zone_end ctx ∷ []) (b ∙ ap some e)
    ∙ closes ctx ctx rest [] (same ctx)

clear_from-IsBracketed :
    (zones : List ℕ) (t : Thread) → IsBracketed t → IsBracketed (clear_from zones t)
unfolding clear_from pop
clear_from-IsBracketed [] t b = b
clear_from-IsBracketed (ctx ∷ rest) t b =
    clear_from-IsBracketed rest (pop t) (pop_from-IsBracketed t.ctx_stack t refl b)

-- `clear` empties the stack, although it pops one context at a time.
clear_from-empty :
    (zones : List ℕ) (t : Thread) → t.ctx_stack ≡ zones → (clear_from zones t).ctx_stack ≡ []
unfolding clear_from pop
clear_from-empty [] t e = e
clear_from-empty (ctx ∷ rest) t e = clear_from-empty rest (pop t) (popped t.ctx_stack t e)
  where
    popped :
        (zones : List ℕ) (t : Thread) → zones ≡ ctx ∷ rest → (pop_from zones t).ctx_stack ≡ rest
    popped [] t e = absurd cc
    popped (x ∷ xs) t e = cc

clear_from-last_observed :
    (zones : List ℕ) (t : Thread) → (clear_from zones t).last_observed ≡ t.last_observed
unfolding clear_from pop
clear_from-last_observed [] t = refl
clear_from-last_observed (ctx ∷ rest) t =
    clear_from-last_observed rest (pop t) ∙ popped t.ctx_stack t
  where
    popped : (zones : List ℕ) (t : Thread) → (pop_from zones t).last_observed ≡ t.last_observed
    popped [] t = refl
    popped (x ∷ xs) t = refl

check_level-IsBracketed :
    (state : LevelState) (t : Thread) → IsBracketed t → IsBracketed (check_level state t).1
unfolding check_level clear
check_level-IsBracketed state t b = elim (Bool-cases (same_level t.last_observed state)) [
  | inl e ↦ rw (e, check_level) b
  | inr e ↦
      rw (e, check_level)
        (clear_from-IsBracketed t.ctx_stack (record t { last_observed = state }) b)
]

-- What a thread does, at the level of that moment.
pub data Event : Type 0 where
  entered : LevelState → (line : ℕ) (location buf : Text) → Event
  left : LevelState → Event

module _ (emit : List TracyCall → ℕ) where
  abbrev pub react : Event → Thread → Thread
  react (entered state line location buf) t = enter emit state line location buf t
  react (left state) t = leave state t

  abbrev pub react_all : List Event → Thread → Thread
  react_all [] t = t
  react_all (x ∷ xs) t = react_all xs (react x t)

  pub react-IsBracketed : (x : Event) (t : Thread) → IsBracketed t → IsBracketed (react x t)
  unfolding enter leave pop
  react-IsBracketed (entered state line location buf) t b =
      let checked = check_level-IsBracketed state t b in
      elim (Bool-cases (check_level state t).0) [
        | inl e ↦ rw (e, enter) checked
        | inr e ↦ elim (Bool-cases (starts_with buf (codes "Wait"))) [
          | inl w ↦ rw (e, enter, w) checked
          | inr w ↦
              rw (e, enter, w)
                (push-IsBracketed emit line location unavailable buf (check_level state t).1
                  checked)
        ]
      ]
  react-IsBracketed (left state) t b =
      let checked = check_level-IsBracketed state t b in
      elim (Bool-cases (check_level state t).0) [
        | inl e ↦ rw (e, leave) checked
        | inr e ↦
            rw (e, leave)
              (pop_from-IsBracketed (check_level state t).1.ctx_stack (check_level state t).1 refl
                checked)
      ]

  -- Whatever a new thread enters and leaves, while the level changes in any way, it ends zones only
  -- from the innermost on, and the stack it keeps is the open zones.
  pub react_all-IsBracketed : (xs : List Event) → IsBracketed (react_all xs new_thread)
  unfolding new_thread
  react_all-IsBracketed xs = all xs new_thread refl
    where
      all : (xs : List Event) (t : Thread) → IsBracketed t → IsBracketed (react_all xs t)
      all [] t b = b
      all (x ∷ xs) t b = all xs (react x t) (react-IsBracketed x t b)

  -- At the first call after a change of the level, a thread ends all its zones, begins none, and
  -- takes note of the level.
  pub enter-changed :
      (state : LevelState) (line : ℕ) (location buf : Text) (t : Thread)
      → same_level t.last_observed state ≡ false
      → ((enter emit state line location buf t).ctx_stack ≡ [])
        × ((enter emit state line location buf t).last_observed ≡ state)
  unfolding enter check_level clear
  enter-changed state line location buf t e =
      let noted : Thread = record t { last_observed = state } in
      rw (e, enter, check_level)
        (clear_from-empty t.ctx_stack noted refl, clear_from-last_observed t.ctx_stack noted)
