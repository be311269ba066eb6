-- ===== src/Generator.antt =====
-- src/util/generator.hpp: `Generator`, a range over what a coroutine yields.
-- A coroutine is the tree of what it does when it is resumed; what it reads does not change while it is suspended.
use clientplugin.Base.{
  ℕ, zero, suc, ◌≡◌, Bool, true, false, List, [], ◌∷◌, ◌++◌, Result, ok, err, stuck, ◌>>=◌, ◌>>◌,
  Error, bad_variant, if◌then◌else◌,
}
pub mod Protocol
pub mod Bind
pub mod Finishes
pub mod Loops
mod Runs

-- `hangs` is no C++ behaviour: the fuel of a loop in the coroutine ran out.
pub data Gen {ℓ} (A : Type ℓ) : Type ℓ where
  returns : Gen A
  throws : Error → Gen A
  yields : A → Gen A → Gen A
  hangs : Gen A

-- `promise_type::result`, a std::variant.
pub data Slot {ℓ} (A : Type ℓ) : Type ℓ where
  monostate : Slot A
  owned : A → Slot A
  pointed : A → Slot A
  exception_ptr : Error → Slot A

-- A coroutine_handle: the promise, whether `done()` holds, and what is left to run.
pub record Coroutine {ℓ} (A : Type ℓ) : Type ℓ where
  pub result : Slot A
  pub is_done : Bool
  pub body : Gen A

module _ {ℓ} {A : Type ℓ} where
  -- `initial_suspend` suspends always, so a new coroutine has run nothing.
  pub start : Gen A → Coroutine A
  start g = record { result = monostate; is_done = false; body = g }

  -- `resume()`, up to the next `yield_value`, or to `return_void` or `unhandled_exception` and
  -- `final_suspend`. An lvalue is yielded as a pointer, an rvalue is moved; both are `owned` here.
  pub resume : Gen A → Result (Coroutine A)
  resume returns = ok (record { result = monostate; is_done = true; body = returns })
  resume (throws e) = ok (record { result = exception_ptr e; is_done = true; body = returns })
  resume (yields a g) = ok (record { result = owned a; is_done = false; body = g })
  resume hangs = stuck

  -- `throw_if_exception`
  pub throw_if_exception : Slot A → Result (Unit {0})
  throw_if_exception (exception_ptr e) = err e
  throw_if_exception _ = ok tt

  -- `has_value`
  pub has_value : Slot A → Bool
  has_value monostate = false
  has_value _ = true

  -- `get_value`: `std::get<T*>` throws where neither a value nor a pointer is held.
  pub get_value : Slot A → Result A
  get_value (owned a) = ok a
  get_value (pointed a) = ok a
  get_value _ = err bad_variant

  -- `Cursor::equal` with the end of the range.
  pub equal : Coroutine A → Result Bool
  unfolding throw_if_exception
  equal c = if c.is_done then (do throw_if_exception c.result; ok true) else ok false

  -- `Cursor::next`
  pub next : Coroutine A → Result (Coroutine A)
  unfolding resume
  next c = resume c.body

  -- `Cursor::read`
  pub read : Coroutine A → Result A
  unfolding get_value
  read c = get_value c.result

  -- `begin_cursor`
  pub begin_cursor : Gen A → Result (Coroutine A)
  unfolding start next
  begin_cursor g = next (start g)

  module _ {κ} {S : Type κ} (body : S → A → Result S) where
    -- The range-for statement over a cursor: `for (; cursor != end; ++cursor) body(*cursor);`.
    pub range_loop : ℕ → Coroutine A → S → Result S
    range_loop zero c s = stuck
    range_loop (suc fuel) c s = do
      let rest = range_loop fuel
      finished ← equal c
      elim finished [
        | true ↦ ok s
        | false ↦ read c >>= λ a. body s a >>= λ s'. next c >>= λ c'. rest c' s'
      ]

    pub range_for : ℕ → Gen A → S → Result S
    unfolding begin_cursor range_loop
    range_for fuel g s = do c ← begin_cursor g; range_loop fuel c s

    -- What a loop over the yields does, with no cursor.
    unfoldable pub for_each : Gen A → S → Result S
    for_each returns s = ok s
    for_each (throws e) s = err e
    for_each (yields a g) s = do s' ← body s a; for_each g s'
    for_each hangs s = stuck

  -- The values that a coroutine yields, and how it ends.
  unfoldable pub yielded : Gen A → List A
  yielded (yields a g) = a ∷ yielded g
  yielded _ = []

  unfoldable pub outcome : Gen A → Result (Unit {0})
  outcome returns = ok tt
  outcome (throws e) = err e
  outcome (yields a g) = outcome g
  outcome hangs = stuck

  -- `for (auto& x : inner) co_yield x;` with more of the coroutine behind it.
  unfoldable pub followed_by : Gen A → Gen A → Gen A
  followed_by returns h = h
  followed_by (throws e) h = throws e
  followed_by (yields a g) h = yields a (followed_by g h)
  followed_by hangs h = hangs
