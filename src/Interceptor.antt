-- ===== src/Interceptor.antt =====
-- src/hook/gum/interceptor.hpp and .cpp: what the plugin asks of frida-gum's interceptor, and the
-- listeners that it keeps. Gum itself is given by what its calls return.
use clientplugin.Base.{
  ℕ, zero, suc, ◌+◌, ◌≡◌, Bool, true, false, List, [], ◌∷◌, ◌++◌, if◌then◌else◌, Result, ok, err,
  undefined, ◌>>=◌,
}
pub mod Transactions
pub mod Listeners
pub mod Destroyed
mod Runs

-- The calls of frida-gum, in the order in which they are made. A listener is a number.
pub data GumCall : Type 0 where
  obtain unref begin_call end_call : GumCall
  attach_call : (address listener : ℕ) → GumCall
  detach_call : (listener : ℕ) → GumCall
  replace_call : (address replacement : ℕ) → GumCall
  revert_call : (address : ℕ) → GumCall

-- The object, and the calls that it has made.
pub record Interceptor : Type 0 where
  pub probe_listeners : List ℕ
  pub call_listeners : List ℕ
  pub calls : List GumCall

-- How a method ends: well, or with the StringError that names the address.
pub data Outcome : Type 0 where
  done : Outcome
  failed_to_attach failed_to_replace : ℕ → Outcome

unfoldable pub call : GumCall → Interceptor → Interceptor
call c i = record i { calls = i.calls ++ (c ∷ []) }

-- The constructor.
unfoldable pub make_interceptor : Interceptor
make_interceptor = record { probe_listeners = []; call_listeners = []; calls = obtain ∷ [] }

unfoldable pub begin_transaction : Interceptor → Interceptor
unfolding call
begin_transaction = call begin_call

unfoldable pub end_transaction : Interceptor → Interceptor
unfolding call
end_transaction = call end_call

-- The two overloads of `detach` do the same. What a hook's destructor hands over is its own base, which still exists, so
-- that `get_listener` is only asked of others in the destructor below.
unfoldable pub detach : ℕ → Interceptor → Interceptor
unfolding call
detach listener = call (detach_call listener)

unfoldable pub revert : ℕ → Interceptor → Interceptor
unfolding call
revert address = call (revert_call address)

-- Whether `gum_interceptor_attach` and `gum_interceptor_replace` return OK.
module _ (attaches : List GumCall → ℕ → ℕ → Bool) (replaces : List GumCall → ℕ → ℕ → Bool) where
  -- `attach` of a call listener. On a failure it throws before the end of the transaction.
  unfoldable pub attach_call_listener : ℕ → ℕ → Interceptor → Interceptor × Outcome
  unfolding begin_transaction call end_transaction
  attach_call_listener address listener i =
      let begun = begin_transaction i in
      let asked = call (attach_call address listener) begun in
      if attaches begun.calls address listener
      then (
        end_transaction (record asked { call_listeners = asked.call_listeners ++ (listener ∷ []) }),
        done,
      )
      else (asked, failed_to_attach address)

  -- `attach` of a probe listener.
  unfoldable pub attach_probe_listener : ℕ → ℕ → Interceptor → Interceptor × Outcome
  unfolding begin_transaction call end_transaction
  attach_probe_listener address listener i =
      let begun = begin_transaction i in
      let asked = call (attach_call address listener) begun in
      if attaches begun.calls address listener
      then (
        end_transaction
            (record asked { probe_listeners = asked.probe_listeners ++ (listener ∷ []) }),
        done,
      )
      else (asked, failed_to_attach address)

  unfoldable pub replace : ℕ → ℕ → Interceptor → Interceptor × Outcome
  unfolding call
  replace address replacement_address i =
      let asked = call (replace_call address replacement_address) i in
      if replaces i.calls address replacement_address
      then (asked, done)
      else (asked, failed_to_replace address)

-- `get_listener` reads a member of the listener: it may be asked only of one that exists.
unfoldable pub get_listener : (ℕ → Bool) → ℕ → Result ℕ
get_listener alive listener = if alive listener then ok listener else err undefined

-- The loops of the destructor, with the listeners that exist.
unfoldable pub detach_all : (ℕ → Bool) → List ℕ → Interceptor → Result Interceptor
unfolding get_listener detach
detach_all alive [] i = ok i
detach_all alive (listener ∷ rest) i = do
  object ← get_listener alive listener
  detach_all alive rest (detach object i)

-- `~Interceptor`, with the destructor of its base class.
unfoldable pub destroy : (ℕ → Bool) → Interceptor → Result Interceptor
unfolding begin_transaction detach_all end_transaction call
destroy alive i = do
  called ← detach_all alive i.call_listeners (begin_transaction i)
  probed ← detach_all alive i.probe_listeners called
  ok (call unref (end_transaction probed))
