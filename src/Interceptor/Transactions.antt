-- ===== src/Interceptor/Transactions.antt =====
-- What a run of the interceptor's methods asks of frida-gum.
use clientplugin.Base.{ℕ, suc, ◌+◌, ◌≡◌, inl, inr, Bool, Bool-cases, List, [], ◌∷◌, ◌++◌, arith}
use clientplugin.Interceptor.{
  GumCall, obtain, unref, begin_call, end_call, attach_call, detach_call, replace_call, revert_call,
  Interceptor, Outcome, done, failed_to_attach, make_interceptor, attach_call_listener,
  attach_probe_listener, detach, replace, revert,
}

-- The methods, with their arguments.
pub data Method : Type 0 where
  attach_call_method attach_probe_method : (address listener : ℕ) → Method
  detach_method : (listener : ℕ) → Method
  replace_method : (address replacement : ℕ) → Method
  revert_method : (address : ℕ) → Method

-- The transactions begun, and those ended.
abbrev pub begun : List GumCall → ℕ
begun [] = 0
begun (begin_call ∷ calls) = suc (begun calls)
begun (_ ∷ calls) = begun calls

abbrev pub ended : List GumCall → ℕ
ended [] = 0
ended (end_call ∷ calls) = suc (ended calls)
ended (_ ∷ calls) = ended calls

begun-append : (xs ys : List GumCall) → begun (xs ++ ys) ≡ begun xs + begun ys
begun-append [] ys = omega arith
begun-append (begin_call ∷ xs) ys = omega (arith, begun-append xs ys)
begun-append (end_call ∷ xs) ys = begun-append xs ys
begun-append (obtain ∷ xs) ys = begun-append xs ys
begun-append (unref ∷ xs) ys = begun-append xs ys
begun-append (attach_call a l ∷ xs) ys = begun-append xs ys
begun-append (detach_call l ∷ xs) ys = begun-append xs ys
begun-append (replace_call a r ∷ xs) ys = begun-append xs ys
begun-append (revert_call a ∷ xs) ys = begun-append xs ys

ended-append : (xs ys : List GumCall) → ended (xs ++ ys) ≡ ended xs + ended ys
ended-append [] ys = omega arith
ended-append (end_call ∷ xs) ys = omega (arith, ended-append xs ys)
ended-append (begin_call ∷ xs) ys = ended-append xs ys
ended-append (obtain ∷ xs) ys = ended-append xs ys
ended-append (unref ∷ xs) ys = ended-append xs ys
ended-append (attach_call a l ∷ xs) ys = ended-append xs ys
ended-append (detach_call l ∷ xs) ys = ended-append xs ys
ended-append (replace_call a r ∷ xs) ys = ended-append xs ys
ended-append (revert_call a ∷ xs) ys = ended-append xs ys

module _ (attaches : List GumCall → ℕ → ℕ → Bool) (replaces : List GumCall → ℕ → ℕ → Bool) where
  abbrev pub step : Method → Interceptor → Interceptor × Outcome
  step (attach_call_method address listener) i =
      attach_call_listener attaches replaces address listener i
  step (attach_probe_method address listener) i =
      attach_probe_listener attaches replaces address listener i
  step (detach_method listener) i = (detach listener i, done)
  step (replace_method address replacement) i = replace attaches replaces address replacement i
  step (revert_method address) i = (revert address i, done)

  abbrev pub run : List Method → Interceptor → Interceptor
  run [] i = i
  run (x ∷ xs) i = run xs (step x i).0

  abbrev pub attach_failed : Outcome → ℕ
  attach_failed (failed_to_attach a) = 1
  attach_failed _ = 0

  -- The attachments that fail in a run.
  abbrev pub failures : List Method → Interceptor → ℕ
  failures [] i = 0
  failures (x ∷ xs) i = attach_failed (step x i).1 + failures xs (step x i).0

  -- The calls of an attachment that succeeds, and of one that fails.
  finished :
      (cs : List GumCall) (a l : ℕ)
      → begun (((cs ++ (begin_call ∷ [])) ++ (attach_call a l ∷ [])) ++ (end_call ∷ [])) + ended cs
        ≡ begun cs
          + ended (((cs ++ (begin_call ∷ [])) ++ (attach_call a l ∷ [])) ++ (end_call ∷ []))
          + 0
  finished cs a l =
      let b = cs ++ (begin_call ∷ []) in
      let c = b ++ (attach_call a l ∷ []) in
      omega (
        arith,
        begun-append c (end_call ∷ []),
        begun-append b (attach_call a l ∷ []),
        begun-append cs (begin_call ∷ []),
        ended-append c (end_call ∷ []),
        ended-append b (attach_call a l ∷ []),
        ended-append cs (begin_call ∷ []),
      )

  unfinished :
      (cs : List GumCall) (a l : ℕ)
      → begun ((cs ++ (begin_call ∷ [])) ++ (attach_call a l ∷ [])) + ended cs
        ≡ begun cs + ended ((cs ++ (begin_call ∷ [])) ++ (attach_call a l ∷ [])) + 1
  unfinished cs a l =
      let b = cs ++ (begin_call ∷ []) in
      omega (
        arith,
        begun-append b (attach_call a l ∷ []),
        begun-append cs (begin_call ∷ []),
        ended-append b (attach_call a l ∷ []),
        ended-append cs (begin_call ∷ []),
      )

  step-open :
      (x : Method) (i : Interceptor)
      → begun (step x i).0.calls + ended i.calls
        ≡ begun i.calls + ended (step x i).0.calls + attach_failed (step x i).1
  unfolding attach_call_listener attach_probe_listener detach replace revert
  step-open (attach_call_method a l) i =
      elim (Bool-cases (attaches (i.calls ++ (begin_call ∷ [])) a l)) [
        | inl e ↦ rw (e, attach_call_listener) (finished i.calls a l)
        | inr e ↦ rw (e, attach_call_listener) (unfinished i.calls a l)
      ]
  step-open (attach_probe_method a l) i =
      elim (Bool-cases (attaches (i.calls ++ (begin_call ∷ [])) a l)) [
        | inl e ↦ rw (e, attach_probe_listener) (finished i.calls a l)
        | inr e ↦ rw (e, attach_probe_listener) (unfinished i.calls a l)
      ]
  step-open (detach_method l) i =
      omega (
        arith,
        begun-append i.calls (detach_call l ∷ []),
        ended-append i.calls (detach_call l ∷ []),
      )
  step-open (replace_method a r) i =
      let same_begun = begun-append i.calls (replace_call a r ∷ []) in
      let same_ended = ended-append i.calls (replace_call a r ∷ []) in
      elim (Bool-cases (replaces i.calls a r)) [
        | inl e ↦ rw (e, replace) (omega (arith, same_begun, same_ended))
        | inr e ↦ rw (e, replace) (omega (arith, same_begun, same_ended))
      ]
  step-open (revert_method a) i =
      omega (
        arith,
        begun-append i.calls (revert_call a ∷ []),
        ended-append i.calls (revert_call a ∷ []),
      )

  run-open :
      (xs : List Method) (i : Interceptor)
      → begun (run xs i).calls + ended i.calls
        ≡ begun i.calls + ended (run xs i).calls + failures xs i
  run-open [] i = omega arith
  run-open (x ∷ xs) i = omega (arith, run-open xs (step x i).0, step-open x i)

  -- In every run of the methods of a new interceptor, the transactions that are begun and not ended
  -- are as many as the attachments that fail.
  pub run-transactions :
      (xs : List Method)
      → begun (run xs make_interceptor).calls
        ≡ ended (run xs make_interceptor).calls + failures xs make_interceptor
  unfolding make_interceptor
  run-transactions xs = omega (arith, run-open xs make_interceptor)
