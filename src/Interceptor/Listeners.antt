-- ===== src/Interceptor/Listeners.antt =====
-- Which listeners the destructor of the interceptor detaches.
use mathlib.Core.List.{append_assoc, append-nil}
use clientplugin.Base.{ℕ, ◌≡◌, refl, sym, ap, ◌∙◌, inl, inr, Bool, Bool-cases, List, [], ◌∷◌, ◌++◌}
use clientplugin.Interceptor.{
  GumCall, begin_call, Interceptor, attach_call_listener, attach_probe_listener, detach, replace,
  revert,
}
use clientplugin.Interceptor.Transactions.{
  Method, attach_call_method, attach_probe_method, detach_method, replace_method, revert_method,
  step, run,
}

module _ (attaches : List GumCall → ℕ → ℕ → Bool) (replaces : List GumCall → ℕ → ℕ → Bool) where
  -- Each list goes on with the one before.
  abbrev pub Keeps : Interceptor → Interceptor → Type 0
  Keeps i j =
      ((more : List ℕ) × (j.call_listeners ≡ i.call_listeners ++ more))
      × ((more : List ℕ) × (j.probe_listeners ≡ i.probe_listeners ++ more))

  stays : (l : List ℕ) → (more : List ℕ) × (l ≡ l ++ more)
  stays l = ([], sym (append-nil l))

  step-Keeps : (x : Method) (i : Interceptor) → Keeps i (step attaches replaces x i).0
  unfolding attach_call_listener attach_probe_listener detach replace revert
  step-Keeps (attach_call_method a l) i =
      elim (Bool-cases (attaches (i.calls ++ (begin_call ∷ [])) a l)) [
        | inl e ↦ rw (e, attach_call_listener) ((l ∷ [], refl), stays i.probe_listeners)
        | inr e ↦ rw (e, attach_call_listener) (stays i.call_listeners, stays i.probe_listeners)
      ]
  step-Keeps (attach_probe_method a l) i =
      elim (Bool-cases (attaches (i.calls ++ (begin_call ∷ [])) a l)) [
        | inl e ↦ rw (e, attach_probe_listener) (stays i.call_listeners, (l ∷ [], refl))
        | inr e ↦ rw (e, attach_probe_listener) (stays i.call_listeners, stays i.probe_listeners)
      ]
  step-Keeps (detach_method l) i = (stays i.call_listeners, stays i.probe_listeners)
  step-Keeps (replace_method a r) i = elim (Bool-cases (replaces i.calls a r)) [
    | inl e ↦ rw (e, replace) (stays i.call_listeners, stays i.probe_listeners)
    | inr e ↦ rw (e, replace) (stays i.call_listeners, stays i.probe_listeners)
  ]
  step-Keeps (revert_method a) i = (stays i.call_listeners, stays i.probe_listeners)

  further :
      (a b c : List ℕ)
      → (more : List ℕ) × (b ≡ a ++ more)
      → (more : List ℕ) × (c ≡ b ++ more)
      → (more : List ℕ) × (c ≡ a ++ more)
  further a b c (x, ex) (y, ey) = (x ++ y, ey ∙ ap (λ l. l ++ y) ex ∙ append_assoc a x y)

  -- No method takes a listener off the lists, not even the detachment of that listener: each list
  -- after a run goes on with the list before it.
  pub run-Keeps : (xs : List Method) (i : Interceptor) → Keeps i (run attaches replaces xs i)
  run-Keeps [] i = (stays i.call_listeners, stays i.probe_listeners)
  run-Keeps (x ∷ xs) i =
      let one = step-Keeps x i in
      let rest = run-Keeps xs (step attaches replaces x i).0 in
      (further _ _ _ one.0 rest.0, further _ _ _ one.1 rest.1)
