-- ===== src/Interceptor/Runs.antt =====
-- A run of the interceptor: two attachments, of which the second fails, and a detachment.
use clientplugin.Base.{ℕ, ◌+◌, ◌≡◌, Bool, true, List, [], ◌∷◌, ◌==◌}
use clientplugin.Interceptor.{GumCall, obtain, Interceptor, make_interceptor}
use clientplugin.Interceptor.Transactions.{
  Method, attach_call_method, attach_probe_method, detach_method, begun, ended, run, failures,
  run-transactions,
}

abbrev attaches : List GumCall → ℕ → ℕ → Bool
attaches calls address listener = address == 4096

abbrev replaces : List GumCall → ℕ → ℕ → Bool
replaces calls address replacement = true

abbrev methods : List Method
methods = attach_call_method 4096 1 ∷ attach_probe_method 8192 2 ∷ detach_method 1 ∷ []

run-transactions_example :
    begun (run attaches replaces methods make_interceptor).calls
    ≡ ended (run attaches replaces methods make_interceptor).calls
      + failures attaches replaces methods make_interceptor
run-transactions_example = run-transactions attaches replaces methods

abbrev attached : Interceptor
attached = record { probe_listeners = 2 ∷ []; call_listeners = 1 ∷ []; calls = obtain ∷ [] }
