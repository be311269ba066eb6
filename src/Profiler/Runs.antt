-- ===== src/Profiler/Runs.antt =====
-- Runs of src/modules/profiler.cpp.
use clientplugin.Base.{
  starts_with, ap, zero, suc, ◌+◌, ◌++◌, get_elem?, ℕ, ◌≡◌, refl, some, true, false, List, [], ◌∷◌,
  length, codes, ok,
}
use clientplugin.Profiler.{
  LevelState, TracyCall, Thread, new_thread, TelemetryData, tick, same_level, enter, push,
  check_level, clear,
}
use clientplugin.Profiler.Zones.{open_zones, Event, entered, left, react_all}
use clientplugin.Profiler.Scopes.{
  scope, Scopes, done, next, run_scopes, drop, waits, waits_of, open_zones-run_scopes,
}
use clientplugin.Profiler.Threads.{
  Act, enters, leaves, ticks, Process, act, act_all, events_of, act_all-thread,
}
use clientplugin.Profiler.Messages.{strnlen, dynamic_string, take, dynamic_string_lem}

abbrev level_two : LevelState
level_two = record { level = 2; profile_all_levels = false }

abbrev emit : List TracyCall → ℕ
emit calls = length calls

-- The first call is lost to the change of the level; the others nest.
abbrev events : List Event
events =
    entered level_two 1 (codes "a.cpp") (codes "Frame")
    ∷ entered level_two 2 (codes "a.cpp") (codes "Run")
    ∷ entered level_two 3 (codes "b.cpp") (codes "Wait")
    ∷ left level_two
    ∷ left level_two
    ∷ []

abbrev thread : Thread
thread = record { ctx_stack = 7 ∷ 3 ∷ []; last_observed = level_two; calls = [] }

abbrev all_levels : LevelState
all_levels = record { level = 2; profile_all_levels = true }

levels_differ : same_level level_two all_levels ≡ false
unfolding same_level
levels_differ = refl

abbrev telemetry : TelemetryData
telemetry = record { tm_context = λ l. false; level = 2 }

abbrev first_state : LevelState
first_state = record { level = 0xFFFF_FFFF; profile_all_levels = false }

abbrev high : TelemetryData
high = record { tm_context = λ l. false; level = 32 }

-- A frame with a wait inside, run while another zone is open.
abbrev scopes : Scopes
scopes =
    next
      (scope 1 (codes "a.cpp") (codes "Frame")
        (next (scope 2 (codes "a.cpp") (codes "WaitForSignal") done) done))
      done

abbrev in_a_zone : Thread
in_a_zone =
    react_all emit
      (entered level_two 1 (codes "a.cpp") (codes "Lost")
        ∷ entered level_two 2 (codes "a.cpp") (codes "Run")
        ∷ [])
      new_thread

open_zones-run_scopes_example :
    open_zones [] (run_scopes emit level_two scopes in_a_zone).calls
    ≡ some (drop (waits_of scopes) in_a_zone.ctx_stack)
unfolding new_thread enter push check_level same_level clear starts_with
open_zones-run_scopes_example = open_zones-run_scopes emit level_two scopes in_a_zone refl refl

none_left : some (drop (waits_of scopes) in_a_zone.ctx_stack) ≡ some []
unfolding new_thread enter push check_level same_level clear waits starts_with
none_left = refl

-- Two threads, and a change of the level between their calls.
abbrev acts : List Act
acts =
    ticks false 2
    ∷ enters 0 1 (codes "a.cpp") (codes "Frame")
    ∷ enters 0 2 (codes "a.cpp") (codes "Run")
    ∷ enters 1 3 (codes "b.cpp") (codes "Job")
    ∷ ticks false 3
    ∷ leaves 0
    ∷ leaves 1
    ∷ []

abbrev process : Process
process = record { threads = λ i. new_thread; telemetry = telemetry; state = first_state }

abbrev after_acts : Process
unfolding tick
after_acts = elim (act_all (λ i calls. length calls) acts process) [ ok p ↦ p | _ ↦ process ]

act_all-thread_example :
    after_acts.threads 0 ≡ react_all emit (events_of 0 acts first_state) new_thread
unfolding act_all act tick
act_all-thread_example = act_all-thread (λ i. emit) 0 acts process refl

-- What `new` leaves in memory.
abbrev fresh : ℕ → List ℕ
fresh zero = []
fresh (suc n) = 171 ∷ fresh n

fresh-sized : (n : ℕ) → length (fresh n) ≡ n
fresh-sized zero = refl
fresh-sized (suc n) = ap suc (fresh-sized n)

dynamic_string_lem_example :
    (last : ℕ) × (get_elem? (fresh (strnlen (codes "Run") 127 + 1)) (strnlen (codes "Run") 127)
      ≡ some last)
    × (dynamic_string fresh (some (codes "Run")) ≡ ok (take 127 (codes "Run") ++ (last ∷ [])))
dynamic_string_lem_example = dynamic_string_lem fresh (codes "Run") fresh-sized

never_ended : dynamic_string fresh (some (codes "Run")) ≡ ok (82 ∷ 117 ∷ 110 ∷ 171 ∷ [])
unfolding dynamic_string
never_ended = refl
