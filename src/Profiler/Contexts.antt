-- ===== src/Profiler/Contexts.antt =====
-- Which contexts of the telemetry the profiler has replaced after a run of the threads.
use clientplugin.Base.{
  ℕ, ◌≡◌, ◌⊎◌, ◌<◌, Bool, true, List, [], ◌∷◌, ◌==◌, ltb, if◌then◌else◌, uint32_max,
}
use clientplugin.Profiler.{LevelState, TelemetryData, contexts}
use clientplugin.Profiler.Threads.{Act, enters, leaves, ticks}

-- The context of the level, or all of them.
abbrev pub replaced : Bool → ℕ → ℕ → Bool
replaced profile_all_levels level l = if profile_all_levels then ltb l contexts else l == level

-- A level that the game sets is not the one that the profiler begins with, and it has a context unless all are
-- profiled.
abbrev pub Fits : Act → Type 0
Fits (enters thread line location buf) = Unit {0}
Fits (leaves thread) = Unit {0}
Fits (ticks all level) = (level < uint32_max) × ((all ≡ true) ⊎ (level < contexts))

-- The contexts that are replaced after some calls.
abbrev pub replaced_after : (ℕ → Bool) → List Act → ℕ → Bool
replaced_after before [] = before
replaced_after before (enters thread line location buf ∷ acts) = replaced_after before acts
replaced_after before (leaves thread ∷ acts) = replaced_after before acts
replaced_after before (ticks all level ∷ acts) = replaced_after (replaced all level) acts

-- No tick has come, or the contexts are those of the state.
abbrev pub Kept : TelemetryData → LevelState → Type 0
Kept telemetry state =
    (state.level ≡ uint32_max)
    ⊎ (telemetry.tm_context ≡ replaced state.profile_all_levels state.level)
