-- ===== src/Profiler.antt =====
-- src/modules/profiler.cpp: the game's telemetry, passed on to the Tracy profiler.
-- A thread is modelled by its thread-local state and the calls of Tracy that it makes; the level is
-- shared, and read under its lock. The texts that `vsnprintf` makes are given, and so is what
-- Tracy returns. The attachment hooks are in Attached, the copies of texts in Messages.
use clientplugin.Base.{
  ℕ, zero, suc, ◌≡◌, Bool, true, false, not, ◌&&◌, ◌||◌, List, [], ◌∷◌, ◌++◌, Text, codes,
  starts_with, Result, ok, err, undefined, ◌==◌, ltb, if◌then◌else◌, uint32_max,
}
pub mod Zones
pub mod Contexts
pub mod Threads
pub mod Attached
pub mod Messages
pub mod Scopes
mod Runs

-- The calls of Tracy. A zone is known by the context that its beginning returns.
pub data TracyCall : Type 0 where
  zone_begin : (line : ℕ) (source function name : Text) (ctx : ℕ) → TracyCall
  zone_end : (ctx : ℕ) → TracyCall

-- `TelemetryLevelState`, with its `operator==`.
pub record LevelState : Type 0 where
  pub level : ℕ
  pub profile_all_levels : Bool

abbrev pub bool_eq : Bool → Bool → Bool
bool_eq true b = b
bool_eq false b = not b

pub same_level : LevelState → LevelState → Bool
same_level s t = (s.level == t.level) && bool_eq s.profile_all_levels t.profile_all_levels

-- A thread: `telemetry_ctx_stack` with the top first, `last_observed_telemetry_state_per_thread`,
-- and the calls made so far.
pub record Thread : Type 0 where
  pub ctx_stack : List ℕ
  pub last_observed : LevelState
  pub calls : List TracyCall

-- A thread that has not run.
pub new_thread : Thread
new_thread = record {
  ctx_stack = [];
  last_observed = record { level = 0; profile_all_levels = false };
  calls = [];
}

-- The context that Tracy returns for a zone, after the calls made so far.
module _ (emit_zone_begin : List TracyCall → ℕ) where
  -- `ContextStack::push`
  pub push : ℕ → Text → Text → Text → Thread → Thread
  push line source function name t =
      let ctx = emit_zone_begin t.calls in
      record t {
        ctx_stack = ctx ∷ t.ctx_stack;
        calls = t.calls ++ (zone_begin line source function name ctx ∷ []);
      }

-- `ContextStack::pop`, which does nothing on an empty stack.
pop_from : List ℕ → Thread → Thread
pop_from [] t = t
pop_from (ctx ∷ rest) t = record t { ctx_stack = rest; calls = t.calls ++ (zone_end ctx ∷ []) }

pub pop : Thread → Thread
unfolding pop_from
pop t = pop_from t.ctx_stack t

-- `ContextStack::clear`: a round for each context on the stack.
clear_from : List ℕ → Thread → Thread
unfolding pop
clear_from [] t = t
clear_from (ctx ∷ rest) t = clear_from rest (pop t)

pub clear : Thread → Thread
unfolding clear_from
clear t = clear_from t.ctx_stack t

-- `check_level`: whether the level has changed since the thread looked last.
pub check_level : LevelState → Thread → Bool × Thread
unfolding clear
check_level state t =
    if same_level t.last_observed state
    then (false, t)
    else (true, clear (record t { last_observed = state }))

-- `UNAVAILABLE`
abbrev pub unavailable : Text
unavailable = codes "unavailable"

module _ (emit_zone_begin : List TracyCall → ℕ) where
  -- `tmCoreEnter_replace`, with the text that its format makes.
  pub enter : LevelState → ℕ → Text → Text → Thread → Thread
  unfolding check_level push
  enter state line location buf t =
      let checked = check_level state t in
      if checked.0
      then checked.1
      else if starts_with buf (codes "Wait")
      then checked.1
      else push emit_zone_begin line location unavailable buf checked.1

-- `tmCoreLeave_replace`
pub leave : LevelState → Thread → Thread
unfolding check_level pop
leave state t = let checked = check_level state t in if checked.0 then checked.1 else pop checked.1

-- The members of `TelemetryData` that are used: for each of the 32 contexts whether it is the
-- replacement (or else null), and the level.
pub record TelemetryData : Type 0 where
  pub tm_context : ℕ → Bool
  pub level : ℕ

abbrev pub contexts : ℕ
contexts = 32

-- `TelemetryTick_replacement`, with the value of the console variable. To store beyond the last context is undefined.
pub tick : Bool → TelemetryData → LevelState → Result (TelemetryData × LevelState)
tick profile_all_levels telemetry state =
    let state' : LevelState = record {
      level = telemetry.level;
      profile_all_levels = profile_all_levels;
    } in
    if (telemetry.level == state.level) && bool_eq state.profile_all_levels profile_all_levels
    then ok (telemetry, state)
    else if profile_all_levels
    then ok (record telemetry { tm_context = λ l. ltb l contexts }, state')
    else if ltb telemetry.level contexts
    then ok (record telemetry { tm_context = λ l. l == telemetry.level }, state')
    else err undefined

-- The level that the constructor of `ProfilerMod` sets.
pub initial_level : Bool → LevelState
initial_level profile_all_levels = record {
  level = uint32_max;
  profile_all_levels = profile_all_levels;
}
