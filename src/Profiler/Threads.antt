-- ===== src/Profiler/Threads.antt =====
-- The threads of the game together: each runs the replaced functions with its own stack and its own last
-- observed level, and the level is shared. Every call reads or writes the level under its lock, so a run of the
-- threads is a sequence of whole calls.
use clientplugin.Base.{
  ℕ, ◌≡◌, refl, sym, ap, subst, ltb, ◌∙◌, inl, inr, Bool, true, false, Bool-cases, ◌&&◌, List, [],
  ◌∷◌, Text, Result, ok, ◌>>=◌, >>=-eq-ok, ok_value, arith, ◌==◌, ==_iff, if◌then◌else◌,
}
use clientplugin.Profiler.Zones.{
  IsBracketed, Event, entered, left, react, react_all, react_all-IsBracketed,
}
use clientplugin.Profiler.{
  TracyCall, LevelState, Thread, new_thread, TelemetryData, enter, leave, tick, bool_eq, contexts,
}

-- A call of a replaced function. A tick finds the level and the console variable as the game has set them.
pub data Act : Type 0 where
  enters : (thread line : ℕ) (location buf : Text) → Act
  leaves : (thread : ℕ) → Act
  ticks : (profile_all_levels : Bool) (level : ℕ) → Act

pub record Process : Type 0 where
  pub threads : ℕ → Thread
  pub telemetry : TelemetryData
  pub state : LevelState

-- One of the threads changes.
abbrev pub update : (ℕ → Thread) → ℕ → Thread → ℕ → Thread
update threads i t j = if i == j then t else threads j

-- What Tracy returns to each thread for a zone.
module _ (emit : ℕ → List TracyCall → ℕ) where
  unfoldable pub act : Act → Process → Result Process
  act (enters i line location buf) p = ok (record p {
    threads = update p.threads i (enter (emit i) p.state line location buf (p.threads i));
  })
  act (leaves i) p = ok (record p { threads = update p.threads i (leave p.state (p.threads i)) })
  act (ticks all level) p = do
    ticked ← tick all (record p.telemetry { level = level }) p.state
    ok (record p { telemetry = ticked.0; state = ticked.1 })

  unfoldable pub act_all : List Act → Process → Result Process
  unfolding act
  act_all [] p = ok p
  act_all (a ∷ acts) p = do p' ← act a p; act_all acts p'

-- The level after a tick: what the tick found, whether that is a change or not.
abbrev pub level_after : Bool → ℕ → LevelState
level_after all level = record { level = level; profile_all_levels = all }

-- What one thread does in a run that starts at some level, with the level of the moment.
abbrev pub events_of : ℕ → List Act → LevelState → List Event
events_of i [] state = []
events_of i (enters j line location buf ∷ acts) state =
    let rest = events_of i acts state in
    if j == i then entered state line location buf ∷ rest else rest
events_of i (leaves j ∷ acts) state =
    let rest = events_of i acts state in if j == i then left state ∷ rest else rest
events_of i (ticks all level ∷ acts) state = events_of i acts (level_after all level)

same_refl : (n : ℕ) → (n == n) ≡ true
same_refl n = ground arith

bool_eq_eq : (a b : Bool) → bool_eq a b ≡ true → a ≡ b
bool_eq_eq true b e = sym e
bool_eq_eq false true e = cc
bool_eq_eq false false e = refl

-- Where the tick finds no change, the level is already what it finds.
unchanged :
    (all : Bool) (level : ℕ) (state : LevelState)
    → ((level == state.level) && bool_eq state.profile_all_levels all) ≡ true
    → state ≡ level_after all level
unchanged true level state e = ground (arith, bool_eq_eq state.profile_all_levels true)
unchanged false level state e = ground (arith, bool_eq_eq state.profile_all_levels false)

moved :
    (all : Bool) (telemetry : TelemetryData) (state : LevelState)
    {ticked : TelemetryData × LevelState}
    → ((telemetry.level == state.level) && bool_eq state.profile_all_levels all) ≡ false
    → tick all telemetry state ≡ ok ticked
    → ticked.1 ≡ level_after all telemetry.level
unfolding tick
moved true telemetry state n e =
    ap (λ (t : TelemetryData × LevelState). t.1) (sym (ok_value (rw (n, tick) at e)))
moved false telemetry state n e = elim (Bool-cases (ltb telemetry.level contexts)) [
  | inl y ↦ ap (λ (t : TelemetryData × LevelState). t.1) (sym (ok_value (rw (n, y, tick) at e)))
  | inr large ↦ absurd (ground arith)
]

tick-state :
    (all : Bool) (telemetry : TelemetryData) (state : LevelState)
    {ticked : TelemetryData × LevelState}
    → tick all telemetry state ≡ ok ticked
    → ticked.1 ≡ level_after all telemetry.level
unfolding tick
tick-state all telemetry state e =
    elim (Bool-cases ((telemetry.level == state.level) && bool_eq state.profile_all_levels all)) [
      | inl y ↦
          ap (λ (t : TelemetryData × LevelState). t.1) (sym (ok_value (rw (y, tick) at e)))
          ∙ unchanged all telemetry.level state y
      | inr n ↦ moved all telemetry state n e
    ]

module _ (emit : ℕ → List TracyCall → ℕ) (i : ℕ) where
  own :
      (j : ℕ) (event : Event) (rest : List Event) (threads : ℕ → Thread)
      → react_all (emit i) rest (update threads j (react (emit j) event (threads j)) i)
        ≡ react_all (emit i) (if j == i then event ∷ rest else rest) (threads i)
  own j event rest threads = elim (Bool-cases (j == i)) [
    | inl y ↦
        subst
          (λ (k : ℕ).
            react_all (emit i) rest (update threads k (react (emit k) event (threads k)) i)
            ≡ react_all (emit i) (if k == i then event ∷ rest else rest) (threads i))
          (sym ((==_iff j i).0 y)) (rw (same_refl i) refl)
    | inr n ↦ rw n refl
  ]

  -- In every run of the threads that ends well, thread i is where its own calls alone bring it, at the levels of
  -- their moments: no other thread touches what it keeps.
  pub act_all-thread :
      (acts : List Act) (p : Process) {p' : Process}
      → act_all emit acts p ≡ ok p'
      → p'.threads i ≡ react_all (emit i) (events_of i acts p.state) (p.threads i)
  unfolding act_all act
  act_all-thread [] p e = ap (λ (q : Process). q.threads i) (sym (ok_value e))
  act_all-thread (enters j line location buf ∷ acts) p e =
      act_all-thread acts _ e
      ∙ own j (entered p.state line location buf) (events_of i acts p.state) p.threads
  act_all-thread (leaves j ∷ acts) p e =
      act_all-thread acts _ e ∙ own j (left p.state) (events_of i acts p.state) p.threads
  act_all-thread (ticks all level ∷ acts) p {p'} e =
      let (p1, e1, rest) = >>=-eq-ok (act emit (ticks all level) p) (act_all emit acts) e in
      let (ticked, e2, done) =
        >>=-eq-ok (tick all (record p.telemetry { level = level }) p.state) _ e1 in
      let same_threads : p1.threads ≡ p.threads =
        ap (λ (q : Process). q.threads) (sym (ok_value done)) in
      let noted : p1.state ≡ level_after all level =
        ap (λ (q : Process). q.state) (sym (ok_value done))
        ∙ tick-state all (record p.telemetry { level = level }) p.state e2 in
      act_all-thread acts p1 rest
      ∙ ap (λ (t : ℕ → Thread). react_all (emit i) (events_of i acts p1.state) (t i)) same_threads
      ∙ ap (λ (s : LevelState). react_all (emit i) (events_of i acts s) (p.threads i)) noted

  -- So in every such run of threads that had not run before, each thread ends its zones from the innermost on.
  pub act_all-IsBracketed :
      (acts : List Act) (p : Process) {p' : Process}
      → p.threads i ≡ new_thread
      → act_all emit acts p ≡ ok p'
      → IsBracketed (p'.threads i)
  act_all-IsBracketed acts p {p'} fresh e =
      subst IsBracketed
        (sym (act_all-thread acts p e ∙ ap (react_all (emit i) (events_of i acts p.state)) fresh))
        (react_all-IsBracketed (emit i) (events_of i acts p.state))
