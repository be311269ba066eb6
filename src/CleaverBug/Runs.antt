-- ===== src/CleaverBug/Runs.antt =====
-- A cleaver thrown along one axis, with a number for a vector.
use clientplugin.Base.{ℕ, ◌+◌, ◌≡◌, refl, map, List, [], ◌∷◌, Result, ok, ◌>>=◌}
use clientplugin.CleaverBug.{
  SdkVectors, BoxOverlay, cleaver_callbacks, on_create_projectile, box_at,
}
use clientplugin.Hooks.{on_enter}
use clientplugin.Hooks.Context.{GumInvocation, get_arg}

instance axis : SdkVectors ℕ ℕ
axis = record { vector = λ x y z. x; negative = λ x. x; plus = λ x y. x + y; angle = λ x y z. x }

instance given_arguments : GumInvocation ℕ
given_arguments = record {
  get_nth_argument = λ context n. context + n;
  replace_nth_argument = λ context n value. context;
  get_return_value = λ context. 0;
  replace_return_value = λ context value. context;
  get_thread_id = λ context. 1;
}

abbrev drawn : Result (List (BoxOverlay ℕ ℕ))
drawn = on_enter {C = ℕ} (cleaver_callbacks (λ p. ok p)) 100 (ok [])

two_boxes :
    (drawn >>= λ boxes. ok (map (λ (b : BoxOverlay ℕ ℕ). b.origin) boxes)) ≡ ok (101 ∷ 204 ∷ [])
unfolding on_enter cleaver_callbacks on_create_projectile get_arg box_at given_arguments axis
two_boxes = refl
