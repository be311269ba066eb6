-- ===== src/CleaverBug.antt =====
-- src/modules/cleaverbug.cpp: the boxes drawn where a thrown cleaver starts, and where its velocity points. The
-- vectors and the angles of the Source SDK are given, and so is what a pointer to a vector refers to.
use clientplugin.Base.{ℕ, List, [], ◌∷◌, ◌++◌, Result, ok, err, ◌>>=◌}
use clientplugin.Hooks.{Callbacks, enter_func}
use clientplugin.Hooks.Context.{GumInvocation, get_arg}
mod Runs

-- `Vector` with its constructor, `-` and `+`, and `QAngle`.
pub record SdkVectors (V Q : Type 0) : Type 0 where
  pub vector : (x y z : ℕ) → V
  pub negative : V → V
  pub plus : V → V → V
  pub angle : (x y z : ℕ) → Q

-- A call of AddBoxOverlay.
pub record BoxOverlay (V Q : Type 0) : Type 0 where
  pub origin : V
  pub mins : V
  pub maxs : V
  pub angles : Q
  pub colour : ℕ × ℕ × ℕ
  pub alpha : ℕ
  pub duration : ℕ

module _ {V Q : Type 0} ⦃sdk : SdkVectors V Q⦄ where
  pub box_at : V → ℕ × ℕ × ℕ → BoxOverlay V Q
  box_at origin colour =
      let box_size : V = sdk.vector 8 8 8 in
      record {
        origin = origin;
        mins = sdk.negative box_size;
        maxs = box_size;
        angles = sdk.angle 0 0 0;
        colour = colour;
        alpha = 64;
        duration = 30;
      }

  module _ {C : Type 0} ⦃gum : GumInvocation C⦄ (vector_at : ℕ → Result V) where
    -- On the boxes that were drawn before.
    pub on_create_projectile : C → List (BoxOverlay V Q) → Result (List (BoxOverlay V Q))
    unfolding get_arg box_at
    on_create_projectile context boxes = do
      let position = get_arg context 1
      let velocity = get_arg context 3
      origin ← vector_at position
      let first = boxes ++ (box_at origin (255, 0, 0) ∷ [])
      start ← vector_at position
      moved ← vector_at velocity
      ok (first ++ (box_at (sdk.plus start moved) (0, 0, 255) ∷ []))

    pub cleaver_callbacks : Callbacks C (Result (List (BoxOverlay V Q)))
    unfolding on_create_projectile
    cleaver_callbacks = enter_func (λ context boxes. boxes >>= on_create_projectile context)
