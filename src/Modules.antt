-- ===== src/Modules.antt =====
-- src/modules/modules.hpp and .cpp: the list of modules, and what makes and destroys them.
use clientplugin.Base.{ℕ, List, [], ◌∷◌, ◌++◌, Bool, Option, Text, Result, ok, err, stuck}
use clientplugin.Interceptor.{GumCall}
use clientplugin.Hooks.{HookSpec, Hook, Attempt, made, threw, World, make_hook, destroy_hooks}
pub mod Registered
pub mod Unhooked
pub mod Kept

-- A module as its factory makes it: what its constructor does before it hooks (here only whether that
-- throws), the hooks in the order in which they are made, and the order in which its members are
-- destroyed. The overlay has no name.
pub record Module : Type 0 where
  pub name : Option Text
  pub prepare : Attempt (Unit {0})
  pub specs : List HookSpec
  pub members : List Hook → List Hook

-- The constructor of ModuleDesc, on `g_ModuleList`.
unfoldable pub register : Module → List Module → List Module
register m g_module_list = m ∷ g_module_list

-- `modules.clear()`, and the destructor of the vector, which the standard library passes forward.
pub clear : List (List Hook) → World → World
clear [] w = w
clear (m ∷ ms) w = clear ms (destroy_hooks m w)

-- ModuleManager
pub record Manager : Type 0 where
  pub modules : List (List Hook)
  pub gfx_overlay : List Hook

module _ (attaches replaces : List GumCall → ℕ → ℕ → Bool) where
  -- The hooks of a constructor. If one throws, those that are made are destroyed.
  unfoldable pub make_members :
      (List Hook → List Hook) → List HookSpec → List Hook → World → World × Attempt (List Hook)
  make_members order [] hooks w = (w, made (order hooks))
  make_members order (spec ∷ specs) hooks w =
      let tried = make_hook attaches replaces spec w in
      elim tried.1 [
        | made h ↦ make_members order specs (hooks ++ (h ∷ [])) tried.0
        | threw why ↦ (destroy_hooks (order hooks) tried.0, threw why)
      ]

  -- A factory. A module that exists is its hooks, in the order in which it destroys them.
  unfoldable pub make_module : Module → World → World × Attempt (List Hook)
  unfolding make_members
  make_module m w = elim m.prepare [
    | made u ↦ make_members m.members m.specs [] w
    | threw why ↦ (w, threw why)
  ]

  -- The constructor, with the overlay's. If a module throws, those before it are destroyed.
  unfoldable pub make_rest :
      List Module → Module → List (List Hook) → World → World × Attempt Manager
  unfolding clear make_module
  make_rest [] overlay modules w =
      let tried = make_module overlay w in
      elim tried.1 [
        | made o ↦ (tried.0, made (record { modules = modules; gfx_overlay = o }))
        | threw why ↦ (clear modules tried.0, threw why)
      ]
  make_rest (desc ∷ descs) overlay modules w =
      let tried = make_module desc w in
      elim tried.1 [
        | made m ↦ make_rest descs overlay (modules ++ (m ∷ [])) tried.0
        | threw why ↦ (clear modules tried.0, threw why)
      ]

  unfoldable pub make_manager : List Module → Module → World → World × Attempt Manager
  unfolding make_rest
  make_manager g_module_list overlay w = make_rest g_module_list overlay [] w

-- The destructor.
pub destroy_manager : Manager → World → World
unfolding clear
destroy_manager manager w = clear manager.modules (destroy_hooks manager.gfx_overlay w)
