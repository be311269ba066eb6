-- ===== src/ClientClasses/Dump.antt =====
-- `ClientClassManager::dump_props_to_file` of src/offsets/clientclasses.cpp, and the callback of its command, which is
-- a ConCommandCallbacks of src/sdk/concommandwrapper.hpp.
-- The number that fmt writes, which files can be opened, and the orders in which the maps are passed, are given.
use clientplugin.Base.{
  ℕ, ◌≡◌, refl, Bool, inl, inr, ◌⊎◌, Option, none, some, List, [], ◌∷◌, ◌++◌, map, Text, codes,
  text_eq, text_eq_iff, lookup, Bool-cases, Result, ok, err, ◌>>=◌, >>=-eq-ok, or_throw,
  out_of_range, if◌then◌else◌,
}
use clientplugin.ClientClasses.{ClientProp, ClientClasses}
pub mod Complete

-- A command's words: its name and those behind it.
abbrev pub CCommand : Type 0
CCommand = Text × List Text

-- A function of a command, which the engine calls when the command is given.
pub record ConCommandCallbacks {ℓ} (R : Type ℓ) : Type ℓ where
  pub callback : CCommand → R

pub command_callback {ℓ} : {R : Type ℓ} → ConCommandCallbacks R → CCommand → R
command_callback callbacks command = callbacks.callback command

-- What the command does: it warns how it is used, or it writes the lines to a file, or to a stream whose file cannot be
-- opened, which drops them without an error.
pub data Dumped : Type 0 where
  usage : (command : Text) → Dumped
  written : (output_file : Text) (lines : List Text) → Dumped
  dropped : (output_file : Text) → Dumped

module _ (hex : ℕ → Text) (opens : Text → Bool) (class_order : ClientClasses → ClientClasses)
    (prop_order : List (Text × ClientProp) → List (Text × ClientProp)) where
  pub prop_line : Text × ClientProp → Text
  prop_line (name, prop) = codes "\t" ++ (name ++ (codes ": " ++ (hex prop.offset ++ codes "\n")))

  class_line : Text → Text
  class_line name = codes "CLIENTCLASS: " ++ (name ++ codes "\n")

  -- The two loops.
  dump_lines : ClientClasses → List Text
  unfolding prop_line class_line
  dump_lines [] = []
  dump_lines ((name, props) ∷ classes) =
      class_line name ∷ (map prop_line (prop_order props) ++ dump_lines classes)

  -- With the name of the command and the words behind it.
  pub dump_props_to_file : Text → List Text → ClientClasses → Dumped
  unfolding dump_lines
  dump_props_to_file command (fname ∷ []) classes =
      if opens fname then written fname (dump_lines (class_order classes)) else dropped fname
  dump_props_to_file command arguments classes = usage command

  -- The function holds a reference to the manager: it writes the classes that are there when it is called.
  pub dump_props_to_file_callback : ConCommandCallbacks (ClientClasses → Dumped)
  unfolding dump_props_to_file
  dump_props_to_file_callback = record {
    callback = λ (command : CCommand). dump_props_to_file command.0 command.1;
  }
