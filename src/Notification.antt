-- ===== src/Notification.antt =====
-- src/modules/notification.cpp: the command that shows a notification of the game. Memory is read and written in
-- words here; what `malloc` returns, and what the game's functions do to memory, are given.
use clientplugin.Base.{
  ℕ, ◌+◌, Option, none, some, List, [], ◌∷◌, ◌++◌, Result, ok, err, fault, or_throw, ◌>>=◌, ◌==◌,
  if◌then◌else◌,
}
use clientplugin.Offsets.Constants.{
  OffsetName, econ_notification_constructor, notification_queue_add,
}
pub mod Shown
mod Runs

abbrev pub WordMemory : Type 0
WordMemory = ℕ → Option ℕ

-- The calls of functions of the game, by their addresses; a float is its bits.
pub data GameCall : Type 0 where
  constructs adds_to_queue : (function notif : ℕ) → GameCall
  sets_lifetime : (function notif seconds : ℕ) → GameCall

pub record Process : Type 0 where
  pub words : WordMemory
  pub calls : List GameCall

-- A write to memory that is not mapped ends the process.
pub store_word : ℕ → ℕ → Process → Result Process
store_word a v p = do
  old ← or_throw (p.words a) fault
  ok (record p { words = λ x. if x == a then some v else p.words x })

pub load_word : ℕ → Process → Result ℕ
load_word a p = or_throw (p.words a) fault

-- Where the members of CEconNotification stand, and `SetLifetime` among its virtual functions.
abbrev pub text_at : ℕ
text_at = 4

abbrev pub soundname_at : ℕ
soundname_at = 8

abbrev pub set_lifetime_at : ℕ
set_lifetime_at = 8

-- 90.f
abbrev pub ninety : ℕ
ninety = 0x42b40000

-- The literals stand at two addresses.
module _ (malloc : ℕ → ℕ) (effect : GameCall → WordMemory → WordMemory) (text soundname : ℕ) where
  pub call_game : GameCall → Process → Process
  call_game c p = record { words = effect c p.words; calls = p.calls ++ (c ∷ []) }

  pub show_notification : (OffsetName → ℕ) → Process → Result Process
  unfolding call_game store_word load_word
  show_notification address p = do
    let notif = malloc 0x102c
    let made = call_game (constructs (address econ_notification_constructor) notif) p
    with_text ← store_word (notif + text_at) text made
    with_sound ← store_word (notif + soundname_at) soundname with_text
    vtable ← load_word notif with_sound
    function ← load_word (vtable + set_lifetime_at) with_sound
    let living = call_game (sets_lifetime function notif ninety) with_sound
    ok (call_game (adds_to_queue (address notification_queue_add) notif) living)
