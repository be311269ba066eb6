-- ===== src/Notification/Runs.antt =====
-- A notification at address 4096, whose table of virtual functions stands at 8192.
use clientplugin.Base.{ℕ, ◌+◌, ◌≡◌, refl, none, some, [], ◌∷◌, ok, ◌==◌, if◌then◌else◌}
use clientplugin.Notification.{
  WordMemory, GameCall, constructs, adds_to_queue, sets_lifetime, Process, ninety,
  show_notification,
}
use clientplugin.Notification.Shown.{with_members}
use clientplugin.Offsets.Constants.{
  OffsetName, econ_notification_constructor, notification_queue_add,
}

abbrev malloc : ℕ → ℕ
malloc size = 4096

abbrev address : OffsetName → ℕ
address econ_notification_constructor = 100
address notification_queue_add = 200
address _ = 0

-- The constructor makes an object with its table; the others leave memory as it is.
abbrev effect : GameCall → WordMemory → WordMemory
effect (constructs f notif) words x =
    if x == notif
    then some 8192
    else if x == notif + 4
    then some 0
    else if x == notif + 8
    then some 0
    else if x == 8200
    then some 300
    else words x
effect _ words x = words x

abbrev process : Process
process = record { words = λ x. none; calls = [] }

shows :
    show_notification malloc effect 500 600 address process
    ≡ ok (record {
      words = effect (adds_to_queue 200 4096) (
          effect (sets_lifetime 300 4096 ninety) (
            with_members malloc effect 500 600 address (effect (constructs 100 4096) (λ x. none))));
      calls = constructs 100 4096 ∷ sets_lifetime 300 4096 ninety ∷ adds_to_queue 200 4096 ∷ [];
    })
unfolding show_notification
shows = refl
