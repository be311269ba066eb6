-- ===== src/Notification/Shown.antt =====
-- What the queue is given.
use clientplugin.Base.{
  ℕ, ◌+◌, ◌≡◌, ◌≢◌, refl, ap, ◌∙◌, false, none, some, [], ◌∷◌, ◌++◌, ok, err, fault, arith, ◌==◌,
  if◌then◌else◌,
}
use clientplugin.Notification.{
  WordMemory, GameCall, constructs, adds_to_queue, sets_lifetime, Process, store_word, load_word,
  text_at, soundname_at, set_lifetime_at, ninety, call_game, show_notification,
}
use clientplugin.Offsets.Constants.{
  OffsetName, econ_notification_constructor, notification_queue_add,
}

module _ (malloc : ℕ → ℕ) (effect : GameCall → WordMemory → WordMemory) (text soundname : ℕ)
    (address : OffsetName → ℕ) where
  -- The constructor's call, and what memory is after it.
  abbrev pub constructor_call : GameCall
  constructor_call = constructs (address econ_notification_constructor) (malloc 0x102c)

  -- The members are written over what the constructor has left.
  abbrev pub with_members : WordMemory → WordMemory
  with_members words x =
      if x == malloc 0x102c + soundname_at
      then some soundname
      else if x == malloc 0x102c + text_at
      then some text
      else words x

  -- If the constructor leaves an object with a table of virtual functions, and that is not part of the two members,
  -- then the object is constructed, has its lifetime set by the function of its table, and is added to the
  -- queue, in this order, and the lifetime is set when the object has both members.
  pub show_notification_lem :
      (p : Process) (vtable function was_text was_sound : ℕ)
      → effect constructor_call p.words (malloc 0x102c) ≡ some vtable
      → effect constructor_call p.words (malloc 0x102c + text_at) ≡ some was_text
      → effect constructor_call p.words (malloc 0x102c + soundname_at) ≡ some was_sound
      → effect constructor_call p.words (vtable + set_lifetime_at) ≡ some function
      → vtable + set_lifetime_at ≢ malloc 0x102c + text_at
      → vtable + set_lifetime_at ≢ malloc 0x102c + soundname_at
      → show_notification malloc effect text soundname address p
        ≡ ok (record {
          words = effect (adds_to_queue (address notification_queue_add) (malloc 0x102c)) (
              effect
                (sets_lifetime function (malloc 0x102c) ninety)
                (with_members (effect constructor_call p.words)));
          calls =
              ((p.calls ++ (constructor_call ∷ []))
                ++ (sets_lifetime function (malloc 0x102c) ninety ∷ []))
              ++ (adds_to_queue (address notification_queue_add) (malloc 0x102c) ∷ []);
        })
  unfolding show_notification call_game store_word load_word
  show_notification_lem p vtable function was_text was_sound v t s f apart_text apart_sound =
      let notif = malloc 0x102c in
      let e1 : (notif + soundname_at == notif + text_at) ≡ false = ground arith in
      let e2 : (notif == notif + soundname_at) ≡ false = ground arith in
      let e3 : (notif == notif + text_at) ≡ false = ground arith in
      let e4 : (vtable + set_lifetime_at == notif + soundname_at) ≡ false = ground arith in
      let e5 : (vtable + set_lifetime_at == notif + text_at) ≡ false = ground arith in
      rw (t, e1, s, e2, e3, v, e4, e5, f) refl

  -- If there is no memory, and the null page is not mapped after the constructor, then the command ends the process.
  pub show_notification-null :
      (p : Process)
      → malloc 0x102c ≡ 0
      → effect constructor_call p.words text_at ≡ none
      → show_notification malloc effect text soundname address p ≡ err fault
  unfolding show_notification call_game store_word
  show_notification-null p no_memory unmapped =
      let same : malloc 0x102c + text_at ≡ text_at = omega (arith, no_memory) in
      let u : effect constructor_call p.words (malloc 0x102c + text_at) ≡ none =
        ap (effect constructor_call p.words) same ∙ unmapped in
      rw u refl
