-- ===== src/Interceptor/Destroyed.antt =====
-- What the destructor of the interceptor does when no listener is left.
use clientplugin.Base.{ℕ, ◌≡◌, ◌≢◌, ◌↔◌, refl, Bool, false, List, [], ◌∷◌, ◌++◌, err, undefined}
use clientplugin.Interceptor.{
  GumCall, Interceptor, begin_transaction, call, get_listener, detach_all, destroy,
}

-- The first listener that is asked is gone.
asks_the_dead :
    (alive : ℕ → Bool) (cs ps : List ℕ) (calls : List GumCall)
    → ((l : ℕ) → alive l ≡ false)
    → (destroy alive (record { probe_listeners = ps; call_listeners = cs; calls = calls })
        ≡ err undefined)
      ↔ (cs ++ ps ≢ [])
unfolding destroy detach_all get_listener begin_transaction call
asks_the_dead alive [] [] calls dead = (λ e. cc, λ n. absurd (n refl))
asks_the_dead alive (c ∷ cs) ps calls dead = (λ e f. cc, λ n. rw (dead c) refl)
asks_the_dead alive [] (p ∷ ps) calls dead = (λ e f. cc, λ n. rw (dead p) refl)

pub destroy-undefined :
    (alive : ℕ → Bool) (i : Interceptor)
    → ((l : ℕ) → alive l ≡ false)
    → (destroy alive i ≡ err undefined) ↔ (i.call_listeners ++ i.probe_listeners ≢ [])
destroy-undefined alive i dead = asks_the_dead alive i.call_listeners i.probe_listeners i.calls dead
