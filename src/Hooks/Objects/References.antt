-- ===== src/Hooks/Objects/References.antt =====
-- What is held of the listeners' objects.
use clientplugin.Base.{
  ℕ, suc, ◌+◌, ◌<◌, ◌≤◌, ◌≡◌, refl, sym, ap, ◌∙◌, Bool, true, false, List, [], ◌∷◌, ◌++◌, arith,
  ◌==◌,
}
use clientplugin.Hooks.{
  HookSpec, enter_hook, leave_hook, both_hook, replace_hook, Hook, attachment, replacement, Attempt,
  made, threw, World, hook_of, make_hook, make_call_hook, make_probe_hook, make_replacement_hook,
  destroy_hook,
}
use clientplugin.Hooks.Objects.{
  object_ref, object_unref, wrap, unwrap, make_listener, destroy_listener, Owned, keep, make_owned,
  destroy_owned,
}
use clientplugin.Interceptor.{GumCall, attach_call_listener, attach_probe_listener, replace}

abbrev pub one : Bool → ℕ
one true = 1
one false = 0

-- How many of the hooks have a listener.
abbrev pub holds : ℕ → List Hook → ℕ
holds l [] = 0
holds l (attachment k ∷ hooks) = one (k == l) + holds l hooks
holds l (replacement a ∷ hooks) = holds l hooks

module _ (new_refs : ℕ) where
  pub record Inv (o : Owned) : Type 0 where
    pub later : (l : ℕ) → o.world.next ≤ l → o.objects.alive l ≡ false
    pub counted : (l : ℕ) → holds l o.hooks ≡ one (o.objects.alive l)
    pub held : (l : ℕ) → l < o.world.next → o.objects.refs l ≡ new_refs + one (o.objects.alive l)

  -- A new listener, attached or not.
  kept-Inv :
      (o : Owned) (w : World)
      → w.next ≡ suc o.world.next
      → Inv o
      → Inv (record {
        world = w;
        objects = make_listener new_refs o.world.next o.objects;
        hooks = attachment o.world.next ∷ o.hooks;
      })
  unfolding make_listener wrap object_ref
  kept-Inv o w e inv = record {
    later = λ l h. ground (arith, inv.later l, e);
    counted = λ l. ground (arith, inv.later l, inv.counted l, e);
    held = λ l h. ground (arith, inv.held l, e);
  }

  dropped-Inv :
      (o : Owned) (w : World)
      → w.next ≡ suc o.world.next
      → Inv o
      → Inv (record {
        world = w;
        objects = destroy_listener o.world.next (make_listener new_refs o.world.next o.objects);
        hooks = o.hooks;
      })
  unfolding make_listener wrap object_ref destroy_listener unwrap object_unref
  dropped-Inv o w e inv = record {
    later = λ l h. ground (arith, inv.later l, e);
    counted = λ l. ground (arith, inv.later l, inv.counted l, e);
    held = λ l h. ground (arith, inv.held l, e);
  }

pub holds-middle :
    (l : ℕ) (before : List Hook) (h : Hook) (after : List Hook)
    → holds l (before ++ (h ∷ after)) ≡ holds l (h ∷ (before ++ after))
holds-middle l [] h after = refl
holds-middle l (attachment k ∷ before) (attachment j) after =
    omega (arith, holds-middle l before (attachment j) after)
holds-middle l (attachment k ∷ before) (replacement a) after =
    omega (arith, holds-middle l before (replacement a) after)
holds-middle l (replacement k ∷ before) (attachment j) after =
    holds-middle l before (attachment j) after
holds-middle l (replacement k ∷ before) (replacement a) after =
    holds-middle l before (replacement a) after

-- What the modules do with hooks: they make them, and they destroy one of those that exist.
module _ (attaches replaces : List GumCall → ℕ → ℕ → Bool) (new_refs : ℕ) where
  pub data Step : Owned → Owned → Type 0 where
    makes : (spec : HookSpec) (o : Owned) → Step o (make_owned attaches replaces new_refs spec o)
    destroys :
        (h : Hook) (before after : List Hook) (o : Owned)
        → o.hooks ≡ before ++ (h ∷ after)
        → Step o (destroy_owned h (before ++ after) o)

  pub data Reach (start : Owned) : Owned → Type 0 where
    here : Reach start start
    next : {o o' : Owned} → Reach start o → Step o o' → Reach start o'

  -- What a constructor makes of the interceptor and the hooks.
  call_hook_made :
      (a : ℕ) (w : World) {h : Hook}
      → (make_call_hook attaches replaces a w).1 ≡ made h
      → h ≡ attachment w.next
  unfolding make_call_hook attach_call_listener hook_of
  call_hook_made a w e = ground arith

  probe_hook_made :
      (a : ℕ) (w : World) {h : Hook}
      → (make_probe_hook attaches replaces a w).1 ≡ made h
      → h ≡ attachment w.next
  unfolding make_probe_hook attach_probe_listener hook_of
  probe_hook_made a w e = ground arith

  replacement_made :
      (a f : ℕ) (w : World) {h : Hook}
      → (make_replacement_hook attaches replaces a f w).1 ≡ made h
      → h ≡ replacement a
  unfolding make_replacement_hook replace hook_of
  replacement_made a f w e = ground arith

  attached-Inv :
      (tried : World × Attempt Hook) (o : Owned)
      → tried.0.next ≡ suc o.world.next
      → ((h : Hook) → tried.1 ≡ made h → h ≡ attachment o.world.next)
      → Inv new_refs o
      → Inv new_refs (
          keep tried
            (make_listener new_refs o.world.next o.objects)
            (destroy_listener o.world.next (make_listener new_refs o.world.next o.objects))
            o.hooks)
  unfolding keep
  attached-Inv (w, made h) o e only inv = rw (only h refl) (kept-Inv new_refs o w e inv)
  attached-Inv (w, threw why) o e only inv = dropped-Inv new_refs o w e inv

  replaced-Inv :
      (tried : World × Attempt Hook) (a : ℕ) (o : Owned)
      → tried.0.next ≡ o.world.next
      → ((h : Hook) → tried.1 ≡ made h → h ≡ replacement a)
      → Inv new_refs o
      → Inv new_refs (keep tried o.objects o.objects o.hooks)
  unfolding keep
  replaced-Inv (w, made h) a o e only inv = rw (only h refl) (record {
    later = λ l g. ground (arith, inv.later l, e);
    counted = λ l. inv.counted l;
    held = λ l g. ground (arith, inv.held l, e);
  })
  replaced-Inv (w, threw why) a o e only inv = record {
    later = λ l g. ground (arith, inv.later l, e);
    counted = λ l. inv.counted l;
    held = λ l g. ground (arith, inv.held l, e);
  }

  made-Inv :
      (spec : HookSpec) (o : Owned)
      → Inv new_refs o
      → Inv new_refs (make_owned attaches replaces new_refs spec o)
  unfolding make_owned make_hook make_call_hook make_probe_hook make_replacement_hook
  made-Inv (enter_hook a) o inv =
      attached-Inv (make_probe_hook attaches replaces a o.world) o refl
        (λ h e. probe_hook_made a o.world e) inv
  made-Inv (leave_hook a) o inv =
      attached-Inv (make_call_hook attaches replaces a o.world) o refl
        (λ h e. call_hook_made a o.world e) inv
  made-Inv (both_hook a) o inv =
      attached-Inv (make_call_hook attaches replaces a o.world) o refl
        (λ h e. call_hook_made a o.world e) inv
  made-Inv (replace_hook a f) o inv =
      replaced-Inv (make_replacement_hook attaches replaces a f o.world) a o refl
        (λ h e. replacement_made a f o.world e) inv

  destroyed-Inv :
      (h : Hook) (before after : List Hook) (o : Owned)
      → o.hooks ≡ before ++ (h ∷ after)
      → Inv new_refs o
      → Inv new_refs (destroy_owned h (before ++ after) o)
  unfolding destroy_owned destroy_listener unwrap object_unref destroy_hook
  destroyed-Inv (attachment k) before after o e inv =
      let split : (l : ℕ) → holds l o.hooks ≡ one (k == l) + holds l (before ++ after) =
        λ l. ap (holds l) e ∙ holds-middle l before (attachment k) after in
      record {
        later = λ l g. ground (arith, inv.later l);
        counted = λ l. ground (arith, inv.counted l, split l);
        held = λ l g. ground (arith, inv.held l, inv.counted l, split l);
      }
  destroyed-Inv (replacement a) before after o e inv = record {
    later = λ l g. inv.later l g;
    counted =
        λ l. sym (ap (holds l) e ∙ holds-middle l before (replacement a) after) ∙ inv.counted l;
    held = λ l g. inv.held l g;
  }

  Step-Inv : {o o' : Owned} → Step o o' → Inv new_refs o → Inv new_refs o'
  Step-Inv (makes spec o) inv = made-Inv spec o inv
  Step-Inv (destroys h before after o e) inv = destroyed-Inv h before after o e inv

  pub Reach-Inv : {start o : Owned} → Inv new_refs start → Reach start o → Inv new_refs o
  Reach-Inv inv here = inv
  Reach-Inv inv (next r s) = Step-Inv s (Reach-Inv inv r)

  -- Before the first hook.
  abbrev pub NoHooks : Owned → Type 0
  NoHooks o = (o.hooks ≡ []) × ((l : ℕ) → o.objects.alive l ≡ false) × (o.world.next ≡ 0)

  pub NoHooks-Inv : (o : Owned) → NoHooks o → Inv new_refs o
  NoHooks-Inv o (e, dead, first) = record {
    later = λ l g. dead l;
    counted = λ l. ap (holds l) e ∙ rw (dead l) refl;
    held = λ l g. absurd (omega (arith, first));
  }
