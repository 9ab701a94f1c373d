-- ===== src/StateMachine/Outcomes.antt =====
-- What a handler of the state machine (statemachine.go) achieves: predicates on its outcome, and how
-- they go through a chain of handlers.
use gordian.Prelude.{if◌then◌else◌, ◌≡◌, ◌≢◌, refl, Bool, true, false, Option, none, some}
use gordian.StateMachine.World.{World, Outcome, ok, stopped, panic, hung, ◌>>◌, ignore}

module _ {P : Type 0} where
  -- The world of an outcome, if there is one, satisfies the predicate.
  abbrev pub Holds : (World P → Type 0) → Outcome P → Type 0
  Holds Q (ok w) = Q w
  Holds Q (stopped w) = Q w
  Holds Q panic = Unit
  Holds Q hung = Unit

  -- What a chain of two handlers achieves.
  pub >>-Holds :
      (Q R : World P → Type 0) (f g : World P → Outcome P) (w : World P)
      → Holds Q (f w)
      → ((v : World P) → Q v → R v)
      → ((v : World P) → Q v → Holds R (g v))
      → Holds R ((f >> g) w)
  >>-Holds Q R f g w h weaker k = go (f w) h
    where
      go :
          (o : Outcome P)
          → Holds Q o
          → Holds R (elim o [ ok v ↦ g v | stopped v ↦ stopped v | panic ↦ panic | hung ↦ hung ])
      go (ok v) h = k v h
      go (stopped v) h = weaker v h
      go panic h = tt
      go hung h = tt

  -- A handler that depends on an optional value.
  pub elim_option-Holds :
      {A : Type 0} (Q : World P → Type 0) (o : Option A) (z : Outcome P) (f : A → Outcome P)
      → Holds Q z
      → ((a : A) → Holds Q (f a))
      → Holds Q (elim o [ none ↦ z | some a ↦ f a ])
  elim_option-Holds Q none z f h k = h
  elim_option-Holds Q (some a) z f h k = k a

  -- There is no panic and no hang, and the world satisfies the predicate.
  abbrev pub Fine : (World P → Type 0) → Outcome P → Type 0
  Fine Q (ok w) = Q w
  Fine Q (stopped w) = Q w
  Fine Q panic = ⊥
  Fine Q hung = ⊥

  pub >>-Fine :
      (Q R : World P → Type 0) (f g : World P → Outcome P) (w : World P)
      → Fine Q (f w)
      → ((v : World P) → Q v → R v)
      → ((v : World P) → Q v → Fine R (g v))
      → Fine R ((f >> g) w)
  >>-Fine Q R f g w h weaker k = go (f w) h
    where
      go :
          (o : Outcome P)
          → Fine Q o
          → Fine R (elim o [ ok v ↦ g v | stopped v ↦ stopped v | panic ↦ panic | hung ↦ hung ])
      go (ok v) h = k v h
      go (stopped v) h = weaker v h
      go panic h = h
      go hung h = h

  -- The handler reports true.
  abbrev pub Goes : (World P → Type 0) → Outcome P → Type 0
  Goes Q (ok w) = Q w
  Goes Q (stopped w) = ⊥
  Goes Q panic = ⊥
  Goes Q hung = ⊥

  pub Goes-then :
      (Q R : World P → Type 0) (f g : World P → Outcome P) (w : World P)
      → Goes Q (f w)
      → ((v : World P) → Q v → Fine R (g v))
      → Fine R ((f >> g) w)
  Goes-then Q R f g w h k = go (f w) h
    where
      go :
          (o : Outcome P)
          → Goes Q o
          → Fine R (elim o [ ok v ↦ g v | stopped v ↦ stopped v | panic ↦ panic | hung ↦ hung ])
      go (ok v) h = k v h
      go (stopped v) h = absurd h
      go panic h = h
      go hung h = h

  pub >>-Goes :
      (Q R : World P → Type 0) (f g : World P → Outcome P) (w : World P)
      → Goes Q (f w)
      → ((v : World P) → Q v → Goes R (g v))
      → Goes R ((f >> g) w)
  >>-Goes Q R f g w h k = go (f w) h
    where
      go :
          (o : Outcome P)
          → Goes Q o
          → Goes R (elim o [ ok v ↦ g v | stopped v ↦ stopped v | panic ↦ panic | hung ↦ hung ])
      go (ok v) h = k v h
      go (stopped v) h = h
      go panic h = h
      go hung h = h

  pub Goes-Fine :
      (Q R : World P → Type 0) (o : Outcome P) → ((v : World P) → Q v → R v) → Goes Q o → Fine R o
  Goes-Fine Q R (ok v) k h = k v h
  Goes-Fine Q R (stopped v) k h = absurd h
  Goes-Fine Q R panic k h = h
  Goes-Fine Q R hung k h = h

  pub ignore-Fine : (Q : World P → Type 0) (o : Outcome P) → Fine Q o → Fine Q (ignore o)
  ignore-Fine Q (ok w) h = h
  ignore-Fine Q (stopped w) h = h
  ignore-Fine Q panic h = h
  ignore-Fine Q hung h = h

  pub Fine-weaken :
      (Q R : World P → Type 0) (o : Outcome P) → ((v : World P) → Q v → R v) → Fine Q o → Fine R o
  Fine-weaken Q R (ok v) k h = k v h
  Fine-weaken Q R (stopped v) k h = k v h
  Fine-weaken Q R panic k h = h
  Fine-weaken Q R hung k h = h

  pub Fine-ne-panic : (Q : World P → Type 0) (o : Outcome P) → Fine Q o → o ≢ panic
  Fine-ne-panic Q (ok v) h e = cc
  Fine-ne-panic Q (stopped v) h e = cc
  Fine-ne-panic Q panic h e = h
  Fine-ne-panic Q hung h e = h

  pub if-Fine :
      (Q : World P → Type 0) (b : Bool) (x y : Outcome P)
      → (b ≡ true → Fine Q x)
      → (b ≡ false → Fine Q y)
      → Fine Q (if b then x else y)
  if-Fine Q true x y h k = h refl
  if-Fine Q false x y h k = k refl

  pub elim_option-Fine :
      {A : Type 0} (Q : World P → Type 0) (o : Option A) (z : Outcome P) (f : A → Outcome P)
      → (o ≡ none → Fine Q z)
      → ((a : A) → Fine Q (f a))
      → Fine Q (elim o [ none ↦ z | some a ↦ f a ])
  elim_option-Fine Q none z f h k = h refl
  elim_option-Fine Q (some a) z f h k = k a

  pub Holds-weaken :
      (Q R : World P → Type 0) (o : Outcome P) → ((v : World P) → Q v → R v) → Holds Q o → Holds R o
  Holds-weaken Q R (ok v) k h = k v h
  Holds-weaken Q R (stopped v) k h = k v h
  Holds-weaken Q R panic k h = tt
  Holds-weaken Q R hung k h = tt
