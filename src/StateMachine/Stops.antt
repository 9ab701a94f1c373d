-- ===== src/StateMachine/Stops.antt =====
-- When a handler of the state machine (statemachine.go) reports false, on which the kernel quits: how
-- the causes go through a chain of handlers.
use gordian.Prelude.{◌≡◌, refl, arith, Bool, true, false, Option, none, some, if◌then◌else◌}
use gordian.Consensus.Step.{Step}
use gordian.StateMachine.World.{
  Env, World, Outcome, Call, ok, stopped, panic, hung, ◌>>◌, ignore, timed_send,
}
use gordian.StateMachine.Rounds.{cancel_timer}
use gordian.StateMachine.Views.{cancel_timer_at}

module _ {P : Type 0} where
  -- If the handler reports false, then for the cause `C`.
  pub record Stops (C : Type 0) (o : Outcome P) : Type 0 where
    pub cause : (u : World P) → o ≡ stopped u → C

  pub ok-Stops : (C : Type 0) (w : World P) → Stops C (ok w)
  ok-Stops C w = record { cause = λ u e. absurd (ground (arith, e)) }

  pub panic-Stops : (C : Type 0) → Stops C panic
  panic-Stops C = record { cause = λ u e. absurd (ground (arith, e)) }

  pub hung-Stops : (C : Type 0) → Stops C hung
  hung-Stops C = record { cause = λ u e. absurd (ground (arith, e)) }

  pub stopped-Stops : (C : Type 0) (w : World P) → C → Stops C (stopped w)
  stopped-Stops C w c = record { cause = λ u e. c }

  pub >>-Stops :
      (C : Type 0) (f g : World P → Outcome P) (w : World P)
      → Stops C (f w)
      → ((v : World P) → f w ≡ ok v → Stops C (g v))
      → Stops C ((f >> g) w)
  >>-Stops C f g w h k = go (f w) refl
    where
      go :
          (o : Outcome P)
          → f w ≡ o
          → Stops C (elim o [ ok v ↦ g v | stopped v ↦ stopped v | panic ↦ panic | hung ↦ hung ])
      go (ok v) e = k v e
      go (stopped v) e = stopped-Stops C v (h.cause v e)
      go panic e = panic-Stops C
      go hung e = hung-Stops C

  pub ignore-Stops : (C : Type 0) (o : Outcome P) → Stops C (ignore o)
  ignore-Stops C (ok w) = ok-Stops C w
  ignore-Stops C (stopped w) = ok-Stops C w
  ignore-Stops C panic = panic-Stops C
  ignore-Stops C hung = hung-Stops C

  pub Stops-weaken : (C D : Type 0) (o : Outcome P) → (C → D) → Stops C o → Stops D o
  Stops-weaken C D o k h = record { cause = λ u e. k (h.cause u e) }

  pub if-Stops :
      (C : Type 0) (b : Bool) (x y : Outcome P)
      → (b ≡ true → Stops C x)
      → (b ≡ false → Stops C y)
      → Stops C (if b then x else y)
  if-Stops C true x y h k = h refl
  if-Stops C false x y h k = k refl

  pub elim_option-Stops :
      {A : Type 0} (C : Type 0) (o : Option A) (z : Outcome P) (f : A → Outcome P)
      → (o ≡ none → Stops C z)
      → ((a : A) → o ≡ some a → Stops C (f a))
      → Stops C (elim o [ none ↦ z | some a ↦ f a ])
  elim_option-Stops C none z f h k = h refl
  elim_option-Stops C (some a) z f h k = k a refl

  pub cancel_timer-Stops : (C : Type 0) (w : World P) → Stops C (cancel_timer w)
  unfolding cancel_timer
  cancel_timer-Stops C w =
      elim_option-Stops C w.rlc.step_timer panic _ (λ q. panic-Stops C) (λ t q. ok-Stops C _)

  pub cancel_timer_at-Stops : (C : Type 0) (s : Step) (w : World P) → Stops C (cancel_timer_at s w)
  unfolding cancel_timer_at
  cancel_timer_at-Stops C s w =
      if-Stops C _ (cancel_timer w) (ok w) (λ q. cancel_timer-Stops C w) (λ q. ok-Stops C w)

  pub timed_send-Stops :
      (C : Type 0) (env : Env P) (c : Call P) (w : World P) → Stops C (timed_send env c w)
  unfolding timed_send
  timed_send-Stops C env c w =
      if-Stops C (env.blocked w.calls c) panic _ (λ q. panic-Stops C) (λ q. ok-Stops C _)
