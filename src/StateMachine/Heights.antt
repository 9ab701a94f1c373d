-- ===== src/StateMachine/Heights.antt =====
-- No height is left before its finalization is stored (statemachine.go).
use gordian.Prelude.{
  ℕ, suc, ◌+◌, ◌^◌, ◌≤◌, ◌<◌, ◌≡◌, subst, true, List, [], ◌∷◌, length, nat_eq, arith,
}
use gordian.StateMachine.World.{Config, Env, World, Outcome, ok, stopped, panic, hung}
use gordian.StateMachine.Loop.{Event, live_event, live_loop}
use gordian.StateMachine.Grows.{finalized, IsRecorded, Grows, After}
use gordian.StateMachine.HeightEvents.{live_event-Grows}

module _ {P : Type 0} (cfg : Config) (env : Env P) where
  -- What a run of at most `n` events achieves: the height grows, and all heights on the way are
  -- finalized in the store.
  abbrev pub Finalizes : ℕ → World P → World P → Type 0
  Finalizes n w w' =
      IsRecorded w'
      × (w.rlc.h ≤ w'.rlc.h)
      × (w'.rlc.h ≤ w.rlc.h + n)
      × ((k : ℕ) → finalized k w ≡ true → finalized k w' ≡ true)
      × ((k : ℕ) → w.rlc.h ≤ k → k < w'.rlc.h → finalized k w' ≡ true)

  step-Finalizes :
      (n : ℕ) (w v u : World P)
      → w.rlc.h + suc n < 2 ^ 64
      → Grows w v
      → Finalizes n v u
      → Finalizes (suc n) w u
  step-Finalizes n w v u b g f = (
    f.0,
    ground (arith, g.moved, f),
    ground (arith, g.moved, f),
    λ k h. f.3 k (g.kept k h),
    λ k lo hi. ground (arith, b, g.moved, lo, hi, f.4 k, f.3 k),
  )

  step_events :
      (e : Event P) (es : List (Event P)) (w u : World P)
      → IsRecorded w
      → live_loop cfg env (e ∷ es) w ≡ ok u
      → (v : World P) × Grows w v × (live_loop cfg env es v ≡ ok u)
  unfolding live_loop
  step_events e es w u y q = go (live_event cfg env e w) (live_event-Grows cfg env e w y) q
    where
      go :
          (o : Outcome P)
          → After (Grows w) o
          → elim o [
            | ok v ↦ live_loop cfg env es v
            | stopped v ↦ stopped v
            | panic ↦ panic
            | hung ↦ hung
          ]
            ≡ ok u
          → (v : World P) × Grows w v × (live_loop cfg env es v ≡ ok u)
      go (ok v) g q = (v, g, q)
      go (stopped v) g q = absurd (ground (arith, q))
      go panic g q = absurd (ground (arith, q))
      go hung g q = absurd (ground (arith, q))

  -- From a world whose finalization, if the lifecycle holds one, is stored, and with heights that
  -- cannot pass the last uint64 in that many events, a run of live events that goes on to the end
  -- never lowers the height, raises it by at most one per event, keeps every stored finalization,
  -- and leaves no height behind that has no finalization in the store.
  pub live_loop-Finalizes :
      (es : List (Event P)) (w u : World P)
      → IsRecorded w
      → w.rlc.h + length es < 2 ^ 64
      → live_loop cfg env es w ≡ ok u
      → Finalizes (length es) w u
  unfolding live_loop
  live_loop-Finalizes [] w u y b q =
      subst (Finalizes 0 w) {x = w} {y = u} (ground (arith, q))
        (y, omega arith, omega arith, λ k h. h, λ k lo hi. absurd (omega arith))
  live_loop-Finalizes (e ∷ es) w u y b q =
      let (v, g, r) = step_events e es w u y q in
      step-Finalizes (length es) w v u b g
        (live_loop-Finalizes es v u g.recorded (ground (arith, g.moved, b)) r)
