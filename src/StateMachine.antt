-- ===== src/StateMachine.antt =====
-- tm/tmengine/internal/tmstate: the state machine, which follows one round at a time, asks the
-- consensus strategy and the driver, and signs for the own validator.
pub mod Lifecycle
pub mod World
pub mod Rounds
pub mod Views
pub mod Actions
pub mod Events
pub mod Loop
pub mod Start
pub mod Outcomes
pub mod Frame
pub mod StepFrame
pub mod ViewFrame
pub mod Grows
pub mod HeightActions
pub mod HeightTimers
pub mod HeightEvents
pub mod Heights
pub mod Unsigned
pub mod SignsOnce
pub mod Agreement
pub mod SignActions
pub mod SignEvents
pub mod Entering
pub mod Restart
pub mod Proposals
pub mod Ready
pub mod ReadyRounds
pub mod ReadyViews
pub mod ReadySteps
pub mod ReadyUpdates
pub mod ReadySigning
pub mod ReadyTimers
pub mod Stops
pub mod StopViews
pub mod StopEvents
pub mod StopSigning
pub mod StopFinalization
pub mod StopCauses
pub mod ReadyEvents
mod Fixtures
mod Examples
