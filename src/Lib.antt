-- ===== src/Lib.antt =====
-- Gordian, a consensus engine in the Tendermint family: a verification library of its core logic.
--
-- The program. The mirror follows the network: its kernel keeps three views (the committing height,
-- the voting round, and the round after it), takes proposed headers and votes, and moves the views
-- when votes reach a threshold. View managers decide what the gossip strategy and the state machine
-- are still to be sent. The state machine follows one round at a time: it enters a round by asking
-- the mirror, takes the mirror's views, asks the consensus strategy for proposals and votes, signs
-- them, and has the driver finalize what was committed. The stores persist what was seen and
-- signed. The transaction buffer of a driver holds pending transactions against the chain state.
--
-- The files.
--   Prelude: tests on numbers, Go's strings and fixed-width integers, Go's maps as association lists.
--   Consensus (tm/tmconsensus): Types (header.go, validator.go), Math (math.go), Trust
--     (CanTrustValidators of validator.go), VoteSummary (votesummary.go), RoundView (roundview.go),
--     Feedback (feedbackmapper.go), Step (tm/tmengine/internal/tmstate/internal/tsi/step.go). Tally
--     and Summary specify the summary of votes.
--   Gcrypto (gcrypto): SimpleProof (simplecommonmessagesignatureproof.go), Verified about it.
--   Mirror (tm/tmengine/internal/tmmirror/internal/tmi): Outgoing (view.go), Gossip
--     (gossipviewmanager.go), StateMachineView (statemachineviewmanager.go), Lag (lag.go), KState
--     (kstate.go, one function per method), and Lookup, Rounds, Informed and Commit about KState.
--   Mirror/Kernel (kernel.go): World holds the state and the calls made so far, Fetch
--     checkMissingPHs, Shift the view shifts, Votes addPrevote and addPrecommit, Headers
--     addProposedHeader, PhCheck sendPHCheckResponse, Entrance handleStateMachineRoundEntrance,
--     Action handleStateMachineAction, Replay handleReplayedHeader, Trace the cases of the main
--     loop that receive votes, proposed headers, requested or fetched, and actions, each with its own
--     answers of the stores and the fetcher; its other cases only read the state, mark what was sent,
--     enter a round or replay a header, and are not in the loop. Steps, Commits, Kept, Safety, VoteSafety, HeaderSafety, Returns,
--     VoteReturns, Answers, Conflicts, ActionSafety, ReplayMerges and ReplaySafety are about these.
--   Store (tm/tmstore/tmmemstore): Actions (actionstore.go), Finalizations (finalizationstore.go),
--     Rounds (roundstore.go, with RoundVotes and Proposers about it), Validators (validatorstore.go).
--   StateMachine (tm/tmengine/internal/tmstate/statemachine.go): Lifecycle (the package's
--     internal/tsi/roundlifecycle.go and the requests of consensusmanager.go), World the state that
--     a handler works on, Rounds advanceHeight, advanceRound, advance, beginRoundLive and
--     beginCommit, Views handleViewUpdate and its cases, Actions the record functions, Events the
--     other handlers, Loop the main loop, Start sendInitialActionSet and initializeRLC. Outcomes is
--     about handlers in general. Frame, StepFrame, ViewFrame, Grows, the modules called Height and
--     Heights are about heights and finalizations, Unsigned, SignsOnce, Agreement, SignActions and
--     SignEvents about what is signed, the modules called Ready about panics, those called Stop about what
--     makes the kernel quit, Entering, Restart and
--     Proposals about single operations.
--   TxBuffer (gdriver/gtxbuf): WorkingState (workingstate.go), and Current, Sifts and Rebase about it.
--   The modules called Examples, ViewExamples, ReplayExamples and Fixtures run the definitions on
--     concrete inputs.
--
-- How the code is read.
--   A value is immutable: a Clone is the value itself, and a pointer into the kernel state is the
--   name of a view. Two maps are shared where the code leaves them shared and then changes one: the
--   previous commit's proofs of the voting view and the next round's view, one map after NewKernel
--   (a flag of KState says whether they still are), and the precommit proofs of the committing view,
--   which a backfill changes in place. A nil slice or map is the empty one, but for the maps of the
--   committing view before the first commit: writing a vote into them panics. A map is a list of entries without a repeated key, and a range loop visits it in
--   that order; theorems that depend on the order quantify over it. A uint32 or uint64 is a natural
--   number and wraps where the code adds or subtracts. A panic is `none`, or `panic` of a handler's
--   Outcome; an error that is only logged is not seen. A kernel handler is a function on World: it
--   sees of the stores, the fetcher and the response channels only which calls fail, and appends
--   its calls to the list of effects. Signature proofs are the interface
--   gcrypto.CommonMessageSignatureProof, a record that the kernel takes as a parameter. The
--   callbacks of the transaction buffer, the hash scheme of the validator store, the bit sets and
--   the verification of signatures are parameters too, and for the own actions and replayed headers
--   the making of a proof, the hash of a header and the bytes to sign. Every loop is a structural
--   recursion on what it ranges over, so there is no fuel.
--   A handler of the state machine reports true or false, panics, or hangs on a nil channel; a
--   parameter says which sends are cancelled or blocked, which saves of the height and round fail,
--   and when the strategy refuses a round. Entering a round that ended in nil leads on to the next
--   one, for as long as the mirror's answers say so: the world holds the answers still to come, and
--   the recursion is on them; with none left the state machine waits until it is cancelled. What a
--   select receives is a list of events, each handled only if its channel is set.
--
-- Not modelled: contexts other than as a failing send, logging, tracing, metrics, watchdog signals,
-- locks, the loading of the kernel's initial state, snapshots, the mirror's front in mirror.go, the
-- goroutines of the consensus manager and of the round timer, debug assertions, the BLS signature
-- proofs, network and codec packages.
pub mod Prelude
pub mod Consensus
pub mod Gcrypto
pub mod Mirror
pub mod Store
pub mod TxBuffer
pub mod StateMachine
