-- ===== src/Mirror/Outgoing.antt =====
-- tm/tmengine/internal/tmmirror/internal/tmi/view.go: a view and what was last sent of it.
use gordian.Prelude.{ℕ, ◌+◌, ◌<◌, ◌^◌, ◌≡◌, Bool, true, false, ◌==◌, ◌&&◌, u32, arith}
use gordian.Consensus.RoundView.{VersionedRoundView}

pub data ViewId : Type 0 where
  not_found voting committing next_round next_height : ViewId

pub record OutgoingView (P : Type 0) : Type 0 where
  pub sent_h : ℕ
  pub sent_r : ℕ
  pub sent_v : ℕ
  pub vrv : VersionedRoundView P

pub record View (P : Type 0) : Type 0 where
  pub vrv : VersionedRoundView P
  pub outgoing : OutgoingView P

module _ {P : Type 0} where
  unfoldable pub has_been_sent : OutgoingView P → Bool
  has_been_sent v =
      v.sent_h == v.vrv.height && (v.sent_r == v.vrv.round && v.sent_v == v.vrv.version)

  unfoldable pub mark_sent : OutgoingView P → OutgoingView P
  mark_sent v = record v { sent_h = v.vrv.height; sent_r = v.vrv.round; sent_v = v.vrv.version }

  -- Both branches of `UpdateOutgoing` assign a clone of the view.
  unfoldable pub update_outgoing : View P → View P
  update_outgoing v =
      let vrv = record (v.vrv) { version = u32 (v.vrv.version + 1) } in
      record { vrv = vrv; outgoing = record (v.outgoing) { vrv = vrv } }

  -- A view that is marked sent has been sent.
  pub has_been_sent-mark_sent : (v : OutgoingView P) → has_been_sent (mark_sent v) ≡ true
  unfolding has_been_sent mark_sent
  has_been_sent-mark_sent v = ground arith

  -- A view that was sent is due again after any update to its version.
  pub update_outgoing_due :
      (v : View P)
      → v.outgoing.sent_v ≡ v.vrv.version
      → v.vrv.version < 2 ^ 32
      → has_been_sent (update_outgoing v).outgoing ≡ false
  unfolding has_been_sent update_outgoing
  update_outgoing_due v e b = ground arith
