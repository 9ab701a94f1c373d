-- ===== src/Mirror/Gossip.antt =====
-- tm/tmengine/internal/tmmirror/internal/tmi/gossipviewmanager.go and
-- tm/tmengine/tmelink/networkviewupdate.go. `out` says whether the gossip channel is set; an
-- output is ready when its channel is not nil.
use gordian.Prelude.{◌≡◌, Bool, true, false, ◌||◌, not, if◌then◌else◌, Option, none, some, arith}
use gordian.Consensus.RoundView.{VersionedRoundView}
use gordian.Mirror.Outgoing.{OutgoingView, has_been_sent, has_been_sent-mark_sent}
use gordian.Mirror.Outgoing

pub record NetworkViewUpdate (P : Type 0) : Type 0 where
  pub committing : Option (VersionedRoundView P)
  pub voting : Option (VersionedRoundView P)
  pub next_round : Option (VersionedRoundView P)
  pub nil_voted_round : Option (VersionedRoundView P)

pub record GossipViewManager (P : Type 0) : Type 0 where
  pub out : Bool
  pub nil_voted_round : Option (VersionedRoundView P)
  pub committing : OutgoingView P
  pub voting : OutgoingView P
  pub next_round : OutgoingView P

pub record GossipStrategyOutput (P : Type 0) : Type 0 where
  pub ch : Bool
  pub val : NetworkViewUpdate P

module _ {P : Type 0} where
  abbrev pub is_some : Option (VersionedRoundView P) → Bool
  is_some none = false
  is_some (some v) = true

  -- The view if it is due, else nil.
  abbrev pub due : OutgoingView P → Option (VersionedRoundView P)
  due v = if has_been_sent v then none else some v.vrv

  unfoldable pub output : GossipViewManager P → GossipStrategyOutput P
  output m = record {
    ch =
        if not (has_been_sent m.committing)
          || (not (has_been_sent m.voting)
              || (not (has_been_sent m.next_round) || is_some m.nil_voted_round))
        then m.out
        else false;
    val = record {
      committing = due m.committing;
      voting = due m.voting;
      next_round = due m.next_round;
      nil_voted_round = m.nil_voted_round;
    };
  }

  -- `gossipStrategyOutput.MarkSent`: the output holds a pointer to its manager.
  unfoldable pub mark_sent : GossipStrategyOutput P → GossipViewManager P → GossipViewManager P
  mark_sent o m = record m {
    committing = if is_some o.val.committing then Outgoing.mark_sent m.committing else m.committing;
    voting = if is_some o.val.voting then Outgoing.mark_sent m.voting else m.voting;
    next_round = if is_some o.val.next_round then Outgoing.mark_sent m.next_round else m.next_round;
    nil_voted_round = none;
  }

  sent_after :
      (v : OutgoingView P)
      → has_been_sent (if is_some (due v) then Outgoing.mark_sent v else v) ≡ true
  sent_after v = ground (arith, has_been_sent-mark_sent v)

  -- After a send nothing is left to send: the next output is not ready and holds no view.
  pub mark_sent_empties_output :
      (m : GossipViewManager P)
      → let o = output (mark_sent (output m) m) in
        (o.ch ≡ false)
        × (o.val.committing ≡ none)
        × (o.val.voting ≡ none)
        × (o.val.next_round ≡ none)
        × (o.val.nil_voted_round ≡ none)
  unfolding output mark_sent
  mark_sent_empties_output m =
      ground (arith, sent_after m.committing, sent_after m.voting, sent_after m.next_round)
