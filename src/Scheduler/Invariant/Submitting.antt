-- ===== src/Scheduler/Invariant/Submitting.antt =====
-- `submit`: what its answer says of the Notification.
pub mod Answer
pub mod New
pub mod KnownKey
use tmnotify.Base.{
  ℕ, zero, suc, ◌+◌, ◌≤◌, ◌<◌, ◌≡◌, ◌≢◌, refl, sym, subst, ap, ◌∙◌, ◌⊎◌, inl, inr, Bool, true,
  false, not, Option, none, some, List, [], ◌∷◌, ◌++◌, arith, present, length, count, without, ite,
  ℕ_discrete, is_none, option_list, Option-cases, Bool-cases, if◌then◌else◌, ◌&&◌, ◌||◌,
  count-append, length-append, count-without, length-without, count-le-length,
}
use mathlib.Core.Option
use tmnotify.Base.Map
use tmnotify.Base.Map.{lookup-insert}
use tmnotify.Notification.Source.{NotificationId, NotificationKey}
use tmnotify.Notification.Draft.{NotificationDraft}
use tmnotify.Notification.Draft.Valid.{IsValid}
use tmnotify.Notification.Record.{Notification, has_same_content, replace_content, from_draft}
use tmnotify.Notification.Record.Laws.{has_same_content_iff}
use tmnotify.Scheduler.State.{
  Outcome, ok, LiveEntry, LiveScheduler, entry_at, id_at, SubmitDisposition, queued, suppressed,
  SubmitOutcome, DisplayPlan, SchedulerError,
}
use tmnotify.Scheduler.Exec.{
  After, Returns, After-mono, After-bind, After-assoc, Returns-bind, continue, ◌>>=◌, ◌>>◌,
  put_entry, pure, modify, gets, expect_entry,
}
use tmnotify.Scheduler.Queues.{contains, rank, sort_by, sort_pending, rebalance}
use tmnotify.Scheduler.Order.{count-sort_by, length-sort_by, sort_pending-Sorts, SortPost}
use tmnotify.Scheduler.Lifecycle.{prepare_time, enforce_pending_limit, bump_content_revision}
use tmnotify.Scheduler.Operations.{
  toast_timer_should_run, is_desired_visible, is_attention_id, display_plan, submit, submit_at,
  submit_live, replace_live, submit_new, enter, requeue_if, other_presentation, key_target, same_as,
}
use tmnotify.Scheduler.Invariant.{Core, erase, Frame}
use tmnotify.Scheduler.Invariant.Promote.{Shrinks}
use tmnotify.Scheduler.Invariant.Live.{live_entry, Frame-entry_back}
use tmnotify.Scheduler.Invariant.Close.{Keyed, ClosedOk}
use tmnotify.Scheduler.Invariant.Prepare.{
  Inv, Prepared, Backwards, left_at, prepare_time-Inv, rebalance-Inv, RebalancedPost,
}
use tmnotify.Scheduler.Invariant.Suppress.{
  SuppressPost, enforce_pending_limit-Within, closable, closable-here, length-without-less,
}
use tmnotify.Scheduler.Invariant.Entering.{entry_of, Core-reordered, enter-Core, enter-Keyed}
use tmnotify.Scheduler.Invariant.Replacing.{
  replaced, requeued, replaced-Core, put_entry-Keyed, requeued-Keyed, requeued-ClosedOk,
}
use tmnotify.Scheduler.Invariant.Submitting.Answer.{
  planned, planned_lem, Holds, Told, same_content-erase, from_draft-same, replaced-same,
  Holds-Frame, length-within, room, Inv-bumped, SortedPost, sort_and_rebalance, SubmitPost,
  answer_lem,
}
use tmnotify.Scheduler.Invariant.Submitting.New.{submit_new-Post}
use tmnotify.Scheduler.Invariant.Submitting.KnownKey.{submit_live-Post}

-- On a well-formed scheduler whose pending queue is within its limit, the submission of a valid
-- draft, with an id that is not live, does not panic. It fails only if the clock went backwards,
-- and then changes nothing. Otherwise the scheduler is well formed, and the answer is true of the
-- Notification it names: a suppressed one is not live; a visible or queued one is live with the
-- draft's content, and on the display plan or not; an updated or duplicate one is live with the
-- draft's content. The queue is within its limit, unless the answer is `updated`.
pub submit-Told :
    (id : NotificationId) (d : NotificationDraft) (now wall : ℕ) (s : LiveScheduler)
    → Inv s
    → IsValid d
    → entry_at id s.entries ≡ none
    → length s.pending ≤ s.limits.max_pending
    → After (Backwards now s) (SubmitPost d) (submit id d now wall s)
unfolding submit
submit-Told id d now wall s v ok_draft fresh within =
    After-bind (Backwards now s) (Prepared now s) (SubmitPost d) (prepare_time now wall s) _
      (prepare_time-Inv now wall s v)
      (λ _ t (inv, timed, last, limits, up, seq, nonce, fewer, left).
        After-mono (submit_at (key_target d.key t.live_keys) id d now wall t)
          (go t (key_target d.key t.live_keys) refl inv (gone t left)
            (ground (arith, limits, within, fewer)) (sym last))
          (λ e u h. absurd h) (λ out u h. h))
  where
    gone :
        (t : LiveScheduler)
        → ((j : NotificationId) → Option.map erase (entry_at j t.entries) ≡ left_at now s j)
        → entry_at id t.entries ≡ none
    gone t left = ground (arith, left id)

    go :
        (t : LiveScheduler) (target : Option NotificationId)
        → key_target d.key t.live_keys ≡ target
        → Inv t
        → entry_at id t.entries ≡ none
        → length t.pending ≤ t.limits.max_pending
        → now ≡ t.last_now
        → Returns (SubmitPost d) (submit_at target id d now wall t)
    go t none h inv new fits last = submit_new-Post id d now wall t inv ok_draft new h fits last
    go t (some live) h inv new fits last =
        submit_live-Post live d now wall t inv ok_draft h fits last
