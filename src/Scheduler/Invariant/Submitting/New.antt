-- ===== src/Scheduler/Invariant/Submitting/New.antt =====
-- `submit` of a Notification whose key is not live.
use tmnotify.Base.{
  ℕ, suc, ◌≤◌, ◌<◌, ◌≡◌, refl, sym, ap, ◌∙◌, true, none, some, [], ◌∷◌, arith, length, count,
  ℕ_discrete, is_none, count-append, length-append,
}
use tmnotify.Base.Map.{lookup-insert}
use tmnotify.Notification.Source.{NotificationId}
use tmnotify.Notification.Draft.{NotificationDraft}
use tmnotify.Notification.Draft.Valid.{IsValid}
use tmnotify.Notification.Record.{from_draft}
use tmnotify.Scheduler.State.{LiveEntry, LiveScheduler, entry_at}
use tmnotify.Scheduler.Exec.{Returns, After-assoc, Returns-bind, ◌>>=◌}
use tmnotify.Scheduler.Queues.{sort_pending, rebalance}
use tmnotify.Scheduler.Lifecycle.{enforce_pending_limit, bump_content_revision}
use tmnotify.Scheduler.Operations.{submit_new, enter, key_target}
use tmnotify.Scheduler.Invariant.{Frame}
use tmnotify.Scheduler.Invariant.Live.{Frame-entry_back}
use tmnotify.Scheduler.Invariant.Close.{ClosedOk}
use tmnotify.Scheduler.Invariant.Prepare.{Inv}
use tmnotify.Scheduler.Invariant.Suppress.{SuppressPost, enforce_pending_limit-Within}
use tmnotify.Scheduler.Invariant.Entering.{entry_of, enter-Core, enter-Keyed}
use tmnotify.Scheduler.Invariant.Submitting.Answer.{
  Holds, from_draft-same, room, Inv-bumped, SortedPost, sort_and_rebalance, SubmitPost, answer_lem,
}

enter-Holds :
    (id : NotificationId) (d : NotificationDraft) (wall : ℕ) (s : LiveScheduler)
    → Holds d id (enter id d wall s)
unfolding enter from_draft
enter-Holds id d wall s = (
  entry_of id d wall s.next_sequence,
  ground (arith, lookup-insert ℕ_discrete id id (entry_of id d wall s.next_sequence) s.entries),
  from_draft-same id d wall,
)

enter-ClosedOk :
    {s : LiveScheduler} (id : NotificationId) (d : NotificationDraft) (wall : ℕ)
    → ClosedOk s
    → ClosedOk (enter id d wall s)
unfolding enter
enter-ClosedOk id d wall o = record { room = o.room; bounded = o.bounded; done = o.done }

-- The new entry's jump has not begun.
enter-unpinned :
    (id : NotificationId) (d : NotificationDraft) (wall : ℕ) (s w : LiveScheduler)
    → Frame (enter id d wall s) w
    → (e : LiveEntry) × (entry_at id w.entries ≡ some e) × (is_none e.jump_nonce ≡ true)
unfolding enter from_draft
enter-unpinned id d wall s w f =
    let x = entry_of id d wall s.next_sequence in
    let (e, at, same) =
      Frame-entry_back f id x (ground (arith, lookup-insert ℕ_discrete id id x s.entries)) in
    (e, at, ap (λ (y : LiveEntry). is_none y.jump_nonce) same)

enter-pending :
    (id : NotificationId) (d : NotificationDraft) (wall : ℕ) (s : LiveScheduler)
    → (length (enter id d wall s).pending ≡ suc (length s.pending))
      × (0 < count id (enter id d wall s).pending)
      × ((enter id d wall s).limits ≡ s.limits)
      × ((enter id d wall s).last_now ≡ s.last_now)
unfolding enter count
enter-pending id d wall s = (
  ground (arith, length-append s.pending (id ∷ [])),
  ground (arith, count-append id s.pending (id ∷ [])),
  refl,
  refl,
)

pub submit_new-Post :
    (id : NotificationId) (d : NotificationDraft) (now wall : ℕ) (s : LiveScheduler)
    → Inv s
    → IsValid d
    → entry_at id s.entries ≡ none
    → key_target d.key s.live_keys ≡ none
    → length s.pending ≤ s.limits.max_pending
    → now ≡ s.last_now
    → Returns (SubmitPost d) (submit_new id d now wall s)
unfolding submit_new
submit_new-Post id d now wall s v ok_draft fresh new within e =
    let u = enter id d wall s in
    let (len, here, lim, last) = enter-pending id d wall s in
    After-assoc (λ e t. ⊥) (SubmitPost d) (sort_pending u) (λ _. rebalance now wall) _
      (Returns-bind (λ e t. ⊥) (SortedPost u) (SubmitPost d)
        ((sort_pending >>= λ _. rebalance now wall) u) _
        (sort_and_rebalance now wall u (enter-Core id d wall v.sound.core ok_draft fresh)
          (enter-Keyed id d wall v.sound.keyed fresh new)
          (enter-ClosedOk id d wall v.sound.closed_ok) (e ∙ sym last))
        (λ _ w (inv, held, limits, f, shorter, inside).
          let (x, at, free) = enter-unpinned id d wall s w f in
          Returns-bind (λ e t. ⊥) (SuppressPost w) (SubmitPost d) (enforce_pending_limit wall w) _
            (enforce_pending_limit-Within wall w inv (
              room w id u.pending x inv at free here (ground (arith, len, within, limits, lim))
                shorter inside))
            (λ ids t (inv', kept, toasts, gate, fits, left).
              answer_lem d id ids w (bump_content_revision t) (held d id (enter-Holds id d wall s))
                (Inv-bumped inv') (left id).0 fits)))
