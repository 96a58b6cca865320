-- ===== src/Scheduler/Invariant/Submitting/KnownKey.antt =====
-- `submit` on a key that is live.
use tmnotify.Base.{
  ℕ, ◌≤◌, ◌≡◌, refl, sym, subst, ◌∙◌, inl, inr, Bool, true, false, Option, none, some, List, arith,
  length, ℕ_discrete, Bool-cases,
}
use tmnotify.Base.Map.{lookup-insert}
use tmnotify.Notification.Source.{NotificationId, NotificationKey}
use tmnotify.Notification.Draft.{NotificationDraft}
use tmnotify.Notification.Draft.Valid.{IsValid}
use tmnotify.Notification.Record.{has_same_content, replace_content}
use tmnotify.Scheduler.State.{
  Outcome, LiveEntry, LiveScheduler, entry_at, id_at, SubmitDisposition, SubmitOutcome,
}
use tmnotify.Scheduler.Exec.{
  Returns, After-assoc, Returns-bind, continue, ◌>>=◌, put_entry, pure, modify,
}
use tmnotify.Scheduler.Queues.{sort_pending, rebalance}
use tmnotify.Scheduler.Lifecycle.{bump_content_revision}
use tmnotify.Scheduler.Operations.{
  toast_timer_should_run, submit_live, replace_live, requeue_if, other_presentation, key_target,
}
use tmnotify.Scheduler.Invariant.{Core}
use tmnotify.Scheduler.Invariant.Close.{ClosedOk}
use tmnotify.Scheduler.Invariant.Prepare.{Inv}
use tmnotify.Scheduler.Invariant.Replacing.{
  replaced, requeued, replaced-Core, put_entry-Keyed, requeued-Keyed, requeued-ClosedOk,
}
use tmnotify.Scheduler.Invariant.Submitting.Answer.{
  Holds, replaced-same, Inv-bumped, SortedPost, sort_and_rebalance, SubmitPost,
}

-- What `replace_live` does to the state before it sorts.
abbrev rewritten :
    NotificationId → NotificationDraft → ℕ → ℕ → LiveEntry → LiveScheduler → LiveScheduler
rewritten id d now wall e s =
    requeued (other_presentation d.presentation e.notification.presentation) id
      (put_entry id (replaced e d wall now (toast_timer_should_run id s)) s)

replace_live_lem :
    (id : NotificationId) (d : NotificationDraft) (now wall : ℕ) (s : LiveScheduler) (e : LiveEntry)
    → entry_at id s.entries ≡ some e
    → replace_live id d now wall s
      ≡ continue (sort_pending (rewritten id d now wall e s)) (λ _. rebalance now wall >>= λ _.
          modify bump_content_revision >>= λ _.
          pure (record { id = id; disposition = SubmitDisposition.updated }))
unfolding replace_live replace_content
replace_live_lem id d now wall s e at =
    rw at (go (other_presentation d.presentation e.notification.presentation) _ _)
  where
    go :
        (b : Bool) (x : LiveScheduler)
        (k : Unit {0} → LiveScheduler → Outcome SubmitOutcome × LiveScheduler)
        → continue (requeue_if b id x) (λ _ t. continue (sort_pending t) k)
          ≡ continue (sort_pending (requeued b id x)) k
    go true x k = refl
    go false x k = refl

requeued-Holds :
    (b : Bool) (id : NotificationId) (d : NotificationDraft) (s : LiveScheduler)
    → Holds d id s
    → Holds d id (requeued b id s)
requeued-Holds true id d s h = h
requeued-Holds false id d s h = h

requeued-last_now :
    (b : Bool) (id : NotificationId) (s : LiveScheduler) → (requeued b id s).last_now ≡ s.last_now
requeued-last_now true id s = refl
requeued-last_now false id s = refl

-- The draft has the key of the live Notification that it replaces.
replace_live-Post :
    (id : NotificationId) (d : NotificationDraft) (now wall : ℕ) (s : LiveScheduler) (e : LiveEntry)
    → Inv s
    → IsValid d
    → entry_at id s.entries ≡ some e
    → d.key ≡ e.notification.key
    → now ≡ s.last_now
    → Returns (SubmitPost d) (replace_live id d now wall s)
unfolding replace_content
replace_live-Post id d now wall s e v ok_draft at key last =
    let other = other_presentation d.presentation e.notification.presentation in
    let x = replaced e d wall now (toast_timer_should_run id s) in
    let u = rewritten id d now wall e s in
    rw (replace_live_lem id d now wall s e at) (
      After-assoc (λ e t. ⊥) (SubmitPost d) (sort_pending u) (λ _. rebalance now wall) _
        (Returns-bind (λ e t. ⊥) (SortedPost u) (SubmitPost d)
          ((sort_pending >>= λ _. rebalance now wall) u) _
          (sort_and_rebalance now wall u
            (subst (λ n. Core (rewritten id d n wall e s)) (sym last)
              (replaced-Core s id d wall e v.sound.core ok_draft at))
            (requeued-Keyed other id (put_entry-Keyed id x e v.sound.keyed at key))
            (requeued-ClosedOk other id (put_entry-ClosedOk id x v.sound.closed_ok))
            (last ∙ sym (requeued-last_now other id (put_entry id x s))))
          (λ _ w (inv, held, _, _, _, _). (
            Inv-bumped inv,
            held d id (
                requeued-Holds other id d (put_entry id x s) (
                  x,
                  ground (arith, lookup-insert ℕ_discrete id id x s.entries),
                  replaced-same e.notification d wall,
                )),
            inr refl,
          ))))
  where
    put_entry-ClosedOk :
        {s : LiveScheduler} (id : NotificationId) (x : LiveEntry)
        → ClosedOk s
        → ClosedOk (put_entry id x s)
    put_entry-ClosedOk id x o = record { room = o.room; bounded = o.bounded; done = o.done }

pub submit_live-Post :
    (id : NotificationId) (d : NotificationDraft) (now wall : ℕ) (s : LiveScheduler)
    → Inv s
    → IsValid d
    → key_target d.key s.live_keys ≡ some id
    → length s.pending ≤ s.limits.max_pending
    → now ≡ s.last_now
    → Returns (SubmitPost d) (submit_live id d now wall s)
unfolding submit_live
submit_live-Post id d now wall s v ok_draft target within last =
    let (k, is_key, found) = target_key d.key s.live_keys target in
    let (e, at, has) = v.sound.keyed.key_live k id found in
    elim (Bool-cases (has_same_content e.notification d)) [
      | inl same ↦ rw (at, same) (v, (e, at, same), inl within)
      | inr other ↦
          rw (at, other) (replace_live-Post id d now wall s e v ok_draft at (is_key ∙ sym has) last)
    ]
  where
    target_key :
        (key : Option NotificationKey) (m : List (NotificationKey × NotificationId))
        → key_target key m ≡ some id
        → (k : NotificationKey) × (key ≡ some k) × (id_at k m ≡ some id)
    target_key none m h = absurd (ground arith)
    target_key (some k) m h = (k, refl, h)
