-- ===== src/Scheduler/Invariant/Closing.antt =====
-- The methods that close one entry, and those that change what can be shown: `close`, `dismiss`,
-- `render_failed_at`, `commit_jump`, `advance`, `shutdown`, `set_display_available`.
use tmnotify.Base.{
  ℕ, ◌≡◌, refl, sym, subst, ap, ◌∙◌, ◌⊎◌, inl, inr, true, false, none, some, List, [], ◌∷◌, ◌++◌,
  arith, ite, drop, length, ◌≢◌, ◌==◌, ℕ_discrete, Option-cases, Bool-cases, if◌then◌else◌,
}
use mathlib.Core.Option
use tmnotify.Notification.Source.{
  NotificationId, NotificationKey, DeliveryState, CloseReason, jumped, timed_out, dismissed,
  render_suppressed, render_failed, daemon_interrupted, daemon_stopped, server_ended,
}
use tmnotify.Notification.Record.{Notification, close, jumped_at}
use tmnotify.Scheduler.State.{
  ok, LiveEntry, SchedulerError, notification_not_live, LiveScheduler, entry_at, JumpIntent, id_at,
}
use tmnotify.Scheduler.Exec.{
  M, After, After-mono, After-bind, After-exact, ◌>>=◌, ◌>>◌, throw, modify,
}
use tmnotify.Scheduler.Queues.{rebalance}
use tmnotify.Scheduler.Lifecycle.{
  close_inner, close_entry, close_live, push_closed, prepare_time, not_live,
}
use tmnotify.Scheduler.Operations.{
  dismiss, dismiss_by_key, render_failed_at, commit_jump, holds_intent, advance,
}
use tmnotify.Scheduler.Invariant.{erase}
use tmnotify.Scheduler.Invariant.Expire.{
  close_inner-Sound, close_inner-Closes, entry_at-close_inner,
}
use tmnotify.Scheduler.Invariant.Timers.{Timed}
use tmnotify.Scheduler.Invariant.Prepare.{
  Inv, Prepared, Backwards, left_at, prepare_time-Inv, rebalance-Inv,
}

-- A method that keeps the invariant, whether it returns a value or an error, and does not panic.
abbrev pub Keeps {ℓ} : {A : Type ℓ} → M A → Type 0
Keeps m = (s : LiveScheduler) → Inv s → After (λ e t. Inv t) (λ _ t. Inv t) (m s)

-- What follows `prepare_time` starts on a scheduler that is well formed at this time.
pub prepared-Keeps {ℓ} :
    {A : Type ℓ} (now wall : ℕ) (k : M A)
    → ((t : LiveScheduler) → Inv t → t.last_now ≡ now → After (λ e t. Inv t) (λ _ t. Inv t) (k t))
    → Keeps (prepare_time now wall >>= λ _. k)
prepared-Keeps now wall k h s v =
    After-bind (λ e t. Inv t) (Prepared now s) (λ _ t. Inv t) (prepare_time now wall s) (λ _. k)
      (After-mono (prepare_time now wall s) (prepare_time-Inv now wall s v)
        (λ e t (_, _, same). subst Inv (sym same) v) (λ _ t p. p))
      (λ _ t p. h t p.0 p.2)

-- A record of a Notification that closed: it has the reason and the time, a jump is noted, and
-- nothing else changed.
pub record IsRecord (n : Notification) (reason : CloseReason) (wall : ℕ) (old : Notification)
    : Type 0 where
  pub noted : n ≡ record old {
    delivery = DeliveryState.closed;
    close_reason = some reason;
    updated_at = wall;
    last_jumped_at = n.last_jumped_at;
  }
  pub jump : reason ≡ jumped → n.last_jumped_at ≡ some wall
  pub no_jump : reason ≢ jumped → n.last_jumped_at ≡ old.last_jumped_at

close-IsRecord :
    (n : Notification) (reason : CloseReason) (wall : ℕ)
    → IsRecord (close n reason wall) reason wall n
unfolding close
close-IsRecord n reason wall = record {
  noted = refl;
  jump = λ e. ap (λ r. jumped_at r wall n.last_jumped_at) e;
  no_jump = λ other. stays reason other;
}
  where
    stays :
        (reason : CloseReason)
        → reason ≢ jumped
        → jumped_at reason wall n.last_jumped_at ≡ n.last_jumped_at
    stays jumped other = absurd (other refl)
    stays timed_out other = refl
    stays dismissed other = refl
    stays render_suppressed other = refl
    stays render_failed other = refl
    stays daemon_interrupted other = refl
    stays daemon_stopped other = refl
    stays server_ended other = refl

-- A record of the entry that closed, for the reason and at the time given, ends the queue. The
-- records before it are those of the old queue, but for its oldest one if it was full.
abbrev pub EndsWith : LiveEntry → CloseReason → ℕ → LiveScheduler → List Notification → Type 0
EndsWith e reason wall s ns =
    (n : Notification) × (older : List Notification) × (ns ≡ older ++ n ∷ [])
    × (((older ≡ s.closed) × (length s.closed ≢ s.closed_capacity))
        ⊎ ((older ≡ drop 1 s.closed) × (length s.closed ≡ s.closed_capacity)))
    × IsRecord n reason wall e.notification

push_closed-EndsWith :
    (s : LiveScheduler) (e : LiveEntry) (reason : CloseReason) (wall : ℕ)
    → EndsWith e reason wall s
        (push_closed s.closed_capacity s.closed (close e.notification reason wall))
unfolding push_closed
push_closed-EndsWith s e reason wall = elim (Bool-cases (length s.closed == s.closed_capacity)) [
  | inl full ↦ rw full (
    close e.notification reason wall,
    drop 1 s.closed,
    refl,
    inr (refl, ground (arith, full)),
    close-IsRecord e.notification reason wall,
  )
  | inr room ↦ rw room (
    close e.notification reason wall,
    s.closed,
    refl,
    inl (refl, λ e. ground (arith, room)),
    close-IsRecord e.notification reason wall,
  )
]

close_inner-EndsWith :
    (s : LiveScheduler) (id : NotificationId) (reason : CloseReason) (wall : ℕ)
    → not_live (entry_at id s.entries) ≡ false
    → (e : LiveEntry) × (entry_at id s.entries ≡ some e)
      × EndsWith e reason wall s (close_inner id reason wall s).closed
unfolding close_inner close_entry
close_inner-EndsWith s id reason wall live = elim (Option-cases (entry_at id s.entries)) [
  | inl e ↦ absurd (ground (arith, e))
  | inr (x, e) ↦ (x, e, rw (close_inner, e) (push_closed-EndsWith s x reason wall))
]

-- What closing one entry comes to: it is gone, the others stay but for those whose time is over.
abbrev pub ClosePost :
    NotificationId → CloseReason → ℕ → ℕ → LiveScheduler → Unit {0} → LiveScheduler → Type 0
ClosePost id reason now wall s _ t =
    Inv t
    × Timed t
    × ((r : LiveScheduler) × (e : LiveEntry) × (prepare_time now wall s ≡ (ok tt, r))
        × (entry_at id r.entries ≡ some e)
        × EndsWith e reason wall r t.closed)
    × ((j : NotificationId)
        → Option.map erase (entry_at j t.entries) ≡ ite (ℕ_discrete id j) none (left_at now s j))

-- The two ways it fails: the clock went backwards, or there is no such entry (any longer).
abbrev pub CloseFails : NotificationId → ℕ → LiveScheduler → SchedulerError → LiveScheduler → Type 0
CloseFails id now s e t =
    Backwards now s e t ⊎ ((e ≡ notification_not_live) × (left_at now s id ≡ none) × Inv t)

closed_is_none :
    (now : ℕ) (s t : LiveScheduler) (id : NotificationId)
    → ((j : NotificationId) → Option.map erase (entry_at j t.entries) ≡ left_at now s j)
    → not_live (entry_at id t.entries) ≡ true
    → Inv t
    → left_at now s id ≡ none
closed_is_none now s t id left dead v = elim (Option-cases (entry_at id t.entries)) [
  | inl e ↦ sym (left id) ∙ ap (Option.map erase) e
  | inr (x, e) ↦ absurd (ground (arith, e, (v.sound.core.entries_ok id x e).live))
]

close_rest :
    (id : NotificationId) (reason : CloseReason) (now wall : ℕ) (s t : LiveScheduler)
    → Prepared now s tt t
    → prepare_time now wall s ≡ (ok tt, t)
    → After (CloseFails id now s) (ClosePost id reason now wall s) (
        (if not_live (entry_at id t.entries)
            then throw notification_not_live
            else (do modify (close_inner id reason wall); rebalance now wall))
          t)
close_rest id reason now wall s t (inv, timed, at, _, _, _, _, _, left) exact =
    elim (Bool-cases (not_live (entry_at id t.entries))) [
      | inl dead ↦ rw dead (inr (refl, closed_is_none now s t id left dead inv, inv))
      | inr live ↦ rw live (
          let u = close_inner id reason wall t in
          let v = close_inner-Sound t id reason wall inv.sound in
          After-mono (rebalance now wall u)
            (rebalance-Inv now wall v.core v.keyed v.closed_ok
              (sym at ∙ sym (close_inner-Closes t id reason wall).last_now))
            (λ e w k. absurd k)
            (λ _ w (inv', timed', f, sh). (
              inv',
              timed',
              let (e, here, ends) = close_inner-EndsWith t id reason wall live in
                  (t, e, exact, here, subst (EndsWith e reason wall t) (sym f.closed) ends),
              λ j. ground (arith, f.contents j, entry_at-close_inner j id reason wall t, left j),
            )))
    ]

-- On a well-formed scheduler, `close` does not panic. It fails if the clock went backwards, with
-- no change, or if the id is not live at the new time. Otherwise the scheduler is well formed,
-- the timers run exactly where they should, the queue of closed records is the one that
-- `prepare_time` left, without its oldest record if it was full, and then the Notification as
-- `prepare_time` left it, closed with its reason and the time of the wall clock, which is that of
-- its last jump too if the reason is a jump; its entry is gone, and the other entries are left,
-- but for their deliveries, times of update and timers, unless their time is over.
pub close_live-Closes :
    (id : NotificationId) (reason : CloseReason) (now wall : ℕ) (s : LiveScheduler)
    → Inv s
    → After (CloseFails id now s) (ClosePost id reason now wall s) (close_live id reason now wall s)
unfolding close_live
close_live-Closes id reason now wall s v =
    After-bind (CloseFails id now s)
      (λ _ t. Prepared now s tt t × (prepare_time now wall s ≡ (ok tt, t)))
      (ClosePost id reason now wall s) (prepare_time now wall s) _
      (After-mono (prepare_time now wall s)
        (After-exact (Backwards now s) (Prepared now s) (prepare_time now wall s)
          (prepare_time-Inv now wall s v))
        (λ e t b. inl b) (λ _ t p. p))
      (λ _ t (p, exact). close_rest id reason now wall s t p exact)

-- Two errors of a method keep the invariant: one leaves the state, the other has prepared it.
pub close_live-Keeps :
    (id : NotificationId) (reason : CloseReason) (now wall : ℕ)
    → Keeps (close_live id reason now wall)
close_live-Keeps id reason now wall s v =
    After-mono (close_live id reason now wall s) (close_live-Closes id reason now wall s v) fails
      (λ _ t p. p.0)
  where
    fails : (e : SchedulerError) (t : LiveScheduler) → CloseFails id now s e t → Inv t
    fails e t (inl (_, _, same)) = subst Inv (sym same) v
    fails e t (inr (_, _, inv)) = inv

pub dismiss-Keeps : (id : NotificationId) (now wall : ℕ) → Keeps (dismiss id now wall)
unfolding dismiss
dismiss-Keeps id now wall = close_live-Keeps id _ now wall

pub render_failed_at-Keeps :
    (id : NotificationId) (now wall : ℕ) → Keeps (render_failed_at id now wall)
unfolding render_failed_at
render_failed_at-Keeps id now wall = close_live-Keeps id _ now wall

pub commit_jump-Keeps : (intent : JumpIntent) (now wall : ℕ) → Keeps (commit_jump intent now wall)
unfolding commit_jump
commit_jump-Keeps intent now wall s v =
    elim (Bool-cases (holds_intent intent (entry_at intent.notification_id s.entries))) [
      | inl valid ↦ rw valid (close_live-Keeps intent.notification_id _ now wall s v)
      | inr stale ↦ rw stale v
    ]

pub dismiss_by_key-Keeps :
    (key : NotificationKey) (now wall : ℕ) → Keeps (dismiss_by_key key now wall)
unfolding dismiss_by_key
dismiss_by_key-Keeps key now wall s v = elim (Option-cases (id_at key s.live_keys)) [
  | inl e ↦ rw e v
  | inr (id, e) ↦ rw e (
      After-bind (λ e t. Inv t) (λ _ t. Inv t) (λ _ t. Inv t) (close_live id _ now wall s) _
        (close_live-Keeps id _ now wall s v) (λ _ t i. i))
]

pub advance-Keeps : (now wall : ℕ) → Keeps (advance now wall)
unfolding advance
advance-Keeps now wall s v =
    After-mono (prepare_time now wall s) (prepare_time-Inv now wall s v)
      (λ e t (_, _, same). subst Inv (sym same) v) (λ _ t p. p.0)
