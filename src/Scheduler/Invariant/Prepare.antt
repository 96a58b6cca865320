-- ===== src/Scheduler/Invariant/Prepare.antt =====
-- `prepare_time`: what every method does first. Exactly the Toasts whose time is over close.
use tmnotify.Base.{
  ℕ, ◌≤◌, ◌<◌, ◌≡◌, refl, sym, ◌∙◌, inl, inr, Bool, true, false, Option, none, some, List, [], ◌∷◌,
  arith, length, count, ltb, is_none, Bool-cases, if◌then◌else◌, ◌&&◌,
}
use mathlib.Core.Option
use tmnotify.Notification.Source.{NotificationId, timed_out}
use tmnotify.Scheduler.State.{
  ok, SchedulerError, time_went_backwards, elapsed_since, LiveEntry, LiveScheduler, entry_at,
  TimeoutState, never, remaining,
}
use tmnotify.Scheduler.Exec.{After, Returns, After-mono}
use tmnotify.Scheduler.Lifecycle.{
  close_all, expired_ids, entry_expired, expire, rebalance_unless_idle, prepare_time, is_nil,
}
use tmnotify.Scheduler.Operations.{toast_timer_should_run}
use tmnotify.Scheduler.Queues.{contains, rebalance}
use tmnotify.Scheduler.Invariant.{Core, Frame, erase}
use tmnotify.Scheduler.Invariant.Live.{Frame-refl, EntryOk-moved}
use tmnotify.Scheduler.Invariant.Promote.{GateFilled, ToastsFilled, Shrinks}
use tmnotify.Scheduler.Invariant.Timers.{Timed, TimerMatches}
use tmnotify.Scheduler.Invariant.Rebalance.{Balanced, rebalance-Core}
use tmnotify.Scheduler.Invariant.Close.{Keyed, RunsShown, ClosedOk, TimerShown, Keyed-Frame}
use tmnotify.Scheduler.Invariant.Expire.{
  Sound, close_all-Sound, close_all-Closes, entry_at-close_all, contains-expired_ids,
}

-- The invariant of the scheduler between two methods.
pub record Inv (s : LiveScheduler) : Type 0 where
  pub sound : Sound s
  pub gate_filled : GateFilled s
  pub toasts_filled : ToastsFilled s

pub TimerMatches-shown :
    (b : Bool) (n : Option ℕ) (t : TimeoutState) → TimerMatches (b && is_none n) t → TimerShown b t
TimerMatches-shown b n never h = tt
TimerMatches-shown b n (remaining d none) h = tt
TimerMatches-shown true n (remaining d (some start)) h = refl
TimerMatches-shown false n (remaining d (some start)) h = h

pub Timed-RunsShown : (s : LiveScheduler) → Timed s → RunsShown s
Timed-RunsShown s t id e at =
    TimerMatches-shown (toast_timer_should_run id s) e.jump_nonce e.timeout (t id e at)

ClosedOk-Frame : {s t : LiveScheduler} → Frame s t → ClosedOk s → ClosedOk t
ClosedOk-Frame f c = record {
  room = ground (arith, f.closed_capacity, c.room);
  bounded = ground (arith, f.closed_capacity, f.closed, c.bounded);
  done = ground (arith, f.closed, c.done);
}

-- After a rebalance, the invariant holds.
pub Balanced-Inv :
    {s t : LiveScheduler} → Keyed s → ClosedOk s → Core t → Frame s t → Balanced t → Inv t
Balanced-Inv {s} {t} k o c f b = record {
  sound = record {
    core = c;
    keyed = Keyed-Frame f k;
    runs = Timed-RunsShown t b.timed;
    closed_ok = ClosedOk-Frame f o;
  };
  gate_filled = b.gate_filled;
  toasts_filled = b.toasts_filled;
}

abbrev pub RebalancedPost : LiveScheduler → Unit {0} → LiveScheduler → Type 0
RebalancedPost s _ t = Inv t × Timed t × Frame s t × Shrinks s t

pub rebalance-Inv :
    {s : LiveScheduler} (now wall : ℕ)
    → Core s
    → Keyed s
    → ClosedOk s
    → now ≡ s.last_now
    → Returns (RebalancedPost s) (rebalance now wall s)
rebalance-Inv {s} now wall c k o e =
    After-mono (rebalance now wall s) (rebalance-Core now wall c e) (λ e u h. h)
      (λ _ t (ct, f, sh, b, _). (Balanced-Inv k o ct f b, b.timed, f, sh))

-- With nothing queued, there is nothing to show and nothing to run.
idle-Balanced :
    {s : LiveScheduler}
    → Core s
    → s.active_toasts ≡ []
    → s.pending ≡ []
    → s.active_attention ≡ none
    → Balanced s
unfolding count
idle-Balanced {s} c a p g = record {
  gate_filled = λ up free id e k at. absurd (ground (arith, p));
  toasts_filled = λ up free. inr (λ id e k at. absurd (ground (arith, p)));
  timed = λ id e at. absurd (ground (arith, c.located id));
}

rebalance_unless_idle-Inv :
    {s : LiveScheduler} (now wall : ℕ)
    → Core s
    → Keyed s
    → ClosedOk s
    → now ≡ s.last_now
    → Returns (RebalancedPost s) (rebalance_unless_idle now wall s)
unfolding rebalance_unless_idle
rebalance_unless_idle-Inv {s} now wall c k o e =
    go s.active_toasts s.active_attention s.pending refl refl refl
  where
    go :
        (a : List NotificationId) (g : Option NotificationId) (p : List NotificationId)
        → s.active_toasts ≡ a
        → s.active_attention ≡ g
        → s.pending ≡ p
        → Returns
            (RebalancedPost s)
            (if is_nil a && is_none g && is_nil p then (ok tt, s) else rebalance now wall s)
    go [] none [] x y z =
        let b = idle-Balanced c x z y in
        (
          Balanced-Inv k o c (Frame-refl s) b,
          b.timed,
          Frame-refl s,
          (omega arith, λ id. omega arith),
        )
    go (a ∷ more) g p x y z = rebalance-Inv now wall c k o e
    go [] (some g) p x y z = rebalance-Inv now wall c k o e
    go [] none (p ∷ ps) x y z = rebalance-Inv now wall c k o e

-- The time may only go forwards.
set_now :
    {s : LiveScheduler} (now : ℕ) → s.last_now ≤ now → Sound s → Sound (record s { last_now = now })
set_now {s} now le v = record {
  core = record {
    located = λ id. v.core.located id;
    entries_ok = λ id e at. EntryOk-moved le refl refl (v.core.entries_ok id e at);
    capacity = v.core.capacity;
  };
  keyed = record {
    key_live = λ k id h. v.keyed.key_live k id h;
    live_key = λ id e k h. v.keyed.live_key id e k h;
  };
  runs = λ id e at. v.runs id e at;
  closed_ok = record {
    room = v.closed_ok.room;
    bounded = v.closed_ok.bounded;
    done = v.closed_ok.done;
  };
}

-- An entry without what showing it and its timer change, or none if its time is over.
abbrev pub left_at : ℕ → LiveScheduler → NotificationId → Option LiveEntry
left_at now s id =
    if contains id s.active_toasts && entry_expired now (entry_at id s.entries)
    then none
    else Option.map erase (entry_at id s.entries)

-- What `prepare_time` comes to.
abbrev pub Prepared : ℕ → LiveScheduler → Unit {0} → LiveScheduler → Type 0
Prepared now s _ t =
    Inv t
    × Timed t
    × (t.last_now ≡ now)
    × (t.limits ≡ s.limits)
    × (t.display_available ≡ s.display_available)
    × (t.next_sequence ≡ s.next_sequence)
    × (t.next_jump_nonce ≡ s.next_jump_nonce)
    × (length t.pending ≤ length s.pending)
    × ((id : NotificationId) → Option.map erase (entry_at id t.entries) ≡ left_at now s id)

abbrev pub Backwards : ℕ → LiveScheduler → SchedulerError → LiveScheduler → Type 0
Backwards now s e t = (e ≡ time_went_backwards) × (now < s.last_now) × (t ≡ s)

-- On a well-formed scheduler, `prepare_time` does not panic. It fails only if the clock went
-- backwards, and then changes nothing. Otherwise the scheduler is well formed at the new time, a
-- timer runs exactly for a Toast on display with no jump under way, the limits, the display, the
-- next sequence and the next nonce stay, no more is pending, and an entry is left, but for its
-- delivery, its time of update and its timer, exactly if it was not an active Toast whose time is
-- over.
pub prepare_time-Inv :
    (now wall : ℕ) (s : LiveScheduler)
    → Inv s
    → After (Backwards now s) (Prepared now s) (prepare_time now wall s)
unfolding prepare_time elapsed_since expire
prepare_time-Inv now wall s v = elim (Bool-cases (ltb now s.last_now)) [
  | inl back ↦ rw back (refl, ground arith, refl)
  | inr on ↦ rw on (
      let before = set_now now (ground arith) v.sound in
      let ids = expired_ids s.entries now s.active_toasts in
      let s1 = record s { last_now = now } in
      let u = close_all ids timed_out wall s1 in
      let after = close_all-Sound ids timed_out wall s1 before in
      let kept = close_all-Closes ids timed_out wall s1 in
      After-mono (rebalance_unless_idle now wall u)
        (rebalance_unless_idle-Inv now wall after.core after.keyed after.closed_ok
          (sym kept.last_now))
        (λ e t k. absurd k)
        (λ _ t (inv, timed, f, sh). (
          inv,
          timed,
          f.last_now ∙ kept.last_now,
          f.limits ∙ kept.limits,
          f.display_available ∙ kept.display_available,
          f.next_sequence ∙ kept.next_sequence,
          f.next_jump_nonce ∙ kept.next_jump_nonce,
          omega (arith, sh.0, kept.pending_le),
          λ id. ground (
            arith,
            f.contents id,
            entry_at-close_all id ids timed_out wall s1,
            contains-expired_ids s.entries now id s.active_toasts,
          ),
        )))
]
