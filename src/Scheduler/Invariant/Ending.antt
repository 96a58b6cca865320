-- ===== src/Scheduler/Invariant/Ending.antt =====
-- `shutdown`, and the display coming up or going away.
use tmnotify.Base.{
  ℕ, ◌+◌, ◌≤◌, ◌<◌, ◌≡◌, refl, sym, subst, ap, ◌∙◌, ◌⊎◌, inl, inr, Bool, true, false, not, Option,
  none, some, List, [], ◌∷◌, arith, present, length, count, option_list, Option-cases, Bool-cases,
  if◌then◌else◌, ◌&&◌,
}
use mathlib.Core.Option
use tmnotify.Notification.Source.{NotificationId, NotificationKey}
use tmnotify.Scheduler.State.{
  SchedulerLimits, scheduler_new, capacity_for, LiveScheduler, entry_at, id_at, ShutdownReason,
  close_reason,
}
use tmnotify.Scheduler.Exec.{After, After-mono, After-bind}
use tmnotify.Scheduler.Queues.{contains, rebalance}
use tmnotify.Scheduler.Lifecycle.{prepare_time, close_all}
use tmnotify.Scheduler.Operations.{shutdown, set_display_available, set_available}
use tmnotify.Scheduler.Invariant.{Core, erase}
use tmnotify.Scheduler.Invariant.Close.{Keyed, ClosedOk}
use tmnotify.Scheduler.Invariant.Expire.{Sound, close_all-Sound, entry_at-close_all}
use tmnotify.Scheduler.Invariant.Timers.{Timed}
use tmnotify.Scheduler.Invariant.Prepare.{
  Inv, Prepared, Backwards, left_at, prepare_time-Inv, rebalance-Inv,
}

-- Nothing is live: no entry, no key, nothing queued and nothing shown.
abbrev pub Ended : LiveScheduler → Type 0
Ended t =
    Inv t
    × ((id : NotificationId) → entry_at id t.entries ≡ none)
    × ((k : NotificationKey) → id_at k t.live_keys ≡ none)
    × (t.pending ≡ [])
    × (t.active_toasts ≡ [])
    × (t.active_attention ≡ none)

empty_list : (xs : List ℕ) → ((a : ℕ) → count a xs ≡ 0) → xs ≡ []
unfolding count
empty_list [] h = refl
empty_list (x ∷ xs) h = absurd (ground (arith, h x))

empty_option : (o : Option ℕ) → ((a : ℕ) → count a (option_list o) ≡ 0) → o ≡ none
unfolding count
empty_option none h = refl
empty_option (some x) h = absurd (ground (arith, h x))

Sound-Ended :
    (t : LiveScheduler) → Sound t → ((id : NotificationId) → entry_at id t.entries ≡ none) → Ended t
Sound-Ended t v h = (
  record {
    sound = v;
    gate_filled = λ up free id e c at. absurd (ground (arith, h id));
    toasts_filled = λ up free. inr (λ id e c at. absurd (ground (arith, h id)));
  },
  h,
  (λ k. no_key k (Option-cases (id_at k t.live_keys))),
  empty_list t.pending (λ a. ground (arith, v.core.located a, h a)),
  empty_list t.active_toasts (λ a. ground (arith, v.core.located a, h a)),
  empty_option t.active_attention (λ a. ground (arith, v.core.located a, h a)),
)
  where
    no_key :
        (k : NotificationKey)
        → ((id_at k t.live_keys ≡ none) ⊎ ((id : NotificationId) × (id_at k t.live_keys ≡ some id)))
        → id_at k t.live_keys ≡ none
    no_key k (inl e) = e
    no_key k (inr (id, e)) =
        let (x, at, has) = v.keyed.key_live k id e in absurd (ground (arith, h id))

-- On a well-formed scheduler, a `shutdown` over a list with all live ids fails only if the clock
-- went backwards, with no change. Otherwise the scheduler is well formed, and no entry, no key,
-- no pending id, no active Toast and no active Attention is left.
pub shutdown-Ended :
    (order : List NotificationId) (reason : ShutdownReason) (now wall : ℕ) (s : LiveScheduler)
    → Inv s
    → ((id : NotificationId) → 0 < present (entry_at id s.entries) → contains id order ≡ true)
    → After (Backwards now s) (λ _ t. Ended t) (shutdown order reason now wall s)
unfolding shutdown
shutdown-Ended order reason now wall s v all =
    After-bind (Backwards now s) (Prepared now s) (λ _ t. Ended t) (prepare_time now wall s) _
      (prepare_time-Inv now wall s v)
      (λ _ t (inv, _, _, _, _, _, _, _, left).
        Sound-Ended (close_all order (close_reason reason) wall t)
          (close_all-Sound order (close_reason reason) wall t inv.sound)
          (λ id. none_left id t (left id)))
  where
    none_left :
        (id : NotificationId) (t : LiveScheduler)
        → Option.map erase (entry_at id t.entries) ≡ left_at now s id
        → entry_at id (close_all order (close_reason reason) wall t).entries ≡ none
    none_left id t left = elim (Bool-cases (contains id order)) [
      | inl c ↦ entry_at-close_all id order (close_reason reason) wall t ∙ rw c refl
      | inr c ↦
          ground (arith, entry_at-close_all id order (close_reason reason) wall t, left, all id)
    ]

abbrev Switched : Bool → LiveScheduler → LiveScheduler → Type 0
Switched b t u =
    Core u
    × Keyed u
    × ClosedOk u
    × (u.last_now ≡ t.last_now)
    × (u.display_available ≡ b)
    × (u.entries ≡ t.entries)

set_available-Switched : (b : Bool) (t : LiveScheduler) → Sound t → Switched b t (set_available b t)
set_available-Switched b t v =
    elim (Bool-cases (if b then t.display_available else not t.display_available)) [
      | inl same ↦ rw same (v.core, v.keyed, v.closed_ok, refl, ground arith, refl)
      | inr other ↦ rw other (
        record {
          located = λ id. v.core.located id;
          entries_ok = λ id e at. v.core.entries_ok id e at;
          capacity = v.core.capacity;
        },
        record {
          key_live = λ j i h. v.keyed.key_live j i h;
          live_key = λ i e j h. v.keyed.live_key i e j h;
        },
        record { room = v.closed_ok.room; bounded = v.closed_ok.bounded; done = v.closed_ok.done },
        refl,
        refl,
        refl,
      )
    ]

-- What a change of the display comes to: the timers run exactly for what is then shown.
abbrev pub SwitchPost : Bool → ℕ → LiveScheduler → Unit {0} → LiveScheduler → Type 0
SwitchPost b now s _ t =
    Inv t
    × Timed t
    × (t.display_available ≡ b)
    × ((id : NotificationId) → Option.map erase (entry_at id t.entries) ≡ left_at now s id)

-- On a well-formed scheduler, `set_display_available` fails only if the clock went backwards,
-- with no change. Otherwise the display is as given, the scheduler is well formed, a timer runs
-- exactly for a Toast on display with no jump under way, and the entries are left, but for their
-- deliveries, times of update and timers, unless their time is over.
pub set_display_available-Timed :
    (b : Bool) (now wall : ℕ) (s : LiveScheduler)
    → Inv s
    → After (Backwards now s) (SwitchPost b now s) (set_display_available b now wall s)
unfolding set_display_available
set_display_available-Timed b now wall s v =
    After-bind (Backwards now s) (Prepared now s) (SwitchPost b now s) (prepare_time now wall s) _
      (prepare_time-Inv now wall s v)
      (λ _ t (inv, _, last, _, _, _, _, _, left).
        let (c, k, o, same, up, kept) = set_available-Switched b t inv.sound in
        After-mono (rebalance now wall (set_available b t))
          (rebalance-Inv now wall c k o (sym (same ∙ last))) (λ e u h. absurd h)
          (λ _ u (inv', timed, f, sh). (
            inv',
            timed,
            f.display_available ∙ up,
            λ id. f.contents id ∙ ap (λ m. Option.map erase (entry_at id m)) kept ∙ left id,
          )))

-- A new scheduler is well formed, whatever its limits and the time.
pub scheduler_new-Inv : (l : SchedulerLimits) (now : ℕ) → Inv (scheduler_new l now)
unfolding scheduler_new capacity_for count tmnotify.Base.Map.lookup
scheduler_new-Inv l now = record {
  sound = record {
    core = record {
      located = λ id. refl;
      entries_ok = λ id e at. absurd (ground arith);
      capacity = omega arith;
    };
    keyed = record {
      key_live = λ j i h. absurd (ground arith);
      live_key = λ i e j h. absurd (ground arith);
    };
    runs = λ id e at. absurd (ground arith);
    closed_ok = record { room = omega arith; bounded = omega arith; done = tt };
  };
  gate_filled = λ up free. absurd (ground arith);
  toasts_filled = λ up free. absurd (ground arith);
}
