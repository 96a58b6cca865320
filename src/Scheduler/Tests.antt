-- ===== src/Scheduler/Tests.antt =====
-- The theorems on the scheduler at a small run: the display comes up, and a Toast is submitted.
use tmnotify.Base.{
  ℕ, ◌<◌, ◌≡◌, refl, true, false, none, some, [], ◌∷◌, arith, present, count, ℕ_discrete,
}
use tmnotify.Base.Map.{lookup, insert, remove}
use tmnotify.Notification.Source.{
  toast, info, normal, Timeout, overrides_default, metadata_default, NotificationId, dismissed,
}
use tmnotify.Notification.Ingress.{byte_len}
use tmnotify.Notification.Plain.{is_display_control}
use tmnotify.Notification.Draft.{NotificationDraft}
use tmnotify.Notification.Draft.Valid.{IsValid}
use tmnotify.Notification.Record.{from_draft, mark_visible}
use tmnotify.Scheduler.State.{
  LiveScheduler, SchedulerLimits, scheduler_new, capacity_for, elapsed_since, set_running,
  LiveEntry, TimeoutState, expired, entry_at, interrupted, ok,
}
use tmnotify.Scheduler.Exec.{After, Returns, for_each}
use tmnotify.Scheduler.Queues.{
  rank, insert_sorted, sort_by, all_live, sort_pending, take_first, promote_attention, fill_toasts,
  promote_toasts, mark_entry, mark_shown, contains, unpinned, running_ids, run_timer, run_timers,
  rebalance,
}
use tmnotify.Scheduler.Lifecycle.{
  close_all, expired_ids, expire, rebalance_unless_idle, prepare_time, close_live, suppress,
  take_last_unpinned, enforce_pending_limit,
}
use tmnotify.Scheduler.Operations.{
  submit, submit_new, enter, begin_jump, shutdown, set_display_available,
}
use tmnotify.Scheduler.Order.{IsOrdered, sort_pending-IsOrdered}
use tmnotify.Scheduler.Invariant.Prepare.{Inv, Backwards, Prepared, prepare_time-Inv}
use tmnotify.Scheduler.Invariant.Rebalance.{BalancePost, rebalance-Core}
use tmnotify.Scheduler.Invariant.Closing.{CloseFails, ClosePost, close_live-Closes}
use tmnotify.Scheduler.Invariant.Suppress.{SuppressPost, enforce_pending_limit-Within, closable}
use tmnotify.Scheduler.Invariant.Submitting.{submit-Told}
use tmnotify.Scheduler.Invariant.Submitting.Answer.{SubmitPost}
use tmnotify.Scheduler.Invariant.Jumping.{Jumping, begin_jump-Jumping}
use tmnotify.Notification.Update.{NotificationUpdate, update_new}
use tmnotify.Notification.Source.{Priority, high, low}
use tmnotify.Scheduler.Operations.{update}
use tmnotify.Scheduler.Invariant.Updating.{UpdateStops, UpdateEnds, update-Updates}
use tmnotify.Scheduler.Invariant.Ending.{
  Ended, shutdown-Ended, SwitchPost, set_display_available-Timed, scheduler_new-Inv,
}

abbrev limits : SchedulerLimits
limits = record { max_pending = 2; max_visible_toasts = 1 }

abbrev draft : NotificationDraft
draft = record {
  key = some (65 ∷ []);
  level = info;
  priority = normal;
  presentation = toast;
  title = [];
  body = [];
  timeout = Timeout.after 5;
  source = none;
  overrides = overrides_default;
  metadata = metadata_default;
}

draft-IsValid : IsValid draft
unfolding byte_len is_display_control
draft-IsValid = record {
  title_ok = record { plain = tt; bounded = omega arith };
  body_ok = record { plain = tt; bounded = omega arith };
  key_ok = (record { plain = (refl, tt); bounded = omega arith }, λ p. ground arith);
  untimed = λ h. absurd (ground arith);
  sourced = λ h. absurd (ground arith);
}

-- The display is up, and nothing is live.
abbrev up_state : LiveScheduler
up_state = (set_display_available true 1 10 (scheduler_new limits 0)).1

up_state-Inv : Inv up_state
unfolding scheduler_new capacity_for set_display_available prepare_time elapsed_since expire
    expired_ids close_all rebalance_unless_idle rebalance promote_attention take_first
    promote_toasts fill_toasts mark_shown for_each run_timers running_ids unpinned
up_state-Inv =
    (set_display_available-Timed true 1 10 (scheduler_new limits 0) (scheduler_new-Inv limits 0)).0

-- A Toast is on display.
abbrev toast_state : LiveScheduler
toast_state = (submit 7 draft 2 20 up_state).1

toast_state-Inv : Inv toast_state
unfolding scheduler_new capacity_for set_display_available prepare_time elapsed_since expire
    expired_ids close_all rebalance_unless_idle rebalance promote_attention take_first
    promote_toasts fill_toasts mark_shown for_each run_timers running_ids unpinned submit submit_new
    enter sort_pending sort_by insert_sorted all_live enforce_pending_limit suppress lookup insert
    remove mark_entry run_timer from_draft mark_visible set_running count ℕ_discrete
toast_state-Inv =
    (submit-Told 7 draft 2 20 up_state up_state-Inv draft-IsValid refl (omega arith)).0

-- A key of its own goes to the queue: there is room for one Toast.
abbrev second : NotificationDraft
second = record draft { key = none }

second-IsValid : IsValid second
second-IsValid = record {
  title_ok = draft-IsValid.title_ok;
  body_ok = draft-IsValid.body_ok;
  key_ok = tt;
  untimed = λ h. absurd (ground arith);
  sourced = λ h. absurd (ground arith);
}

submit-Told_example :
    After (Backwards 3 toast_state) (SubmitPost second) (submit 8 second 3 30 toast_state)
unfolding scheduler_new capacity_for set_display_available prepare_time elapsed_since expire
    expired_ids close_all rebalance_unless_idle rebalance promote_attention take_first
    promote_toasts fill_toasts mark_shown for_each run_timers running_ids unpinned submit submit_new
    enter sort_pending sort_by insert_sorted all_live enforce_pending_limit suppress lookup insert
    remove mark_entry run_timer from_draft mark_visible set_running count ℕ_discrete
submit-Told_example =
    submit-Told 8 second 3 30 toast_state toast_state-Inv second-IsValid refl (omega arith)

prepare_time-Inv_example :
    After (Backwards 7 toast_state) (Prepared 7 toast_state) (prepare_time 7 70 toast_state)
prepare_time-Inv_example = prepare_time-Inv 7 70 toast_state toast_state-Inv

close_live-Closes_example :
    After
      (CloseFails 7 3 toast_state)
      (ClosePost 7 dismissed 3 30 toast_state)
      (close_live 7 dismissed 3 30 toast_state)
close_live-Closes_example = close_live-Closes 7 dismissed 3 30 toast_state toast_state-Inv

rebalance-Core_example : Returns (BalancePost 20 toast_state) (rebalance 2 20 toast_state)
unfolding scheduler_new capacity_for set_display_available prepare_time elapsed_since expire
    expired_ids close_all rebalance_unless_idle rebalance promote_attention take_first
    promote_toasts fill_toasts mark_shown for_each run_timers running_ids unpinned submit submit_new
    enter sort_pending sort_by insert_sorted all_live enforce_pending_limit suppress lookup insert
    remove mark_entry run_timer from_draft mark_visible set_running count ℕ_discrete
rebalance-Core_example = rebalance-Core 2 20 toast_state-Inv.sound.core refl

begin_jump-Jumping_example : After (λ e t. Inv t) (Jumping 7) (begin_jump 7 3 30 toast_state)
begin_jump-Jumping_example = begin_jump-Jumping 7 3 30 toast_state toast_state-Inv

one_entry :
    (e : LiveEntry) (id : NotificationId)
    → 0 < present (entry_at id ((7, e) ∷ []))
    → contains id (7 ∷ []) ≡ true
unfolding lookup count
one_entry e id h = ground arith

only_seven :
    (id : NotificationId)
    → 0 < present (entry_at id toast_state.entries)
    → contains id (7 ∷ []) ≡ true
unfolding scheduler_new capacity_for set_display_available prepare_time elapsed_since expire
    expired_ids close_all rebalance_unless_idle rebalance promote_attention take_first
    promote_toasts fill_toasts mark_shown for_each run_timers running_ids unpinned submit submit_new
    enter sort_pending sort_by insert_sorted all_live enforce_pending_limit suppress lookup insert
    remove mark_entry run_timer from_draft mark_visible set_running count ℕ_discrete
only_seven id h = one_entry _ id h

shutdown-Ended_example :
    After
      (Backwards 3 toast_state)
      (λ _ t. Ended t)
      (shutdown (7 ∷ []) interrupted 3 30 toast_state)
unfolding scheduler_new capacity_for set_display_available prepare_time elapsed_since expire
    expired_ids close_all rebalance_unless_idle rebalance promote_attention take_first
    promote_toasts fill_toasts mark_shown for_each run_timers running_ids unpinned submit submit_new
    enter sort_pending sort_by insert_sorted all_live enforce_pending_limit suppress lookup insert
    remove mark_entry run_timer from_draft mark_visible set_running count ℕ_discrete
shutdown-Ended_example =
    shutdown-Ended (7 ∷ []) interrupted 3 30 toast_state toast_state-Inv only_seven

set_display_available-Timed_example :
    After
      (Backwards 3 toast_state)
      (SwitchPost false 3 toast_state)
      (set_display_available false 3 30 toast_state)
set_display_available-Timed_example =
    set_display_available-Timed false 3 30 toast_state toast_state-Inv

-- A second Toast waits.
abbrev queued_state : LiveScheduler
queued_state = (submit 8 second 3 30 toast_state).1

queued_state-Inv : Inv queued_state
unfolding scheduler_new capacity_for set_display_available prepare_time elapsed_since expire
    expired_ids close_all rebalance_unless_idle rebalance promote_attention take_first
    promote_toasts fill_toasts mark_shown for_each run_timers running_ids unpinned submit submit_new
    enter sort_pending sort_by insert_sorted all_live enforce_pending_limit suppress lookup insert
    remove mark_entry run_timer from_draft mark_visible set_running expired take_last_unpinned count
    ℕ_discrete
queued_state-Inv =
    (submit-Told 8 second 3 30 toast_state toast_state-Inv second-IsValid refl (omega arith)).0

abbrev fewer : ℕ → LiveScheduler → LiveScheduler
fewer n s = record s { limits = record s.limits { max_pending = n } }

fewer-Inv : (n : ℕ) (s : LiveScheduler) → Inv s → Inv (fewer n s)
fewer-Inv n s v = record {
  sound = record {
    core = record {
      located = v.sound.core.located;
      entries_ok = v.sound.core.entries_ok;
      capacity = v.sound.core.capacity;
    };
    keyed = record { key_live = v.sound.keyed.key_live; live_key = v.sound.keyed.live_key };
    runs = v.sound.runs;
    closed_ok = record {
      room = v.sound.closed_ok.room;
      bounded = v.sound.closed_ok.bounded;
      done = v.sound.closed_ok.done;
    };
  };
  gate_filled = v.gate_filled;
  toasts_filled = v.toasts_filled;
}

-- Nothing may wait any more, and one Toast does.
abbrev crowded : LiveScheduler
crowded = fewer 0 queued_state

crowded_closes : (enforce_pending_limit 30 crowded).0 ≡ ok (8 ∷ [])
unfolding scheduler_new capacity_for set_display_available prepare_time elapsed_since expire
    expired_ids close_all rebalance_unless_idle rebalance promote_attention take_first
    promote_toasts fill_toasts mark_shown for_each run_timers running_ids unpinned submit submit_new
    enter sort_pending sort_by insert_sorted all_live enforce_pending_limit suppress lookup insert
    remove mark_entry run_timer from_draft mark_visible set_running expired take_last_unpinned count
    ℕ_discrete
crowded_closes = refl

enforce_pending_limit-Within_example :
    Returns (SuppressPost crowded) (enforce_pending_limit 30 crowded)
unfolding scheduler_new capacity_for set_display_available prepare_time elapsed_since expire
    expired_ids close_all rebalance_unless_idle rebalance promote_attention take_first
    promote_toasts fill_toasts mark_shown for_each run_timers running_ids unpinned submit submit_new
    enter sort_pending sort_by insert_sorted all_live enforce_pending_limit suppress lookup insert
    remove mark_entry run_timer from_draft mark_visible set_running expired take_last_unpinned count
    ℕ_discrete closable
enforce_pending_limit-Within_example =
    enforce_pending_limit-Within 30 crowded (fewer-Inv 0 queued_state queued_state-Inv)
      (omega arith)

-- One that waits behind another of a lower priority
abbrev entry_of : NotificationId → Priority → ℕ → LiveEntry
entry_of id p sequence = record {
  notification = from_draft id (record draft { priority = p }) 10;
  sequence = sequence;
  timeout = TimeoutState.never;
  jump_nonce = none;
}

abbrev unsorted : LiveScheduler
unsorted = record (scheduler_new limits 0) {
  entries = (4, entry_of 4 low 1) ∷ (9, entry_of 9 high 2) ∷ (5, entry_of 5 low 0) ∷ [];
  pending = 4 ∷ 9 ∷ 5 ∷ [];
}

unsorted_live :
    (id : NotificationId)
    → 0 < count id unsorted.pending
    → 0 < present (entry_at id unsorted.entries)
unfolding count lookup scheduler_new
unsorted_live id h = ground arith

unsorted_result : (sort_pending unsorted).1.pending ≡ 9 ∷ 5 ∷ 4 ∷ []
unfolding sort_pending sort_by insert_sorted all_live rank lookup ℕ_discrete from_draft
    scheduler_new
unsorted_result = refl

sort_pending-IsOrdered_example :
    Returns
      (λ _ t.
        (t ≡ record unsorted { pending = t.pending })
        × ((id : NotificationId) → count id t.pending ≡ count id unsorted.pending)
        × IsOrdered unsorted.entries t.pending)
      (sort_pending unsorted)
sort_pending-IsOrdered_example = sort_pending-IsOrdered unsorted unsorted_live

abbrev raise : NotificationUpdate
raise = record update_new { priority = some high }

update-Updates_example :
    After
      (λ e t. UpdateStops 7 3 30 toast_state e t)
      (λ _ t. UpdateEnds 7 raise 3 30 toast_state t)
      (update 7 raise 3 30 toast_state)
update-Updates_example = update-Updates 7 raise 3 30 toast_state toast_state-Inv
