-- ===== src/Scheduler/Invariant.antt =====
-- The well-formedness of a scheduler between two steps of a method.
pub mod Live
pub mod Promote
pub mod Show
pub mod Timers
pub mod Presented
pub mod Rebalance
pub mod Close
pub mod Expire
pub mod Prepare
pub mod Closing
pub mod Suppress
pub mod Entering
pub mod Replacing
pub mod Submitting
pub mod Jumping
pub mod Ending
pub mod Updating
use tmnotify.Base.{
  ℕ, ◌+◌, ◌≤◌, ◌<◌, ◌≡◌, Bool, true, false, Option, none, some, List, present, option_list, length,
  count,
}
use mathlib.Core.Option
use tmnotify.Notification.Source.{Timeout, NotificationId, NotificationKey, pending}
use tmnotify.Notification.Draft.{is_attention}
use tmnotify.Notification.Record.{Notification}
use tmnotify.Scheduler.State.{
  TimeoutState, remaining, never, LiveEntry, Entries, LiveScheduler, entry_at, id_at,
}
use tmnotify.Scheduler.Lifecycle.{not_live}

-- A timer that runs was started in the past, on an active Toast.
abbrev pub TimerOk : ℕ → ℕ → TimeoutState → Type 0
TimerOk now active TimeoutState.never = Unit
TimerOk now active (remaining d none) = Unit
TimerOk now active (remaining d (some start)) = (start ≤ now) × (0 < active)

-- What holds of the entry of an id, given the time, the active Toasts and the active Attention.
pub record EntryOk (now : ℕ) (toasts : List NotificationId) (gate : Option NotificationId)
    (id : NotificationId) (e : LiveEntry) : Type 0 where
  pub own_id : e.notification.id ≡ id
  pub live : not_live (some e) ≡ false
  pub never_ends :
      is_attention e.notification.presentation ≡ true → e.notification.timeout ≡ Timeout.never
  pub untimed : is_attention e.notification.presentation ≡ true → e.timeout ≡ TimeoutState.never
  pub is_toast : 0 < count id toasts → is_attention e.notification.presentation ≡ false
  pub is_gate : 0 < count id (option_list gate) → is_attention e.notification.presentation ≡ true
  pub timer : TimerOk now (count id toasts) e.timeout

-- A live id is in exactly one place, once; an id that is not live is in none.
pub record Core (s : LiveScheduler) : Type 0 where
  pub located :
      (id : NotificationId)
      → count id s.pending + count id s.active_toasts + count id (option_list s.active_attention)
        ≡ present (entry_at id s.entries)
  pub entries_ok :
      (id : NotificationId) (e : LiveEntry)
      → entry_at id s.entries ≡ some e
      → EntryOk s.last_now s.active_toasts s.active_attention id e
  pub capacity : length s.active_toasts ≤ s.limits.max_visible_toasts

-- An entry but for what showing it and running its timer change.
abbrev pub erase : LiveEntry → LiveEntry
erase e = record e {
  notification = record e.notification { delivery = pending; updated_at = 0 };
  timeout = TimeoutState.never;
}

-- What `rebalance` and its parts leave alone.
pub record Frame (s t : LiveScheduler) : Type 0 where
  pub limits : t.limits ≡ s.limits
  pub closed : t.closed ≡ s.closed
  pub closed_capacity : t.closed_capacity ≡ s.closed_capacity
  pub live_keys : t.live_keys ≡ s.live_keys
  pub display_available : t.display_available ≡ s.display_available
  pub next_sequence : t.next_sequence ≡ s.next_sequence
  pub next_jump_nonce : t.next_jump_nonce ≡ s.next_jump_nonce
  pub revision : t.revision ≡ s.revision
  pub content_revision : t.content_revision ≡ s.content_revision
  pub last_now : t.last_now ≡ s.last_now
  pub contents :
      (id : NotificationId)
      → Option.map erase (entry_at id t.entries) ≡ Option.map erase (entry_at id s.entries)
