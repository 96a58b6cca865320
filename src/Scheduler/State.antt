-- ===== src/Scheduler/State.antt =====
-- src/daemon/mod.rs: the scheduler's data, and the state of one timeout. A `MonotonicTime` and a
-- `Duration` are numbers of nanoseconds.
use tmnotify.Base.{
  ℕ, ◌+◌, ◌-◌, ◌%◌, ◌^◌, min, Bool, true, false, ◌||◌, Option, none, some, List, [], ltb, leb, ◌==◌,
  if◌then◌else◌, ℕ_discrete,
}
use tmnotify.Base.Map
use tmnotify.Notification.Source.{
  NotificationId, NotificationKey, SourceContext, Timeout, CloseReason, daemon_interrupted,
  daemon_stopped, Text-discrete,
}
use tmnotify.Notification.Record.{Notification}

pub data SchedulerError : Type 0 where
  invalid_limits time_went_backwards notification_not_live key_not_live missing_source
        jump_already_pending stale_jump_intent :
      SchedulerError

-- What a method comes to: a value, an error that it returns, or a panic of `expect` or of an index.
pub data Outcome {ℓ} (A : Type ℓ) : Type ℓ where
  ok : A → Outcome A
  err : SchedulerError → Outcome A
  panicked : Outcome A

-- now.elapsed_since(earlier), by `checked_sub`
unfoldable pub elapsed_since : ℕ → ℕ → Outcome ℕ
elapsed_since now earlier = if ltb now earlier then err time_went_backwards else ok (now - earlier)

pub record SchedulerLimits : Type 0 where
  pub max_pending : ℕ
  pub max_visible_toasts : ℕ

unfoldable pub limits_new : ℕ → ℕ → Outcome SchedulerLimits
limits_new pending visible =
    if pending == 0 || visible == 0
    then err invalid_limits
    else ok (record { max_pending = pending; max_visible_toasts = visible })

pub data SubmitDisposition : Type 0 where
  queued visible updated duplicate suppressed : SubmitDisposition

pub record SubmitOutcome : Type 0 where
  pub id : NotificationId
  pub disposition : SubmitDisposition

pub data UpdateDisposition : Type 0 where
  updated duplicate : UpdateDisposition

pub data ShutdownReason : Type 0 where
  interrupted stopped server_ended : ShutdownReason

abbrev pub close_reason : ShutdownReason → CloseReason
close_reason interrupted = daemon_interrupted
close_reason stopped = daemon_stopped
close_reason server_ended = CloseReason.server_ended

pub record DisplayPlan : Type 0 where
  pub revision : ℕ
  pub attention : Option NotificationId
  pub toasts : List NotificationId

pub record JumpIntent : Type 0 where
  pub notification_id : NotificationId
  pub nonce : ℕ
  pub source : SourceContext

pub data TimeoutState : Type 0 where
  never : TimeoutState
  remaining : ℕ → Option ℕ → TimeoutState

-- `TimeoutState::new`
abbrev pub timeout_new : Timeout → TimeoutState
timeout_new (Timeout.after duration) = remaining duration none
timeout_new Timeout.never = never

-- `restart`, whose receiver is overwritten. `running.then_some(now)`
unfoldable pub restart : Timeout → ℕ → Bool → TimeoutState
restart (Timeout.after duration) now running =
    remaining duration (if running then some now else none)
restart Timeout.never now running = never

abbrev pause_at : ℕ → Outcome ℕ → Outcome TimeoutState
pause_at duration (ok elapsed) = ok (remaining (duration - elapsed) none)
pause_at duration (err e) = err e
pause_at duration panicked = panicked

abbrev keep_if_ok : TimeoutState → Outcome ℕ → Outcome TimeoutState
keep_if_ok t (ok elapsed) = ok t
keep_if_ok t (err e) = err e
keep_if_ok t panicked = panicked

unfoldable pub set_running : TimeoutState → ℕ → Bool → Outcome TimeoutState
unfolding elapsed_since
set_running never now running = ok never
set_running (remaining duration none) now true = ok (remaining duration (some now))
set_running (remaining duration none) now false = ok (remaining duration none)
set_running (remaining duration (some start)) now false =
    pause_at duration (elapsed_since now start)
set_running (remaining duration (some start)) now true =
    keep_if_ok (remaining duration (some start)) (elapsed_since now start)

abbrev expired_after : ℕ → Outcome ℕ → Outcome Bool
expired_after duration (ok elapsed) = ok (leb duration elapsed)
expired_after duration (err e) = err e
expired_after duration panicked = panicked

unfoldable pub expired : TimeoutState → ℕ → Outcome Bool
unfolding elapsed_since
expired never now = ok false
expired (remaining duration none) now = ok false
expired (remaining duration (some start)) now = expired_after duration (elapsed_since now start)

pub record LiveEntry : Type 0 where
  pub notification : Notification
  pub sequence : ℕ
  pub timeout : TimeoutState
  pub jump_nonce : Option ℕ

abbrev pub Entries : Type 0
Entries = List (NotificationId × LiveEntry)

abbrev pub Keys : Type 0
Keys = List (NotificationKey × NotificationId)

pub record LiveScheduler : Type 0 where
  pub limits : SchedulerLimits
  pub entries : Entries
  pub closed : List Notification
  pub closed_capacity : ℕ
  pub live_keys : Keys
  pub pending : List NotificationId
  pub active_toasts : List NotificationId
  pub active_attention : Option NotificationId
  pub display_available : Bool
  pub next_sequence : ℕ
  pub next_jump_nonce : ℕ
  pub revision : ℕ
  pub content_revision : ℕ
  pub last_now : ℕ

abbrev pub entry_at : NotificationId → Entries → Option LiveEntry
entry_at = Map.lookup ℕ_discrete

abbrev pub id_at : NotificationKey → Keys → Option NotificationId
id_at = Map.lookup Text-discrete

-- `usize::saturating_add` and `u64::wrapping_add` on 64 bits
abbrev pub saturating_add : ℕ → ℕ → ℕ
saturating_add a b = min (a + b) (2 ^ 64 - 1)

abbrev pub wrapping_inc : ℕ → ℕ
wrapping_inc n = (n + 1) % 2 ^ 64

-- The capacity of the queue of closed records that `new` and `update_limits` set.
unfoldable pub capacity_for : SchedulerLimits → ℕ
capacity_for l = saturating_add (saturating_add l.max_pending l.max_visible_toasts) 1

unfoldable pub scheduler_new : SchedulerLimits → ℕ → LiveScheduler
scheduler_new l now = record {
  limits = l;
  entries = [];
  closed = [];
  closed_capacity = capacity_for l;
  live_keys = [];
  pending = [];
  active_toasts = [];
  active_attention = none;
  display_available = false;
  next_sequence = 0;
  next_jump_nonce = 0;
  revision = 0;
  content_revision = 0;
  last_now = now;
}
