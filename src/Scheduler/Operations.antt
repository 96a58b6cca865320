-- ===== src/Scheduler/Operations.antt =====
-- src/daemon/mod.rs: the public methods of `LiveScheduler`. The id of a new Notification is an
-- argument of `submit`; the order in which `shutdown` meets the entries of the map is its argument.
use tmnotify.Base.{
  ℕ, Bool, true, false, not, ◌&&◌, ◌||◌, Option, none, some, List, [], ◌∷◌, ◌++◌, ltb, ◌==◌,
  if◌then◌else◌, is_some, is_none, length, take, drop, without, ℕ_discrete,
}
use tmnotify.Base.Map
use tmnotify.Notification.Source.{
  NotificationId, NotificationKey, dismissed, render_failed, jumped, Presentation, SourceContext,
  Text-discrete,
}
use tmnotify.Notification.Draft.{NotificationDraft, is_attention}
use tmnotify.Notification.Update.{NotificationUpdate}
use tmnotify.Notification.Record.{
  Notification, from_draft, has_same_content, replace_content, apply_update,
}
use tmnotify.Scheduler.State.{
  ok, err, SchedulerLimits, SubmitOutcome, queued, suppressed, SubmitDisposition, UpdateDisposition,
  ShutdownReason, close_reason, DisplayPlan, JumpIntent, key_not_live, notification_not_live,
  missing_source, jump_already_pending, stale_jump_intent, LiveEntry, LiveScheduler, Keys, entry_at,
  id_at, timeout_new, restart, set_running, wrapping_inc, capacity_for,
}
use tmnotify.Scheduler.Exec.{
  M, ◌>>=◌, ◌>>◌, pure, throw, lift, gets, modify, or_throw, put_entry, expect_entry, for_each,
}
use tmnotify.Scheduler.Queues.{sort_pending, rebalance, contains}
use tmnotify.Scheduler.Lifecycle.{
  bump_revision, bump_content_revision, release, close_all, prepare_time, close_live, not_live,
  enforce_pending_limit,
}

abbrev pub toast_timer_should_run : NotificationId → LiveScheduler → Bool
toast_timer_should_run id s =
    s.display_available && is_none s.active_attention && contains id s.active_toasts

abbrev pub is_attention_id : NotificationId → Option NotificationId → Bool
is_attention_id id none = false
is_attention_id id (some a) = a == id

abbrev pub is_desired_visible : NotificationId → LiveScheduler → Bool
is_desired_visible id s =
    s.display_available
    && (is_attention_id id s.active_attention
        || (is_none s.active_attention && contains id s.active_toasts))

abbrev pub key_target : Option NotificationKey → Keys → Option NotificationId
key_target none m = none
key_target (some k) m = id_at k m

abbrev pub same_as : NotificationDraft → Option LiveEntry → Bool
same_as d none = false
same_as d (some e) = has_same_content e.notification d

-- The entry goes back to the pending queue, from wherever it is.
abbrev pub requeue : NotificationId → LiveScheduler → LiveScheduler
requeue id s = record s {
  pending = without id s.pending ++ id ∷ [];
  active_toasts = without id s.active_toasts;
  active_attention = release id s.active_attention;
}

abbrev pub other_presentation : Presentation → Presentation → Bool
other_presentation p q = if is_attention p then not (is_attention q) else is_attention q

abbrev pub requeue_if : Bool → NotificationId → M (Unit {0})
requeue_if true id = modify (requeue id)
requeue_if false id = pure tt

-- `submit` on a draft whose key is live, with other content.
unfoldable pub replace_live : NotificationId → NotificationDraft → ℕ → ℕ → M SubmitOutcome
replace_live id draft now wall = do
  running ← gets (toast_timer_should_run id)
  e ← expect_entry id
  let n = replace_content e.notification draft wall
  modify (put_entry id (record e { notification = n; timeout = restart n.timeout now running }))
  requeue_if (other_presentation n.presentation e.notification.presentation) id
  sort_pending
  rebalance now wall
  modify bump_content_revision
  pure (record { id = id; disposition = SubmitDisposition.updated })

unfoldable pub submit_live : NotificationId → NotificationDraft → ℕ → ℕ → M SubmitOutcome
submit_live id draft now wall s =
    if same_as draft (entry_at id s.entries)
    then (ok (record { id = id; disposition = SubmitDisposition.duplicate }), s)
    else replace_live id draft now wall s

abbrev pub remember_key : Option NotificationKey → NotificationId → Keys → Keys
remember_key none id m = m
remember_key (some k) id m = Map.insert Text-discrete k id m

-- A new Notification is entered, live and pending.
unfoldable pub enter : NotificationId → NotificationDraft → ℕ → LiveScheduler → LiveScheduler
enter id draft wall s =
    let n = from_draft id draft wall in
    record s {
      live_keys = remember_key n.key id s.live_keys;
      entries =
          Map.insert ℕ_discrete id
            (record {
              notification = n;
              sequence = s.next_sequence;
              timeout = timeout_new n.timeout;
              jump_nonce = none;
            })
            s.entries;
      next_sequence = wrapping_inc s.next_sequence;
      pending = s.pending ++ id ∷ [];
    }

unfoldable pub submit_new : NotificationId → NotificationDraft → ℕ → ℕ → M SubmitOutcome
submit_new id draft now wall = do
  modify (enter id draft wall)
  sort_pending
  rebalance now wall
  closed ← enforce_pending_limit wall
  modify bump_content_revision
  shown ← gets (is_desired_visible id)
  pure (record {
    id = id;
    disposition =
        if contains id closed
        then suppressed
        else if shown
        then SubmitDisposition.visible
        else queued;
  })

abbrev pub submit_at :
    Option NotificationId → NotificationId → NotificationDraft → ℕ → ℕ → M SubmitOutcome
submit_at (some id) fresh draft now wall = submit_live id draft now wall
submit_at none fresh draft now wall = submit_new fresh draft now wall

unfoldable pub submit : NotificationId → NotificationDraft → ℕ → ℕ → M SubmitOutcome
submit fresh draft now wall = do
  prepare_time now wall
  target ← gets (λ s. key_target draft.key s.live_keys)
  submit_at target fresh draft now wall

-- A Notification that the update changed: its timer is restarted.
unfoldable pub update_changed :
    NotificationId → LiveEntry → Notification → Bool → ℕ → M UpdateDisposition
update_changed id e n running now = do
  modify (put_entry id (record e { notification = n; timeout = restart n.timeout now running }))
  sort_pending
  modify bump_content_revision
  pure UpdateDisposition.updated

-- The private `apply_update`. An update that changes no field writes none.
unfoldable pub update_entry : NotificationId → NotificationUpdate → ℕ → ℕ → M UpdateDisposition
update_entry id u now wall = do
  running ← gets (toast_timer_should_run id)
  found ← gets (λ s. entry_at id s.entries)
  e ← or_throw found notification_not_live
  let (n, changed) = apply_update e.notification u wall
  if changed then update_changed id e n running now else pure UpdateDisposition.duplicate

unfoldable pub update_by_key : NotificationKey → NotificationUpdate → ℕ → ℕ → M UpdateDisposition
update_by_key key u now wall = do
  prepare_time now wall
  found ← gets (λ s. id_at key s.live_keys)
  id ← or_throw found key_not_live
  update_entry id u now wall

unfoldable pub update : NotificationId → NotificationUpdate → ℕ → ℕ → M UpdateDisposition
update id u now wall = do prepare_time now wall; update_entry id u now wall

unfoldable pub dismiss : NotificationId → ℕ → ℕ → M (Unit {0})
dismiss id now wall = close_live id dismissed now wall

unfoldable pub dismiss_by_key : NotificationKey → ℕ → ℕ → M NotificationId
dismiss_by_key key now wall = do
  found ← gets (λ s. id_at key s.live_keys)
  id ← or_throw found key_not_live
  close_live id dismissed now wall
  pure id

unfoldable pub render_failed_at : NotificationId → ℕ → ℕ → M (Unit {0})
render_failed_at id now wall = close_live id render_failed now wall

unfoldable pub shutdown : List NotificationId → ShutdownReason → ℕ → ℕ → M (Unit {0})
shutdown order reason now wall = do
  prepare_time now wall
  modify (close_all order (close_reason reason) wall)

abbrev pub set_available : Bool → LiveScheduler → LiveScheduler
set_available available s =
    if (if available then s.display_available else not s.display_available)
    then s
    else bump_revision (record s { display_available = available })

unfoldable pub set_display_available : Bool → ℕ → ℕ → M (Unit {0})
set_display_available available now wall = do
  prepare_time now wall
  modify (set_available available)
  rebalance now wall

abbrev same_limits : SchedulerLimits → SchedulerLimits → Bool
same_limits a b = a.max_pending == b.max_pending && a.max_visible_toasts == b.max_visible_toasts

-- `entry.timeout.set_running(now, false)?` on an entry that must be there
unfoldable pub stop_timer : ℕ → NotificationId → M (Unit {0})
stop_timer now id = do
  e ← expect_entry id
  timeout ← lift (set_running e.timeout now false)
  modify (put_entry id (record e { timeout = timeout }))

-- The active Toasts beyond the limit go back to the pending queue, their timers stopped.
unfoldable pub defer_toasts : ℕ → M (Unit {0})
defer_toasts now s =
    if ltb s.limits.max_visible_toasts (length s.active_toasts)
    then (do
      modify (λ t. record t { active_toasts = take s.limits.max_visible_toasts s.active_toasts })
      for_each (stop_timer now) (drop s.limits.max_visible_toasts s.active_toasts)
      modify (λ t. record t {
        pending = t.pending ++ drop s.limits.max_visible_toasts s.active_toasts;
      }))
        s
    else (ok tt, s)

-- `while self.closed.len() > self.closed_capacity { self.closed.pop_front(); }`
unfoldable pub trim_closed : ℕ → List Notification → List Notification
trim_closed capacity [] = []
trim_closed capacity (n ∷ ns) =
    if ltb capacity (length (n ∷ ns)) then trim_closed capacity ns else n ∷ ns

unfoldable pub apply_limits : SchedulerLimits → ℕ → ℕ → M (Unit {0})
apply_limits l now wall = do
  modify (λ s. record s { limits = l; closed_capacity = capacity_for l })
  defer_toasts now
  sort_pending
  rebalance now wall
  ids ← enforce_pending_limit wall
  modify (λ s. record s { closed = trim_closed s.closed_capacity s.closed })
  modify bump_content_revision

unfoldable pub update_limits : SchedulerLimits → ℕ → ℕ → M (Unit {0})
update_limits l now wall = do
  prepare_time now wall
  same ← gets (λ s. same_limits s.limits l)
  if same then pure tt else apply_limits l now wall

unfoldable pub advance : ℕ → ℕ → M (Unit {0})
advance now wall = prepare_time now wall

-- The checks of `begin_jump_inner` on the entry: its Source Pane.
abbrev pub jump_source : LiveEntry → M SourceContext
jump_source e =
    if not_live (some e)
    then throw notification_not_live
    else if is_some e.jump_nonce
    then throw jump_already_pending
    else or_throw e.notification.source missing_source

abbrev pub set_timer_if : Bool → NotificationId → LiveEntry → ℕ → Bool → M (Unit {0})
set_timer_if false id e now running = pure tt
set_timer_if true id e now running = do
  timeout ← lift (set_running e.timeout now running)
  modify (put_entry id (record e { timeout = timeout }))

unfoldable pub begin_jump_inner : NotificationId → M JumpIntent
begin_jump_inner id = do
  running ← gets (toast_timer_should_run id)
  found ← gets (λ s. entry_at id s.entries)
  e ← or_throw found notification_not_live
  source ← jump_source e
  nonce ← gets (λ s. s.next_jump_nonce)
  now ← gets (λ s. s.last_now)
  modify (λ s. record s { next_jump_nonce = wrapping_inc s.next_jump_nonce })
  modify (put_entry id (record e { jump_nonce = some nonce }))
  set_timer_if running id (record e { jump_nonce = some nonce }) now false
  pure (record { notification_id = id; nonce = nonce; source = source })

unfoldable pub begin_jump : NotificationId → ℕ → ℕ → M JumpIntent
begin_jump id now wall = do prepare_time now wall; begin_jump_inner id

unfoldable pub begin_jump_by_key : NotificationKey → ℕ → ℕ → M JumpIntent
begin_jump_by_key key now wall = do
  prepare_time now wall
  found ← gets (λ s. id_at key s.live_keys)
  id ← or_throw found key_not_live
  begin_jump_inner id

abbrev has_nonce : ℕ → Option ℕ → Bool
has_nonce n none = false
has_nonce n (some m) = m == n

abbrev pub holds_intent : JumpIntent → Option LiveEntry → Bool
holds_intent intent none = false
holds_intent intent (some e) = has_nonce intent.nonce e.jump_nonce

-- The rest of `cancel_jump`, on an entry that holds the intent.
unfoldable pub unpin : NotificationId → M (Unit {0})
unpin id = do
  e ← expect_entry id
  modify (put_entry id (record e { jump_nonce = none }))
  running ← gets (toast_timer_should_run id)
  now ← gets (λ s. s.last_now)
  set_timer_if running id (record e { jump_nonce = none }) now true

unfoldable pub cancel_jump : JumpIntent → ℕ → ℕ → M (Unit {0})
cancel_jump intent now wall = do
  prepare_time now wall
  valid ← gets (λ s. holds_intent intent (entry_at intent.notification_id s.entries))
  if valid then unpin intent.notification_id else throw stale_jump_intent

unfoldable pub commit_jump : JumpIntent → ℕ → ℕ → M (Unit {0})
commit_jump intent now wall s =
    if holds_intent intent (entry_at intent.notification_id s.entries)
    then close_live intent.notification_id jumped now wall s
    else (err stale_jump_intent, s)

unfoldable pub display_plan : LiveScheduler → DisplayPlan
display_plan s = record {
  revision = s.revision;
  attention = if s.display_available then s.active_attention else none;
  toasts = if s.display_available && is_none s.active_attention then s.active_toasts else [];
}

-- The records that wait for History, and the scheduler without them.
unfoldable pub drain_closed : LiveScheduler → List Notification × LiveScheduler
drain_closed s = (s.closed, record s { closed = [] })
