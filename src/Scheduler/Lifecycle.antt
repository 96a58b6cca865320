-- ===== src/Scheduler/Lifecycle.antt =====
-- src/daemon/mod.rs: `close_inner`, the expiry of timers, and the limit of the pending queue.
use tmnotify.Base.{
  ℕ, zero, suc, Bool, true, false, ◌&&◌, Option, none, some, List, [], ◌∷◌, ◌++◌, ite, ltb, ◌==◌,
  if◌then◌else◌, is_none, length, drop, without, ℕ_discrete,
}
use tmnotify.Base.Map
use tmnotify.Notification.Source.{
  NotificationId, NotificationKey, CloseReason, timed_out, render_suppressed, DeliveryState, closed,
  pending, visible, Text-discrete,
}
use tmnotify.Notification.Record.{Notification, close}
use tmnotify.Scheduler.State.{
  Outcome, ok, err, panicked, LiveEntry, Entries, Keys, LiveScheduler, entry_at, elapsed_since,
  expired, wrapping_inc, notification_not_live,
}
use tmnotify.Scheduler.Exec.{M, continue, ◌>>=◌, ◌>>◌, pure, throw, lift, gets, modify}
use tmnotify.Scheduler.Queues.{rebalance}

abbrev pub bump_revision : LiveScheduler → LiveScheduler
bump_revision s = record s { revision = wrapping_inc s.revision }

abbrev pub bump_content_revision : LiveScheduler → LiveScheduler
bump_content_revision s =
    bump_revision (record s { content_revision = wrapping_inc s.content_revision })

abbrev pub forget_key : Option NotificationKey → Keys → Keys
forget_key none m = m
forget_key (some k) m = Map.remove Text-discrete k m

-- `if self.active_attention == Some(id) { self.active_attention = None; }`
abbrev pub release : NotificationId → Option NotificationId → Option NotificationId
release id none = none
release id (some a) = ite (ℕ_discrete a id) none (some a)

-- The closed queue drops its oldest record when it is full.
unfoldable pub push_closed : ℕ → List Notification → Notification → List Notification
push_closed capacity queue n = (if length queue == capacity then drop 1 queue else queue) ++ n ∷ []

-- `close_inner`, given the entry that `self.entries.remove(&id)` took out.
unfoldable pub close_entry :
    NotificationId → CloseReason → ℕ → LiveEntry → LiveScheduler → LiveScheduler
close_entry id reason wall e s =
    let n = close e.notification reason wall in
    bump_content_revision (record s {
      entries = Map.remove ℕ_discrete id s.entries;
      live_keys = forget_key n.key s.live_keys;
      pending = without id s.pending;
      active_toasts = without id s.active_toasts;
      active_attention = release id s.active_attention;
      closed = push_closed s.closed_capacity s.closed n;
    })

unfoldable pub close_inner : NotificationId → CloseReason → ℕ → LiveScheduler → LiveScheduler
close_inner id reason wall s = elim (entry_at id s.entries) [
  | none ↦ s
  | some e ↦ close_entry id reason wall e s
]

unfoldable pub close_all : List NotificationId → CloseReason → ℕ → LiveScheduler → LiveScheduler
close_all [] reason wall s = s
close_all (id ∷ ids) reason wall s = close_all ids reason wall (close_inner id reason wall s)

-- `entry.timeout.expired(now).ok()`, and the filter
abbrev pub is_due : Outcome Bool → Bool
is_due (ok b) = b
is_due (err e) = false
is_due panicked = false

abbrev pub entry_expired : ℕ → Option LiveEntry → Bool
entry_expired now none = false
entry_expired now (some e) = is_due (expired e.timeout now)

unfoldable pub expired_ids : Entries → ℕ → List NotificationId → List NotificationId
expired_ids m now [] = []
expired_ids m now (x ∷ xs) =
    let rest = expired_ids m now xs in if entry_expired now (entry_at x m) then x ∷ rest else rest

abbrev pub is_nil {ℓ} : {A : Type ℓ} → List A → Bool
is_nil [] = true
is_nil (x ∷ xs) = false

unfoldable pub expire : ℕ → ℕ → LiveScheduler → LiveScheduler
expire now wall s = close_all (expired_ids s.entries now s.active_toasts) timed_out wall s

unfoldable pub rebalance_unless_idle : ℕ → ℕ → M (Unit {0})
rebalance_unless_idle now wall s =
    if is_nil s.active_toasts && is_none s.active_attention && is_nil s.pending
    then (ok tt, s)
    else rebalance now wall s

unfoldable pub prepare_time : ℕ → ℕ → M (Unit {0})
prepare_time now wall = do
  last ← gets (λ s. s.last_now)
  elapsed ← lift (elapsed_since now last)
  modify (λ s. record s { last_now = now })
  modify (expire now wall)
  rebalance_unless_idle now wall

abbrev is_closed : DeliveryState → Bool
is_closed closed = true
is_closed pending = false
is_closed visible = false

abbrev pub not_live : Option LiveEntry → Bool
not_live none = true
not_live (some e) = is_closed e.notification.delivery

unfoldable pub close_live : NotificationId → CloseReason → ℕ → ℕ → M (Unit {0})
close_live id reason now wall = do
  prepare_time now wall
  gone ← gets (λ s. not_live (entry_at id s.entries))
  if gone
      then throw notification_not_live
      else do modify (close_inner id reason wall); rebalance now wall

abbrev newer :
    NotificationId
    → Outcome (Option (NotificationId × List NotificationId))
    → Outcome (Option (NotificationId × List NotificationId))
newer x (ok none) = ok none
newer x (ok (some (id, rest))) = ok (some (id, x ∷ rest))
newer x (err e) = err e
newer x panicked = panicked

abbrev pinned : Option ℕ → Bool
pinned none = false
pinned (some n) = true

abbrev pick_here :
    NotificationId
    → List NotificationId
    → Option LiveEntry
    → Outcome (Option (NotificationId × List NotificationId))
pick_here x xs none = panicked
pick_here x xs (some e) = if pinned e.jump_nonce then ok none else ok (some (x, xs))

abbrev pick_behind :
    NotificationId
    → List NotificationId
    → Option LiveEntry
    → Outcome (Option (NotificationId × List NotificationId))
    → Outcome (Option (NotificationId × List NotificationId))
pick_behind x xs e (ok none) = pick_here x xs e
pick_behind x xs e r = newer x r

-- `self.pending.iter().rposition(…)` for the last entry with no jump under way, and the
-- `self.pending.remove(index)` that follows: that entry, and the others. The search runs from the
-- end, so an entry is read only if none behind it fits.
unfoldable pub take_last_unpinned :
    Entries → List NotificationId → Outcome (Option (NotificationId × List NotificationId))
take_last_unpinned m [] = ok none
take_last_unpinned m (x ∷ xs) = pick_behind x xs (entry_at x m) (take_last_unpinned m xs)

-- The loop of `enforce_pending_limit`, with fuel for its rounds: the ids that it closed. Its `expect`
-- fails where every pending entry has a jump under way.
unfoldable pub suppress : ℕ → ℕ → M (List NotificationId)
suppress zero wall s = (ok [], s)
suppress (suc fuel) wall s =
    if ltb s.limits.max_pending (length s.pending)
    then elim (take_last_unpinned s.entries s.pending) [
      | ok none ↦ (panicked, s)
      | ok (some (id, rest)) ↦
          continue
            (suppress fuel wall
              (close_inner id render_suppressed wall (record s { pending = rest })))
            (λ ids. pure (id ∷ ids))
      | err e ↦ (err e, s)
      | panicked ↦ (panicked, s)
    ]
    else (ok [], s)

unfoldable pub enforce_pending_limit : ℕ → M (List NotificationId)
enforce_pending_limit wall s = suppress (length s.pending) wall s
