-- ===== src/Scheduler/Queues.antt =====
-- src/daemon/mod.rs: the order of the pending queue, and `rebalance`, which fills the active set
-- from it and runs the timers.
use tmnotify.Base.{
  ℕ, zero, suc, Bool, true, not, ◌&&◌, ◌||◌, Option, none, some, List, [], ◌∷◌, ◌++◌, ltb, leb,
  ◌==◌, if◌then◌else◌, is_some, is_none, length, count,
}
use tmnotify.Notification.Source.{Presentation, toast, attention, priority_rank, NotificationId}
use tmnotify.Notification.Draft.{is_attention}
use tmnotify.Notification.Record.{mark_visible}
use tmnotify.Scheduler.State.{
  Outcome, ok, err, panicked, Entries, LiveScheduler, entry_at, set_running,
}
use tmnotify.Scheduler.Exec.{
  M, ◌>>=◌, ◌>>◌, pure, lift, gets, modify, put_entry, expect_entry, for_each,
}

-- What the comparison of `sort_pending` reads of an entry: its priority and its sequence.
unfoldable pub rank : Entries → NotificationId → Option (ℕ × ℕ)
rank m id = elim (entry_at id m) [
  | none ↦ none
  | some e ↦ some (priority_rank e.notification.priority, e.sequence)
]

-- Not after: a higher priority first, then the lower sequence.
abbrev pub before : Option (ℕ × ℕ) → Option (ℕ × ℕ) → Bool
before (some (p, s)) (some (q, t)) = ltb q p || (p == q && leb s t)
before _ _ = true

unfoldable pub insert_sorted :
    (NotificationId → Option (ℕ × ℕ)) → NotificationId → List NotificationId → List NotificationId
insert_sorted r x [] = x ∷ []
insert_sorted r x (y ∷ ys) = if before (r x) (r y) then x ∷ y ∷ ys else y ∷ insert_sorted r x ys

-- A stable sort.
unfoldable pub sort_by :
    (NotificationId → Option (ℕ × ℕ)) → List NotificationId → List NotificationId
sort_by r [] = []
sort_by r (x ∷ xs) = insert_sorted r x (sort_by r xs)

unfoldable pub all_live : Entries → List NotificationId → Bool
all_live m [] = true
all_live m (x ∷ xs) = is_some (entry_at x m) && all_live m xs

-- A comparison indexes the map, and a sort of two or more compares each: it panics if one of them
-- has no entry.
unfoldable pub sort_pending : M (Unit {0})
sort_pending s =
    if leb (length s.pending) 1 || all_live s.entries s.pending
    then (ok tt, record s { pending = sort_by (rank s.entries) s.pending })
    else (panicked, s)

abbrev pub same_presentation : Presentation → Presentation → Bool
same_presentation p q = if is_attention p then is_attention q else not (is_attention q)

abbrev pub found :
    NotificationId
    → Outcome (Option (NotificationId × List NotificationId))
    → Outcome (Option (NotificationId × List NotificationId))
found x (ok none) = ok none
found x (ok (some (id, rest))) = ok (some (id, x ∷ rest))
found x (err e) = err e
found x panicked = panicked

-- `self.pending.iter().position(…)` for the first entry of a presentation, and the
-- `self.pending.remove(index)` that follows: that entry, and the others.
unfoldable pub take_first :
    Presentation
    → Entries
    → List NotificationId
    → Outcome (Option (NotificationId × List NotificationId))
take_first p m [] = ok none
take_first p m (x ∷ xs) = elim (entry_at x m) [
  | none ↦ panicked
  | some e ↦
      if same_presentation p e.notification.presentation
      then ok (some (x, xs))
      else found x (take_first p m xs)
]

abbrev pub activate_attention : Option (NotificationId × List NotificationId) → M (Unit {0})
activate_attention none = pure tt
activate_attention (some (id, rest)) =
    modify (λ s. record s { active_attention = some id; pending = rest })

-- The first block of `rebalance`.
unfoldable pub promote_attention : M (Unit {0})
promote_attention s =
    if s.display_available && is_none s.active_attention
    then (do found ← lift (take_first attention s.entries s.pending); activate_attention found) s
    else (ok tt, s)

-- A round of its `while` loop on what `take_first` found, and the rounds after it.
abbrev pub fill_with :
    M (Unit {0}) → Outcome (Option (NotificationId × List NotificationId)) → M (Unit {0})
fill_with again (ok none) s = (ok tt, s)
fill_with again (ok (some (id, rest))) s =
    again (record s { active_toasts = s.active_toasts ++ id ∷ []; pending = rest })
fill_with again (err e) s = (err e, s)
fill_with again panicked s = (panicked, s)

-- The loop, with fuel for its rounds: each takes one of the pending entries.
unfoldable pub fill_toasts : ℕ → M (Unit {0})
fill_toasts zero s = (ok tt, s)
fill_toasts (suc fuel) s =
    if ltb (length s.active_toasts) s.limits.max_visible_toasts
    then fill_with (fill_toasts fuel) (take_first toast s.entries s.pending) s
    else (ok tt, s)

unfoldable pub promote_toasts : M (Unit {0})
promote_toasts s =
    if s.display_available && is_none s.active_attention
    then fill_toasts (length s.pending) s
    else (ok tt, s)

unfoldable pub mark_entry : ℕ → NotificationId → M (Unit {0})
mark_entry wall id = do
  e ← expect_entry id
  modify (put_entry id (record e { notification = mark_visible e.notification wall }))

-- The ids that are on display: the Attention, or else the Toasts.
abbrev pub shown_among : Option NotificationId → List NotificationId → List NotificationId
shown_among (some id) toasts = id ∷ []
shown_among none toasts = toasts

unfoldable pub mark_shown : ℕ → M (Unit {0})
mark_shown wall s =
    if s.display_available
    then for_each (mark_entry wall) (shown_among s.active_attention s.active_toasts) s
    else (ok tt, s)

-- The set `running_ids`: the entries of the active Toasts with no jump under way.
unfoldable pub unpinned : Entries → List NotificationId → Outcome (List NotificationId)
unpinned m [] = ok []
unpinned m (x ∷ xs) = elim (entry_at x m) [
  | none ↦ panicked
  | some e ↦ elim (unpinned m xs) [
    | ok ids ↦ ok (if is_none e.jump_nonce then x ∷ ids else ids)
    | err error ↦ err error
    | panicked ↦ panicked
  ]
]

unfoldable pub running_ids : LiveScheduler → Outcome (List NotificationId)
running_ids s =
    if s.display_available && is_none s.active_attention
    then unpinned s.entries s.active_toasts
    else ok []

abbrev pub contains : NotificationId → List NotificationId → Bool
contains id ids = ltb 0 (count id ids)

unfoldable pub run_timer : ℕ → List NotificationId → NotificationId → M (Unit {0})
run_timer now running id = do
  e ← expect_entry id
  timeout ← lift (set_running e.timeout now (contains id running))
  modify (put_entry id (record e { timeout = timeout }))

unfoldable pub run_timers : ℕ → M (Unit {0})
run_timers now = do
  running ← λ s. (running_ids s, s)
  active ← gets (λ s. s.active_toasts)
  for_each (run_timer now running) active

unfoldable pub rebalance : ℕ → ℕ → M (Unit {0})
rebalance now wall = do promote_attention; promote_toasts; mark_shown wall; run_timers now
