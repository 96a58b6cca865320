-- ===== src/Scheduler/Invariant/Presented.antt =====
-- What `rebalance` does to the Notifications of the entries: it marks those on display as visible.
use tmnotify.Base.{
  ℕ, ◌≡◌, refl, ap, ◌∙◌, inl, inr, Bool, true, false, ◌&&◌, ◌||◌, Option, none, some, List, [], ◌∷◌,
  arith, count, ℕ_discrete, Option-cases, if◌then◌else◌,
}
use mathlib.Core.Option
use tmnotify.Base.Map.{lookup-insert}
use tmnotify.Notification.Source.{NotificationId, DeliveryState, pending, visible, closed}
use tmnotify.Notification.Record.{Notification, mark_visible}
use tmnotify.Scheduler.State.{
  Outcome, ok, err, panicked, SchedulerError, LiveEntry, LiveScheduler, TimeoutState, entry_at,
  set_running,
}
use tmnotify.Scheduler.Exec.{M, After, continue, for_each, modify, put_entry}
use tmnotify.Scheduler.Queues.{
  contains, shown_among, mark_entry, mark_shown, run_timer, run_timers, running_ids,
}

-- What holds of the result if there is one.
abbrev pub IfReturns :
    {A : Type 0} → (A → LiveScheduler → Type 0) → Outcome A × LiveScheduler → Type 0
IfReturns Q (ok a, s) = Q a s
IfReturns Q (err e, s) = Unit
IfReturns Q (panicked, s) = Unit

IfReturns-bind :
    {A B : Type 0} (Q : A → LiveScheduler → Type 0) (R : B → LiveScheduler → Type 0)
    (r : Outcome A × LiveScheduler) (f : A → M B)
    → IfReturns Q r
    → ((a : A) (s : LiveScheduler) → Q a s → IfReturns R (f a s))
    → IfReturns R (continue r f)
IfReturns-bind Q R (ok a, s) f h k = k a s h
IfReturns-bind Q R (err e, s) f h k = tt
IfReturns-bind Q R (panicked, s) f h k = tt

IfReturns-mono :
    {A : Type 0} (Q R : A → LiveScheduler → Type 0) (r : Outcome A × LiveScheduler)
    → IfReturns Q r
    → ((a : A) (s : LiveScheduler) → Q a s → R a s)
    → IfReturns R r
IfReturns-mono Q R (ok a, s) h k = k a s h
IfReturns-mono Q R (err e, s) h k = tt
IfReturns-mono Q R (panicked, s) h k = tt

pub After-also :
    {A : Type 0} (E : SchedulerError → LiveScheduler → Type 0) (Q R : A → LiveScheduler → Type 0)
    (r : Outcome A × LiveScheduler)
    → After E Q r
    → IfReturns R r
    → After E (λ a s. Q a s × R a s) r
After-also E Q R (ok a, s) h k = (h, k)
After-also E Q R (err e, s) h k = h
After-also E Q R (panicked, s) h k = absurd h

-- The Notification with an id
abbrev pub seen : NotificationId → LiveScheduler → Option Notification
seen id s = Option.map (λ (e : LiveEntry). e.notification) (entry_at id s.entries)

abbrev pub is_pending : DeliveryState → Bool
is_pending pending = true
is_pending visible = false
is_pending closed = false

-- A pending Notification that is on display becomes visible, at this time of the wall clock. Any
-- other is as it was.
abbrev pub presented : ℕ → Bool → Notification → Notification
presented wall shown n =
    if shown && is_pending n.delivery then record n { delivery = visible; updated_at = wall } else n

-- The Attention is on display, or else the Toasts are.
abbrev pub on_display : NotificationId → LiveScheduler → Bool
on_display id s =
    s.display_available && contains id (shown_among s.active_attention s.active_toasts)

-- The ids among some are presented.
abbrev pub Presents : ℕ → (NotificationId → Bool) → LiveScheduler → LiveScheduler → Type 0
Presents wall shown s t =
    (id : NotificationId) → seen id t ≡ Option.map (presented wall (shown id)) (seen id s)

presented_visible : (wall : ℕ) (n : Notification) → mark_visible n wall ≡ presented wall true n
unfolding mark_visible
presented_visible wall n = go n.delivery
  where
    go :
        (d : DeliveryState)
        → mark_visible (record n { delivery = d }) wall
          ≡ presented wall true (record n { delivery = d })
    go pending = refl
    go visible = refl
    go closed = refl

presented_twice :
    (wall : ℕ) (a b : Bool) (o : Option Notification)
    → Option.map (presented wall b) (Option.map (presented wall a) o)
      ≡ Option.map (presented wall (a || b)) o
presented_twice wall a b none = refl
presented_twice wall a b (some n) = ground arith

presented_none : (wall : ℕ) (o : Option Notification) → o ≡ Option.map (presented wall false) o
presented_none wall none = refl
presented_none wall (some n) = refl

mark_entry-Presents :
    (wall : ℕ) (x : NotificationId) (s : LiveScheduler)
    → IfReturns (λ _ t. Presents wall (λ id. contains id (x ∷ [])) s t) (mark_entry wall x s)
unfolding mark_entry count
mark_entry-Presents wall x s = elim (Option-cases (entry_at x s.entries)) [
  | inl gone ↦ rw gone tt
  | inr (e, at) ↦ rw at (λ id. ground (
    arith,
    at,
    presented_visible wall e.notification,
    presented_none wall (seen id s),
    lookup-insert ℕ_discrete id x (record e { notification = mark_visible e.notification wall })
        s.entries,
  ))
]

contains_or :
    (id x : NotificationId) (xs : List NotificationId)
    → (contains id (x ∷ []) || contains id xs) ≡ contains id (x ∷ xs)
unfolding count
contains_or id x xs = ground arith

mark_loop-Presents :
    (wall : ℕ) (xs : List NotificationId) (s : LiveScheduler)
    → IfReturns (λ _ t. Presents wall (λ id. contains id xs) s t) (for_each (mark_entry wall) xs s)
unfolding for_each count
mark_loop-Presents wall [] s = λ id. presented_none wall (seen id s)
mark_loop-Presents wall (x ∷ xs) s =
    IfReturns-bind (λ _ t. Presents wall (λ id. contains id (x ∷ [])) s t)
      (λ _ t. Presents wall (λ id. contains id (x ∷ xs)) s t) (mark_entry wall x s)
      (λ _. for_each (mark_entry wall) xs) (mark_entry-Presents wall x s)
      (λ _ t h.
        IfReturns-mono (λ _ u. Presents wall (λ id. contains id xs) t u)
          (λ _ u. Presents wall (λ id. contains id (x ∷ xs)) s u) (for_each (mark_entry wall) xs t)
          (mark_loop-Presents wall xs t)
          (λ _ u h' id.
            h' id
            ∙ ap (Option.map (presented wall (contains id xs))) (h id)
            ∙ presented_twice wall (contains id (x ∷ [])) (contains id xs) (seen id s)
            ∙ ap (λ b. Option.map (presented wall b) (seen id s)) (contains_or id x xs)))

-- `mark_shown` presents what is on display.
pub mark_shown-Presents :
    (wall : ℕ) (s : LiveScheduler)
    → IfReturns (λ _ t. Presents wall (λ id. on_display id s) s t) (mark_shown wall s)
unfolding mark_shown
mark_shown-Presents wall s = go s.display_available
  where
    go :
        (up : Bool)
        → IfReturns
            (λ _ t.
              Presents wall
                (λ id. up && contains id (shown_among s.active_attention s.active_toasts))
                s
                t)
            (if up
              then for_each (mark_entry wall) (shown_among s.active_attention s.active_toasts) s
              else (ok tt, s))
    go true = mark_loop-Presents wall (shown_among s.active_attention s.active_toasts) s
    go false = λ id. presented_none wall (seen id s)

-- A round of the timers leaves the Notifications alone.
abbrev pub SameSeen : LiveScheduler → LiveScheduler → Type 0
SameSeen s t = (id : NotificationId) → seen id t ≡ seen id s

run_timer-SameSeen :
    (now : ℕ) (running : List NotificationId) (x : NotificationId) (s : LiveScheduler)
    → IfReturns (λ _ t. SameSeen s t) (run_timer now running x s)
unfolding run_timer
run_timer-SameSeen now running x s = elim (Option-cases (entry_at x s.entries)) [
  | inl gone ↦ rw gone tt
  | inr (e, at) ↦ rw at (settle e at (set_running e.timeout now (contains x running)))
]
  where
    settle :
        (e : LiveEntry)
        → entry_at x s.entries ≡ some e
        → (r : Outcome TimeoutState)
        → IfReturns
            (λ _ t. SameSeen s t)
            (continue {B = Unit {0}}
              (r, s)
              (λ timeout. modify (put_entry x (record e { timeout = timeout }))))
    settle e at (ok timeout) = λ id.
        ground (arith, at, lookup-insert ℕ_discrete id x (record e { timeout = timeout }) s.entries)
    settle e at (err error) = tt
    settle e at panicked = tt

run_loop-SameSeen :
    (now : ℕ) (running xs : List NotificationId) (s : LiveScheduler)
    → IfReturns (λ _ t. SameSeen s t) (for_each (run_timer now running) xs s)
unfolding for_each
run_loop-SameSeen now running [] s = λ id. refl
run_loop-SameSeen now running (x ∷ xs) s =
    IfReturns-bind (λ _ t. SameSeen s t) (λ _ t. SameSeen s t) (run_timer now running x s)
      (λ _. for_each (run_timer now running) xs) (run_timer-SameSeen now running x s)
      (λ _ t h.
        IfReturns-mono (λ _ u. SameSeen t u) (λ _ u. SameSeen s u)
          (for_each (run_timer now running) xs t) (run_loop-SameSeen now running xs t)
          (λ _ u h' id. h' id ∙ h id))

pub run_timers-SameSeen :
    (now : ℕ) (s : LiveScheduler) → IfReturns (λ _ t. SameSeen s t) (run_timers now s)
unfolding run_timers
run_timers-SameSeen now s = go (running_ids s)
  where
    go :
        (r : Outcome (List NotificationId))
        → IfReturns
            (λ _ t. SameSeen s t)
            (continue (r, s) (λ running s'. for_each (run_timer now running) s'.active_toasts s'))
    go (ok ids) = run_loop-SameSeen now ids s.active_toasts s
    go (err e) = tt
    go panicked = tt
