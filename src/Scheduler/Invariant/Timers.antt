-- ===== src/Scheduler/Invariant/Timers.antt =====
-- The last loop of `rebalance`: afterwards a timer runs exactly if its Toast is on display and has
-- no jump under way.
use tmnotify.Base.{
  ℕ, ◌-◌, ◌<◌, ◌≡◌, refl, sym, subst, ap, ◌∙◌, inl, inr, Bool, true, false, Option, none, some,
  List, [], ◌∷◌, arith, present, count, ite, ℕ_discrete, is_none, Bool-cases, if◌then◌else◌, ◌&&◌,
}
use tmnotify.Base.Map.{lookup-insert}
use tmnotify.Notification.Source.{NotificationId}
use tmnotify.Scheduler.State.{
  ok, LiveEntry, Entries, LiveScheduler, entry_at, TimeoutState, never, remaining, set_running,
  elapsed_since,
}
use tmnotify.Scheduler.Exec.{Returns, After-mono, Returns-bind, for_each}
use tmnotify.Scheduler.Operations.{toast_timer_should_run}
use tmnotify.Scheduler.Queues.{unpinned, running_ids, contains, run_timer, run_timers}
use tmnotify.Scheduler.Invariant.{Core, TimerOk}
use tmnotify.Scheduler.Invariant.Live.{active-live, Frame-entry, live_entry}
use tmnotify.Scheduler.Invariant.Show.{
  Stays, Stays-refl, Stays-trans, put_entry-Core, put_entry-Stays,
}

-- A timer that can run does so exactly if it should.
abbrev pub TimerMatches : Bool → TimeoutState → Type 0
TimerMatches running never = Unit
TimerMatches running (remaining d none) = running ≡ false
TimerMatches running (remaining d (some start)) = running ≡ true

-- `set_running` succeeds on a timer that was started in the past.
abbrev pub Settles : ℕ → ℕ → TimeoutState → Bool → Type 0
Settles now active t running =
    (t' : TimeoutState) × (set_running t now running ≡ ok t')
    × TimerMatches running t'
    × (0 < active → TimerOk now active t')
    × (t ≡ never → t' ≡ never)

pub set_running-Settles :
    (now active : ℕ) (t : TimeoutState) (running : Bool)
    → TimerOk now active t
    → Settles now active t running
unfolding set_running elapsed_since
set_running-Settles now active never running h = (never, refl, tt, (λ p. tt), λ p. refl)
set_running-Settles now active (remaining d none) true h =
    (remaining d (some now), refl, refl, (λ p. (omega arith, p)), λ p. ground arith)
set_running-Settles now active (remaining d none) false h =
    (remaining d none, refl, refl, (λ p. tt), λ p. ground arith)
set_running-Settles now active (remaining d (some t)) true h =
    (remaining d (some t), ground arith, refl, (λ p. h), λ p. ground arith)
set_running-Settles now active (remaining d (some t)) false h =
    (remaining (d - (now - t)) none, ground arith, refl, (λ p. tt), λ p. ground arith)

unpinned_lem :
    (m : Entries) (xs : List NotificationId)
    → ((id : NotificationId) → 0 < count id xs → 0 < present (entry_at id m))
    → (ids : List NotificationId) × (unpinned m xs ≡ ok ids)
      × ((id : NotificationId) (e : LiveEntry)
          → entry_at id m ≡ some e
          → contains id ids ≡ contains id xs && is_none e.jump_nonce)
unfolding unpinned count
unpinned_lem m [] h = ([], refl, λ id e at. ground arith)
unpinned_lem m (x ∷ xs) h =
    let (ids, e, mem) = unpinned_lem m xs (λ id k. h id (ground arith)) in
    let (here, at) = live_entry (entry_at x m) (h x (ground arith)) in
    (
      (if is_none here.jump_nonce then x ∷ ids else ids),
      ground arith,
      λ id e' at'. ground (arith, mem id e'),
    )

-- After a step on `x` its timer is settled and the other entries are as they were.
abbrev StepPost :
    List NotificationId → NotificationId → LiveScheduler → Unit {0} → LiveScheduler → Type 0
StepPost running x s _ t =
    Core t
    × Stays s t
    × ((id : NotificationId)
        → ◌≡◌ {A = ℕ} (ite (ℕ_discrete x id) 1 0) 0
        → entry_at id t.entries ≡ entry_at id s.entries)
    × ((e : LiveEntry)
        → entry_at x t.entries ≡ some e
        → TimerMatches (contains x running) e.timeout)

run_timer-Core :
    (running : List NotificationId) (x : NotificationId) (s : LiveScheduler)
    → Core s
    → 0 < count x s.active_toasts
    → Returns (StepPost running x s) (run_timer s.last_now running x s)
unfolding run_timer
run_timer-Core running x s c shown =
    let (e, at) = active-live c x shown in
    let good = c.entries_ok x e at in
    let (t', eq, fits, timer, idle) =
      set_running-Settles s.last_now (count x s.active_toasts) e.timeout (contains x running)
        good.timer in
    rw (at, eq)
      (
        put_entry-Core c x e (record e { timeout = t' }) at
            (record {
              own_id = good.own_id;
              live = good.live;
              never_ends = good.never_ends;
              untimed = λ h. idle (good.untimed h);
              is_toast = good.is_toast;
              is_gate = good.is_gate;
              timer = timer shown;
            }),
        put_entry-Stays s x e (record e { timeout = t' }) at refl,
        (λ id h.
            ground (arith, lookup-insert ℕ_discrete id x (record e { timeout = t' }) s.entries)),
        λ e' at'.
            ground
              (arith, lookup-insert ℕ_discrete x x (record e { timeout = t' }) s.entries, fits),
      )

-- After the loop the timers of its ids are settled and the other entries are as they were.
abbrev LoopPost :
    List NotificationId → List NotificationId → LiveScheduler → Unit {0} → LiveScheduler → Type 0
LoopPost running xs s _ t =
    Core t
    × Stays s t
    × ((id : NotificationId) → count id xs ≡ 0 → entry_at id t.entries ≡ entry_at id s.entries)
    × ((id : NotificationId) (e : LiveEntry)
        → 0 < count id xs
        → entry_at id t.entries ≡ some e
        → TimerMatches (contains id running) e.timeout)

timer_loop :
    (running xs : List NotificationId) (now : ℕ) (s : LiveScheduler)
    → Core s
    → now ≡ s.last_now
    → ((id : NotificationId) → 0 < count id xs → 0 < count id s.active_toasts)
    → Returns (LoopPost running xs s) (for_each (run_timer now running) xs s)
unfolding for_each count
timer_loop running [] now s c e h =
    (c, Stays-refl s, (λ id k. refl), λ id e k. absurd (omega arith))
timer_loop running (x ∷ xs) now s c e h =
    Returns-bind (λ e t. ⊥) (StepPost running x s) (LoopPost running (x ∷ xs) s)
      (run_timer now running x s) (λ _. for_each (run_timer now running) xs)
      (subst (λ n. Returns (StepPost running x s) (run_timer n running x s)) (sym e)
        (run_timer-Core running x s c (h x (ground arith))))
      λ _ t (d, st, others, settled).
        After-mono (for_each (run_timer now running) xs t)
          (timer_loop running xs now t d (e ∙ sym st.frame.last_now)
            (λ id k. ground (arith, h id, st.same_toasts)))
          (λ e u k. k)
          (λ _ u (d', st', others', settled'). (
            d',
            Stays-trans st st',
            (λ id k. ground (arith, others' id, others id)),
            λ id e' k at. ground (arith, settled' id e', others' id, settled e'),
          ))

-- A timer runs exactly where it should: on display, and with no jump under way.
abbrev pub Timed : LiveScheduler → Type 0
Timed s =
    (id : NotificationId) (e : LiveEntry)
    → entry_at id s.entries ≡ some e
    → TimerMatches (toast_timer_should_run id s && is_none e.jump_nonce) e.timeout

abbrev pub TimersPost : LiveScheduler → Unit {0} → LiveScheduler → Type 0
TimersPost s _ t = Core t × Stays s t × Timed t

running_ids_lem :
    {s : LiveScheduler} (c : Core s)
    → (ids : List NotificationId) × (running_ids s ≡ ok ids)
      × ((id : NotificationId) (e : LiveEntry)
          → entry_at id s.entries ≡ some e
          → contains id ids ≡ toast_timer_should_run id s && is_none e.jump_nonce)
unfolding running_ids count
running_ids_lem {s} c = go s.display_available s.active_attention
  where
    go :
        (shown : Bool) (gate : Option NotificationId)
        → (ids : List NotificationId) × ((if shown && is_none gate
              then unpinned s.entries s.active_toasts
              else ok [])
            ≡ ok ids)
          × ((id : NotificationId) (e : LiveEntry)
              → entry_at id s.entries ≡ some e
              → contains id ids
                ≡ shown && is_none gate && contains id s.active_toasts && is_none e.jump_nonce)
    go false gate = ([], refl, λ id e at. ground arith)
    go true (some a) = ([], refl, λ id e at. ground arith)
    go true none = unpinned_lem s.entries s.active_toasts (λ id h. omega (arith, c.located id))

should_run-Stays :
    {s t : LiveScheduler} (st : Stays s t) (id : NotificationId)
    → toast_timer_should_run id t ≡ toast_timer_should_run id s
should_run-Stays st id = cc (st.frame.display_available)

idle-TimerMatches :
    (now active : ℕ) (t : TimeoutState) → active ≡ 0 → TimerOk now active t → TimerMatches false t
idle-TimerMatches now active never h k = tt
idle-TimerMatches now active (remaining d none) h k = refl
idle-TimerMatches now active (remaining d (some start)) h k = absurd (omega arith)

-- The timers are settled, on display or not.
settle :
    {s t : LiveScheduler} (c : Core t) (st : Stays s t) (ids : List NotificationId)
    → ((id : NotificationId) (e : LiveEntry)
        → entry_at id s.entries ≡ some e
        → contains id ids ≡ toast_timer_should_run id s && is_none e.jump_nonce)
    → ((id : NotificationId) (e : LiveEntry)
        → 0 < count id s.active_toasts
        → entry_at id t.entries ≡ some e
        → TimerMatches (contains id ids) e.timeout)
    → Timed t
settle {s} {t} c st ids mem settled id e at = elim (Bool-cases (contains id t.active_toasts)) [
  | inl active ↦
      let (e', at', same) = Frame-entry st.frame id e at in
      subst (λ b. TimerMatches b e.timeout)
        (ground
          (arith, mem id e', should_run-Stays st id, ap (λ (x : LiveEntry). x.jump_nonce) same))
        (settled id e (ground (arith, st.same_toasts)) at)
  | inr idle ↦
      subst (λ b. TimerMatches b e.timeout) (ground arith)
        (idle-TimerMatches t.last_now (count id t.active_toasts) e.timeout (ground arith)
          (c.entries_ok id e at).timer)
]

-- The timers run exactly where they should; only they change.
pub run_timers-Core :
    {s : LiveScheduler} (now : ℕ)
    → Core s
    → now ≡ s.last_now
    → Returns (TimersPost s) (run_timers now s)
unfolding run_timers
run_timers-Core {s} now c e =
    let (ids, eq, mem) = running_ids_lem c in
    rw eq (
      After-mono (for_each (run_timer now ids) s.active_toasts s)
        (timer_loop ids s.active_toasts now s c e (λ id h. h)) (λ e u k. k)
        (λ _ t (d, st, others, settled). (d, st, settle d st ids mem settled)))
