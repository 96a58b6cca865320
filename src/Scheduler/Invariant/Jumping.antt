-- ===== src/Scheduler/Invariant/Jumping.antt =====
-- A jump to a Source Pane: `begin_jump` pins the Notification and stops its timer.
use tmnotify.Base.{
  ℕ, ◌≡◌, refl, sym, subst, ap, ◌∙◌, ◌⊎◌, inl, inr, Bool, true, false, Option, none, some, arith,
  count, ℕ_discrete, is_none, is_some, Option-cases, Bool-cases, if◌then◌else◌, ◌&&◌,
}
use tmnotify.Base.Map
use tmnotify.Base.Map.{lookup-insert, insert-insert}
use tmnotify.Notification.Source.{NotificationId, SourceContext, toast, attention}
use tmnotify.Scheduler.State.{
  ok, LiveEntry, LiveScheduler, entry_at, err, SchedulerError, JumpIntent, TimeoutState, never,
  remaining, expired, jump_already_pending, missing_source, notification_not_live, wrapping_inc,
}
use tmnotify.Scheduler.Exec.{After, After-mono, After-bind, put_entry, throw, or_throw}
use tmnotify.Scheduler.Lifecycle.{prepare_time, entry_expired, is_due, not_live}
use tmnotify.Scheduler.Queues.{same_presentation}
use tmnotify.Scheduler.Operations.{
  toast_timer_should_run, begin_jump_inner, begin_jump, holds_intent, jump_source,
}
use tmnotify.Scheduler.Invariant.{EntryOk, TimerOk}
use tmnotify.Scheduler.Invariant.Show.{put_entry-Core}
use tmnotify.Scheduler.Invariant.Close.{TimerShown}
use tmnotify.Scheduler.Invariant.Timers.{Timed, TimerMatches, set_running-Settles}
use tmnotify.Scheduler.Invariant.Prepare.{Inv, Prepared, prepare_time-Inv}
use tmnotify.Scheduler.Invariant.Replacing.{put_entry-Keyed}

-- The entry of a Notification with another timer and jump, and nothing else.
abbrev pub pinned_entry : LiveEntry → Option ℕ → TimeoutState → LiveEntry
pinned_entry e nonce t = record e { jump_nonce = nonce; timeout = t }

pub pinned-Inv :
    {s : LiveScheduler} (id : NotificationId) (e : LiveEntry) (nonce : Option ℕ) (t : TimeoutState)
    → Inv s
    → entry_at id s.entries ≡ some e
    → TimerOk s.last_now (count id s.active_toasts) t
    → (e.timeout ≡ never → t ≡ never)
    → TimerShown (toast_timer_should_run id s) t
    → Inv (put_entry id (pinned_entry e nonce t) s)
pinned-Inv {s} id e nonce t v at timer untimed shown =
    let k = v.sound.core.entries_ok id e at in
    let x = pinned_entry e nonce t in
    record {
      sound = record {
        core = put_entry-Core v.sound.core id e x at (pinned-EntryOk k);
        keyed = put_entry-Keyed id x e v.sound.keyed at refl;
        runs = λ j y at'. elim (ℕ_discrete id j) [
          | yes p ↦
              let same : x ≡ y = ground (arith, lookup-insert ℕ_discrete j id x s.entries) in
              rw (sym p, sym same) shown
          | no p ↦ v.sound.runs j y (ground (arith, lookup-insert ℕ_discrete j id x s.entries))
        ];
        closed_ok = record {
          room = v.sound.closed_ok.room;
          bounded = v.sound.closed_ok.bounded;
          done = v.sound.closed_ok.done;
        };
      };
      gate_filled = λ up free j y c at'.
          let (z, old, same) = behind j y at' in
          ap (same_presentation attention) same ∙ v.gate_filled up free j z c old;
      toasts_filled = λ up free. elim (v.toasts_filled up free) [
        | inl full ↦ inl full
        | inr empty ↦ inr (λ j y c at'.
            let (z, old, same) = behind j y at' in
            ap (same_presentation toast) same ∙ empty j z c old)
      ];
    }
  where
    pinned-EntryOk :
        EntryOk s.last_now s.active_toasts s.active_attention id e
        → EntryOk s.last_now s.active_toasts s.active_attention id (pinned_entry e nonce t)
    pinned-EntryOk k = record {
      own_id = k.own_id;
      live = k.live;
      never_ends = k.never_ends;
      untimed = λ h. untimed (k.untimed h);
      is_toast = k.is_toast;
      is_gate = k.is_gate;
      timer = timer;
    }

    behind :
        (j : NotificationId) (y : LiveEntry)
        → entry_at j (Map.insert ℕ_discrete id (pinned_entry e nonce t) s.entries) ≡ some y
        → (z : LiveEntry) × (entry_at j s.entries ≡ some z)
          × (y.notification.presentation ≡ z.notification.presentation)
    behind j y at' = elim (ℕ_discrete id j) [
      | yes p ↦ (
        e,
        ap (λ i. entry_at i s.entries) (sym p) ∙ at,
        ground (arith, lookup-insert ℕ_discrete j id (pinned_entry e nonce t) s.entries),
      )
      | no p ↦ (
        y,
        ground (arith, lookup-insert ℕ_discrete j id (pinned_entry e nonce t) s.entries),
        refl,
      )
    ]

-- A timer that does not run does not end.
stopped-expired :
    (t : TimeoutState) → TimerMatches false t → (later : ℕ) → expired t later ≡ ok false
unfolding expired
stopped-expired never h later = refl
stopped-expired (remaining d none) h later = refl
stopped-expired (remaining d (some start)) h later = absurd (ground arith)

stopped-TimerShown : (b : Bool) (t : TimeoutState) → TimerMatches false t → TimerShown b t
stopped-TimerShown b never h = tt
stopped-TimerShown b (remaining d none) h = tt
stopped-TimerShown b (remaining d (some start)) h = absurd (ground arith)

-- While a jump is under way: the intent fits the live entry, whose time does not end.
abbrev pub Jumping : NotificationId → JumpIntent → LiveScheduler → Type 0
Jumping id intent t =
    Inv t
    × (intent.notification_id ≡ id)
    × (holds_intent intent (entry_at id t.entries) ≡ true)
    × ((later : ℕ) → entry_expired later (entry_at id t.entries) ≡ false)

Inv-nonce : {s : LiveScheduler} (n : ℕ) → Inv s → Inv (record s { next_jump_nonce = n })
Inv-nonce {s} n v = record {
  sound = record {
    core = record {
      located = λ id. v.sound.core.located id;
      entries_ok = λ id e at. v.sound.core.entries_ok id e at;
      capacity = v.sound.core.capacity;
    };
    keyed = record {
      key_live = λ j i h. v.sound.keyed.key_live j i h;
      live_key = λ i e j h. v.sound.keyed.live_key i e j h;
    };
    runs = λ id e at. v.sound.runs id e at;
    closed_ok = record {
      room = v.sound.closed_ok.room;
      bounded = v.sound.closed_ok.bounded;
      done = v.sound.closed_ok.done;
    };
  };
  gate_filled = λ up free. v.gate_filled up free;
  toasts_filled = λ up free. v.toasts_filled up free;
}

pinned-Jumping :
    (s : LiveScheduler) (id : NotificationId) (e : LiveEntry) (t : TimeoutState)
    (source : SourceContext)
    → Inv s
    → entry_at id s.entries ≡ some e
    → TimerOk s.last_now (count id s.active_toasts) t
    → (e.timeout ≡ never → t ≡ never)
    → TimerMatches false t
    → Jumping id
        (record { notification_id = id; nonce = s.next_jump_nonce; source = source })
        (put_entry id
          (pinned_entry e (some s.next_jump_nonce) t)
          (record s { next_jump_nonce = wrapping_inc s.next_jump_nonce }))
pinned-Jumping s id e t source v at timer untimed stopped =
    let x = pinned_entry e (some s.next_jump_nonce) t in
    let here : entry_at id (Map.insert ℕ_discrete id x s.entries) ≡ some x =
      ground (arith, lookup-insert ℕ_discrete id id x s.entries) in
    (
      pinned-Inv id e (some s.next_jump_nonce) t (Inv-nonce (wrapping_inc s.next_jump_nonce) v) at
          timer untimed (stopped-TimerShown _ t stopped),
      refl,
      ground (arith, here),
      λ later. ap (entry_expired later) here ∙ ap is_due (stopped-expired t stopped later),
    )

-- The checks read the entry, and change nothing.
jump_source_lem :
    (x : LiveEntry) (s : LiveScheduler)
    → ((e : SchedulerError) × (jump_source x s ≡ (err e, s)))
      ⊎ ((source : SourceContext) × (jump_source x s ≡ (ok source, s)))
jump_source_lem x s = go (not_live (some x)) (is_some x.jump_nonce) x.notification.source
  where
    go :
        (dead pinned : Bool) (source : Option SourceContext)
        → ((e : SchedulerError) × ((if dead
                  then throw notification_not_live
                  else if pinned
                  then throw jump_already_pending
                  else or_throw source missing_source)
                s
              ≡ (err e, s)))
          ⊎ ((src : SourceContext) × ((if dead
                    then throw notification_not_live
                    else if pinned
                    then throw jump_already_pending
                    else or_throw source missing_source)
                  s
                ≡ (ok src, s)))
    go true pinned source = inl (notification_not_live, refl)
    go false true source = inl (jump_already_pending, refl)
    go false false none = inl (missing_source, refl)
    go false false (some src) = inr (src, refl)

begin_jump_inner-Jumping :
    (s : LiveScheduler) (id : NotificationId)
    → Inv s
    → Timed s
    → After (λ e t. t ≡ s) (Jumping id) (begin_jump_inner id s)
unfolding begin_jump_inner
begin_jump_inner-Jumping s id v timed = elim (Option-cases (entry_at id s.entries)) [
  | inl e ↦ rw e refl
  | inr (x, at) ↦ elim (jump_source_lem x s) [
    | inl (e, fails) ↦ rw (at, fails) refl
    | inr (source, found) ↦
        let (t, runs, stopped, good, untimed) =
          set_running-Settles s.last_now (count id s.active_toasts) x.timeout false
            (v.sound.core.entries_ok id x at).timer in
        elim (Bool-cases (toast_timer_should_run id s)) [
          | inl on ↦
              rw
                (
                  at,
                  found,
                  on,
                  runs,
                  insert-insert ℕ_discrete id (pinned_entry x (some s.next_jump_nonce) t)
                      (record x { jump_nonce = some s.next_jump_nonce }) s.entries,
                )
                (pinned-Jumping s id x t source v at (good (ground arith)) untimed stopped)
          | inr off ↦
              rw (at, found, off)
                (pinned-Jumping s id x x.timeout source v at (v.sound.core.entries_ok id x at).timer
                  (λ h. h)
                  (subst (λ b. TimerMatches (b && is_none x.jump_nonce) x.timeout) off
                    (timed id x at)))
        ]
  ]
]

-- On a well-formed scheduler, `begin_jump` does not panic, and leaves the scheduler well formed.
-- Where it returns an intent, the intent names the Notification, fits its live entry, and that
-- entry does not time out at any later time.
pub begin_jump-Jumping :
    (id : NotificationId) (now wall : ℕ) (s : LiveScheduler)
    → Inv s
    → After (λ e t. Inv t) (Jumping id) (begin_jump id now wall s)
unfolding begin_jump
begin_jump-Jumping id now wall s v =
    After-bind (λ e t. Inv t) (Prepared now s) (Jumping id) (prepare_time now wall s) _
      (After-mono (prepare_time now wall s) (prepare_time-Inv now wall s v)
        (λ e t (_, _, same). subst Inv (sym same) v) (λ _ t p. p))
      (λ _ t p.
        After-mono (begin_jump_inner id t) (begin_jump_inner-Jumping t id p.0 p.1)
          (λ e u same. subst Inv (sym same) p.0) (λ intent u h. h))
