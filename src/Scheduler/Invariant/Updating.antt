-- ===== src/Scheduler/Invariant/Updating.antt =====
-- `update`: the content changes in place.
use tmnotify.Base.{
  ℕ, ◌<◌, ◌≡◌, refl, sym, ap, ◌∙◌, ◌⊎◌, inl, inr, Bool, true, false, none, some, List, arith, count,
  ℕ_discrete, Option-cases, Bool-cases,
}
use tmnotify.Base.Map
use tmnotify.Base.Map.{lookup-insert}
use tmnotify.Notification.Source.{NotificationId, Presentation, toast, attention, Timeout}
use tmnotify.Notification.Draft.{is_attention}
use tmnotify.Notification.Update.{NotificationUpdate}
use tmnotify.Notification.Record.{Notification, apply_update}
use tmnotify.Notification.Record.Laws.{apply_update_keeps, apply_update_unchanged}
use tmnotify.Scheduler.State.{
  ok, LiveEntry, LiveScheduler, entry_at, SchedulerError, TimeoutState, never, restart,
  notification_not_live, UpdateDisposition,
}
use tmnotify.Scheduler.Exec.{
  After, Returns, After-mono, After-exact, After-bind, Returns-bind, put_entry,
}
use tmnotify.Scheduler.Lifecycle.{prepare_time}
use tmnotify.Scheduler.Queues.{same_presentation, rank, sort_by, sort_pending}
use tmnotify.Scheduler.Order.{count-sort_by, sort_pending-Sorts, SortPost}
use tmnotify.Scheduler.Operations.{toast_timer_should_run, update, update_entry, update_changed}
use tmnotify.Scheduler.Invariant.{EntryOk, TimerOk}
use tmnotify.Scheduler.Invariant.Show.{put_entry-Core}
use tmnotify.Scheduler.Invariant.Close.{TimerShown}
use tmnotify.Scheduler.Invariant.Prepare.{Inv, Prepared, Backwards, prepare_time-Inv}
use tmnotify.Scheduler.Invariant.Replacing.{put_entry-Keyed, restart-TimerOk}
use tmnotify.Scheduler.Invariant.Entering.{Core-reordered}
use tmnotify.Scheduler.Invariant.Submitting.Answer.{Inv-bumped}

-- The entry with other content and another timer.
abbrev revised : LiveEntry → Notification → TimeoutState → LiveEntry
revised e n t = record e { notification = n; timeout = t }

-- What stays of a Notification that is revised.
abbrev Same : Notification → Notification → Type 0
Same n m =
    (n.id ≡ m.id) × (n.key ≡ m.key) × (n.presentation ≡ m.presentation) × (n.delivery ≡ m.delivery)

revised-Inv :
    {s : LiveScheduler} (id : NotificationId) (e : LiveEntry) (n : Notification) (t : TimeoutState)
    → Inv s
    → entry_at id s.entries ≡ some e
    → Same n e.notification
    → TimerOk s.last_now (count id s.active_toasts) t
    → (is_attention n.presentation ≡ true → (n.timeout ≡ Timeout.never) × (t ≡ never))
    → TimerShown (toast_timer_should_run id s) t
    → Inv (put_entry id (revised e n t) s)
revised-Inv {s} id e n t v at (same_id, same_key, same_p, same_d) timer untimed shown =
    let k = v.sound.core.entries_ok id e at in
    let x = revised e n t in
    record {
      sound = record {
        core = put_entry-Core v.sound.core id e x at (revised-EntryOk k);
        keyed = put_entry-Keyed id x e v.sound.keyed at same_key;
        runs = λ j y at'. elim (ℕ_discrete id j) [
          | yes p ↦
              let same : x ≡ y = ground (arith, lookup-insert ℕ_discrete j id x s.entries) in
              rw (sym p, sym same) shown
          | no p ↦ v.sound.runs j y (ground (arith, lookup-insert ℕ_discrete j id x s.entries))
        ];
        closed_ok = record {
          room = v.sound.closed_ok.room;
          bounded = v.sound.closed_ok.bounded;
          done = v.sound.closed_ok.done;
        };
      };
      gate_filled = λ up free j y c at'.
          let (z, old, same) = behind j y at' in
          ap (same_presentation attention) same ∙ v.gate_filled up free j z c old;
      toasts_filled = λ up free. elim (v.toasts_filled up free) [
        | inl full ↦ inl full
        | inr empty ↦ inr (λ j y c at'.
            let (z, old, same) = behind j y at' in
            ap (same_presentation toast) same ∙ empty j z c old)
      ];
    }
  where
    revised-EntryOk :
        EntryOk s.last_now s.active_toasts s.active_attention id e
        → EntryOk s.last_now s.active_toasts s.active_attention id (revised e n t)
    revised-EntryOk k = record {
      own_id = same_id ∙ k.own_id;
      live = ground (arith, k.live);
      never_ends = λ h. (untimed h).0;
      untimed = λ h. (untimed h).1;
      is_toast = λ h. ap is_attention same_p ∙ k.is_toast h;
      is_gate = λ h. ap is_attention same_p ∙ k.is_gate h;
      timer = timer;
    }

    behind :
        (j : NotificationId) (y : LiveEntry)
        → entry_at j (Map.insert ℕ_discrete id (revised e n t) s.entries) ≡ some y
        → (z : LiveEntry) × (entry_at j s.entries ≡ some z)
          × (y.notification.presentation ≡ z.notification.presentation)
    behind j y at' = elim (ℕ_discrete id j) [
      | yes p ↦
          let same : revised e n t ≡ y =
            ground (arith, lookup-insert ℕ_discrete j id (revised e n t) s.entries) in
          (
            e,
            ap (λ i. entry_at i s.entries) (sym p) ∙ at,
            ap (λ (z : LiveEntry). z.notification.presentation) (sym same) ∙ same_p,
          )
      | no p ↦ (y, ground (arith, lookup-insert ℕ_discrete j id (revised e n t) s.entries), refl)
    ]

Inv-reordered :
    {s : LiveScheduler} (xs : List NotificationId)
    → ((id : NotificationId) → count id xs ≡ count id s.pending)
    → Inv s
    → Inv (record s { pending = xs })
Inv-reordered {s} xs same v = record {
  sound = record {
    core = Core-reordered xs same v.sound.core;
    keyed = record {
      key_live = λ j i h. v.sound.keyed.key_live j i h;
      live_key = λ i e j h. v.sound.keyed.live_key i e j h;
    };
    runs = λ id e at. v.sound.runs id e at;
    closed_ok = record {
      room = v.sound.closed_ok.room;
      bounded = v.sound.closed_ok.bounded;
      done = v.sound.closed_ok.done;
    };
  };
  gate_filled = λ up free j y c at. v.gate_filled up free j y (omega (arith, same j)) at;
  toasts_filled = λ up free. elim (v.toasts_filled up free) [
    | inl full ↦ inl full
    | inr empty ↦ inr (λ j y c at. empty j y (omega (arith, same j)) at)
  ];
}

restart-TimerShown : (t : Timeout) (now : ℕ) (b : Bool) → TimerShown b (restart t now b)
unfolding restart
restart-TimerShown Timeout.never now b = tt
restart-TimerShown (Timeout.after d) now true = refl
restart-TimerShown (Timeout.after d) now false = tt

running-active :
    (id : NotificationId) (s : LiveScheduler)
    → toast_timer_should_run id s ≡ true
    → 0 < count id s.active_toasts
running-active id s h = ground arith

-- The Notification with an id before and after an update.
abbrev pub Updates :
    NotificationId → NotificationUpdate → ℕ → LiveScheduler → LiveScheduler → Type 0
Updates id u wall s t =
    (e : LiveEntry) × (x : LiveEntry) × (entry_at id s.entries ≡ some e)
    × (entry_at id t.entries ≡ some x)
    × (x.notification ≡ (apply_update e.notification u wall).0)

abbrev pub UpdatePost :
    NotificationId
    → NotificationUpdate
    → ℕ
    → LiveScheduler
    → UpdateDisposition
    → LiveScheduler
    → Type 0
UpdatePost id u wall s out t = Inv t × Updates id u wall s t

is_attention_lem : (p : Presentation) → is_attention p ≡ true → p ≡ attention
is_attention_lem attention h = refl
is_attention_lem toast h = absurd (ground arith)

update_changed-Post :
    (s : LiveScheduler) (id : NotificationId) (u : NotificationUpdate) (wall : ℕ) (e : LiveEntry)
    → Inv s
    → entry_at id s.entries ≡ some e
    → Returns (UpdatePost id u wall s) (
        update_changed id e
          (apply_update e.notification u wall).0
          (toast_timer_should_run id s)
          s.last_now
          s)
unfolding update_changed restart
update_changed-Post s id u wall e v at =
    let n = (apply_update e.notification u wall).0 in
    let (same_id, same_key, same_p, _, same_d, _, _, _, kept) =
      apply_update_keeps e.notification u wall in
    let t = restart n.timeout s.last_now (toast_timer_should_run id s) in
    let x = revised e n t in
    let w = put_entry id x s in
    let inv =
      revised-Inv id e n t v at (same_id, same_key, same_p, same_d)
        (restart-TimerOk s.last_now (count id s.active_toasts) n.timeout
          (toast_timer_should_run id s) (running-active id s))
        (λ h. ends n e (v.sound.core.entries_ok id e at) same_p kept h)
        (restart-TimerShown n.timeout s.last_now (toast_timer_should_run id s)) in
    Returns-bind (λ e t. ⊥) (SortPost w) (UpdatePost id u wall s) (sort_pending w) _
      (sort_pending-Sorts w (λ j h. omega (arith, inv.sound.core.located j)))
      (λ _ r same. rw same (
        Inv-bumped (
            Inv-reordered (sort_by (rank w.entries) w.pending)
              (λ j. count-sort_by (rank w.entries) j w.pending) inv),
        (e, x, at, ground (arith, lookup-insert ℕ_discrete id id x s.entries), refl),
      ))
  where
    ends :
        (n : Notification) (e : LiveEntry)
        → EntryOk s.last_now s.active_toasts s.active_attention id e
        → n.presentation ≡ e.notification.presentation
        → (e.notification.presentation ≡ attention → n.timeout ≡ e.notification.timeout)
        → is_attention n.presentation ≡ true
        → (n.timeout ≡ Timeout.never)
          × (restart n.timeout s.last_now (toast_timer_should_run id s) ≡ never)
    ends n e k same_p kept h =
        let old : is_attention e.notification.presentation ≡ true =
          ap is_attention (sym same_p) ∙ h in
        let over : n.timeout ≡ Timeout.never =
          kept (is_attention_lem e.notification.presentation old) ∙ k.never_ends old in
        (over, ap (λ t. restart t s.last_now (toast_timer_should_run id s)) over)

-- The two ways it fails.
abbrev pub UpdateFails : NotificationId → LiveScheduler → SchedulerError → LiveScheduler → Type 0
UpdateFails id s e t = (e ≡ notification_not_live) × (entry_at id s.entries ≡ none) × (t ≡ s)

pub update_entry-Post :
    (id : NotificationId) (u : NotificationUpdate) (now wall : ℕ) (s : LiveScheduler)
    → Inv s
    → now ≡ s.last_now
    → After (UpdateFails id s) (UpdatePost id u wall s) (update_entry id u now wall s)
unfolding update_entry
update_entry-Post id u now wall s v last = elim (Option-cases (entry_at id s.entries)) [
  | inl gone ↦ rw gone (refl, gone, refl)
  | inr (e, at) ↦ elim (Bool-cases (apply_update e.notification u wall).1) [
    | inl changed ↦
        rw (at, changed, last)
          (After-mono
            (update_changed id e (apply_update e.notification u wall).0
              (toast_timer_should_run id s) s.last_now s)
            (update_changed-Post s id u wall e v at) (λ e t h. absurd h) (λ out t h. h))
    | inr same ↦
        rw (at, same) (v, (e, e, at, at, sym (apply_update_unchanged e.notification u wall same)))
  ]
]

-- The update fails: the clock went backwards, or there is no such entry at the new time.
abbrev pub UpdateStops :
    NotificationId → ℕ → ℕ → LiveScheduler → SchedulerError → LiveScheduler → Type 0
UpdateStops id now wall s e t =
    Backwards now s e t
    ⊎ ((e ≡ notification_not_live)
        × (prepare_time now wall s ≡ (ok tt, t))
        × (entry_at id t.entries ≡ none))

-- The update is done, on what `prepare_time` leaves.
abbrev pub UpdateEnds :
    NotificationId → NotificationUpdate → ℕ → ℕ → LiveScheduler → LiveScheduler → Type 0
UpdateEnds id u now wall s t =
    (r : LiveScheduler) × (prepare_time now wall s ≡ (ok tt, r))
    × Prepared now s tt r
    × Inv t
    × Updates id u wall r t

-- On a well-formed scheduler, `update` does not panic. It fails if the clock went backwards, with
-- no change, or, with the state that `prepare_time` leaves, if the id is not live there.
-- Otherwise the scheduler is well formed, and the Notification is what `apply_update` makes of
-- the very one in the state that `prepare_time` left.
pub update-Updates :
    (id : NotificationId) (u : NotificationUpdate) (now wall : ℕ) (s : LiveScheduler)
    → Inv s
    → After
        (λ e t. UpdateStops id now wall s e t)
        (λ _ t. UpdateEnds id u now wall s t)
        (update id u now wall s)
unfolding update
update-Updates id u now wall s v =
    After-bind _ (λ _ t. Prepared now s tt t × (prepare_time now wall s ≡ (ok tt, t))) _
      (prepare_time now wall s) _
      (After-mono (prepare_time now wall s)
        (After-exact (Backwards now s) (Prepared now s) (prepare_time now wall s)
          (prepare_time-Inv now wall s v))
        (λ e t b. inl b) (λ _ t p. p))
      (λ _ t (p, left).
        After-mono (update_entry id u now wall t) (update_entry-Post id u now wall t p.0 (sym p.2))
          (λ e r (which, gone, same). inr (
            which,
            left ∙ ap (λ (x : LiveScheduler). (ok tt, x)) (sym same),
            ap (λ (x : LiveScheduler). entry_at id x.entries) same ∙ gone,
          ))
          (λ out r (inv, ups). (t, left, p, inv, ups)))
