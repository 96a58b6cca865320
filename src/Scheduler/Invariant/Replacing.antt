-- ===== src/Scheduler/Invariant/Replacing.antt =====
-- A keyed draft with other content takes its live Notification's place: `submit_live`.
use tmnotify.Base.{
  ℕ, ◌<◌, ◌≡◌, refl, sym, subst, ap, ◌∙◌, inl, inr, Bool, true, false, Option, some, List, [], ◌∷◌,
  arith, count, without, ite, ℕ_discrete, option_list, Bool-cases, count-append, count-without,
  length-without,
}
use tmnotify.Base.Map
use tmnotify.Base.Map.{lookup-insert}
use tmnotify.Notification.Source.{NotificationId, Timeout}
use tmnotify.Notification.Draft.{NotificationDraft, is_attention}
use tmnotify.Notification.Draft.Valid.{IsValid}
use tmnotify.Notification.Record.{replace_content}
use tmnotify.Scheduler.State.{LiveEntry, LiveScheduler, entry_at, restart}
use tmnotify.Scheduler.Exec.{put_entry}
use tmnotify.Scheduler.Operations.{toast_timer_should_run, requeue, other_presentation}
use tmnotify.Scheduler.Lifecycle.{release}
use tmnotify.Scheduler.Invariant.{Core, EntryOk, TimerOk}
use tmnotify.Scheduler.Invariant.Live.{EntryOk-moved}
use tmnotify.Scheduler.Invariant.Close.{Keyed, ClosedOk, count-release}

-- The entry with the draft's content.
abbrev pub replaced : LiveEntry → NotificationDraft → ℕ → ℕ → Bool → LiveEntry
replaced e d wall now running = record e {
  notification = replace_content e.notification d wall;
  timeout = restart d.timeout now running;
}

abbrev pub requeued : Bool → NotificationId → LiveScheduler → LiveScheduler
requeued true id s = requeue id s
requeued false id s = s

pub restart-TimerOk :
    (now active : ℕ) (t : Timeout) (running : Bool)
    → (running ≡ true → 0 < active)
    → TimerOk now active (restart t now running)
unfolding restart
restart-TimerOk now active Timeout.never running h = tt
restart-TimerOk now active (Timeout.after d) true h = (omega arith, h refl)
restart-TimerOk now active (Timeout.after d) false h = tt

-- In its place: the presentation is the same.
replaced-here :
    (s : LiveScheduler) (id : NotificationId) (d : NotificationDraft) (wall : ℕ) (e : LiveEntry)
    → Core s
    → IsValid d
    → entry_at id s.entries ≡ some e
    → other_presentation d.presentation e.notification.presentation ≡ false
    → EntryOk s.last_now s.active_toasts s.active_attention id
        (replaced e d wall s.last_now (toast_timer_should_run id s))
unfolding replace_content restart
replaced-here s id d wall e c v at same =
    let k = c.entries_ok id e at in
    record {
      own_id = k.own_id;
      live = k.live;
      never_ends = v.untimed;
      untimed = λ h. ground (arith, v.untimed h);
      is_toast = λ h. ground (arith, k.is_toast h);
      is_gate = λ h. ground (arith, k.is_gate h);
      timer =
          restart-TimerOk s.last_now (count id s.active_toasts) d.timeout
            (toast_timer_should_run id s) (λ h. ground arith);
    }

-- Back in the queue: an Attention has no timeout, and what was an Attention had no timer to run.
replaced-back :
    (s : LiveScheduler) (id : NotificationId) (d : NotificationDraft) (wall : ℕ) (e : LiveEntry)
    (toasts : List NotificationId) (gate : Option NotificationId)
    → Core s
    → IsValid d
    → entry_at id s.entries ≡ some e
    → other_presentation d.presentation e.notification.presentation ≡ true
    → count id toasts ≡ 0
    → count id (option_list gate) ≡ 0
    → EntryOk s.last_now toasts gate id (replaced e d wall s.last_now (toast_timer_should_run id s))
unfolding replace_content restart
replaced-back s id d wall e toasts gate c v at other nt ng =
    let k = c.entries_ok id e at in
    record {
      own_id = k.own_id;
      live = k.live;
      never_ends = v.untimed;
      untimed = λ h. ap (λ t. restart t s.last_now (toast_timer_should_run id s)) (v.untimed h);
      is_toast = λ h. absurd (omega arith);
      is_gate = λ h. absurd (omega arith);
      timer = elim (Bool-cases (is_attention d.presentation)) [
        | inl raised ↦ rw (v.untimed raised) tt
        | inr lowered ↦
            restart-TimerOk s.last_now (count id toasts) d.timeout (toast_timer_should_run id s)
              (λ h. absurd (ground (arith, k.is_toast)))
      ];
    }

count_single : (j id : NotificationId) → count j (id ∷ []) ≡ ite (ℕ_discrete id j) 1 0
unfolding count
count_single j id = ground arith

-- The scheduler with the new content stays well formed.
pub replaced-Core :
    (s : LiveScheduler) (id : NotificationId) (d : NotificationDraft) (wall : ℕ) (e : LiveEntry)
    → Core s
    → IsValid d
    → entry_at id s.entries ≡ some e
    → Core (
        requeued
          (other_presentation d.presentation e.notification.presentation)
          id
          (put_entry id (replaced e d wall s.last_now (toast_timer_should_run id s)) s))
replaced-Core s id d wall e c v at =
    elim (Bool-cases (other_presentation d.presentation e.notification.presentation)) [
      | inr same ↦ rw same (record {
        located = λ j. ground (arith, c.located j, lookup-insert ℕ_discrete j id x s.entries, at);
        entries_ok = λ j y at'. elim (ℕ_discrete id j) [
          | yes p ↦
              moved s.active_toasts s.active_attention j y at' p
                (replaced-here s id d wall e c v at same)
          | no p ↦ c.entries_ok j y (ground (arith, lookup-insert ℕ_discrete j id x s.entries))
        ];
        capacity = c.capacity;
      })
      | inl other ↦ rw other (record {
        located = λ j. ground (
          arith,
          c.located j,
          lookup-insert ℕ_discrete j id x s.entries,
          at,
          count-append j (without id s.pending) (id ∷ []),
          count_single j id,
          count-without j id s.pending,
          count-without j id s.active_toasts,
          count-release j id s.active_attention,
        );
        entries_ok = λ j y at'. elim (ℕ_discrete id j) [
          | yes p ↦ moved (without id s.active_toasts) (release id s.active_attention) j y at' p (
              replaced-back s id d wall e _ _ c v at other
                (ground (arith, count-without id id s.active_toasts))
                (ground (arith, count-release id id s.active_attention)))
          | no p ↦
              EntryOk-moved (omega arith) (ground (arith, count-without j id s.active_toasts))
                (ground (arith, count-release j id s.active_attention))
                (c.entries_ok j y (ground (arith, lookup-insert ℕ_discrete j id x s.entries)))
        ];
        capacity = omega (arith, c.capacity, length-without id s.active_toasts);
      })
    ]
  where
    x : LiveEntry
    x = replaced e d wall s.last_now (toast_timer_should_run id s)

    moved :
        (toasts : List NotificationId) (gate : Option NotificationId) (j : NotificationId)
        (y : LiveEntry)
        → entry_at j (Map.insert ℕ_discrete id x s.entries) ≡ some y
        → id ≡ j
        → EntryOk s.last_now toasts gate id x
        → EntryOk s.last_now toasts gate j y
    moved toasts gate j y at' p h =
        subst (λ i. EntryOk s.last_now toasts gate i y) p
          (subst (EntryOk s.last_now toasts gate id)
            (ground (arith, lookup-insert ℕ_discrete j id x s.entries)) h)

pub requeued-entries :
    (b : Bool) (id : NotificationId) (s : LiveScheduler) → (requeued b id s).entries ≡ s.entries
requeued-entries true id s = refl
requeued-entries false id s = refl

-- An entry with another entry's key, in its place.
pub put_entry-Keyed :
    {s : LiveScheduler} (id : NotificationId) (x e : LiveEntry)
    → Keyed s
    → entry_at id s.entries ≡ some e
    → x.notification.key ≡ e.notification.key
    → Keyed (put_entry id x s)
put_entry-Keyed {s} id x e k at same = record {
  key_live = λ j i h.
      let (y, at', has) = k.key_live j i h in
      elim (ℕ_discrete id i) [
        | yes p ↦ (
          x,
          ground (arith, lookup-insert ℕ_discrete i id x s.entries),
          same ∙ ap (λ (z : LiveEntry). z.notification.key) (agree i y p at') ∙ has,
        )
        | no p ↦ (y, ground (arith, lookup-insert ℕ_discrete i id x s.entries), has)
      ];
  live_key = λ i y j at' has. elim (ℕ_discrete id i) [
    | yes p ↦
        let mine : x ≡ y = ground (arith, lookup-insert ℕ_discrete i id x s.entries) in
        rw (sym p)
          (k.live_key id e j at (sym same ∙ ap (λ (z : LiveEntry). z.notification.key) mine ∙ has))
    | no p ↦ k.live_key i y j (ground (arith, lookup-insert ℕ_discrete i id x s.entries)) has
  ];
}
  where
    agree : (i : NotificationId) (y : LiveEntry) → id ≡ i → entry_at i s.entries ≡ some y → e ≡ y
    agree i y p at' =
        let here : entry_at id s.entries ≡ some y = ap (λ n. entry_at n s.entries) p ∙ at' in
        ground arith

pub requeued-Keyed :
    {s : LiveScheduler} (b : Bool) (id : NotificationId) → Keyed s → Keyed (requeued b id s)
requeued-Keyed true id k = record {
  key_live = λ j i h. k.key_live j i h;
  live_key = λ i e j h. k.live_key i e j h;
}
requeued-Keyed false id k = k

pub requeued-ClosedOk :
    {s : LiveScheduler} (b : Bool) (id : NotificationId) → ClosedOk s → ClosedOk (requeued b id s)
requeued-ClosedOk true id o = record { room = o.room; bounded = o.bounded; done = o.done }
requeued-ClosedOk false id o = o
