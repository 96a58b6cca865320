-- ===== src/Scheduler/Invariant/Show.antt =====
-- The loops of `rebalance` over the active entries: marking them visible, and running their timers.
use tmnotify.Base.{
  ℕ, ◌<◌, ◌≡◌, refl, ◌∙◌, Bool, true, false, Option, none, some, List, [], ◌∷◌, arith, present,
  count, ℕ_discrete, if◌then◌else◌,
}
use tmnotify.Base.Map.{lookup-insert}
use tmnotify.Notification.Source.{NotificationId}
use tmnotify.Notification.Record.{mark_visible}
use tmnotify.Scheduler.State.{ok, LiveEntry, LiveScheduler, entry_at}
use tmnotify.Scheduler.Exec.{Returns, After-mono, Returns-bind, put_entry, for_each}
use tmnotify.Scheduler.Queues.{mark_entry, mark_shown, shown_among}
use tmnotify.Scheduler.Invariant.{Core, EntryOk, Frame, erase}
use tmnotify.Scheduler.Invariant.Live.{Frame-refl, Frame-trans, Frame-present, live_entry}

-- An entry that is well formed and has the same content may take the place of a live one.
pub put_entry-Core :
    {s : LiveScheduler} (c : Core s) (id : NotificationId) (e e' : LiveEntry)
    → entry_at id s.entries ≡ some e
    → EntryOk s.last_now s.active_toasts s.active_attention id e'
    → Core (put_entry id e' s)
put_entry-Core {s} c id e e' at good = record {
  located = λ j. ground (arith, c.located j, lookup-insert ℕ_discrete j id e' s.entries);
  entries_ok =
      λ j x at'. ground (arith, c.entries_ok j x, lookup-insert ℕ_discrete j id e' s.entries, good);
  capacity = c.capacity;
}

pub put_entry-Frame :
    (s : LiveScheduler) (id : NotificationId) (e e' : LiveEntry)
    → entry_at id s.entries ≡ some e
    → erase e' ≡ erase e
    → Frame s (put_entry id e' s)
put_entry-Frame s id e e' at same = record {
  limits = refl;
  closed = refl;
  closed_capacity = refl;
  live_keys = refl;
  display_available = refl;
  next_sequence = refl;
  next_jump_nonce = refl;
  revision = refl;
  content_revision = refl;
  last_now = refl;
  contents = λ j. ground (arith, lookup-insert ℕ_discrete j id e' s.entries);
}

-- Only the entries change, and only in what `erase` forgets.
pub record Stays (s t : LiveScheduler) : Type 0 where
  pub frame : Frame s t
  pub same_pending : t.pending ≡ s.pending
  pub same_toasts : t.active_toasts ≡ s.active_toasts
  pub same_gate : t.active_attention ≡ s.active_attention

abbrev pub StaysPost : LiveScheduler → Unit {0} → LiveScheduler → Type 0
StaysPost s _ t = Core t × Stays s t

pub Stays-refl : (s : LiveScheduler) → Stays s s
Stays-refl s = record {
  frame = Frame-refl s;
  same_pending = refl;
  same_toasts = refl;
  same_gate = refl;
}

pub Stays-trans : {s t u : LiveScheduler} → Stays s t → Stays t u → Stays s u
Stays-trans p q = record {
  frame = Frame-trans p.frame q.frame;
  same_pending = q.same_pending ∙ p.same_pending;
  same_toasts = q.same_toasts ∙ p.same_toasts;
  same_gate = q.same_gate ∙ p.same_gate;
}

pub put_entry-Stays :
    (s : LiveScheduler) (id : NotificationId) (e e' : LiveEntry)
    → entry_at id s.entries ≡ some e
    → erase e' ≡ erase e
    → Stays s (put_entry id e' s)
put_entry-Stays s id e e' at same = record {
  frame = put_entry-Frame s id e e' at same;
  same_pending = refl;
  same_toasts = refl;
  same_gate = refl;
}

-- Ids that all have entries.
abbrev pub Live : LiveScheduler → List NotificationId → Type 0
Live s [] = Unit
Live s (x ∷ xs) = (0 < present (entry_at x s.entries)) × Live s xs

pub Live-of_count :
    (s : LiveScheduler) (xs : List NotificationId)
    → ((id : NotificationId) → 0 < count id xs → 0 < present (entry_at id s.entries))
    → Live s xs
unfolding count
Live-of_count s [] h = tt
Live-of_count s (x ∷ xs) h = (h x (ground arith), Live-of_count s xs (λ id k. h id (ground arith)))

pub Live-Frame :
    {s t : LiveScheduler} (xs : List NotificationId) → Frame s t → Live s xs → Live t xs
Live-Frame [] f h = tt
Live-Frame (x ∷ xs) f h = (omega (arith, Frame-present f x, h.0), Live-Frame xs f h.1)

mark_visible-EntryOk :
    (now : ℕ) (toasts : List NotificationId) (gate : Option NotificationId) (id wall : ℕ)
    (e : LiveEntry)
    → EntryOk now toasts gate id e
    → EntryOk now toasts gate id (record e { notification = mark_visible e.notification wall })
unfolding mark_visible
mark_visible-EntryOk now toasts gate id wall e h = ground arith

erase-mark_visible :
    (wall : ℕ) (e : LiveEntry)
    → erase (record e { notification = mark_visible e.notification wall }) ≡ erase e
unfolding mark_visible
erase-mark_visible wall e = ground arith

mark_entry-Core :
    (wall : ℕ) (x : NotificationId) (t : LiveScheduler)
    → Core t
    → 0 < present (entry_at x t.entries)
    → Returns (StaysPost t) (mark_entry wall x t)
unfolding mark_entry
mark_entry-Core wall x t c h =
    let (e, at) = live_entry (entry_at x t.entries) h in
    rw at (
      put_entry-Core c x e (record e { notification = mark_visible e.notification wall }) at
          (mark_visible-EntryOk t.last_now t.active_toasts t.active_attention x wall e
            (c.entries_ok x e at)),
      put_entry-Stays t x e (record e { notification = mark_visible e.notification wall }) at
          (erase-mark_visible wall e),
    )

mark_loop :
    (wall : ℕ) (xs : List NotificationId) (s : LiveScheduler)
    → Core s
    → Live s xs
    → Returns (StaysPost s) (for_each (mark_entry wall) xs s)
unfolding for_each
mark_loop wall [] s c h = (c, Stays-refl s)
mark_loop wall (x ∷ xs) s c h =
    Returns-bind (λ e t. ⊥) (StaysPost s) (StaysPost s) (mark_entry wall x s)
      (λ _. for_each (mark_entry wall) xs) (mark_entry-Core wall x s c h.0)
      λ _ t (d, st).
        After-mono (for_each (mark_entry wall) xs t)
          (mark_loop wall xs t d (Live-Frame xs st.frame h.1)) (λ e u k. k)
          (λ _ u (d', st'). (d', Stays-trans st st'))

-- Marking what is shown changes the delivery state of its entries, and nothing else.
pub mark_shown-Core :
    (wall : ℕ) {s : LiveScheduler} → Core s → Returns (StaysPost s) (mark_shown wall s)
unfolding mark_shown count
mark_shown-Core wall {s} c = go s.display_available s.active_attention refl
  where
    go :
        (shown : Bool) (gate : Option NotificationId)
        → s.active_attention ≡ gate
        → Returns (StaysPost s) (
            if shown
            then for_each (mark_entry wall) (shown_among gate s.active_toasts) s
            else (ok tt, s))
    go false gate eg = (c, Stays-refl s)
    go true none eg =
        mark_loop wall s.active_toasts s c
          (Live-of_count s s.active_toasts (λ id h. omega (arith, c.located id)))
    go true (some a) eg = mark_loop wall (a ∷ []) s c (ground (arith, c.located a), tt)
