-- ===== src/Scheduler/Invariant/Promote.antt =====
-- The two promotions of `rebalance` keep the scheduler well formed.
use tmnotify.Base.{
  ℕ, zero, suc, ◌+◌, ◌≤◌, ◌<◌, ◌≡◌, refl, ap, ◌⊎◌, inl, inr, Bool, true, false, Option, none, some,
  List, [], ◌∷◌, ◌++◌, arith, present, length, count, ite, ℕ_discrete, ltb, is_none, if◌then◌else◌,
  ◌&&◌, Bool-cases, count-append, count-le-length, length-append,
}
use tmnotify.Notification.Source.{NotificationId, Presentation, toast, attention}
use tmnotify.Scheduler.State.{
  Outcome, ok, LiveEntry, Entries, LiveScheduler, entry_at, TimeoutState, never, remaining,
}
use tmnotify.Scheduler.Exec.{Returns, After-mono, lift, ◌>>=◌}
use tmnotify.Scheduler.Queues.{
  take_first, same_presentation, activate_attention, promote_attention, fill_with, fill_toasts,
  promote_toasts,
}
use tmnotify.Scheduler.Invariant.{Core, Frame, TimerOk}
use tmnotify.Scheduler.Invariant.Live.{pending-live, Frame-refl, Frame-trans, live_entry}

-- The id `a` once, and nothing else.
abbrev pub single : NotificationId → NotificationId → ℕ
single a id = ite (ℕ_discrete a id) 1 0

-- What `take_first` comes to on ids that all have entries: none is of the presentation, or the
-- first one that is comes out.
abbrev TakesFirst :
    Presentation
    → Entries
    → List NotificationId
    → Outcome (Option (NotificationId × List NotificationId))
    → Type 0
TakesFirst p m xs r =
    ((r ≡ ok none)
      × ((id : NotificationId) (e : LiveEntry)
          → 0 < count id xs
          → entry_at id m ≡ some e
          → same_presentation p e.notification.presentation ≡ false))
    ⊎ ((a : NotificationId) × (rest : List NotificationId) × (e : LiveEntry) × (r
          ≡ ok (some (a, rest)))
        × (entry_at a m ≡ some e)
        × (same_presentation p e.notification.presentation ≡ true)
        × ((id : NotificationId) → count id xs ≡ single a id + count id rest)
        × (length xs ≡ suc (length rest)))

take_first-TakesFirst :
    (p : Presentation) (m : Entries) (xs : List NotificationId)
    → ((id : NotificationId) → 0 < count id xs → 0 < present (entry_at id m))
    → TakesFirst p m xs (take_first p m xs)
unfolding take_first count
take_first-TakesFirst p m [] live = inl (refl, λ id e h. absurd (omega arith))
take_first-TakesFirst p m (x ∷ xs) live =
    let here = live_entry (entry_at x m) (live x (ground arith)) in
    elim (Bool-cases (same_presentation p here.0.notification.presentation)) [
      | inl same ↦
          inr (x, xs, here.0, ground (arith, here.1), here.1, same, (λ id. ground arith), refl)
      | inr other ↦ elim (take_first-TakesFirst p m xs (λ id h. live id (ground arith))) [
        | inl (e, all) ↦
            inl (ground (arith, here.1), λ id e' c at. ground (arith, all id e', here.1))
        | inr (a, rest, e, eq, at, same, counts, len) ↦ inr (
          a,
          x ∷ rest,
          e,
          ground (arith, here.1),
          at,
          same,
          (λ id. ground (arith, counts id)),
          ap suc len,
        )
      ]
    ]

-- No entry of a presentation is pending.
abbrev pub NonePending : Presentation → LiveScheduler → Type 0
NonePending p s =
    (id : NotificationId) (e : LiveEntry)
    → 0 < count id s.pending
    → entry_at id s.entries ≡ some e
    → same_presentation p e.notification.presentation ≡ false

-- An Attention is up if one waits.
abbrev pub GateFilled : LiveScheduler → Type 0
GateFilled s = s.display_available ≡ true → s.active_attention ≡ none → NonePending attention s

-- The active Toasts are as many as the limits let, or no Toast waits.
abbrev pub ToastsFilled : LiveScheduler → Type 0
ToastsFilled s =
    s.display_available ≡ true
    → s.active_attention ≡ none
    → (s.limits.max_visible_toasts ≤ length s.active_toasts) ⊎ NonePending toast s

-- Pending entries only leave.
abbrev pub Shrinks : LiveScheduler → LiveScheduler → Type 0
Shrinks s t =
    (length t.pending ≤ length s.pending)
    × ((id : NotificationId) → count id t.pending ≤ count id s.pending)

Shrinks-refl : (s : LiveScheduler) → Shrinks s s
Shrinks-refl s = (omega arith, λ id. omega arith)

raise :
    {s : LiveScheduler} (c : Core s) (a : NotificationId) (rest : List NotificationId)
    (e : LiveEntry)
    → s.active_attention ≡ none
    → entry_at a s.entries ≡ some e
    → same_presentation attention e.notification.presentation ≡ true
    → ((id : NotificationId) → count id s.pending ≡ single a id + count id rest)
    → Core (record s { active_attention = some a; pending = rest })
unfolding count
raise {s} c a rest e free at same counts = record {
  located = λ id. ground (arith, c.located id, counts id);
  entries_ok = λ id e' at'. ground (arith, c.entries_ok id e' at', counts a);
  capacity = c.capacity;
}

abbrev pub GatePost : LiveScheduler → Unit {0} → LiveScheduler → Type 0
GatePost s _ t = Core t × Frame s t × (t.entries ≡ s.entries) × Shrinks s t × GateFilled t

-- The first block of `rebalance` raises an Attention if one waits and none is up.
pub promote_attention-Core :
    {s : LiveScheduler} → Core s → Returns (GatePost s) (promote_attention s)
unfolding promote_attention
promote_attention-Core {s} c =
    go s.display_available s.active_attention (take_first attention s.entries s.pending) refl refl (
      take_first-TakesFirst attention s.entries s.pending
        (λ id h. omega (arith, ap present (pending-live c id h).1)))
  where
    go :
        (shown : Bool) (gate : Option NotificationId)
        (r : Outcome (Option (NotificationId × List NotificationId)))
        → s.display_available ≡ shown
        → s.active_attention ≡ gate
        → TakesFirst attention s.entries s.pending r
        → Returns
            (GatePost s)
            (if shown && is_none gate then (lift r >>= activate_attention) s else (ok tt, s))
    go false gate r es eg h = (c, Frame-refl s, refl, Shrinks-refl s, λ up. ground arith)
    go true (some a) r es eg h = (c, Frame-refl s, refl, Shrinks-refl s, λ up free. ground arith)
    go true none r es eg (inl (e, all)) =
        rw e (c, Frame-refl s, refl, Shrinks-refl s, λ up free. all)
    go true none r es eg (inr (a, rest, e, eq, at, same, counts, len)) = rw eq (
      raise c a rest e eg at same counts,
      ground arith,
      refl,
      (omega arith, λ id. omega (arith, counts id)),
      λ up free. ground arith,
    )

TimerOk-mono : (now m n : ℕ) (t : TimeoutState) → m ≤ n → TimerOk now m t → TimerOk now n t
TimerOk-mono now m n never h k = tt
TimerOk-mono now m n (remaining d none) h k = tt
TimerOk-mono now m n (remaining d (some start)) h k = (k.0, omega arith)

-- One round of the loop: a pending Toast becomes the last of the active ones.
activate :
    {s : LiveScheduler} (c : Core s) (a : NotificationId) (rest : List NotificationId)
    (e : LiveEntry)
    → length s.active_toasts < s.limits.max_visible_toasts
    → entry_at a s.entries ≡ some e
    → same_presentation toast e.notification.presentation ≡ true
    → ((id : NotificationId) → count id s.pending ≡ single a id + count id rest)
    → Core (record s { active_toasts = s.active_toasts ++ a ∷ []; pending = rest })
unfolding count
activate {s} c a rest e room at same counts = record {
  located = λ id. ground (arith, c.located id, counts id, count-append id s.active_toasts (a ∷ []));
  entries_ok = λ id e' at'.
      let ok' = c.entries_ok id e' at' in
      let more = count-append id s.active_toasts (a ∷ []) in
      record {
        own_id = ok'.own_id;
        live = ok'.live;
        never_ends = ok'.never_ends;
        untimed = ok'.untimed;
        is_toast = λ h. ground (arith, ok'.is_toast, more);
        is_gate = ok'.is_gate;
        timer =
            TimerOk-mono s.last_now (count id s.active_toasts) _ e'.timeout (omega (arith, more))
              ok'.timer;
      };
  capacity = omega (arith, length-append s.active_toasts (a ∷ []));
}

abbrev FillPost : LiveScheduler → Unit {0} → LiveScheduler → Type 0
FillPost s _ t =
    Core t
    × Frame s t
    × (t.entries ≡ s.entries)
    × (t.active_attention ≡ s.active_attention)
    × Shrinks s t
    × ((t.limits.max_visible_toasts ≤ length t.active_toasts) ⊎ NonePending toast t)

fill_toasts-Core :
    (fuel : ℕ) (s : LiveScheduler)
    → Core s
    → length s.pending ≤ fuel
    → Returns (FillPost s) (fill_toasts fuel s)
unfolding fill_toasts
fill_toasts-Core zero s c enough = (
  c,
  Frame-refl s,
  refl,
  refl,
  Shrinks-refl s,
  inr (λ id e h at. absurd (omega (arith, count-le-length id s.pending))),
)
fill_toasts-Core (suc fuel) s c enough =
    go (ltb (length s.active_toasts) s.limits.max_visible_toasts)
      (take_first toast s.entries s.pending) refl
      (take_first-TakesFirst toast s.entries s.pending
        (λ id h. omega (arith, ap present (pending-live c id h).1)))
      (λ t d less. fill_toasts-Core fuel t d less)
  where
    go :
        (room : Bool) (r : Outcome (Option (NotificationId × List NotificationId)))
        → ltb (length s.active_toasts) s.limits.max_visible_toasts ≡ room
        → TakesFirst toast s.entries s.pending r
        → ((t : LiveScheduler)
            → Core t
            → length t.pending ≤ fuel
            → Returns (FillPost t) (fill_toasts fuel t))
        → Returns (FillPost s) (if room then fill_with (fill_toasts fuel) r s else (ok tt, s))
    go false r full h again = (c, Frame-refl s, refl, refl, Shrinks-refl s, inl (ground arith))
    go true r room (inl (e, all)) again =
        rw e (c, Frame-refl s, refl, refl, Shrinks-refl s, inr all)
    go true r room (inr (a, rest, e, eq, at, same, counts, len)) again = rw eq (
        After-mono (fill_toasts fuel next)
          (again next (activate c a rest e (ground arith) at same counts) (omega arith))
          (λ e t h. h)
          (λ u t h. (
            h.0,
            Frame-trans same_rest h.1,
            h.2,
            h.3,
            (omega (arith, h.4.0), (λ id. omega (arith, h.4.1 id, counts id))),
            h.5,
          )))
      where
        next : LiveScheduler
        next = record s { active_toasts = s.active_toasts ++ a ∷ []; pending = rest }

        same_rest : Frame s next
        same_rest = ground arith

abbrev pub ToastsPost : LiveScheduler → Unit {0} → LiveScheduler → Type 0
ToastsPost s _ t =
    Core t
    × Frame s t
    × (t.entries ≡ s.entries)
    × (t.active_attention ≡ s.active_attention)
    × Shrinks s t
    × ToastsFilled t

-- The second block fills the active set from the pending queue, as far as the limits let.
pub promote_toasts-Core : {s : LiveScheduler} → Core s → Returns (ToastsPost s) (promote_toasts s)
unfolding promote_toasts
promote_toasts-Core {s} c = go s.display_available s.active_attention refl refl
  where
    go :
        (shown : Bool) (gate : Option NotificationId)
        → s.display_available ≡ shown
        → s.active_attention ≡ gate
        → Returns
            (ToastsPost s)
            (if shown && is_none gate then fill_toasts (length s.pending) s else (ok tt, s))
    go false gate es eg = (c, Frame-refl s, refl, refl, Shrinks-refl s, λ up. ground arith)
    go true (some a) es eg = (c, Frame-refl s, refl, refl, Shrinks-refl s, λ up free. ground arith)
    go true none es eg =
        After-mono (fill_toasts (length s.pending) s)
          (fill_toasts-Core (length s.pending) s c (omega arith)) (λ e t h. h)
          (λ u t h. (h.0, h.1, h.2, h.3, h.4, λ up free. h.5))
