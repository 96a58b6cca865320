-- ===== src/Scheduler/Invariant/Suppress.antt =====
-- `enforce_pending_limit`: it closes pending entries that have no jump under way, and stops within the limit.
use tmnotify.Base.{
  ℕ, zero, suc, ◌+◌, ◌≤◌, ◌<◌, ◌≡◌, refl, ap, ◌∙◌, ◌⊎◌, inl, inr, true, Option, none, some, List,
  [], ◌∷◌, arith, present, length, count, without, ite, ℕ_discrete, ltb, is_none, option_list,
  Bool-cases, if◌then◌else◌, count-without, without-absent,
}
use tmnotify.Base.Map
use tmnotify.Base.Map.{lookup-remove}
use tmnotify.Notification.Source.{NotificationId, render_suppressed, CloseReason}
use tmnotify.Scheduler.State.{Outcome, ok, LiveEntry, Entries, LiveScheduler, entry_at}
use tmnotify.Scheduler.Exec.{Returns, Returns-bind, pure}
use tmnotify.Scheduler.Queues.{contains}
use tmnotify.Scheduler.Lifecycle.{
  take_last_unpinned, release, suppress, enforce_pending_limit, close_inner, close_entry,
}
use tmnotify.Scheduler.Invariant.Live.{live_entry}
use tmnotify.Scheduler.Invariant.Expire.{
  Closes, Closes-refl, Closes-trans, close_inner-Sound, close_inner-Closes, entry_at-close_inner,
}
use tmnotify.Scheduler.Invariant.Prepare.{Inv}

-- The pending entries with no jump under way.
abbrev can_close : Option LiveEntry → ℕ
can_close none = 0
can_close (some e) = if is_none e.jump_nonce then 1 else 0

unfoldable pub closable : Entries → List NotificationId → ℕ
closable m [] = 0
closable m (x ∷ xs) = can_close (entry_at x m) + closable m xs

-- What `take_last_unpinned` comes to on ids that all have entries.
abbrev TakesLast :
    Entries → List NotificationId → Outcome (Option (NotificationId × List NotificationId)) → Type 0
TakesLast m xs r =
    ((r ≡ ok none) × (closable m xs ≡ 0))
    ⊎ ((a : NotificationId) × (rest : List NotificationId) × (e : LiveEntry) × (r
          ≡ ok (some (a, rest)))
        × (entry_at a m ≡ some e)
        × (is_none e.jump_nonce ≡ true)
        × (without a rest ≡ without a xs)
        × (0 < count a xs))

take_last-TakesLast :
    (m : Entries) (xs : List NotificationId)
    → ((id : NotificationId) → 0 < count id xs → 0 < present (entry_at id m))
    → TakesLast m xs (take_last_unpinned m xs)
unfolding take_last_unpinned closable count without
take_last-TakesLast m [] live = inl (refl, refl)
take_last-TakesLast m (x ∷ xs) live =
    elim (take_last-TakesLast m xs (λ id h. live id (ground arith))) [
      | inr (a, rest, e, eq, at, free, same, here) ↦
          inr (a, x ∷ rest, e, ground (arith, eq), at, free, ground (arith, same), ground arith)
      | inl (eq, none_here) ↦
          let (e, at) = live_entry (entry_at x m) (live x (ground arith)) in
          elim (Bool-cases (is_none e.jump_nonce)) [
            | inl free ↦
                inr (x, xs, e, ground (arith, eq, at), at, free, ground arith, ground arith)
            | inr held ↦ inl (ground (arith, eq, at), ground (arith, at, none_here))
          ]
    ]

closable-remove :
    (a : NotificationId) (m : Entries) (xs : List NotificationId)
    → closable m xs ≤ closable (Map.remove ℕ_discrete a m) (without a xs) + count a xs
unfolding closable count without
closable-remove a m [] = omega arith
closable-remove a m (x ∷ xs) =
    ground (arith, closable-remove a m xs, lookup-remove ℕ_discrete x a m)

pub length-without-less : (a : ℕ) (xs : List ℕ) → length (without a xs) + count a xs ≡ length xs
unfolding count without
length-without-less a [] = refl
length-without-less a (x ∷ xs) = ground (arith, length-without-less a xs)

-- Closing an entry that waits leaves what is shown alone.
abbrev OneLess : NotificationId → LiveScheduler → LiveScheduler → Type 0
OneLess a s t =
    Inv t
    × Closes s t
    × (t.active_toasts ≡ s.active_toasts)
    × (t.active_attention ≡ s.active_attention)
    × (suc (length t.pending) ≡ length s.pending)
    × (closable s.entries s.pending ≤ suc (closable t.entries t.pending))
    × ((j : NotificationId)
        → (entry_at j t.entries ≡ ite (ℕ_discrete a j) none (entry_at j s.entries))
          × (count j t.pending ≤ count j s.pending))

release_other :
    (a : NotificationId) (gate : Option NotificationId)
    → count a (option_list gate) ≡ 0
    → release a gate ≡ gate
unfolding count
release_other a none h = refl
release_other a (some g) h = ground arith

closing_pending :
    (s : LiveScheduler) (a : NotificationId) (reason : CloseReason) (wall : ℕ) (e : LiveEntry)
    → Inv s
    → entry_at a s.entries ≡ some e
    → 0 < count a s.pending
    → OneLess a s (close_inner a reason wall s)
unfolding close_inner close_entry
closing_pending s a reason wall e v at here =
    let place = v.sound.core.located a in
    let off = without-absent a s.active_toasts (ground (arith, place)) in
    let low = release_other a s.active_attention (ground (arith, place)) in
    let gone = λ (j : NotificationId). entry_at-close_inner j a reason wall s in
    (
      record {
        sound = close_inner-Sound s a reason wall v.sound;
        gate_filled = λ up free j x c at'.
            v.gate_filled (ground (arith, at)) (ground (arith, at, low)) j x
              (ground (arith, at, count-without j a s.pending)) (ground (arith, gone j));
        toasts_filled = λ up free.
            elim (v.toasts_filled (ground (arith, at)) (ground (arith, at, low))) [
              | inl full ↦ inl (ground (arith, at, off))
              | inr empty ↦ inr (λ j x c at'.
                  empty j x (ground (arith, at, count-without j a s.pending))
                    (ground (arith, gone j)))
            ];
      },
      close_inner-Closes s a reason wall,
      ground (arith, at, off),
      ground (arith, at, low),
      ground (arith, at, length-without-less a s.pending, place),
      ground (arith, at, closable-remove a s.entries s.pending, place),
      λ j. (gone j, ground (arith, at, count-without j a s.pending)),
    )

-- What the loop comes to: the ids it closed waited, and the rest is as it was.
abbrev pub SuppressPost : LiveScheduler → List NotificationId → LiveScheduler → Type 0
SuppressPost s ids t =
    Inv t
    × Closes s t
    × (t.active_toasts ≡ s.active_toasts)
    × (t.active_attention ≡ s.active_attention)
    × (length t.pending ≤ t.limits.max_pending)
    × ((j : NotificationId)
        → (entry_at j t.entries ≡ (if contains j ids then none else entry_at j s.entries))
          × (0 < count j ids → 0 < count j s.pending))

close_behind :
    (s : LiveScheduler) (a : NotificationId) (rest : List NotificationId) (wall : ℕ) (e : LiveEntry)
    → entry_at a s.entries ≡ some e
    → without a rest ≡ without a s.pending
    → close_inner a render_suppressed wall (record s { pending = rest })
      ≡ close_inner a render_suppressed wall s
unfolding close_inner close_entry
close_behind s a rest wall e at same = rw (close_inner, at, same) refl

-- With fewer jumps under way than the limit, the loop ends within the limit, and does not panic.
suppress_lem :
    (fuel wall : ℕ) (s : LiveScheduler)
    → Inv s
    → length s.pending ≤ s.limits.max_pending + closable s.entries s.pending
    → length s.pending ≤ s.limits.max_pending + fuel
    → Returns (SuppressPost s) (suppress fuel wall s)
unfolding suppress count
suppress_lem zero wall s v room enough =
    (v, Closes-refl s, refl, refl, omega (arith, enough), λ j. (refl, λ h. absurd (omega arith)))
suppress_lem (suc fuel) wall s v room enough =
    elim (Bool-cases (ltb s.limits.max_pending (length s.pending))) [
      | inr within ↦
          rw within
            (v, Closes-refl s, refl, refl, ground arith, λ j. (refl, λ h. absurd (omega arith)))
      | inl over ↦
          rw over
            (elim (take_last-TakesLast s.entries s.pending
              (λ id h. omega (arith, v.sound.core.located id))) [
                | inl (eq, held) ↦ absurd (ground (arith, held, room, over))
                | inr (a, rest, e, eq, at, free, same, here) ↦
                    rw (eq, close_behind s a rest wall e at same)
                      (Returns-bind (λ e t. ⊥)
                        (SuppressPost (close_inner a render_suppressed wall s)) (SuppressPost s)
                        (suppress fuel wall (close_inner a render_suppressed wall s))
                        (λ ids. pure (a ∷ ids))
                        (let (inv, kept, active, gate, len, free', others) =
                            closing_pending s a render_suppressed wall e v at here in
                          suppress_lem fuel wall (close_inner a render_suppressed wall s) inv
                            (ground (arith, kept.limits, room))
                            (ground (arith, kept.limits, enough)))
                        (λ ids t (inv', kept', active', gate', within', others').
                          let (inv, kept, active, gate, len, free', others) =
                            closing_pending s a render_suppressed wall e v at here in
                          (
                            inv',
                            Closes-trans kept kept',
                            active' ∙ active,
                            gate' ∙ gate,
                            within',
                            λ j. (
                              ground (arith, others' j, others j),
                              ground (arith, others' j, others j),
                            ),
                          )))
              ])
    ]

-- On a well-formed scheduler whose pending queue exceeds its limit by no more entries than have
-- no jump under way, `enforce_pending_limit` returns: its search does not panic, and a round for
-- each pending entry is enough. The queue is then within its limit, the scheduler is well formed,
-- what is shown, the limits, the next sequence and the next nonce stay, exactly the ids it
-- returns are gone, and each of them was pending.
pub enforce_pending_limit-Within :
    (wall : ℕ) (s : LiveScheduler)
    → Inv s
    → length s.pending ≤ s.limits.max_pending + closable s.entries s.pending
    → Returns (SuppressPost s) (enforce_pending_limit wall s)
unfolding enforce_pending_limit
enforce_pending_limit-Within wall s v room =
    suppress_lem (length s.pending) wall s v room (omega arith)

-- An entry that waits with no jump under way counts.
pub closable-here :
    (m : Entries) (xs : List NotificationId) (a : NotificationId) (e : LiveEntry)
    → 0 < count a xs
    → entry_at a m ≡ some e
    → is_none e.jump_nonce ≡ true
    → 0 < closable m xs
unfolding closable count
closable-here m [] a e h at free = absurd (omega arith)
closable-here m (x ∷ xs) a e h at free = elim (ℕ_discrete x a) [
  | yes p ↦ ground (arith, ap (λ i. entry_at i m) p)
  | no p ↦ ground (arith, closable-here m xs a e)
]
