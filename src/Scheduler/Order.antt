-- ===== src/Scheduler/Order.antt =====
-- The order of the pending queue.
use tmnotify.Base.{
  ℕ, suc, ◌≤◌, ◌<◌, ◌≡◌, refl, sym, ap, subst, ◌∙◌, ◌⊎◌, inl, inr, ltb, true, false, Option, none,
  some, List, [], ◌∷◌, arith, length, count, ℕ_discrete, Bool-cases, is_some, present,
}
use tmnotify.Notification.Source.{
  NotificationId, Priority, low, normal, high, critical, priority_rank,
}
use tmnotify.Scheduler.State.{LiveEntry, Entries, LiveScheduler, entry_at}
use tmnotify.Scheduler.Exec.{Returns, After-mono}
use tmnotify.Scheduler.Queues.{rank, before, insert_sorted, sort_by, all_live, sort_pending}

module _ (r : NotificationId → Option (ℕ × ℕ)) where
  count-insert_sorted :
      (a x : NotificationId) (xs : List NotificationId)
      → count a (insert_sorted r x xs) ≡ count a (x ∷ xs)
  unfolding insert_sorted count
  count-insert_sorted a x [] = refl
  count-insert_sorted a x (y ∷ ys) = ground (arith, count-insert_sorted a x ys)

  -- Sorting keeps what is in the queue.
  pub count-sort_by :
      (a : NotificationId) (xs : List NotificationId) → count a (sort_by r xs) ≡ count a xs
  unfolding sort_by count
  count-sort_by a [] = refl
  count-sort_by a (x ∷ xs) =
      ground (arith, count-insert_sorted a x (sort_by r xs), count-sort_by a xs)

  length-insert_sorted :
      (x : NotificationId) (xs : List NotificationId)
      → length (insert_sorted r x xs) ≡ suc (length xs)
  unfolding insert_sorted
  length-insert_sorted x [] = refl
  length-insert_sorted x (y ∷ ys) = ground (arith, length-insert_sorted x ys)

  pub length-sort_by : (xs : List NotificationId) → length (sort_by r xs) ≡ length xs
  unfolding sort_by
  length-sort_by [] = refl
  length-sort_by (x ∷ xs) = ground (arith, length-insert_sorted x (sort_by r xs), length-sort_by xs)

  -- Each id comes before all that follow it.
  unfoldable pub IsSorted : List NotificationId → Type 0
  IsSorted [] = Unit
  IsSorted (x ∷ xs) =
      ((y : NotificationId) → 0 < count y xs → before (r x) (r y) ≡ true) × IsSorted xs

  abbrev pub Ranked : List NotificationId → Type 0
  Ranked xs = (id : NotificationId) → 0 < count id xs → is_some (r id) ≡ true

before_total : (a b : Option (ℕ × ℕ)) → before a b ≡ false → before b a ≡ true
before_total none b h = ground arith
before_total (some (p, s)) none h = ground arith
before_total (some (p, s)) (some (q, t)) h = ground arith

before_trans :
    (a b c : Option (ℕ × ℕ))
    → is_some b ≡ true
    → before a b ≡ true
    → before b c ≡ true
    → before a c ≡ true
before_trans none b c k g h = refl
before_trans (some (p, s)) b none k g h = refl
before_trans (some (p, s)) none (some (u, v)) k g h = ground arith
before_trans (some (p, s)) (some (q, t)) (some (u, v)) k g h = ground arith

insert_sorted-IsSorted :
    (r : NotificationId → Option (ℕ × ℕ)) (x : NotificationId) (xs : List NotificationId)
    → Ranked r (x ∷ xs)
    → IsSorted r xs
    → IsSorted r (insert_sorted r x xs)
unfolding insert_sorted IsSorted count
insert_sorted-IsSorted r x [] k h = ((λ y n. absurd (omega arith)), tt)
insert_sorted-IsSorted r x (y ∷ ys) k (first, rest) = elim (Bool-cases (before (r x) (r y))) [
  | inl b ↦ rw b (
    (λ z n. elim (ℕ_discrete y z) [
      | yes p ↦ ap (λ i. before (r x) (r i)) (sym p) ∙ b
      | no p ↦ before_trans (r x) (r y) (r z) (k y (ground arith)) b (first z (ground arith))
    ]),
    (first, rest),
  )
  | inr b ↦ rw b (
    (λ z n. elim (ℕ_discrete x z) [
      | yes p ↦ ap (λ i. before (r y) (r i)) (sym p) ∙ before_total (r x) (r y) b
      | no p ↦ first z (ground (arith, count-insert_sorted r z x ys))
    ]),
    insert_sorted-IsSorted r x ys (λ z n. k z (ground arith)) rest,
  )
]

sort_by-IsSorted :
    (r : NotificationId → Option (ℕ × ℕ)) (xs : List NotificationId)
    → Ranked r xs
    → IsSorted r (sort_by r xs)
unfolding sort_by IsSorted count
sort_by-IsSorted r [] k = tt
sort_by-IsSorted r (x ∷ xs) k =
    insert_sorted-IsSorted r x (sort_by r xs) (λ z n. k z (ground (arith, count-sort_by r z xs)))
      (sort_by-IsSorted r xs (λ z n. k z (ground arith)))

all_live_lem :
    (m : Entries) (xs : List NotificationId)
    → ((id : NotificationId) → 0 < count id xs → 0 < present (entry_at id m))
    → all_live m xs ≡ true
unfolding all_live count
all_live_lem m [] h = refl
all_live_lem m (x ∷ xs) h =
    ground (arith, all_live_lem m xs (λ id n. h id (ground arith)), h x (ground arith))

-- The sort succeeds on entries, and its queue has the same ids, in order.
abbrev pub SortPost : LiveScheduler → Unit {0} → LiveScheduler → Type 0
SortPost s _ t = t ≡ record s { pending = sort_by (rank s.entries) s.pending }

pub sort_pending-Sorts :
    (s : LiveScheduler)
    → ((id : NotificationId) → 0 < count id s.pending → 0 < present (entry_at id s.entries))
    → Returns (SortPost s) (sort_pending s)
unfolding sort_pending
sort_pending-Sorts s h = ground (arith, all_live_lem s.entries s.pending h)

-- An entry is shown before another: by its priority, then by the order of submission.
abbrev pub Precedes : LiveEntry → LiveEntry → Type 0
Precedes e f =
    (priority_rank f.notification.priority < priority_rank e.notification.priority)
    ⊎ ((e.notification.priority ≡ f.notification.priority) × (e.sequence ≤ f.sequence))

-- The entry of each id precedes those of all ids behind it.
pub data IsOrdered (m : Entries) : List NotificationId → Type 0 where
  empty : IsOrdered m []
  first :
      (id : NotificationId) (ids : List NotificationId)
      → ((behind : NotificationId) (e f : LiveEntry)
          → 0 < count behind ids
          → entry_at id m ≡ some e
          → entry_at behind m ≡ some f
          → Precedes e f)
      → IsOrdered m ids
      → IsOrdered m (id ∷ ids)

priority_rank_inj : (p q : Priority) → priority_rank p ≡ priority_rank q → p ≡ q
priority_rank_inj low q h = ground arith
priority_rank_inj normal q h = ground arith
priority_rank_inj high q h = ground arith
priority_rank_inj critical q h = ground arith

before-Precedes :
    (m : Entries) (x y : NotificationId) (e f : LiveEntry)
    → entry_at x m ≡ some e
    → entry_at y m ≡ some f
    → before (rank m x) (rank m y) ≡ true
    → Precedes e f
unfolding rank
before-Precedes m x y e f here there h =
    elim (Bool-cases
      (ltb (priority_rank f.notification.priority) (priority_rank e.notification.priority))) [
        | inl higher ↦ inl (ground (arith, higher))
        | inr lower ↦ inr (
          priority_rank_inj e.notification.priority f.notification.priority
              (ground (arith, h, here, there, lower)),
          ground (arith, h, here, there, lower),
        )
      ]

IsSorted-IsOrdered :
    (m : Entries) (xs : List NotificationId) → IsSorted (rank m) xs → IsOrdered m xs
unfolding IsSorted
IsSorted-IsOrdered m [] h = empty
IsSorted-IsOrdered m (x ∷ xs) (before_all, rest) =
    first x xs (λ y e f n here there. before-Precedes m x y e f here there (before_all y n))
      (IsSorted-IsOrdered m xs rest)

rank-is_some :
    (m : Entries) (id : NotificationId) → 0 < present (entry_at id m) → is_some (rank m id) ≡ true
unfolding rank
rank-is_some m id h = ground arith

-- Where each pending id has an entry, `sort_pending` returns and changes only the pending queue:
-- it holds the same ids as often, and the entry of each id precedes those of all ids behind it,
-- by a higher priority, or by the same priority and a sequence that is not later.
pub sort_pending-IsOrdered :
    (s : LiveScheduler)
    → ((id : NotificationId) → 0 < count id s.pending → 0 < present (entry_at id s.entries))
    → Returns
        (λ _ t.
          (t ≡ record s { pending = t.pending })
          × ((id : NotificationId) → count id t.pending ≡ count id s.pending)
          × IsOrdered s.entries t.pending)
        (sort_pending s)
sort_pending-IsOrdered s live =
    After-mono (sort_pending s) (sort_pending-Sorts s live) (λ e t h. h)
      (λ _ t same.
        subst
          (λ (t : LiveScheduler).
            (t ≡ record s { pending = t.pending })
            × ((id : NotificationId) → count id t.pending ≡ count id s.pending)
            × IsOrdered s.entries t.pending)
          (sym same)
          (
            refl,
            (λ id. count-sort_by (rank s.entries) id s.pending),
            IsSorted-IsOrdered s.entries (sort_by (rank s.entries) s.pending) (
                sort_by-IsSorted (rank s.entries) s.pending
                  (λ id n. rank-is_some s.entries id (live id n))),
          ))
