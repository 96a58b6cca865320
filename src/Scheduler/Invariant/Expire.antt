-- ===== src/Scheduler/Invariant/Expire.antt =====
-- `prepare_time`: what every method does first. Exactly the Toasts on display whose time is over close.
use tmnotify.Base.{
  ℕ, ◌≤◌, ◌≡◌, refl, inl, inr, none, List, [], ◌∷◌, arith, length, count, ite, ℕ_discrete,
  Option-cases, if◌then◌else◌, ◌&&◌, length-without,
}
use tmnotify.Base.Map.{lookup-remove}
use tmnotify.Notification.Source.{NotificationId, CloseReason}
use tmnotify.Scheduler.State.{Entries, LiveScheduler, entry_at}
use tmnotify.Scheduler.Lifecycle.{close_inner, close_entry, close_all, expired_ids, entry_expired}
use tmnotify.Scheduler.Queues.{contains}
use tmnotify.Scheduler.Invariant.{Core}
use tmnotify.Scheduler.Invariant.Close.{
  Keyed, RunsShown, ClosedOk, close_entry-Core, close_entry-Keyed, close_entry-RunsShown,
  close_entry-ClosedOk,
}

-- What closing entries keeps.
pub record Sound (s : LiveScheduler) : Type 0 where
  pub core : Core s
  pub keyed : Keyed s
  pub runs : RunsShown s
  pub closed_ok : ClosedOk s

-- What closing leaves alone.
pub record Closes (s t : LiveScheduler) : Type 0 where
  pub limits : t.limits ≡ s.limits
  pub closed_capacity : t.closed_capacity ≡ s.closed_capacity
  pub display_available : t.display_available ≡ s.display_available
  pub next_sequence : t.next_sequence ≡ s.next_sequence
  pub next_jump_nonce : t.next_jump_nonce ≡ s.next_jump_nonce
  pub last_now : t.last_now ≡ s.last_now
  pub pending_le : length t.pending ≤ length s.pending

pub close_inner-Sound :
    (s : LiveScheduler) (id : NotificationId) (reason : CloseReason) (wall : ℕ)
    → Sound s
    → Sound (close_inner id reason wall s)
unfolding close_inner
close_inner-Sound s id reason wall v = elim (Option-cases (entry_at id s.entries)) [
  | inl e ↦ rw (close_inner, e) v
  | inr (x, e) ↦
      rw (close_inner, e)
        (record {
          core = close_entry-Core id reason wall x v.core e;
          keyed = close_entry-Keyed id reason wall x v.keyed e;
          runs = close_entry-RunsShown s id reason wall x v.runs;
          closed_ok = close_entry-ClosedOk id reason wall x v.closed_ok;
        })
]

pub close_inner-Closes :
    (s : LiveScheduler) (id : NotificationId) (reason : CloseReason) (wall : ℕ)
    → Closes s (close_inner id reason wall s)
unfolding close_inner close_entry
close_inner-Closes s id reason wall = ground (arith, length-without id s.pending)

pub entry_at-close_inner :
    (j id : NotificationId) (reason : CloseReason) (wall : ℕ) (s : LiveScheduler)
    → entry_at j (close_inner id reason wall s).entries
      ≡ ite (ℕ_discrete id j) none (entry_at j s.entries)
unfolding close_inner close_entry
entry_at-close_inner j id reason wall s = ground (arith, lookup-remove ℕ_discrete j id s.entries)

pub Closes-refl : (s : LiveScheduler) → Closes s s
Closes-refl s = ground arith

pub Closes-trans : {s t u : LiveScheduler} → Closes s t → Closes t u → Closes s u
Closes-trans p q = ground arith

pub close_all-Sound :
    (ids : List NotificationId) (reason : CloseReason) (wall : ℕ) (s : LiveScheduler)
    → Sound s
    → Sound (close_all ids reason wall s)
unfolding close_all
close_all-Sound [] reason wall s v = v
close_all-Sound (x ∷ ids) reason wall s v =
    close_all-Sound ids reason wall (close_inner x reason wall s)
      (close_inner-Sound s x reason wall v)

pub close_all-Closes :
    (ids : List NotificationId) (reason : CloseReason) (wall : ℕ) (s : LiveScheduler)
    → Closes s (close_all ids reason wall s)
unfolding close_all
close_all-Closes [] reason wall s = Closes-refl s
close_all-Closes (x ∷ ids) reason wall s =
    Closes-trans (close_inner-Closes s x reason wall)
      (close_all-Closes ids reason wall (close_inner x reason wall s))

-- Closing a list of ids takes out exactly those.
pub entry_at-close_all :
    (j : NotificationId) (ids : List NotificationId) (reason : CloseReason) (wall : ℕ)
    (s : LiveScheduler)
    → entry_at j (close_all ids reason wall s).entries
      ≡ (if contains j ids then none else entry_at j s.entries)
unfolding close_all count
entry_at-close_all j [] reason wall s = refl
entry_at-close_all j (x ∷ ids) reason wall s = ground (
  arith,
  entry_at-close_all j ids reason wall (close_inner x reason wall s),
  entry_at-close_inner j x reason wall s,
)

pub contains-expired_ids :
    (m : Entries) (now : ℕ) (j : NotificationId) (xs : List NotificationId)
    → contains j (expired_ids m now xs) ≡ contains j xs && entry_expired now (entry_at j m)
unfolding expired_ids count
contains-expired_ids m now j [] = refl
contains-expired_ids m now j (x ∷ xs) = elim (ℕ_discrete x j) [
  | yes p ↦ rw p (ground (arith, contains-expired_ids m now j xs))
  | no p ↦ ground (arith, contains-expired_ids m now j xs)
]
