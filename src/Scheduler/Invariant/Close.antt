-- ===== src/Scheduler/Invariant/Close.antt =====
-- Closing entries keeps a scheduler well formed.
use tmnotify.Base.{
  ℕ, ◌≤◌, ◌<◌, ◌≡◌, ◌≢◌, refl, sym, ap, ◌∙◌, ◌↔◌, Bool, true, Option, none, some, List, [], ◌∷◌,
  arith, option_list, length, count, ite, ℕ_discrete, count-without, length-without, length-append,
  is_some, All, All-append,
}
use tmnotify.Base.Map
use tmnotify.Base.Map.{lookup-insert, lookup-remove}
use tmnotify.Notification.Source.{
  NotificationId, NotificationKey, CloseReason, closed, Text-discrete,
}
use tmnotify.Notification.Record.{Notification, close}
use tmnotify.Scheduler.State.{
  LiveEntry, Entries, LiveScheduler, Keys, entry_at, id_at, TimeoutState, never, remaining,
}
use tmnotify.Scheduler.Lifecycle.{close_entry, release, push_closed, forget_key}
use tmnotify.Scheduler.Operations.{toast_timer_should_run}
use tmnotify.Scheduler.Invariant.{Core, Frame}
use tmnotify.Scheduler.Invariant.Live.{Frame-entry, Frame-entry_back, EntryOk-moved}

-- The keys are those of the live entries, each of its one entry.
pub record Keyed (s : LiveScheduler) : Type 0 where
  pub key_live :
      (k : NotificationKey) (id : NotificationId)
      → id_at k s.live_keys ≡ some id
      → (e : LiveEntry) × (entry_at id s.entries ≡ some e) × (e.notification.key ≡ some k)
  pub live_key :
      (id : NotificationId) (e : LiveEntry) (k : NotificationKey)
      → entry_at id s.entries ≡ some e
      → e.notification.key ≡ some k
      → id_at k s.live_keys ≡ some id

abbrev pub TimerShown : Bool → TimeoutState → Type 0
TimerShown shown never = Unit
TimerShown shown (remaining d none) = Unit
TimerShown shown (remaining d (some start)) = shown ≡ true

-- A timer runs only while its Toast is on display.
abbrev pub RunsShown : LiveScheduler → Type 0
RunsShown s =
    (id : NotificationId) (e : LiveEntry)
    → entry_at id s.entries ≡ some e
    → TimerShown (toast_timer_should_run id s) e.timeout

abbrev pub IsDone : Notification → Type 0
IsDone n = (n.delivery ≡ closed) × (is_some n.close_reason ≡ true)

-- The records for History are closed ones, with a reason, and no more than the queue holds.
pub record ClosedOk (s : LiveScheduler) : Type 0 where
  pub room : 0 < s.closed_capacity
  pub bounded : length s.closed ≤ s.closed_capacity
  pub done : All IsDone s.closed

pub Keyed-Frame : {s t : LiveScheduler} → Frame s t → Keyed s → Keyed t
Keyed-Frame {s} {t} f k = record {
  key_live = λ key id h.
      let (e, at, has) = k.key_live key id (ap (id_at key) (sym f.live_keys) ∙ h) in
      let (e', at', same) = Frame-entry_back f id e at in
      (e', at', ap (λ (x : LiveEntry). x.notification.key) same ∙ has);
  live_key = λ id e key at h.
      let (e', at', same) = Frame-entry f id e at in
      ground
        (arith, k.live_key id e' key, f.live_keys, ap (λ (x : LiveEntry). x.notification.key) same);
}

pub count-release :
    (j id : NotificationId) (gate : Option NotificationId)
    → count j (option_list (release id gate)) ≡ ite (ℕ_discrete id j) 0 (count j (option_list gate))
unfolding count
count-release j id none = ground arith
count-release j id (some a) = ground arith

pub entry_at-remove :
    (j id : NotificationId) (m : Entries) {x : LiveEntry}
    → (entry_at j (Map.remove ℕ_discrete id m) ≡ some x) ↔ ((entry_at j m ≡ some x) × (id ≢ j))
entry_at-remove j id m = (
  (λ h. (
    ground (arith, lookup-remove ℕ_discrete j id m),
    λ p. ground (arith, lookup-remove ℕ_discrete j id m),
  )),
  λ h. ground (arith, lookup-remove ℕ_discrete j id m),
)

pub close_entry-Core :
    {s : LiveScheduler} (id : NotificationId) (reason : CloseReason) (wall : ℕ) (e : LiveEntry)
    → Core s
    → entry_at id s.entries ≡ some e
    → Core (close_entry id reason wall e s)
unfolding close_entry
close_entry-Core {s} id reason wall e c at = record {
  located = λ j. ground (
    arith,
    c.located j,
    lookup-remove ℕ_discrete j id s.entries,
    count-without j id s.pending,
    count-without j id s.active_toasts,
    count-release j id s.active_attention,
  );
  entries_ok = λ j x at'.
      let (old, apart) = (entry_at-remove j id s.entries).0 at' in
      EntryOk-moved (omega arith) (ground (arith, count-without j id s.active_toasts))
        (ground (arith, count-release j id s.active_attention)) (c.entries_ok j x old);
  capacity = omega (arith, c.capacity, length-without id s.active_toasts);
}

id_at-forget_key :
    (j : NotificationKey) (key : Option NotificationKey) (m : Keys) {i : NotificationId}
    → (id_at j (forget_key key m) ≡ some i) ↔ ((id_at j m ≡ some i) × (key ≢ some j))
id_at-forget_key j none m = ((λ h. (h, λ p. cc)), λ h. h.0)
id_at-forget_key j (some k) m = (
  (λ h. (
    ground (arith, lookup-remove Text-discrete j k m),
    λ p. ground (arith, lookup-remove Text-discrete j k m),
  )),
  λ h. ground (arith, lookup-remove Text-discrete j k m, h.1),
)

pub close_entry-Keyed :
    {s : LiveScheduler} (id : NotificationId) (reason : CloseReason) (wall : ℕ) (e : LiveEntry)
    → Keyed s
    → entry_at id s.entries ≡ some e
    → Keyed (close_entry id reason wall e s)
unfolding close_entry close
close_entry-Keyed {s} id reason wall e k at = record {
  key_live = λ j i h.
      let (live, other) = (id_at-forget_key j e.notification.key s.live_keys).0 h in
      let (x, at', has) = k.key_live j i live in
      (x, (entry_at-remove i id s.entries).1 (at', λ p. other (ground arith)), has);
  live_key = λ i x j at' has.
      let (old, apart) = (entry_at-remove i id s.entries).0 at' in
      let mine = k.live_key i x j old has in
      (id_at-forget_key j e.notification.key s.live_keys).1
        (mine, λ p. apart (ground (arith, k.live_key id e j at p)));
}

pub TimerShown-mono :
    (b c : Bool) (t : TimeoutState) → (b ≡ true → c ≡ true) → TimerShown b t → TimerShown c t
TimerShown-mono b c never h k = tt
TimerShown-mono b c (remaining d none) h k = tt
TimerShown-mono b c (remaining d (some start)) h k = h k

-- What is on display stays there when another entry closes.
pub close_entry-RunsShown :
    (s : LiveScheduler) (id : NotificationId) (reason : CloseReason) (wall : ℕ) (e : LiveEntry)
    → RunsShown s
    → RunsShown (close_entry id reason wall e s)
unfolding close_entry
close_entry-RunsShown s id reason wall e r j x at =
    let (old, apart) = (entry_at-remove j id s.entries).0 at in
    TimerShown-mono (toast_timer_should_run j s) _ x.timeout
      (λ h. ground (arith, count-without j id s.active_toasts, apart)) (r j x old)

pub push_closed-bounded :
    (capacity : ℕ) (queue : List Notification) (n : Notification)
    → 0 < capacity
    → length queue ≤ capacity
    → length (push_closed capacity queue n) ≤ capacity
unfolding push_closed
push_closed-bounded capacity [] n h k = ground (arith)
push_closed-bounded capacity (x ∷ xs) n h k =
    ground (arith, length-append xs (n ∷ []), length-append (x ∷ xs) (n ∷ []))

push_closed-IsDone :
    (capacity : ℕ) (queue : List Notification) (n : Notification)
    → All IsDone queue
    → IsDone n
    → All IsDone (push_closed capacity queue n)
unfolding push_closed
push_closed-IsDone capacity [] n h k = ground (arith)
push_closed-IsDone capacity (x ∷ xs) n h k = ground (
  arith,
  All-append IsDone xs (n ∷ []) h.1 (k, tt),
  All-append IsDone (x ∷ xs) (n ∷ []) h (k, tt),
)

pub close_entry-ClosedOk :
    {s : LiveScheduler} (id : NotificationId) (reason : CloseReason) (wall : ℕ) (e : LiveEntry)
    → ClosedOk s
    → ClosedOk (close_entry id reason wall e s)
unfolding close_entry close
close_entry-ClosedOk {s} id reason wall e c = record {
  room = c.room;
  bounded = push_closed-bounded s.closed_capacity s.closed _ c.room c.bounded;
  done = push_closed-IsDone s.closed_capacity s.closed _ c.done (refl, refl);
}
