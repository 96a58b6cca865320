-- ===== src/Scheduler/Invariant/Live.antt =====
-- Entries that are there, and entries that are put.
use tmnotify.Base.{
  ℕ, ◌≤◌, ◌<◌, ◌≡◌, refl, ap, ◌∙◌, Option, none, some, List, arith, present, option_list, count,
}
use mathlib.Core.Option
use tmnotify.Notification.Source.{NotificationId}
use tmnotify.Scheduler.State.{LiveEntry, LiveScheduler, entry_at, TimeoutState, never, remaining}
use tmnotify.Scheduler.Invariant.{Core, EntryOk, Frame, TimerOk, erase}

pub present-map {ℓ κ} :
    {A : Type ℓ} {B : Type κ} (f : A → B) (o : Option A) → present (Option.map f o) ≡ present o
present-map f none = refl
present-map f (some a) = refl

pub live_entry {ℓ} : {A : Type ℓ} (o : Option A) → 0 < present o → (a : A) × (o ≡ some a)
live_entry none h = absurd (omega arith)
live_entry (some a) h = (a, refl)

-- An id in a queue has an entry.
pub pending-live :
    {s : LiveScheduler} (c : Core s) (id : NotificationId)
    → 0 < count id s.pending
    → (e : LiveEntry) × (entry_at id s.entries ≡ some e)
pending-live {s} c id h = live_entry (entry_at id s.entries) (omega (arith, c.located id))

pub active-live :
    {s : LiveScheduler} (c : Core s) (id : NotificationId)
    → 0 < count id s.active_toasts
    → (e : LiveEntry) × (entry_at id s.entries ≡ some e)
active-live {s} c id h = live_entry (entry_at id s.entries) (omega (arith, c.located id))

pub attention-live :
    {s : LiveScheduler} (c : Core s) (id : NotificationId)
    → 0 < count id (option_list s.active_attention)
    → (e : LiveEntry) × (entry_at id s.entries ≡ some e)
attention-live {s} c id h = live_entry (entry_at id s.entries) (omega (arith, c.located id))

pub Frame-refl : (s : LiveScheduler) → Frame s s
Frame-refl s = record {
  limits = refl;
  closed = refl;
  closed_capacity = refl;
  live_keys = refl;
  display_available = refl;
  next_sequence = refl;
  next_jump_nonce = refl;
  revision = refl;
  content_revision = refl;
  last_now = refl;
  contents = λ id. refl;
}

pub Frame-trans : {s t u : LiveScheduler} → Frame s t → Frame t u → Frame s u
Frame-trans f g = record {
  limits = g.limits ∙ f.limits;
  closed = g.closed ∙ f.closed;
  closed_capacity = g.closed_capacity ∙ f.closed_capacity;
  live_keys = g.live_keys ∙ f.live_keys;
  display_available = g.display_available ∙ f.display_available;
  next_sequence = g.next_sequence ∙ f.next_sequence;
  next_jump_nonce = g.next_jump_nonce ∙ f.next_jump_nonce;
  revision = g.revision ∙ f.revision;
  content_revision = g.content_revision ∙ f.content_revision;
  last_now = g.last_now ∙ f.last_now;
  contents = λ id. g.contents id ∙ f.contents id;
}

-- The same ids are live on both sides of a frame.
pub Frame-present :
    {s t : LiveScheduler} (f : Frame s t) (id : NotificationId)
    → present (entry_at id t.entries) ≡ present (entry_at id s.entries)
Frame-present {s} {t} f id = omega (
  arith,
  present-map erase (entry_at id t.entries),
  present-map erase (entry_at id s.entries),
  ap present (f.contents id),
)

-- An entry behind a frame was there before it, with the same content.
pub Frame-entry :
    {s t : LiveScheduler} (f : Frame s t) (id : NotificationId) (e : LiveEntry)
    → entry_at id t.entries ≡ some e
    → (e' : LiveEntry) × (entry_at id s.entries ≡ some e') × (erase e ≡ erase e')
Frame-entry {s} {t} f id e at =
    let (e', at') =
      live_entry (entry_at id s.entries) (omega (arith, Frame-present f id, ap present at)) in
    (e', at', ground (arith, f.contents id))

pub Frame-entry_back :
    {s t : LiveScheduler} (f : Frame s t) (id : NotificationId) (e : LiveEntry)
    → entry_at id s.entries ≡ some e
    → (e' : LiveEntry) × (entry_at id t.entries ≡ some e') × (erase e' ≡ erase e)
Frame-entry_back {s} {t} f id e at =
    let (e', at') =
      live_entry (entry_at id t.entries) (omega (arith, Frame-present f id, ap present at)) in
    (e', at', ground (arith, f.contents id))

-- What an entry must satisfy depends on where its id stands, and on the time only forwards.
pub EntryOk-moved :
    {now now' : ℕ} {toasts toasts' : List NotificationId} {gate gate' : Option NotificationId}
    {id : NotificationId} {e : LiveEntry}
    → now ≤ now'
    → count id toasts ≡ count id toasts'
    → count id (option_list gate) ≡ count id (option_list gate')
    → EntryOk now toasts gate id e
    → EntryOk now' toasts' gate' id e
EntryOk-moved {now} {now'} {toasts} {toasts'} {gate} {gate'} {id} {e} le ct cg h = record {
  own_id = h.own_id;
  live = h.live;
  never_ends = h.never_ends;
  untimed = h.untimed;
  is_toast = λ k. h.is_toast (omega arith);
  is_gate = λ k. h.is_gate (omega arith);
  timer = moved e.timeout h.timer;
}
  where
    moved : (t : TimeoutState) → TimerOk now (count id toasts) t → TimerOk now' (count id toasts') t
    moved never k = tt
    moved (remaining d none) k = tt
    moved (remaining d (some start)) k = (omega arith, omega arith)
