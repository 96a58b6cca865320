-- ===== src/Scheduler/Invariant/Submitting/Answer.antt =====
-- What an answer of `submit` says, and the parts its two branches share.
use tmnotify.Base.{
  ℕ, zero, suc, ◌+◌, ◌≤◌, ◌<◌, ◌≡◌, refl, ap, ◌∙◌, ◌⊎◌, inl, inr, Bool, true, false, Option, none,
  some, List, [], ◌∷◌, arith, length, count, without, is_none, Bool-cases, if◌then◌else◌, ◌&&◌,
  ◌||◌, count-without, length-without,
}
use tmnotify.Notification.Source.{NotificationId}
use tmnotify.Notification.Draft.{NotificationDraft}
use tmnotify.Notification.Record.{Notification, has_same_content, replace_content, from_draft}
use tmnotify.Notification.Record.Laws.{has_same_content_iff}
use tmnotify.Scheduler.State.{
  LiveEntry, LiveScheduler, entry_at, SubmitDisposition, queued, suppressed, SubmitOutcome,
  DisplayPlan,
}
use tmnotify.Scheduler.Exec.{Returns, After-mono, Returns-bind, ◌>>=◌}
use tmnotify.Scheduler.Queues.{contains, rank, sort_by, sort_pending, rebalance}
use tmnotify.Scheduler.Order.{count-sort_by, length-sort_by, sort_pending-Sorts, SortPost}
use tmnotify.Scheduler.Lifecycle.{bump_content_revision}
use tmnotify.Scheduler.Operations.{is_desired_visible, is_attention_id, display_plan}
use tmnotify.Scheduler.Invariant.{Core, erase, Frame}
use tmnotify.Scheduler.Invariant.Live.{Frame-entry_back}
use tmnotify.Scheduler.Invariant.Close.{Keyed, ClosedOk}
use tmnotify.Scheduler.Invariant.Prepare.{Inv, rebalance-Inv}
use tmnotify.Scheduler.Invariant.Suppress.{closable, closable-here, length-without-less}
use tmnotify.Scheduler.Invariant.Entering.{Core-reordered}

-- An id is on a plan, as its Attention or among its Toasts.
abbrev pub planned : NotificationId → DisplayPlan → Bool
planned id p = is_attention_id id p.attention || contains id p.toasts

pub planned_lem :
    (id : NotificationId) (s : LiveScheduler)
    → planned id (display_plan s) ≡ is_desired_visible id s
unfolding display_plan count
planned_lem id s = go s.display_available s.active_attention
  where
    go :
        (up : Bool) (gate : Option NotificationId)
        → (is_attention_id id (if up then gate else none)
            || contains id (if up && is_none gate then s.active_toasts else []))
          ≡ (up && (is_attention_id id gate || (is_none gate && contains id s.active_toasts)))
    go false gate = refl
    go true none = refl
    go true (some a) = ground arith

-- The Notification with an id is live and has a draft's content.
abbrev pub Holds : NotificationDraft → NotificationId → LiveScheduler → Type 0
Holds d id t =
    (e : LiveEntry) × (entry_at id t.entries ≡ some e) × (has_same_content e.notification d ≡ true)

-- What each answer says of the Notification with the id that comes with it.
abbrev pub Told : NotificationDraft → SubmitDisposition → NotificationId → LiveScheduler → Type 0
Told d suppressed id t = entry_at id t.entries ≡ none
Told d SubmitDisposition.visible id t = Holds d id t × (planned id (display_plan t) ≡ true)
Told d queued id t = Holds d id t × (planned id (display_plan t) ≡ false)
Told d SubmitDisposition.updated id t = Holds d id t
Told d SubmitDisposition.duplicate id t = Holds d id t

pub same_content-erase :
    (d : NotificationDraft) (e e' : LiveEntry)
    → erase e ≡ erase e'
    → has_same_content e.notification d ≡ has_same_content e'.notification d
unfolding has_same_content
same_content-erase d e e' h = ap (λ (x : LiveEntry). has_same_content x.notification d) h

pub from_draft-same :
    (id : NotificationId) (d : NotificationDraft) (wall : ℕ)
    → has_same_content (from_draft id d wall) d ≡ true
unfolding replace_content from_draft
from_draft-same id d wall = (has_same_content_iff (from_draft id d wall) d).1 refl

pub replaced-same :
    (n : Notification) (d : NotificationDraft) (wall : ℕ)
    → has_same_content (replace_content n d wall) d ≡ true
unfolding replace_content
replaced-same n d wall = (has_same_content_iff (replace_content n d wall) d).1 refl

-- Content survives what `rebalance` does.
pub Holds-Frame :
    {s t : LiveScheduler} (d : NotificationDraft) (id : NotificationId)
    → Frame s t
    → Holds d id s
    → Holds d id t
Holds-Frame {s} {t} d id f (e, at, same) =
    let (e', at', alike) = Frame-entry_back f id e at in
    (e', at', same_content-erase d e' e alike ∙ same)

-- A queue within another is not longer.
pub length-within :
    (n : ℕ) (xs ys : List ℕ)
    → length ys ≤ n
    → ((a : ℕ) → count a xs ≤ count a ys)
    → length xs ≤ length ys
unfolding count without
length-within n [] ys h k = omega arith
length-within n (x ∷ xs) [] h k = absurd (ground (arith, k x))
length-within zero (x ∷ xs) (y ∷ ys) h k = absurd (ground arith)
length-within (suc n) (x ∷ xs) (y ∷ ys) h k =
    let rest =
      length-within n (without y (x ∷ xs)) (without y ys) (omega (arith, length-without y ys))
        (λ a. ground (arith, count-without a y (x ∷ xs), count-without a y ys, k a)) in
    ground (arith, rest, length-without-less y (x ∷ xs), length-without-less y ys, k y)

-- Of a queue one over the limit, what `rebalance` leaves can be cut down to the limit: the new entry
-- still waits, or it is shown and one fewer waits.
pub room :
    (w : LiveScheduler) (id : NotificationId) (before : List NotificationId) (e : LiveEntry)
    → Inv w
    → entry_at id w.entries ≡ some e
    → is_none e.jump_nonce ≡ true
    → 0 < count id before
    → length before ≤ suc w.limits.max_pending
    → length w.pending ≤ length before
    → ((j : NotificationId) → count j w.pending ≤ count j before)
    → length w.pending ≤ w.limits.max_pending + closable w.entries w.pending
room w id before e v at free here most le within = elim (Bool-cases (contains id w.pending)) [
  | inl waits ↦ omega (arith, closable-here w.entries w.pending id e (ground arith) at free)
  | inr shown ↦
      let less =
        length-within (length before) w.pending (without id before) (length-without id before)
          (λ j. ground (arith, within j, count-without j id before)) in
      omega (arith, length-without-less id before)
]

pub Inv-bumped : {s : LiveScheduler} → Inv s → Inv (bump_content_revision s)
Inv-bumped {s} v = record {
  sound = record {
    core = record {
      located = λ id. v.sound.core.located id;
      entries_ok = λ id e at. v.sound.core.entries_ok id e at;
      capacity = v.sound.core.capacity;
    };
    keyed = record {
      key_live = λ j i h. v.sound.keyed.key_live j i h;
      live_key = λ i e j h. v.sound.keyed.live_key i e j h;
    };
    runs = λ id e at. v.sound.runs id e at;
    closed_ok = record {
      room = v.sound.closed_ok.room;
      bounded = v.sound.closed_ok.bounded;
      done = v.sound.closed_ok.done;
    };
  };
  gate_filled = λ up free. v.gate_filled up free;
  toasts_filled = λ up free. v.toasts_filled up free;
}

-- The sort, and what `rebalance` makes of it.
abbrev pub SortedPost : LiveScheduler → Unit {0} → LiveScheduler → Type 0
SortedPost s _ t =
    Inv t
    × ((d : NotificationDraft) (id : NotificationId) → Holds d id s → Holds d id t)
    × (t.limits ≡ s.limits)
    × Frame s t
    × (length t.pending ≤ length s.pending)
    × ((j : NotificationId) → count j t.pending ≤ count j s.pending)

pub sort_and_rebalance :
    (now wall : ℕ) (s : LiveScheduler)
    → Core s
    → Keyed s
    → ClosedOk s
    → now ≡ s.last_now
    → Returns (SortedPost s) ((sort_pending >>= λ _. rebalance now wall) s)
sort_and_rebalance now wall s c k o e =
    Returns-bind (λ e t. ⊥) (SortPost s) (SortedPost s) (sort_pending s) (λ _. rebalance now wall)
      (sort_pending-Sorts s (λ id h. omega (arith, c.located id)))
      (λ _ t same. rw same (
        let xs = sort_by (rank s.entries) s.pending in
        let u = record s { pending = xs } in
        After-mono (rebalance now wall u)
          (rebalance-Inv now wall
            (Core-reordered xs (λ id. count-sort_by (rank s.entries) id s.pending) c)
            (record {
              key_live = λ j i h. k.key_live j i h;
              live_key = λ i e j h. k.live_key i e j h;
            })
            (record { room = o.room; bounded = o.bounded; done = o.done }) e)
          (λ e w h. absurd h)
          (λ _ w (inv, timed, f, sh). (
            inv,
            (λ d id h. Holds-Frame d id f h),
            f.limits,
            record {
              limits = f.limits;
              closed = f.closed;
              closed_capacity = f.closed_capacity;
              live_keys = f.live_keys;
              display_available = f.display_available;
              next_sequence = f.next_sequence;
              next_jump_nonce = f.next_jump_nonce;
              revision = f.revision;
              content_revision = f.content_revision;
              last_now = f.last_now;
              contents = λ id. f.contents id;
            },
            omega (arith, sh.0, length-sort_by (rank s.entries) s.pending),
            λ j. omega (arith, sh.1 j, count-sort_by (rank s.entries) j s.pending),
          ))))

-- What `submit` comes to.
abbrev pub SubmitPost : NotificationDraft → SubmitOutcome → LiveScheduler → Type 0
SubmitPost d out t =
    Inv t
    × Told d out.disposition out.id t
    × ((length t.pending ≤ t.limits.max_pending) ⊎ (out.disposition ≡ SubmitDisposition.updated))

pub answer_lem :
    (d : NotificationDraft) (id : NotificationId) (ids : List NotificationId) (w t : LiveScheduler)
    → Holds d id w
    → Inv t
    → entry_at id t.entries ≡ (if contains id ids then none else entry_at id w.entries)
    → length t.pending ≤ t.limits.max_pending
    → SubmitPost d
        (record {
          id = id;
          disposition =
              if contains id ids
              then suppressed
              else if is_desired_visible id t
              then SubmitDisposition.visible
              else queued;
        })
        t
answer_lem d id ids w t (e, at, same) v left within =
    (v, told (contains id ids) (is_desired_visible id t) left (planned_lem id t), inl within)
  where
    told :
        (gone shown : Bool)
        → entry_at id t.entries ≡ (if gone then none else entry_at id w.entries)
        → planned id (display_plan t) ≡ shown
        → Told d
            (if gone then suppressed else if shown then SubmitDisposition.visible else queued)
            id
            t
    told true shown h p = h
    told false true h p = ((e, h ∙ at, same), p)
    told false false h p = ((e, h ∙ at, same), p)
