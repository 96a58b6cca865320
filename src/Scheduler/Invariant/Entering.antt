-- ===== src/Scheduler/Invariant/Entering.antt =====
-- A new Notification is entered: `enter`, and the sort of the queue.
use tmnotify.Base.{
  ℕ, ◌≡◌, refl, sym, subst, ap, ◌∙◌, inl, inr, Option, none, some, List, [], ◌∷◌, arith, count, ite,
  ℕ_discrete, option_list, Option-cases, count-append,
}
use tmnotify.Base.Map
use tmnotify.Base.Map.{lookup-insert}
use tmnotify.Notification.Source.{NotificationId, NotificationKey, Text-discrete, Timeout}
use tmnotify.Notification.Draft.{NotificationDraft}
use tmnotify.Notification.Draft.Valid.{IsValid}
use tmnotify.Notification.Record.{from_draft}
use tmnotify.Scheduler.State.{LiveEntry, LiveScheduler, entry_at, id_at, timeout_new}
use tmnotify.Scheduler.Operations.{enter, remember_key, key_target}
use tmnotify.Scheduler.Invariant.{Core, EntryOk, TimerOk}
use tmnotify.Scheduler.Invariant.Live.{EntryOk-moved}
use tmnotify.Scheduler.Invariant.Close.{Keyed}

-- The entry that a draft becomes.
abbrev pub entry_of : NotificationId → NotificationDraft → ℕ → ℕ → LiveEntry
entry_of id d wall sequence = record {
  notification = from_draft id d wall;
  sequence = sequence;
  timeout = timeout_new d.timeout;
  jump_nonce = none;
}

-- A state with another queue of the same ids.
pub Core-reordered :
    {s : LiveScheduler} (xs : List NotificationId)
    → ((id : NotificationId) → count id xs ≡ count id s.pending)
    → Core s
    → Core (record s { pending = xs })
Core-reordered {s} xs same c = record {
  located = λ id. ground (arith, same id, c.located id);
  entries_ok = λ id e at. EntryOk-moved (omega arith) refl refl (c.entries_ok id e at);
  capacity = c.capacity;
}

timeout_new-TimerOk : (now active : ℕ) (t : Timeout) → TimerOk now active (timeout_new t)
timeout_new-TimerOk now active (Timeout.after d) = tt
timeout_new-TimerOk now active Timeout.never = tt

entry_of-EntryOk :
    (now : ℕ) (toasts : List NotificationId) (gate : Option NotificationId) (id : NotificationId)
    (d : NotificationDraft) (wall sequence : ℕ)
    → IsValid d
    → count id toasts ≡ 0
    → count id (option_list gate) ≡ 0
    → EntryOk now toasts gate id (entry_of id d wall sequence)
unfolding from_draft
entry_of-EntryOk now toasts gate id d wall sequence v nt ng = record {
  own_id = refl;
  live = refl;
  never_ends = v.untimed;
  untimed = λ h. ground (arith, v.untimed h);
  is_toast = λ h. absurd (omega arith);
  is_gate = λ h. absurd (omega arith);
  timer = timeout_new-TimerOk now _ d.timeout;
}

pub enter-Core :
    {s : LiveScheduler} (id : NotificationId) (d : NotificationDraft) (wall : ℕ)
    → Core s
    → IsValid d
    → entry_at id s.entries ≡ none
    → Core (enter id d wall s)
unfolding enter from_draft count
enter-Core {s} id d wall c v fresh = record {
  located = λ j. ground (
    arith,
    c.located j,
    lookup-insert ℕ_discrete j id (entry_of id d wall s.next_sequence) s.entries,
    count-append j s.pending (id ∷ []),
    fresh,
  );
  entries_ok = λ j e at. elim (ℕ_discrete id j) [
    | yes p ↦
        subst (λ i. EntryOk s.last_now s.active_toasts s.active_attention i e) p
          (subst (EntryOk s.last_now s.active_toasts s.active_attention id)
            (ground
              (arith, lookup-insert ℕ_discrete j id (entry_of id d wall s.next_sequence) s.entries))
            (entry_of-EntryOk s.last_now s.active_toasts s.active_attention id d wall
              s.next_sequence v (ground (arith, c.located id, fresh))
              (ground (arith, c.located id, fresh))))
    | no p ↦ c.entries_ok j e (
        ground
          (arith, lookup-insert ℕ_discrete j id (entry_of id d wall s.next_sequence) s.entries))
  ];
  capacity = c.capacity;
}

id_at-remember_key :
    (j : NotificationKey) (key : Option NotificationKey) (id : NotificationId)
    (m : List (NotificationKey × NotificationId))
    → id_at j (remember_key key id m)
      ≡ (elim key [ none ↦ id_at j m | some k ↦ ite (Text-discrete k j) (some id) (id_at j m) ])
id_at-remember_key j none id m = refl
id_at-remember_key j (some k) id m = lookup-insert Text-discrete j k id m

pub enter-Keyed :
    {s : LiveScheduler} (id : NotificationId) (d : NotificationDraft) (wall : ℕ)
    → Keyed s
    → entry_at id s.entries ≡ none
    → key_target d.key s.live_keys ≡ none
    → Keyed (enter id d wall s)
unfolding enter from_draft
enter-Keyed {s} id d wall k fresh new =
    let x = entry_of id d wall s.next_sequence in
    record {
      key_live = λ j i h. elim (Option-cases d.key) [
        | inl e ↦ old j i x (ground (arith, e, id_at-remember_key j d.key id s.live_keys))
        | inr (own, e) ↦ elim (Text-discrete own j) [
          | yes p ↦
              let mine : id ≡ i =
                ground (arith, e, lookup-insert Text-discrete j own id s.live_keys) in
              (
                x,
                subst (λ n. entry_at n (Map.insert ℕ_discrete id x s.entries) ≡ some x) mine
                    (ground (arith, lookup-insert ℕ_discrete id id x s.entries)),
                e ∙ ap some p,
              )
          | no p ↦ old j i x (ground (arith, e, lookup-insert Text-discrete j own id s.live_keys))
        ]
      ];
      live_key = λ i e j at has. elim (ℕ_discrete id i) [
        | yes p ↦
            let same : e ≡ x = ground (arith, lookup-insert ℕ_discrete i id x s.entries) in
            let keyed : d.key ≡ some j =
              sym (ap (λ (y : LiveEntry). y.notification.key) same) ∙ has in
            rw (keyed, p) (ground (arith, lookup-insert Text-discrete j j i s.live_keys))
        | no p ↦
            let known =
              k.live_key i e j (ground (arith, lookup-insert ℕ_discrete i id x s.entries)) has in
            elim (Option-cases d.key) [
              | inl none_given ↦ rw none_given known
              | inr (own, e') ↦ rw e' (
                  ground (
                    arith,
                    lookup-insert Text-discrete j own id s.live_keys,
                    e',
                    known,
                    ap (λ q. id_at q s.live_keys),
                  ))
            ]
      ];
    }
  where
    old :
        (j : NotificationKey) (i : NotificationId) (x : LiveEntry)
        → id_at j s.live_keys ≡ some i
        → (e : LiveEntry) × (entry_at i (Map.insert ℕ_discrete id x s.entries) ≡ some e)
          × (e.notification.key ≡ some j)
    old j i x h =
        let (e, at, has) = k.key_live j i h in
        (
          e,
          ground (arith, lookup-insert ℕ_discrete i id x s.entries, ap (λ n. entry_at n s.entries)),
          has,
        )
