-- ===== src/Protocol/Cache/Inserted.antt =====
-- What `insert` does to a cache, and the invariant between two uses.
use tmnotify.Base.{
  ℕ, zero, suc, ◌-◌, ◌≤◌, ◌<◌, ◌≡◌, ◌∙◌, refl, Option, none, some, List, [], ◌∷◌, ◌++◌, length,
  ℕ_discrete, arith, length-append, present, drop,
}
use tmnotify.Base.Map.{lookup, insert, lookup-insert}
use tmnotify.Base.Keys.{
  keys, occurs, occurs-append, present-lookup, length-keys, length-le_of_occurs,
}
use tmnotify.Protocol.Request.{RequestEnvelope}
use tmnotify.Protocol.Cache.{
  cache_new, CacheEntry, RequestResultCache, Kept, remove_first, touch, expire_loop, cache_expire,
  insert_fresh, cache_insert,
}
use tmnotify.Protocol.Cache.Order.{IsAged}
use tmnotify.Protocol.Cache.Invariant.{IsKept, fresh, expire_loop-Expired}
use tmnotify.Protocol.Cache.Room.{IsKept-touch, evict-Evicted, length-IsKept}

occurs-drop :
    (n z : ℕ) (xs : List ℕ) → n ≤ length xs → 0 < occurs ℕ_discrete z (drop n (xs ++ z ∷ []))
unfolding occurs
occurs-drop zero z xs h = ground (arith, occurs-append ℕ_discrete z xs (z ∷ []))
occurs-drop (suc n) z [] h = absurd (omega arith)
occurs-drop (suc n) z (x ∷ xs) h = occurs-drop n z xs (omega arith)

-- The key that was touched last leaves the queue last.
occurs-drop-touch :
    (n z : ℕ) (xs : List ℕ)
    → n < length (touch z xs)
    → 0 < occurs ℕ_discrete z (drop n (touch z xs))
unfolding touch
occurs-drop-touch n z xs h =
    occurs-drop n z (remove_first z xs)
      (omega (arith, h, length-append (remove_first z xs) (z ∷ [])))

touch_pos : (z : ℕ) (xs : List ℕ) → 0 < length (touch z xs)
unfolding touch
touch_pos z xs = omega (arith, length-append (remove_first z xs) (z ∷ []))

module _ {Value T : Type 0} where
  -- The invariant of a cache, at a time when it is used.
  pub record Inv (now : ℕ) (c : RequestResultCache Value T) : Type 0 where
    pub kept : IsKept now (c.order, c.entries)
    pub room : length c.entries ≤ c.capacity
    pub positive : 0 < c.capacity

  IsKept-later :
      (now later : ℕ) (kept : Kept Value T) → now ≤ later → IsKept now kept → IsKept later kept
  IsKept-later now later kept l h = record {
    once = h.once;
    same = h.same;
    aged = h.aged;
    past = λ a. omega (arith, h.past a);
  }

  -- The invariant still holds later.
  pub Inv-later :
      (now later : ℕ) (c : RequestResultCache Value T) → now ≤ later → Inv now c → Inv later c
  Inv-later now later c l h = record {
    kept = IsKept-later now later (c.order, c.entries) l h.kept;
    room = h.room;
    positive = h.positive;
  }

  -- Fewer keys, fewer entries.
  pub length-le_of_lookup :
      {now : ℕ} (kept : Kept Value T) (m : List (ℕ × CacheEntry Value T))
      → IsKept now kept
      → ((a : ℕ) → present (lookup ℕ_discrete a kept.1) ≤ present (lookup ℕ_discrete a m))
      → length kept.1 ≤ length m
  length-le_of_lookup kept m h le = omega (
    arith,
    length-keys m,
    length-keys kept.1,
    length-le_of_occurs ℕ_discrete (keys kept.1) (keys m) (λ a. ground (
      arith,
      h.once a,
      h.same a,
      le a,
      present-lookup ℕ_discrete a m,
      present-lookup ℕ_discrete a kept.1,
    )),
  )

  present-fresh :
      (now ttl : ℕ) (o : Option (CacheEntry Value T)) → present (fresh now ttl o) ≤ present o
  present-fresh now ttl none = omega arith
  present-fresh now ttl (some entry) = ground arith

  -- `expire` keeps the invariant, and removes the entries that are not fresh.
  pub cache_expire-Inv :
      (now : ℕ) (c : RequestResultCache Value T)
      → Inv now c
      → Inv now (cache_expire now c)
        × ((a : ℕ)
            → lookup ℕ_discrete a (cache_expire now c).entries
              ≡ fresh now c.ttl (lookup ℕ_discrete a c.entries))
  unfolding cache_expire
  cache_expire-Inv now c h =
      let rest = expire_loop-Expired now c.ttl c.order c.entries h.kept in
      (
        record {
          kept = rest.0;
          room = omega (
            arith,
            h.room,
            length-le_of_lookup (expire_loop now c.ttl c.order c.entries) c.entries rest.0
                (λ a. rw (rest.1 a) (present-fresh now c.ttl (lookup ℕ_discrete a c.entries))),
          );
          positive = h.positive;
        },
        rest.1,
      )

  pub cache_expire-ttl :
      (now : ℕ) (c : RequestResultCache Value T) → (cache_expire now c).ttl ≡ c.ttl
  unfolding cache_expire
  cache_expire-ttl now c = refl

  abbrev pub entry_of : RequestEnvelope Value → T → ℕ → CacheEntry Value T
  entry_of request response now = record {
    payload = request.value;
    response = response;
    touched_at = now;
  }

  -- What `insert` makes of a cache from which the old entries are gone.
  abbrev pub Inserted :
      RequestEnvelope Value
      → T
      → ℕ
      → RequestResultCache Value T
      → RequestResultCache Value T
      → Type 0
  Inserted request response now c c' =
      Inv now c'
      × (c'.ttl ≡ c.ttl)
      × (lookup ℕ_discrete request.request_id c'.entries ≡ some (entry_of request response now))
      × (c'.order
          ≡ drop (length (touch request.request_id c.order) - c.capacity)
              (touch request.request_id c.order))

  insert_fresh-Inserted :
      (request : RequestEnvelope Value) (response : T) (now : ℕ) (c : RequestResultCache Value T)
      → Inv now c
      → (c' : RequestResultCache Value T) × (insert_fresh request response now c ≡ some c')
        × Inserted request response now c c'
  unfolding insert_fresh
  insert_fresh-Inserted request response now c h =
      let id : ℕ = request.request_id in
      let m : List (ℕ × CacheEntry Value T) =
        insert ℕ_discrete id (entry_of request response now) c.entries in
      let k : IsKept now (touch id c.order, m) =
        IsKept-touch now id (entry_of request response now) c.order c.entries refl h.kept in
      let (kept, e, room, out) = evict-Evicted c.capacity (touch id c.order) m k in
      let queue : kept.0 ≡ drop (length (touch id c.order) - c.capacity) (touch id c.order) =
        rw (length-IsKept (touch id c.order) m k) out.queue in
      let n : 0 < occurs ℕ_discrete id kept.0 = rw queue (
        occurs-drop-touch (length (touch id c.order) - c.capacity) id c.order
          (omega (arith, h.positive, touch_pos id c.order))) in
      (
        record c { order = kept.0; entries = kept.1 },
        rw e,
        (
          (record { kept = out.keeps; room = room; positive = h.positive }),
          refl,
          out.entry id
              ∙ ground (
                arith,
                n,
                lookup-insert ℕ_discrete id id (entry_of request response now) c.entries,
              ),
          queue,
        ),
      )

  -- On a cache that satisfies the invariant at a time that is not before its last use, the loop
  -- of `insert` ends, and what it leaves satisfies the invariant: the queue has each key once and
  -- by age, and there are no more entries than the capacity. The new entry is there, and the
  -- queue is the old one without the expired keys, with the new key at its end and without the
  -- keys in excess at its front.
  pub cache_insert-Inserted :
      (request : RequestEnvelope Value) (response : T) (now : ℕ) (c : RequestResultCache Value T)
      → Inv now c
      → (c' : RequestResultCache Value T) × (cache_insert request response now c ≡ some c')
        × Inserted request response now (cache_expire now c) c'
  unfolding cache_insert
  cache_insert-Inserted request response now c h =
      insert_fresh-Inserted request response now (cache_expire now c) (cache_expire-Inv now c h).0

  -- A new cache of a positive capacity satisfies the invariant.
  pub cache_new-Inv :
      (capacity ttl now : ℕ)
      → 0 < capacity
      → Inv now (cache_new {Value = Value} {T = T} capacity ttl)
  unfolding occurs keys lookup IsAged
  cache_new-Inv capacity ttl now h = record {
    kept = record { once = λ a. omega arith; same = λ a. refl; aged = tt; past = λ a. omega arith };
    room = omega arith;
    positive = h;
  }
