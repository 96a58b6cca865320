-- ===== src/Protocol/Cache/Replay.antt =====
-- What a cache answers.
use tmnotify.Base.{
  ℕ, ◌-◌, ◌≤◌, ◌≡◌, ◌∙◌, refl, sym, subst, Option, none, some, List, ltb, if◌then◌else◌, ite,
  ℕ_discrete, arith, Option-cases, Bool, true, false, inl, inr,
}
use tmnotify.Base.Map.{lookup, insert, lookup-insert}
use tmnotify.Protocol.Request.{RequestEnvelope}
use tmnotify.Protocol.Cache.{
  CacheLookup, miss, replay, payload_mismatch, CacheEntry, RequestResultCache, touch, cache_expire,
  cache_insert, lookup_fresh, cache_lookup,
}
use tmnotify.Protocol.Cache.Invariant.{IsKept, fresh}
use tmnotify.Protocol.Cache.Room.{IsKept-touch}
use tmnotify.Protocol.Cache.Inserted.{
  Inv, Inv-later, length-le_of_lookup, cache_expire-Inv, cache_expire-ttl, entry_of, Inserted,
  cache_insert-Inserted,
}

module _ {Value T : Type 0} where
  -- The cache after a replay.
  abbrev replayed :
      ℕ → ℕ → CacheEntry Value T → RequestResultCache Value T → RequestResultCache Value T
  replayed id now entry c = record c {
    entries = insert ℕ_discrete id (record entry { touched_at = now }) c.entries;
    order = touch id c.order;
  }

  replayed-Inv :
      (id now : ℕ) (entry : CacheEntry Value T) (c : RequestResultCache Value T)
      → Inv now c
      → lookup ℕ_discrete id c.entries ≡ some entry
      → Inv now (replayed id now entry c)
  replayed-Inv id now entry c h at =
      let renewed : CacheEntry Value T = record entry { touched_at = now } in
      let m : List (ℕ × CacheEntry Value T) = insert ℕ_discrete id renewed c.entries in
      let kept : IsKept now (touch id c.order, m) =
        IsKept-touch now id renewed c.order c.entries refl h.kept in
      record {
        kept = kept;
        room = omega (
          arith,
          h.room,
          length-le_of_lookup (touch id c.order, m) c.entries kept
              (λ a. ground (arith, at, lookup-insert ℕ_discrete a id renewed c.entries)),
        );
        positive = h.positive;
      }

  module _ (Value-discrete : Discrete Value) where
    -- The answer that the entry of a request decides, once the old entries are gone.
    abbrev pub answer : RequestEnvelope Value → Option (CacheEntry Value T) → CacheLookup T
    answer request none = miss
    answer request (some entry) =
        ite (Value-discrete entry.payload request.value) (replay entry.response) payload_mismatch

    answer-fresh :
        (request : RequestEnvelope Value) (entry : CacheEntry Value T) (b : Bool)
        → answer request (if b then some entry else none)
          ≡ (if b then answer request (some entry) else miss)
    answer-fresh request entry true = refl
    answer-fresh request entry false = refl

    lookup_fresh-Inv :
        (request : RequestEnvelope Value) (now : ℕ) (c : RequestResultCache Value T)
        → Inv now c
        → ((lookup_fresh Value-discrete request now c).0
            ≡ answer request (lookup ℕ_discrete request.request_id c.entries))
          × Inv now (lookup_fresh Value-discrete request now c).1
    unfolding lookup_fresh
    lookup_fresh-Inv request now c h =
        elim (Option-cases (lookup ℕ_discrete request.request_id c.entries)) [
          | inl at ↦ rw at (refl, h)
          | inr (entry, at) ↦ rw at (
              go entry (replayed-Inv request.request_id now entry c h at)
                (Value-discrete entry.payload request.value))
        ]
      where
        go :
            (entry : CacheEntry Value T)
            → Inv now (replayed request.request_id now entry c)
            → (d : Dec (entry.payload ≡ request.value))
            → let r : CacheLookup T × RequestResultCache Value T =
                ite d
                  (replay entry.response, replayed request.request_id now entry c)
                  (payload_mismatch, c) in
              (r.0 ≡ ite d (replay entry.response) payload_mismatch) × Inv now r.1
        go entry k (yes p) = (refl, k)
        go entry k (no p) = (refl, h)

    -- At a time that is not before the last use, `lookup` answers a request by the entry of its id, if
    -- that entry is younger than the time to live: with its response if the payload is the same, and
    -- otherwise with the mismatch. Without such an entry it is a miss. The invariant still holds.
    pub cache_lookup-answer :
        (request : RequestEnvelope Value) (now : ℕ) (c : RequestResultCache Value T)
        → Inv now c
        → ((cache_lookup Value-discrete request now c).0
            ≡ answer request (fresh now c.ttl (lookup ℕ_discrete request.request_id c.entries)))
          × Inv now (cache_lookup Value-discrete request now c).1
    unfolding cache_lookup
    cache_lookup-answer request now c h =
        let (k, e) = cache_expire-Inv now c h in
        let (a, i) = lookup_fresh-Inv request now (cache_expire now c) k in
        (a ∙ rw (e request.request_id), i)

    -- After an insertion into a cache that satisfies the invariant, a retry with the id of the
    -- request, at no earlier time, gets the inserted response if it comes before the time to live
    -- is over and its payload is the same. It gets the mismatch if it comes in time with another
    -- payload, and is a miss after that time.
    pub cache_lookup-cache_insert :
        (request retry : RequestEnvelope Value) (response : T) (now later : ℕ)
        (c c' : RequestResultCache Value T)
        → Inv now c
        → cache_insert request response now c ≡ some c'
        → retry.request_id ≡ request.request_id
        → now ≤ later
        → (cache_lookup Value-discrete retry later c').0 ≡ (
            if ltb (later - now) c.ttl
            then ite (Value-discrete request.value retry.value) (replay response) payload_mismatch
            else miss)
    cache_lookup-cache_insert request retry response now later c c' h made same l =
        let (d, e, out) = cache_insert-Inserted request response now c h in
        let eq : d ≡ c' = cc (sym e ∙ made) in
        let (inv, ttl, at, queue) : Inserted request response now (cache_expire now c) c' =
          subst (λ x. Inserted request response now (cache_expire now c) x) eq out in
        (cache_lookup-answer retry later c' (Inv-later now later c' l inv)).0
        ∙ rw (same, at, ttl, cache_expire-ttl now c)
            (answer-fresh retry (entry_of request response now) (ltb (later - now) c.ttl))
