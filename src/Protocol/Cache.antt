-- ===== src/Protocol/Cache.antt =====
-- src/protocol.rs: `RequestResultCache`, the results that answer a client's retry. An `Instant` is
-- a count of nanoseconds. `Value` is the type of JSON values, with its equality.
pub mod Order
pub mod Invariant
pub mod Room
pub mod Inserted
pub mod Replay
use tmnotify.Base.{
  ℕ, ◌-◌, Bool, Option, none, some, List, [], ◌∷◌, ◌++◌, ltb, if◌then◌else◌, ite, length,
  ℕ_discrete,
}
use tmnotify.Base.Map.{lookup, insert, remove}
use tmnotify.Protocol.Request.{RequestEnvelope}

pub data CacheLookup (T : Type 0) : Type 0 where
  miss : CacheLookup T
  replay : T → CacheLookup T
  payload_mismatch : CacheLookup T

pub record CacheEntry (Value T : Type 0) : Type 0 where
  pub payload : Value
  pub response : T
  pub touched_at : ℕ

pub record RequestResultCache (Value T : Type 0) : Type 0 where
  pub entries : List (ℕ × CacheEntry Value T)
  pub order : List ℕ
  pub capacity : ℕ
  pub ttl : ℕ

-- The part of a cache that changes: `order` and `entries`.
abbrev pub Kept : (Value T : Type 0) → Type 0
Kept Value T = List ℕ × List (ℕ × CacheEntry Value T)

-- `order.remove(order.iter().position(|id| *id == request_id))`
unfoldable pub remove_first : ℕ → List ℕ → List ℕ
remove_first a [] = []
remove_first a (x ∷ xs) = let rest = remove_first a xs in ite (ℕ_discrete x a) xs (x ∷ rest)

unfoldable pub touch : ℕ → List ℕ → List ℕ
touch id order = remove_first id order ++ id ∷ []

module _ {Value T : Type 0} where
  -- `RequestResultCache::new`, but for its assertion that the capacity is positive
  abbrev pub cache_new : ℕ → ℕ → RequestResultCache Value T
  cache_new capacity ttl = record { entries = []; order = []; capacity = capacity; ttl = ttl }

  -- The body of the loop of `expire` on the entry of the front, given the rounds after it.
  abbrev pub expire_front :
      ℕ
      → ℕ
      → Option (CacheEntry Value T)
      → Kept Value T
      → Kept Value T
      → Kept Value T
      → Kept Value T
  expire_front now ttl none skipped stopped dropped = skipped
  expire_front now ttl (some entry) skipped stopped dropped =
      if ltb (now - entry.touched_at) ttl then stopped else dropped

  unfoldable pub expire_loop : ℕ → ℕ → List ℕ → List (ℕ × CacheEntry Value T) → Kept Value T
  expire_loop now ttl [] m = ([], m)
  expire_loop now ttl (id ∷ order) m =
      let skipped = expire_loop now ttl order m in
      let dropped = expire_loop now ttl order (remove ℕ_discrete id m) in
      expire_front now ttl (lookup ℕ_discrete id m) skipped (id ∷ order, m) dropped

  unfoldable pub cache_expire : ℕ → RequestResultCache Value T → RequestResultCache Value T
  cache_expire now c =
      let (order, entries) = expire_loop now c.ttl c.order c.entries in
      record c { order = order; entries = entries }

  -- `while self.entries.len() > self.capacity`. With nothing left in `order` the loop of the code
  -- has no end, which is `none` here.
  unfoldable pub evict : ℕ → List ℕ → List (ℕ × CacheEntry Value T) → Option (Kept Value T)
  evict capacity [] m = if ltb capacity (length m) then none else some ([], m)
  evict capacity (oldest ∷ order) m =
      let rest = evict capacity order (remove ℕ_discrete oldest m) in
      if ltb capacity (length m) then rest else some (oldest ∷ order, m)

  abbrev pub set_kept :
      RequestResultCache Value T → Option (Kept Value T) → Option (RequestResultCache Value T)
  set_kept c none = none
  set_kept c (some (order, entries)) = some (record c { order = order; entries = entries })

  -- `insert`, after `expire`.
  unfoldable pub insert_fresh :
      RequestEnvelope Value
      → T
      → ℕ
      → RequestResultCache Value T
      → Option (RequestResultCache Value T)
  insert_fresh request response now c =
      let entry : CacheEntry Value T = record {
        payload = request.value;
        response = response;
        touched_at = now;
      } in
      set_kept c (
        evict c.capacity (touch request.request_id c.order)
          (insert ℕ_discrete request.request_id entry c.entries))

  unfoldable pub cache_insert :
      RequestEnvelope Value
      → T
      → ℕ
      → RequestResultCache Value T
      → Option (RequestResultCache Value T)
  cache_insert request response now c = insert_fresh request response now (cache_expire now c)

  module _ (Value-discrete : Discrete Value) where
    -- `lookup`, after `expire`, given the entry of the request.
    abbrev pub lookup_entry :
        RequestEnvelope Value
        → ℕ
        → RequestResultCache Value T
        → Option (CacheEntry Value T)
        → CacheLookup T × RequestResultCache Value T
    lookup_entry request now c none = (miss, c)
    lookup_entry request now c (some entry) =
        ite (Value-discrete entry.payload request.value)
          (
            replay entry.response,
            record c {
              entries =
                  insert ℕ_discrete request.request_id (record entry { touched_at = now })
                    c.entries;
              order = touch request.request_id c.order;
            },
          )
          (payload_mismatch, c)

    unfoldable pub lookup_fresh :
        RequestEnvelope Value
        → ℕ
        → RequestResultCache Value T
        → CacheLookup T × RequestResultCache Value T
    lookup_fresh request now c =
        lookup_entry request now c (lookup ℕ_discrete request.request_id c.entries)

    unfoldable pub cache_lookup :
        RequestEnvelope Value
        → ℕ
        → RequestResultCache Value T
        → CacheLookup T × RequestResultCache Value T
    cache_lookup request now c = lookup_fresh request now (cache_expire now c)
