-- ===== src/Protocol/Cache/Invariant.antt =====
-- The invariant of a cache, and that its operations keep it.
use tmnotify.Base.{
  ℕ, ◌-◌, ◌≤◌, ◌<◌, ◌≡◌, ◌≢◌, ◌∙◌, refl, Option, none, some, List, [], ◌∷◌, ltb, if◌then◌else◌,
  ℕ_discrete, arith, Option-cases, Bool-cases, inl, inr,
}
use tmnotify.Base.Map.{lookup, remove, lookup-remove}
use tmnotify.Base.Keys.{keys, occurs, present-lookup, occurs-remove}
use tmnotify.Protocol.Cache.{CacheEntry, Kept, expire_loop}
use tmnotify.Protocol.Cache.Order.{age, IsAged, IsAged-ext}

module _ {Value T : Type 0} where
  -- The queue has each key of the map once and no other, by age, and no entry is of a later time.
  pub record IsKept (now : ℕ) (kept : Kept Value T) : Type 0 where
    pub once : (a : ℕ) → occurs ℕ_discrete a kept.0 ≤ 1
    pub same : (a : ℕ) → occurs ℕ_discrete a kept.0 ≡ occurs ℕ_discrete a (keys kept.1)
    pub aged : IsAged kept.1 kept.0
    pub past : (a : ℕ) → age kept.1 a ≤ now

  -- An entry that is younger than the time to live.
  abbrev pub fresh : ℕ → ℕ → Option (CacheEntry Value T) → Option (CacheEntry Value T)
  fresh now ttl none = none
  fresh now ttl (some entry) = if ltb (now - entry.touched_at) ttl then some entry else none

  -- What `expire` leaves: the entries that are fresh, and no other.
  abbrev pub Expired : ℕ → ℕ → List (ℕ × CacheEntry Value T) → Kept Value T → Type 0
  Expired now ttl m kept =
      IsKept now kept
      × ((a : ℕ) → lookup ℕ_discrete a kept.1 ≡ fresh now ttl (lookup ℕ_discrete a m))

  -- The queue without its front.
  pub IsKept-tail :
      (now id : ℕ) (order : List ℕ) (m : List (ℕ × CacheEntry Value T))
      → IsKept now (id ∷ order, m)
      → IsKept now (order, remove ℕ_discrete id m)
  unfolding occurs IsAged
  IsKept-tail now id order m h = record {
    once = λ a. ground (arith, h.once a);
    same = λ a. ground (arith, h.same a, h.once a, occurs-remove ℕ_discrete a id m);
    aged =
        IsAged-ext m (remove ℕ_discrete id m) order
          (λ a k. ground (arith, h.once a, lookup-remove ℕ_discrete a id m)) h.aged.1;
    past = λ a. ground (arith, h.past a, lookup-remove ℕ_discrete a id m);
  }

  -- A key that is not in the queue has no entry.
  pub lookup-absent :
      {now : ℕ} (a : ℕ) (order : List ℕ) (m : List (ℕ × CacheEntry Value T))
      → IsKept now (order, m)
      → occurs ℕ_discrete a order ≡ 0
      → lookup ℕ_discrete a m ≡ none
  lookup-absent a order m h e = elim (Option-cases (lookup ℕ_discrete a m)) [
    | inl at ↦ at
    | inr (entry, at) ↦ absurd (ground (arith, h.same a, present-lookup ℕ_discrete a m))
  ]

  lookup-front :
      {now : ℕ} (id : ℕ) (order : List ℕ) (m : List (ℕ × CacheEntry Value T))
      → IsKept now (id ∷ order, m)
      → lookup ℕ_discrete id m ≢ none
  unfolding occurs
  lookup-front id order m h e = ground (arith, h.same id, present-lookup ℕ_discrete id m)

  -- If the front is fresh, all are.
  fresh-front :
      (now ttl id : ℕ) (order : List ℕ) (m : List (ℕ × CacheEntry Value T))
      → IsKept now (id ∷ order, m)
      → now - age m id < ttl
      → (a : ℕ) → lookup ℕ_discrete a m ≡ fresh now ttl (lookup ℕ_discrete a m)
  unfolding occurs IsAged
  fresh-front now ttl id order m h young a = elim (Option-cases (lookup ℕ_discrete a m)) [
    | inl at ↦ rw at
    | inr (entry, at) ↦ ground (arith, at, h.aged.0 a, h.same a, present-lookup ℕ_discrete a m)
  ]

  pub expire_loop-Expired :
      (now ttl : ℕ) (order : List ℕ) (m : List (ℕ × CacheEntry Value T))
      → IsKept now (order, m)
      → Expired now ttl m (expire_loop now ttl order m)
  unfolding expire_loop occurs
  expire_loop-Expired now ttl [] m h = (h, λ a. rw (lookup-absent a [] m h refl))
  expire_loop-Expired now ttl (id ∷ order) m h = elim (Option-cases (lookup ℕ_discrete id m)) [
    | inl at ↦ absurd (lookup-front id order m h at)
    | inr (entry, at) ↦ elim (Bool-cases (ltb (now - entry.touched_at) ttl)) [
      | inl young ↦ rw (at, young) (h, fresh-front now ttl id order m h (ground (arith, at, young)))
      | inr old ↦
          rw (at, old)
            (let rest =
                expire_loop-Expired now ttl order (remove ℕ_discrete id m)
                  (IsKept-tail now id order m h) in
              (rest.0, λ a. rest.1 a ∙ ground (arith, at, old, lookup-remove ℕ_discrete a id m)))
    ]
  ]
