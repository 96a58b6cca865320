-- ===== src/Protocol/Cache/Room.antt =====
-- What `touch` and `evict` do to a cache that satisfies the invariant.
use tmnotify.Base.{
  ℕ, suc, ◌-◌, ◌≤◌, ◌≡◌, refl, none, some, List, [], ◌∷◌, ltb, ite, length, ℕ_discrete, arith,
  Bool-cases, inl, inr, drop,
}
use tmnotify.Base.Map.{lookup, insert, remove, lookup-remove, lookup-insert}
use tmnotify.Base.Keys.{
  keys, occurs, present-lookup, occurs-insert, length-keys, length-remove, length-le_of_occurs,
}
use tmnotify.Protocol.Cache.{CacheEntry, Kept, remove_first, touch, evict}
use tmnotify.Protocol.Cache.Order.{
  IsAged-ext, occurs-touch, occurs-remove_first, IsAged-remove_first, IsAged-touch,
}
use tmnotify.Protocol.Cache.Invariant.{IsKept, IsKept-tail, lookup-absent}

module _ {Value T : Type 0} where
  -- The entry of a key is renewed or made.
  pub IsKept-touch :
      (now id : ℕ) (entry : CacheEntry Value T) (order : List ℕ) (m : List (ℕ × CacheEntry Value T))
      → entry.touched_at ≡ now
      → IsKept now (order, m)
      → IsKept now (touch id order, insert ℕ_discrete id entry m)
  IsKept-touch now id entry order m e h = record {
    once = λ a. ground (arith, h.once a, occurs-touch a id order (h.once a));
    same = λ a. ground (
      arith,
      h.same a,
      occurs-touch a id order (h.once a),
      occurs-insert ℕ_discrete a id entry m,
    );
    aged =
        IsAged-touch (insert ℕ_discrete id entry m) order id h.once
          (λ a k. ground (
            arith,
            e,
            h.past a,
            lookup-insert ℕ_discrete a id entry m,
            lookup-insert ℕ_discrete id id entry m,
          ))
          (IsAged-ext m (insert ℕ_discrete id entry m) (remove_first id order)
            (λ a k. ground (
              arith,
              lookup-insert ℕ_discrete a id entry m,
              occurs-remove_first a id order (h.once a),
            ))
            (IsAged-remove_first m order id h.once h.aged));
    past = λ a. ground (arith, e, h.past a, lookup-insert ℕ_discrete a id entry m);
  }

  -- The queue and the map are of one length.
  pub length-IsKept :
      {now : ℕ} (order : List ℕ) (m : List (ℕ × CacheEntry Value T))
      → IsKept now (order, m)
      → length order ≡ length m
  length-IsKept order m h = omega (
    arith,
    length-keys m,
    length-le_of_occurs ℕ_discrete order (keys m) (λ a. omega (arith, h.same a)),
    length-le_of_occurs ℕ_discrete (keys m) order (λ a. omega (arith, h.same a)),
  )

  -- `kept` is the cache `order`, `m` without the first `n` keys of the queue.
  pub record Evicted (now n : ℕ) (order : List ℕ) (m : List (ℕ × CacheEntry Value T))
      (kept : Kept Value T) : Type 0 where
    pub keeps : IsKept now kept
    pub queue : kept.0 ≡ drop n order
    pub entry :
        (a : ℕ)
        → lookup ℕ_discrete a kept.1
          ≡ ite (ℕ_discrete (occurs ℕ_discrete a kept.0) 0) none (lookup ℕ_discrete a m)

  Evicted-none :
      {now : ℕ} (order : List ℕ) (m : List (ℕ × CacheEntry Value T))
      → IsKept now (order, m)
      → Evicted now 0 order m (order, m)
  Evicted-none order m h = record {
    keeps = h;
    queue = refl;
    entry = λ a.
        elim (ℕ_discrete (occurs ℕ_discrete a order) 0)
          as (λ d. lookup ℕ_discrete a m ≡ ite d none (lookup ℕ_discrete a m)) [
            | yes p ↦ lookup-absent a order m h p
            | no p ↦ refl
          ];
  }

  Evicted-more :
      {now : ℕ} (n oldest : ℕ) (order : List ℕ) (m : List (ℕ × CacheEntry Value T))
      (kept : Kept Value T)
      → Evicted now n order (remove ℕ_discrete oldest m) kept
      → Evicted now (suc n) (oldest ∷ order) m kept
  Evicted-more n oldest order m kept h = record {
    keeps = h.keeps;
    queue = h.queue;
    entry = λ a. ground (
      arith,
      h.entry a,
      lookup-remove ℕ_discrete a oldest m,
      present-lookup ℕ_discrete a kept.1,
      h.keeps.same a,
    );
  }

  length-remove_front :
      {now : ℕ} (oldest : ℕ) (order : List ℕ) (m : List (ℕ × CacheEntry Value T))
      → IsKept now (oldest ∷ order, m)
      → suc (length (remove ℕ_discrete oldest m)) ≡ length m
  unfolding occurs
  length-remove_front oldest order m h =
      ground (arith, h.same oldest, h.once oldest, length-remove ℕ_discrete oldest m)

  -- The loop ends.
  pub evict-Evicted :
      {now : ℕ} (capacity : ℕ) (order : List ℕ) (m : List (ℕ × CacheEntry Value T))
      → IsKept now (order, m)
      → (kept : Kept Value T) × (evict capacity order m ≡ some kept)
        × (length kept.1 ≤ capacity)
        × Evicted now (length m - capacity) order m kept
  unfolding evict
  evict-Evicted {now} capacity [] m h =
      let room : length m - capacity ≡ 0 = omega (arith, length-IsKept [] m h) in
      (
        ([], m),
        ground (arith, length-IsKept [] m h),
        omega (arith, length-IsKept [] m h),
        rw room (Evicted-none [] m h),
      )
  evict-Evicted {now} capacity (oldest ∷ order) m h = elim (Bool-cases (ltb capacity (length m))) [
    | inl full ↦
        let rest =
          evict-Evicted capacity order (remove ℕ_discrete oldest m)
            (IsKept-tail now oldest order m h) in
        let room : length m - capacity ≡ suc (length (remove ℕ_discrete oldest m) - capacity) =
          ground (arith, length-remove_front oldest order m h) in
        (
          rest.0,
          rw full rest.1,
          rest.2,
          rw room (
              Evicted-more (length (remove ℕ_discrete oldest m) - capacity) oldest order m rest.0
                rest.3),
        )
    | inr fits ↦
        let room : length m - capacity ≡ 0 = ground arith in
        ((oldest ∷ order, m), rw fits, ground arith, rw room (Evicted-none (oldest ∷ order) m h))
  ]
