-- ===== src/Protocol/Cache/Order.antt =====
-- The queue of a cache: each key in it once, the least recently touched one at the front.
use tmnotify.Base.{
  ℕ, ◌≤◌, ◌<◌, ◌≡◌, Option, none, some, List, [], ◌∷◌, ◌++◌, ite, ℕ_discrete, arith,
}
use tmnotify.Base.Map.{lookup}
use tmnotify.Base.Keys.{occurs, occurs-append}
use tmnotify.Protocol.Cache.{CacheEntry, remove_first, touch}

abbrev pub within_queue : ℕ → List ℕ → ℕ
within_queue a xs = occurs ℕ_discrete a xs

pub occurs-remove_first :
    (a b : ℕ) (xs : List ℕ)
    → occurs ℕ_discrete a xs ≤ 1
    → occurs ℕ_discrete a (remove_first b xs) ≡ ite (ℕ_discrete b a) 0 (occurs ℕ_discrete a xs)
unfolding occurs remove_first
occurs-remove_first a b [] h = ground arith
occurs-remove_first a b (x ∷ xs) h = ground (arith, occurs-remove_first a b xs)

pub occurs-touch :
    (a b : ℕ) (xs : List ℕ)
    → occurs ℕ_discrete a xs ≤ 1
    → occurs ℕ_discrete a (touch b xs) ≡ ite (ℕ_discrete b a) 1 (occurs ℕ_discrete a xs)
unfolding touch occurs
occurs-touch a b xs h =
    ground
      (arith, occurs-append ℕ_discrete a (remove_first b xs) (b ∷ []), occurs-remove_first a b xs h)

module _ {Value T : Type 0} where
  abbrev pub touched : Option (CacheEntry Value T) → ℕ
  touched none = 0
  touched (some entry) = entry.touched_at

  -- When the entry of a key was touched last.
  abbrev pub age : List (ℕ × CacheEntry Value T) → ℕ → ℕ
  age m a = touched (lookup ℕ_discrete a m)

  unfoldable pub IsAged : List (ℕ × CacheEntry Value T) → List ℕ → Type 0
  IsAged m [] = Unit
  IsAged m (x ∷ xs) = ((a : ℕ) → 0 < occurs ℕ_discrete a xs → age m x ≤ age m a) × IsAged m xs

  pub IsAged-ext :
      (m n : List (ℕ × CacheEntry Value T)) (xs : List ℕ)
      → ((a : ℕ) → 0 < occurs ℕ_discrete a xs → age m a ≡ age n a)
      → IsAged m xs
      → IsAged n xs
  unfolding IsAged occurs
  IsAged-ext m n [] e h = tt
  IsAged-ext m n (x ∷ xs) e h =
      ((λ a k. ground (arith, e x, e a, h.0 a)), IsAged-ext m n xs (λ a k. ground (arith, e a)) h.1)

  IsAged-append :
      (m : List (ℕ × CacheEntry Value T)) (xs : List ℕ) (z : ℕ)
      → ((a : ℕ) → 0 < occurs ℕ_discrete a xs → age m a ≤ age m z)
      → IsAged m xs
      → IsAged m (xs ++ z ∷ [])
  unfolding IsAged occurs
  IsAged-append m [] z e h = ((λ a k. absurd (ground arith)), tt)
  IsAged-append m (x ∷ xs) z e h = (
    (λ a k. ground (arith, e x, e a, h.0 a, occurs-append ℕ_discrete a xs (z ∷ []))),
    IsAged-append m xs z (λ a k. ground (arith, e a)) h.1,
  )

  pub IsAged-remove_first :
      (m : List (ℕ × CacheEntry Value T)) (xs : List ℕ) (z : ℕ)
      → ((a : ℕ) → occurs ℕ_discrete a xs ≤ 1)
      → IsAged m xs
      → IsAged m (remove_first z xs)
  unfolding IsAged occurs remove_first
  IsAged-remove_first m [] z o h = tt
  IsAged-remove_first m (x ∷ xs) z o h =
      elim (ℕ_discrete x z) as (λ d. IsAged m (ite d xs (x ∷ remove_first z xs))) [
        | yes p ↦ h.1
        | no p ↦ (
          (λ a k. ground (arith, h.0 a, o a, occurs-remove_first a z xs)),
          IsAged-remove_first m xs z (λ a. ground (arith, o a)) h.1,
        )
      ]

  -- A key that is touched last goes to the back.
  pub IsAged-touch :
      (m : List (ℕ × CacheEntry Value T)) (xs : List ℕ) (z : ℕ)
      → ((a : ℕ) → occurs ℕ_discrete a xs ≤ 1)
      → ((a : ℕ) → 0 < occurs ℕ_discrete a xs → age m a ≤ age m z)
      → IsAged m (remove_first z xs)
      → IsAged m (touch z xs)
  unfolding touch
  IsAged-touch m xs z o e h =
      IsAged-append m (remove_first z xs) z
        (λ a k. ground (arith, e a, occurs-remove_first a z xs (o a))) h
