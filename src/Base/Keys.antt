-- ===== src/Base/Keys.antt =====
-- How often a key stands in a queue or in a map. Clients see the laws.
use mathlib.Core.Path.{◌≡◌, refl}
use mathlib.Core.Logic.{ite}
use mathlib.Core.List.{List, [], ◌∷◌, ◌++◌}
use native.Mathlib.Omega.{arith}
use Prim.Native.Nat.{ℕ, zero, suc, ◌+◌, ◌≤◌, min}
use tmnotify.Base.Lists.{length}
use tmnotify.Base.Tests.{present}
use tmnotify.Base.Map.{lookup, remove, insert}

unfoldable pub keys {ℓ} : {K V : Type ℓ} → List (K × V) → List K
keys [] = []
keys ((k, v) ∷ m) = k ∷ keys m

pub length-keys {ℓ} : {K V : Type ℓ} (m : List (K × V)) → length (keys m) ≡ length m
unfolding keys
length-keys [] = refl
length-keys ((k, v) ∷ m) = ground (arith, length-keys m)

module _ {K : Type 0} (dec : Discrete K) where
  unfoldable pub occurs : K → List K → ℕ
  occurs a [] = 0
  occurs a (x ∷ xs) = let rest = occurs a xs in ite (dec x a) (suc rest) rest

  -- queue.retain(|x| x != a)
  unfoldable pub retain : K → List K → List K
  retain a [] = []
  retain a (x ∷ xs) = let rest = retain a xs in ite (dec x a) rest (x ∷ rest)

  pub occurs-append : (a : K) (xs ys : List K) → occurs a (xs ++ ys) ≡ occurs a xs + occurs a ys
  unfolding occurs
  occurs-append a [] ys = omega arith
  occurs-append a (x ∷ xs) ys = ground (arith, occurs-append a xs ys)

  pub occurs-retain :
      (a b : K) (xs : List K) → occurs a (retain b xs) ≡ ite (dec b a) 0 (occurs a xs)
  unfolding occurs retain
  occurs-retain a b [] = ground arith
  occurs-retain a b (x ∷ xs) = ground (arith, occurs-retain a b xs)

  pub length-retain : (a : K) (xs : List K) → length (retain a xs) + occurs a xs ≡ length xs
  unfolding occurs retain
  length-retain a [] = refl
  length-retain a (x ∷ xs) = ground (arith, length-retain a xs)

  length-within :
      (n : ℕ) (xs ys : List K)
      → length ys ≤ n
      → ((a : K) → occurs a xs ≤ occurs a ys)
      → length xs ≤ length ys
  unfolding occurs retain
  length-within n [] ys h k = omega arith
  length-within n (x ∷ xs) [] h k = absurd (ground (arith, k x))
  length-within zero (x ∷ xs) (y ∷ ys) h k = absurd (ground arith)
  length-within (suc n) (x ∷ xs) (y ∷ ys) h k =
      let rest =
        length-within n (retain y (x ∷ xs)) (retain y ys) (omega (arith, length-retain y ys))
          (λ a. ground (arith, occurs-retain a y (x ∷ xs), occurs-retain a y ys, k a)) in
      ground (arith, rest, length-retain y (x ∷ xs), length-retain y ys, k y)

  -- A queue within another is not longer.
  pub length-le_of_occurs :
      (xs ys : List K) → ((a : K) → occurs a xs ≤ occurs a ys) → length xs ≤ length ys
  length-le_of_occurs xs ys k = length-within (length ys) xs ys (omega arith) k

module _ {K V : Type 0} (dec : Discrete K) where
  pub occurs-remove :
      (a k : K) (m : List (K × V))
      → occurs dec a (keys (remove dec k m)) ≡ ite (dec k a) 0 (occurs dec a (keys m))
  unfolding occurs keys remove
  occurs-remove a k [] = ground arith
  occurs-remove a k ((j, v) ∷ m) = ground (arith, occurs-remove a k m)

  pub occurs-insert :
      (a k : K) (v : V) (m : List (K × V))
      → occurs dec a (keys (insert dec k v m)) ≡ ite (dec k a) 1 (occurs dec a (keys m))
  unfolding occurs keys insert
  occurs-insert a k v m = ground (arith, occurs-remove a k m)

  pub present-lookup :
      (k : K) (m : List (K × V)) → present (lookup dec k m) ≡ min 1 (occurs dec k (keys m))
  unfolding occurs keys lookup
  present-lookup k [] = refl
  present-lookup k ((j, v) ∷ m) = ground (arith, present-lookup k m)

  pub length-remove :
      (k : K) (m : List (K × V)) → length (remove dec k m) + occurs dec k (keys m) ≡ length m
  unfolding occurs keys remove
  length-remove k [] = refl
  length-remove k ((j, v) ∷ m) = ground (arith, length-remove k m)
