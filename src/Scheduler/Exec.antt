-- ===== src/Scheduler/Exec.antt =====
-- Methods of the scheduler: state passing with errors and panics. What was written before an error
-- stays written, so the state comes back beside the error too.
use tmnotify.Base.{◌≡◌, refl, Option, none, some, List, [], ◌∷◌, ℕ_discrete}
use tmnotify.Base.Map
use tmnotify.Notification.Source.{NotificationId}
use tmnotify.Scheduler.State.{
  SchedulerError, Outcome, ok, err, panicked, LiveEntry, LiveScheduler, entry_at,
}

abbrev pub M {ℓ} : Type ℓ → Type ℓ
M A = LiveScheduler → Outcome A × LiveScheduler

module _ {ℓ κ} {A : Type ℓ} {B : Type κ} where
  abbrev pub continue : Outcome A × LiveScheduler → (A → M B) → Outcome B × LiveScheduler
  continue (ok a, s) f = f a s
  continue (err e, s) f = (err e, s)
  continue (panicked, s) f = (panicked, s)

  infixl 5 ◌>>=◌
  abbrev pub ◌>>=◌ : M A → (A → M B) → M B
  ◌>>=◌ m f s = continue (m s) f

infixl 5 ◌>>◌
abbrev pub ◌>>◌ {ℓ} : {B : Type ℓ} → M (Unit {0}) → M B → M B
m >> k = m >>= λ _. k

module _ {ℓ} {A : Type ℓ} where
  abbrev pub pure : A → M A
  pure a s = (ok a, s)

  abbrev pub throw : SchedulerError → M A
  throw e s = (err e, s)

  abbrev pub panic : M A
  panic s = (panicked, s)

  abbrev pub lift : Outcome A → M A
  lift r s = (r, s)

  abbrev pub gets : (LiveScheduler → A) → M A
  gets f s = (ok (f s), s)

  -- `.ok_or(e)?`
  abbrev pub or_throw : Option A → SchedulerError → M A
  or_throw none e = throw e
  or_throw (some a) e = pure a

  -- `.expect(…)`, and an index into a map
  abbrev pub or_panic : Option A → M A
  or_panic none = panic
  or_panic (some a) = pure a

abbrev pub modify : (LiveScheduler → LiveScheduler) → M (Unit {0})
modify f s = (ok tt, f s)

-- A change through `self.entries.get_mut(&id)`
abbrev pub put_entry : NotificationId → LiveEntry → LiveScheduler → LiveScheduler
put_entry id e s = record s { entries = Map.insert ℕ_discrete id e s.entries }

-- `self.entries.get_mut(&id).expect(…)`
abbrev pub expect_entry : NotificationId → M LiveEntry
expect_entry id s = or_panic (entry_at id s.entries) s

unfoldable pub for_each {ℓ} : {A : Type ℓ} → (A → M (Unit {0})) → List A → M (Unit {0})
for_each f [] = pure tt
for_each f (x ∷ xs) = f x >>= λ _. for_each f xs

-- What holds of a result: `Q` of a value and `E` of an error. A panic satisfies nothing.
abbrev pub After {ℓ} :
    {A : Type ℓ}
    → (SchedulerError → LiveScheduler → Type 0)
    → (A → LiveScheduler → Type 0)
    → Outcome A × LiveScheduler
    → Type 0
After E Q (ok a, s) = Q a s
After E Q (err e, s) = E e s
After E Q (panicked, s) = ⊥

-- A value is returned.
abbrev pub Returns {ℓ} :
    {A : Type ℓ} → (A → LiveScheduler → Type 0) → Outcome A × LiveScheduler → Type 0
Returns = After (λ e s. ⊥)

module _ {ℓ} {A : Type ℓ} {E F : SchedulerError → LiveScheduler → Type 0} where
  pub After-mono :
      {Q R : A → LiveScheduler → Type 0} (r : Outcome A × LiveScheduler)
      → After E Q r
      → ((e : SchedulerError) (s : LiveScheduler) → E e s → F e s)
      → ((a : A) (s : LiveScheduler) → Q a s → R a s)
      → After F R r
  After-mono (ok a, s) h g f = f a s h
  After-mono (err e, s) h g f = g e s h
  After-mono (panicked, s) h g f = absurd h

-- What is ensured, and the very result.
pub After-exact :
    {A : Type 0} (E : SchedulerError → LiveScheduler → Type 0) (Q : A → LiveScheduler → Type 0)
    (r : Outcome A × LiveScheduler)
    → After E Q r
    → After E (λ a s. Q a s × (r ≡ (ok a, s))) r
After-exact E Q (ok a, s) h = (h, refl)
After-exact E Q (err e, s) h = h
After-exact E Q (panicked, s) h = absurd h

module _ {ℓ κ} {A : Type ℓ} {B : Type κ} where
  -- The rule of a bind: what the first part ensures is what the rest may use.
  pub After-bind :
      (E : SchedulerError → LiveScheduler → Type 0) (Q : A → LiveScheduler → Type 0)
      (R : B → LiveScheduler → Type 0) (r : Outcome A × LiveScheduler) (f : A → M B)
      → After E Q r
      → ((a : A) (s : LiveScheduler) → Q a s → After E R (f a s))
      → After E R (continue r f)
  After-bind E Q R (ok a, s) f h k = k a s h
  After-bind E Q R (err e, s) f h k = h
  After-bind E Q R (panicked, s) f h k = h

  -- The same where the first part returns a value.
  pub Returns-bind :
      (E : SchedulerError → LiveScheduler → Type 0) (Q : A → LiveScheduler → Type 0)
      (R : B → LiveScheduler → Type 0) (r : Outcome A × LiveScheduler) (f : A → M B)
      → Returns Q r
      → ((a : A) (s : LiveScheduler) → Q a s → After E R (f a s))
      → After E R (continue r f)
  Returns-bind E Q R (ok a, s) f h k = k a s h
  Returns-bind E Q R (err e, s) f h k = absurd h
  Returns-bind E Q R (panicked, s) f h k = absurd h

-- A bind on the left of a bind.
pub After-assoc {ℓ κ μ} :
    {A : Type ℓ} {B : Type κ} {C : Type μ} (E : SchedulerError → LiveScheduler → Type 0)
    (R : C → LiveScheduler → Type 0) (r : Outcome A × LiveScheduler) (f : A → M B) (g : B → M C)
    → After E R (continue (continue r f) g)
    → After E R (continue r (λ a s. continue (f a s) g))
After-assoc E R (ok a, s) f g h = h
After-assoc E R (err e, s) f g h = h
After-assoc E R (panicked, s) f g h = h
