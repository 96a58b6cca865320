-- ===== src/Session/Matched.antt =====
-- Credentials and pending displays, matched one to one.
use tmnotify.Base.{ℕ, ◌≡◌, sym, ap, ◌∙◌, Option, none, some, ite, arith}
use mathlib.Core.Option.{some-injective}
use tmnotify.Notification.Ingress.{Text}
use tmnotify.Notification.Source.{Text-discrete}

-- Which display and generation a token opens, or which token and generation a display waits for.
abbrev pub View : Type 0
View = Text → Option (Text × ℕ)

abbrev pub Matched : View → View → Type 0
Matched A B =
    ((t i : Text) (g : ℕ) → A t ≡ some (i, g) → B i ≡ some (t, g))
    × ((t i : Text) (g : ℕ) → B i ≡ some (t, g) → A t ≡ some (i, g))

-- `A'` is `A`, but for its value at one text.
abbrev pub Set : View → Text → Option (Text × ℕ) → View → Type 0
Set A t v A' = (x : Text) → A' x ≡ ite (Text-discrete t x) v (A x)

-- A key, and its equality by its parts
abbrev pub link : Text → ℕ → Option (Text × ℕ)
link t g = some (t, g)

pub link_parts : (a b : Text) (g h : ℕ) → link a g ≡ link b h → (a ≡ b) × (g ≡ h)
link_parts a b g h e = let q = some-injective (a, g) (b, h) e in (ap (λ p. p.0) q, ap (λ p. p.1) q)

pub none_ne_link : (v : Text × ℕ) → none ≡ some v → ⊥
none_ne_link v e = ground arith

-- One half of the next lemma, which is its own converse.
dropped :
    (A A' B B' : View) (t i : Text) (g : ℕ)
    → ((t i : Text) (g : ℕ) → A t ≡ some (i, g) → B i ≡ some (t, g))
    → B i ≡ some (t, g)
    → Set A t none A'
    → Set B i none B'
    → (x y : Text) (h : ℕ) → A' x ≡ some (y, h)
    → B' y ≡ some (x, h)
dropped A A' B B' t i g m e a b x y h at =
    elim (Text-discrete t x) as (λ d. ite d none (A x) ≡ some (y, h) → B' y ≡ some (x, h)) [
      | yes p ↦ λ q. absurd (ground arith)
      | no p ↦ λ q. b y ∙ (elim (Text-discrete i y) as (λ d. ite d none (B y) ≡ some (x, h)) [
        | yes r ↦ absurd (p (link_parts t x g h (sym e ∙ ap B r ∙ m x y h q)).0)
        | no r ↦ m x y h q
      ])
    ]
      (sym (a x) ∙ at)

pub drop-Matched :
    (A A' B B' : View) (t i : Text) (g : ℕ)
    → Matched A B
    → B i ≡ some (t, g)
    → Set A t none A'
    → Set B i none B'
    → Matched A' B'
drop-Matched A A' B B' t i g m e a b = (
  dropped A A' B B' t i g m.0 e a b,
  λ x y h q. dropped B B' A A' i t g (λ u v w. m.1 v u w) (m.1 t i g e) b a y x h q,
)

added :
    (A A' B B' : View) (t i : Text) (g : ℕ)
    → ((t i : Text) (g : ℕ) → A t ≡ some (i, g) → B i ≡ some (t, g))
    → B i ≡ none
    → Set A t (some (i, g)) A'
    → Set B i (some (t, g)) B'
    → (x y : Text) (h : ℕ) → A' x ≡ some (y, h)
    → B' y ≡ some (x, h)
added A A' B B' t i g m e a b x y h at =
    elim (Text-discrete t x)
        as (λ d. ite d (some (i, g)) (A x) ≡ some (y, h) → B' y ≡ some (x, h)) [
          | yes p ↦ λ q.
              b y
              ∙ (let parts = link_parts i y g h q in
                  elim (Text-discrete i y) as (λ d. ite d (some (t, g)) (B y) ≡ some (x, h)) [
                    | yes r ↦ ap (λ u. link u g) p ∙ ap (link x) parts.1
                    | no r ↦ absurd (r parts.0)
                  ])
          | no p ↦ λ q.
              b y ∙ (elim (Text-discrete i y) as (λ d. ite d (some (t, g)) (B y) ≡ some (x, h)) [
                | yes r ↦ absurd (none_ne_link _ (sym e ∙ ap B r ∙ m x y h q))
                | no r ↦ m x y h q
              ])
        ]
      (sym (a x) ∙ at)

pub add-Matched :
    (A A' B B' : View) (t i : Text) (g : ℕ)
    → Matched A B
    → A t ≡ none
    → B i ≡ none
    → Set A t (some (i, g)) A'
    → Set B i (some (t, g)) B'
    → Matched A' B'
add-Matched A A' B B' t i g m at bt a b = (
  added A A' B B' t i g m.0 bt a b,
  λ x y h q. added B B' A A' i t g (λ u v w. m.1 v u w) at b a y x h q,
)

pub ext-Matched :
    (A A' B B' : View)
    → Matched A B
    → ((x : Text) → A' x ≡ A x)
    → ((y : Text) → B' y ≡ B y)
    → Matched A' B'
ext-Matched A A' B B' m a b =
    (λ x y h q. b y ∙ m.0 x y h (sym (a x) ∙ q), λ x y h q. a x ∙ m.1 x y h (sym (b y) ∙ q))
