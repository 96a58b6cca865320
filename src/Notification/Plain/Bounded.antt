-- ===== src/Notification/Plain/Bounded.antt =====
-- What the bounded constructors of text let through.
use Prim.Native.String.{String}
use tmnotify.Base.{ℕ, ◌≤◌, ◌≡◌, sym, subst, ◌≢◌, true, [], ◌∷◌, arith, All}
use tmnotify.Notification.Ingress.{Text, ok, byte_len, max_source_id_bytes}
use tmnotify.Notification.Plain.{
  normalize_plain_text, normalize_bounded, normalize_required, stable_tmux_id, is_ascii_digit,
  all_digits,
}
use tmnotify.Notification.Plain.Safe.{
  IsPlain, normalize_plain_text-IsPlain, normalize_plain_text_plain,
}

-- A text within its bound that a terminal can be given.
pub record IsBounded (maximum : ℕ) (t : Text) : Type 0 where
  pub plain : All IsPlain t
  pub bounded : byte_len t ≤ maximum

pub normalize_bounded-IsBounded :
    (field : String) (value : Text) (maximum : ℕ) {t : Text}
    → normalize_bounded field value maximum ≡ ok t
    → IsBounded maximum t
unfolding normalize_bounded
normalize_bounded-IsBounded field value maximum {t} h =
    let e : normalize_plain_text value ≡ t = ground arith in
    record {
      plain = subst (All IsPlain) e (normalize_plain_text-IsPlain value);
      bounded = ground arith;
    }

-- A bounded text is taken as it is, so what was accepted once is accepted again.
pub normalize_bounded_fixed :
    (field : String) (t : Text) (maximum : ℕ)
    → IsBounded maximum t
    → normalize_bounded field t maximum ≡ ok t
unfolding normalize_bounded
normalize_bounded_fixed field t maximum v =
    ground (arith, normalize_plain_text_plain t v.plain, v.bounded)

-- A required text is bounded and not empty.
pub normalize_required-IsBounded :
    (field : String) (value : Text) (maximum : ℕ) {t : Text}
    → normalize_required field value maximum ≡ ok t
    → IsBounded maximum t × (t ≢ [])
unfolding normalize_required
normalize_required-IsBounded field value maximum {t} h =
    let e : normalize_bounded field value maximum ≡ ok t = ground arith in
    (normalize_bounded-IsBounded field value maximum e, λ p. ground arith)

-- `value` is the prefix and at least one digit.
abbrev pub IsStableId : ℕ → Text → Type 0
IsStableId prefix [] = ⊥
IsStableId prefix (c ∷ suffix) =
    (c ≡ prefix) × (suffix ≢ []) × (All (λ d. is_ascii_digit d ≡ true) suffix)

all_digits-All : (cs : Text) → all_digits cs ≡ true → All (λ d. is_ascii_digit d ≡ true) cs
unfolding all_digits
all_digits-All [] h = tt
all_digits-All (c ∷ cs) h = (ground arith, all_digits-All cs (ground arith))

-- A tmux id that is accepted is the text that was given, has the form of the prefix and one or
-- more ASCII digits, and is within the bound of bytes.
pub stable_tmux_id_lem :
    (field : String) (value : Text) (prefix : ℕ) {t : Text}
    → stable_tmux_id field value prefix ≡ ok t
    → (t ≡ value) × IsStableId prefix t × (byte_len t ≤ max_source_id_bytes)
unfolding stable_tmux_id
stable_tmux_id_lem field [] prefix {t} h = ground arith
stable_tmux_id_lem field (c ∷ suffix) prefix {t} h =
    let e : c ∷ suffix ≡ t = ground arith in
    (
      sym e,
      subst (IsStableId prefix) e
          (ground arith, λ p. ground arith, all_digits-All suffix (ground arith)),
      ground arith,
    )
