-- ===== src/Notification/Plain/Safe.antt =====
-- What `normalize_plain_text` returns: the loop ends by itself, its output holds no control, and a
-- second pass changes nothing.
use tmnotify.Base.{
  ℕ, zero, suc, ◌≤◌, ◌≡◌, refl, ap, Bool, true, false, not, ◌||◌, [], ◌∷◌, ◌++◌, arith, ◌==◌,
  length, All, All-append,
}
use tmnotify.Notification.Ingress.{Text}
use tmnotify.Notification.Plain.{
  is_display_control, consume_csi, consume_osc, skip_intermediates, skip_final,
  consume_ansi_after_escape, normalize_char, normalize_loop, normalize_plain_text, after_escape,
}

length-consume_csi : (cs : Text) → length (consume_csi cs) ≤ length cs
unfolding consume_csi
length-consume_csi [] = omega arith
length-consume_csi (c ∷ cs) = ground (arith, length-consume_csi cs)

length-consume_osc : (cs : Text) → length (consume_osc cs) ≤ length cs
unfolding consume_osc
length-consume_osc [] = omega arith
length-consume_osc (c ∷ []) = ground (arith, length-consume_osc [])
length-consume_osc (c ∷ d ∷ cs) = ground (arith, length-consume_osc (d ∷ cs))

length-skip_intermediates : (cs : Text) → length (skip_intermediates cs) ≤ length cs
unfolding skip_intermediates
length-skip_intermediates [] = omega arith
length-skip_intermediates (c ∷ cs) = ground (arith, length-skip_intermediates cs)

length-skip_final : (cs : Text) → length (skip_final cs) ≤ length cs
unfolding skip_final
length-skip_final [] = omega arith
length-skip_final (c ∷ cs) = ground arith

length-consume_ansi : (cs : Text) → length (consume_ansi_after_escape cs).1 ≤ length cs
unfolding consume_ansi_after_escape
length-consume_ansi [] = omega arith
length-consume_ansi (c ∷ cs) = ground (
  arith,
  length-consume_csi cs,
  length-consume_osc cs,
  length-skip_intermediates cs,
  length-skip_final (skip_intermediates cs),
)

-- A round never gives characters back.
length-normalize_char : (c : ℕ) (cs : Text) → length (normalize_char c cs).1 ≤ length cs
unfolding normalize_char
length-normalize_char c [] =
    ground (arith, length-consume_ansi [], length-consume_csi [], length-consume_osc [])
length-normalize_char c (d ∷ cs) =
    ground (
      arith,
      length-consume_ansi (d ∷ cs),
      length-consume_csi (d ∷ cs),
      length-consume_osc (d ∷ cs),
    )

-- Any fuel from the length of the text on gives the same result.
normalize_loop_fuel :
    (f g : ℕ) (cs : Text)
    → length cs ≤ f
    → length cs ≤ g
    → normalize_loop f cs ≡ normalize_loop g cs
unfolding normalize_loop
normalize_loop_fuel zero zero cs p q = refl
normalize_loop_fuel zero (suc g) [] p q = refl
normalize_loop_fuel zero (suc g) (c ∷ cs) p q = absurd (omega arith)
normalize_loop_fuel (suc f) zero [] p q = refl
normalize_loop_fuel (suc f) zero (c ∷ cs) p q = absurd (omega arith)
normalize_loop_fuel (suc f) (suc g) [] p q = refl
normalize_loop_fuel (suc f) (suc g) (c ∷ cs) p q = ap (◌++◌ (normalize_char c cs).0) (
    normalize_loop_fuel f g (normalize_char c cs).1 (omega (arith, length-normalize_char c cs))
      (omega (arith, length-normalize_char c cs)))

-- The equation of the source's loop, with no fuel: one round, then the loop on what is left.
pub normalize_plain_text_lem :
    (c : ℕ) (cs : Text)
    → normalize_plain_text (c ∷ cs)
      ≡ (normalize_char c cs).0 ++ normalize_plain_text (normalize_char c cs).1
unfolding normalize_plain_text
normalize_plain_text_lem c cs = ap (◌++◌ (normalize_char c cs).0) (
    normalize_loop_fuel (length cs) (length (normalize_char c cs).1) (normalize_char c cs).1
      (length-normalize_char c cs) (omega arith))

-- A character that a terminal shows or that ends a line.
abbrev pub IsPlain : ℕ → Type 0
IsPlain c = (c == 0x0a || not (is_display_control c)) ≡ true

after_escape-IsPlain : (b : Bool) (cs : Text) → All IsPlain (after_escape (b, cs)).0
unfolding is_display_control
after_escape-IsPlain true cs = tt
after_escape-IsPlain false cs = (refl, tt)

normalize_char-IsPlain : (c : ℕ) (cs : Text) → All IsPlain (normalize_char c cs).0
unfolding normalize_char consume_ansi_after_escape is_display_control
normalize_char-IsPlain c cs =
    let (b, rest) = consume_ansi_after_escape cs in ground (arith, after_escape-IsPlain b rest)

normalize_char_plain : (c : ℕ) (cs : Text) → IsPlain c → normalize_char c cs ≡ (c ∷ [], cs)
unfolding normalize_char is_display_control
normalize_char_plain c cs h = ground arith

normalize_loop-IsPlain : (f : ℕ) (cs : Text) → All IsPlain (normalize_loop f cs)
unfolding normalize_loop
normalize_loop-IsPlain zero cs = tt
normalize_loop-IsPlain (suc f) [] = tt
normalize_loop-IsPlain (suc f) (c ∷ cs) =
    All-append IsPlain (normalize_char c cs).0 (normalize_loop f (normalize_char c cs).1)
      (normalize_char-IsPlain c cs) (normalize_loop-IsPlain f (normalize_char c cs).1)

-- Whatever the input, each character of the normalized text is a newline or none of the
-- characters that can control a display.
pub normalize_plain_text-IsPlain : (input : Text) → All IsPlain (normalize_plain_text input)
unfolding normalize_plain_text
normalize_plain_text-IsPlain input = normalize_loop-IsPlain (length input) input

pub normalize_plain_text_plain : (cs : Text) → All IsPlain cs → normalize_plain_text cs ≡ cs
normalize_plain_text_plain [] h = unfold normalize_plain_text in refl
normalize_plain_text_plain (c ∷ cs) h =
    rw (normalize_plain_text_lem c cs, normalize_char_plain c cs h.0)
      (ap (◌∷◌ c) (normalize_plain_text_plain cs h.1))

-- Normalizing a text a second time changes nothing.
pub normalize_plain_text_idem :
    (input : Text) → normalize_plain_text (normalize_plain_text input) ≡ normalize_plain_text input
normalize_plain_text_idem input =
    normalize_plain_text_plain (normalize_plain_text input) (normalize_plain_text-IsPlain input)
