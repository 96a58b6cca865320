-- ===== src/Toast/Fits.antt =====
-- src/toast.rs: the slots of a layout stay in the window and do not overlap.
use tmnotify.Base.{
  ℕ, suc, ◌+◌, ◌-◌, ◌*◌, ◌/◌, ◌≤◌, ◌<◌, ◌≡◌, min, max, Bool, true, false, ◌⊎◌, inl, inr,
  if◌then◌else◌, arith,
}
use native.Mathlib.Nat.{le-div_iff_mul-le, mul-le-mul, suc-mul, le-mul_of_pos_right}
use tmnotify.Toast.{
  Viewport, LayoutOptions, is_bottom, slot_y, slot_rect, per_window, sat_add, sat_mul, u16_max,
}

-- The arithmetic of a row `k` of the capacity, where the sums do not overflow 16 bits.
row :
    (vh gap h most k : ℕ)
    → vh + gap ≤ u16_max
    → h + gap ≤ u16_max
    → k < min (sat_add vh gap / max (sat_add h gap) 1) most
    → (sat_mul (min k u16_max) (sat_add h gap) ≡ k * (h + gap)) × (k * (h + gap) + h ≤ vh)
row vh gap h most k no_wrap no_wrap' inside =
    let m = max (sat_add h gap) 1 in
    let whole : suc k * m ≤ sat_add vh gap =
      (le-div_iff_mul-le {k = m} {x = suc k} {y = sat_add vh gap} (omega arith)).0 (omega arith) in
    let split = suc-mul k m in
    let grown : k * (h + gap) ≤ k * m = mul-le-mul {n₁ = k} {n₂ = k} (omega arith) (omega arith) in
    let small : k ≤ k * m = le-mul_of_pos_right k (omega arith) in
    let same : min k u16_max ≡ k = omega arith in
    let step : sat_add h gap ≡ h + gap = omega arith in (rw (same, step) (omega arith), omega arith)

-- The rows of a slot: from its top edge, as many as it is high.
abbrev pub Below : ℕ → ℕ → ℕ → Type 0
Below h a b = a + h ≤ b

-- A slot of the capacity stands within the height of the window, and two of them, of which the first
-- stands nearer to the edge, share no row, whatever the placement.
abbrev pub RowsApart : Viewport → LayoutOptions → ℕ × ℕ → ℕ → ℕ → Type 0
RowsApart v o size i j =
    ((slot_rect v o size j).y + size.1 ≤ v.height)
    × (Below size.1 (slot_rect v o size i).y (slot_rect v o size j).y
        ⊎ Below size.1 (slot_rect v o size j).y (slot_rect v o size i).y)

-- Where the gap added to the height of the window, and to the height of a slot, is a 16-bit
-- number, of two slots within the capacity the later one ends within the height of the window,
-- and the two share no row.
pub slot_rect-RowsApart :
    (v : Viewport) (o : LayoutOptions) (size : ℕ × ℕ) (i j : ℕ)
    → v.height + o.gap ≤ u16_max
    → size.1 + o.gap ≤ u16_max
    → i < j
    → j < per_window v o size.1
    → RowsApart v o size i j
unfolding slot_rect slot_y per_window
slot_rect-RowsApart v o (w, h) i j no_wrap no_wrap' apart inside =
    let (at_i, fits_i) = row v.height o.gap h o.max_visible i no_wrap no_wrap' (omega arith) in
    let (at_j, fits_j) = row v.height o.gap h o.max_visible j no_wrap no_wrap' (omega arith) in
    let further : suc i * (h + o.gap) ≤ j * (h + o.gap) =
      mul-le-mul {m₁ = h + o.gap} {m₂ = h + o.gap} (omega arith) (omega arith) in
    let next = suc-mul i (h + o.gap) in
    rw (at_i, at_j)
      (go (is_bottom o.placement) (i * (h + o.gap)) (j * (h + o.gap)) fits_j (omega arith))
  where
    go :
        (b : Bool) (p q : ℕ)
        → q + h ≤ v.height
        → p + h ≤ q
        → ((if b then v.height - h - q else q) + h ≤ v.height)
          × (((if b then v.height - h - p else p) + h ≤ (if b then v.height - h - q else q))
              ⊎ ((if b then v.height - h - q else q) + h ≤ (if b then v.height - h - p else p)))
    go true p q f a = (omega arith, inr (omega arith))
    go false p q f a = (omega arith, inl (omega arith))
