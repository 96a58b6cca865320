-- ===== src/Toast/Layout.antt =====
-- src/toast.rs: the layout accounts for each Toast, fits in the window, and does not overlap.
use tmnotify.Base.{
  ℕ, suc, ◌+◌, ◌-◌, ◌≤◌, ◌<◌, ◌≡◌, refl, min, Bool, true, false, ◌||◌, List, [], ◌∷◌, ◌++◌, ltb,
  ◌==◌, if◌then◌else◌, length, take, arith, All, length-append, length-take,
}
use tmnotify.Toast.{
  Viewport, Rect, Surface, StackOrder, Toast, LayoutOptions, Slot, shown, waiting, PlacedSlot,
  WindowLayout, insert_toast, sort_toasts, slots_of, waiting_slot, place_slots, slot_rect,
  per_window, toast_capacity, layout_slots, layout_window, min_toast_width, slot_size, surface_of,
  layout_if,
}

length-insert_toast :
    (o : StackOrder) (t : Toast) (ts : List Toast) → length (insert_toast o t ts) ≡ suc (length ts)
unfolding insert_toast
length-insert_toast o t [] = refl
length-insert_toast o t (u ∷ us) = ground (arith, length-insert_toast o t us)

length-sort_toasts : (o : StackOrder) (ts : List Toast) → length (sort_toasts o ts) ≡ length ts
unfolding sort_toasts
length-sort_toasts o [] = refl
length-sort_toasts o (t ∷ ts) =
    ground (arith, length-insert_toast o t (sort_toasts o ts), length-sort_toasts o ts)

length-slots_of : (ts : List Toast) → length (slots_of ts) ≡ length ts
length-slots_of [] = refl
length-slots_of (t ∷ ts) = ground (arith, length-slots_of ts)

-- How many of the slots show a Toast.
abbrev pub shown_here : Slot → ℕ
shown_here (shown t) = 1
shown_here (waiting n) = 0

unfoldable pub shown_count : List PlacedSlot → ℕ
shown_count [] = 0
shown_count (p ∷ ps) = shown_here p.slot + shown_count ps

-- A slot that counts those that wait says how many were left out.
abbrev pub Truthful : ℕ → PlacedSlot → Type 0
Truthful n p = (m : ℕ) → p.slot ≡ waiting m → m ≡ n

length-place_slots :
    (rect : ℕ → Rect) (surface : Surface) (i : ℕ) (ss : List Slot)
    → length (place_slots rect surface i ss) ≡ length ss
unfolding place_slots
length-place_slots rect surface i [] = refl
length-place_slots rect surface i (s ∷ ss) =
    ground (arith, length-place_slots rect surface (suc i) ss)

place_slots-shown :
    (rect : ℕ → Rect) (surface : Surface) (i : ℕ) (ts : List Toast) (n : ℕ)
    → shown_count (place_slots rect surface i (slots_of ts ++ waiting_slot n)) ≡ length ts
unfolding place_slots shown_count
place_slots-shown rect surface i [] n = ground arith
place_slots-shown rect surface i (t ∷ ts) n =
    ground (arith, place_slots-shown rect surface (suc i) ts n)

place_slots-Truthful :
    (rect : ℕ → Rect) (surface : Surface) (i : ℕ) (ts : List Toast) (n : ℕ)
    → All (Truthful n) (place_slots rect surface i (slots_of ts ++ waiting_slot n))
unfolding place_slots
place_slots-Truthful rect surface i [] n = go (ltb 0 n)
  where
    go :
        (b : Bool)
        → All (Truthful n) (place_slots rect surface i (if b then waiting n ∷ [] else []))
    go true = ((λ m h. ground arith), tt)
    go false = tt
place_slots-Truthful rect surface i (t ∷ ts) n =
    ((λ m h. absurd (ground arith)), place_slots-Truthful rect surface (suc i) ts n)

length-waiting_slot : (n : ℕ) → length (waiting_slot n) ≡ min n 1
length-waiting_slot n = ground arith

-- What a layout promises of its numbers.
abbrev pub Accounts : ℕ → ℕ → WindowLayout → Type 0
Accounts n capacity l =
    (shown_count l.slots + l.suppressed ≡ n)
    × (length l.slots ≤ capacity)
    × All (Truthful l.suppressed) l.slots

layout_slots-Accounts :
    (v : Viewport) (toasts : List Toast) (o : LayoutOptions) (surface : Surface) (size : ℕ × ℕ)
    (capacity : ℕ)
    → 0 < capacity
    → Accounts (length toasts) capacity (layout_slots v toasts o surface size capacity)
unfolding layout_slots toast_capacity
layout_slots-Accounts v toasts o surface (w, h) capacity some_room =
    let ordered = sort_toasts o.stack_order toasts in
    let len = length-sort_toasts o.stack_order toasts in
    let room = toast_capacity (length ordered) capacity in
    let left = length ordered - room in
    let ss = slots_of (take room ordered) ++ waiting_slot left in
    let rect = slot_rect v o (w, h) in
    (
      ground (
        arith,
        place_slots-shown rect surface 0 (take room ordered) left,
        length-take room ordered,
        len,
      ),
      ground (
        arith,
        length-place_slots rect surface 0 ss,
        length-append (slots_of (take room ordered)) (waiting_slot left),
        length-slots_of (take room ordered),
        length-take room ordered,
        length-waiting_slot left,
      ),
      place_slots-Truthful rect surface 0 (take room ordered) left,
    )

per_window-le : (v : Viewport) (o : LayoutOptions) (h : ℕ) → per_window v o h ≤ o.max_visible
unfolding per_window
per_window-le v o h = omega arith

-- In every layout, the Toasts shown and the count of the suppressed ones add up to the Toasts
-- given, there are no more slots than the options let, and a slot that counts waiting Toasts says
-- exactly the count of the suppressed ones.
pub layout_window-Accounts :
    (v : Viewport) (toasts : List Toast) (o : LayoutOptions)
    → Accounts (length toasts) o.max_visible (layout_window v toasts o)
unfolding layout_window shown_count
layout_window-Accounts v toasts o =
    go (ltb v.width min_toast_width || o.max_visible == 0 || capacity == 0) refl
  where
    capacity : ℕ
    capacity = per_window v o (slot_size (surface_of v o) v o).1

    go :
        (b : Bool)
        → (ltb v.width min_toast_width || o.max_visible == 0 || capacity == 0) ≡ b
        → Accounts (length toasts) o.max_visible (
            layout_if b toasts
              (layout_slots v toasts o (surface_of v o) (slot_size (surface_of v o) v o) capacity))
    go true h = (omega arith, omega arith, tt)
    go false h =
        let (all, few, told) =
          layout_slots-Accounts v toasts o (surface_of v o) (slot_size (surface_of v o) v o)
            capacity (ground arith) in
        (all, omega (arith, few, per_window-le v o (slot_size (surface_of v o) v o).1), told)
