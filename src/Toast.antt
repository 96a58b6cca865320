-- ===== src/Toast.antt =====
-- src/toast.rs: the layout of Toasts in one window. Cells are `u16`, counted by numbers; `usize` and
-- the sequence are numbers too.
pub mod Layout
pub mod Fits
mod Tests
use tmnotify.Base.{
  ℕ, zero, suc, ◌+◌, ◌-◌, ◌*◌, ◌/◌, min, max, Bool, true, false, ◌||◌, Option, none, some, List, [],
  ◌∷◌, ◌++◌, ltb, leb, ◌==◌, if◌then◌else◌, length, take,
}
use tmnotify.Notification.Ingress.{Text}
use tmnotify.Notification.Source.{Level, Timeout}

abbrev pub min_toast_width : ℕ
min_toast_width = 24

abbrev pub u16_max : ℕ
u16_max = 65535

-- `u16::saturating_add` and `u16::saturating_mul`
abbrev pub sat_add : ℕ → ℕ → ℕ
sat_add a b = min (a + b) u16_max

abbrev pub sat_mul : ℕ → ℕ → ℕ
sat_mul a b = min (a * b) u16_max

pub record Viewport : Type 0 where
  pub width : ℕ
  pub height : ℕ

pub record Rect : Type 0 where
  pub x : ℕ
  pub y : ℕ
  pub width : ℕ
  pub height : ℕ

pub data Surface : Type 0 where
  bordered borderless : Surface

-- src/config.rs: where the Toasts stack
pub data Placement : Type 0 where
  top_left top_center top_right bottom_left bottom_center bottom_right : Placement

pub data StackOrder : Type 0 where
  oldest_first newest_first : StackOrder

pub data DisplayAge : Type 0 where
  finite : ℕ → DisplayAge
  never : DisplayAge

-- `DisplayAge::from_timeout`
unfoldable pub age_of : Timeout → Option ℕ → DisplayAge
age_of (Timeout.after duration) none = finite duration
age_of (Timeout.after duration) (some remaining) = finite remaining
age_of Timeout.never remaining = never

pub record Toast : Type 0 where
  pub sequence : ℕ
  pub level : Level
  pub title : Text
  pub body : Text
  pub notification_key : Option Text
  pub age : DisplayAge
  pub updated : Bool

pub record LayoutOptions : Type 0 where
  pub placement : Placement
  pub width : ℕ
  pub height : ℕ
  pub max_visible : ℕ
  pub gap : ℕ
  pub stack_order : StackOrder

abbrev pub layout_default : LayoutOptions
layout_default = record {
  placement = top_right;
  width = 42;
  height = 3;
  max_visible = 4;
  gap = 1;
  stack_order = oldest_first;
}

pub data Slot : Type 0 where
  shown : Toast → Slot
  waiting : ℕ → Slot

pub record PlacedSlot : Type 0 where
  pub rect : Rect
  pub surface : Surface
  pub slot : Slot

pub record WindowLayout : Type 0 where
  pub slots : List PlacedSlot
  pub suppressed : ℕ

-- Not after, by the key of `sort_by_key`
abbrev pub not_after : StackOrder → Toast → Toast → Bool
not_after oldest_first a b = leb a.sequence b.sequence
not_after newest_first a b = leb b.sequence a.sequence

unfoldable pub insert_toast : StackOrder → Toast → List Toast → List Toast
insert_toast o t [] = t ∷ []
insert_toast o t (u ∷ us) = if not_after o t u then t ∷ u ∷ us else u ∷ insert_toast o t us

-- A stable sort.
unfoldable pub sort_toasts : StackOrder → List Toast → List Toast
sort_toasts o [] = []
sort_toasts o (t ∷ ts) = insert_toast o t (sort_toasts o ts)

abbrev pub is_bottom : Placement → Bool
is_bottom bottom_left = true
is_bottom bottom_center = true
is_bottom bottom_right = true
is_bottom _ = false

unfoldable pub horizontal_origin : ℕ → ℕ → Placement → ℕ
horizontal_origin window_width width top_left = 0
horizontal_origin window_width width bottom_left = 0
horizontal_origin window_width width top_center = (window_width - width) / 2
horizontal_origin window_width width bottom_center = (window_width - width) / 2
horizontal_origin window_width width top_right = window_width - width
horizontal_origin window_width width bottom_right = window_width - width

abbrev pub surface_of : Viewport → LayoutOptions → Surface
surface_of v o = if leb o.width v.width then bordered else borderless

abbrev pub slot_size : Surface → Viewport → LayoutOptions → ℕ × ℕ
slot_size bordered v o = (o.width, o.height)
slot_size borderless v o = (v.width, 1)

-- The capacity of the window for slots of a height.
unfoldable pub per_window : Viewport → LayoutOptions → ℕ → ℕ
per_window v o slot_height =
    min (sat_add v.height o.gap / max (sat_add slot_height o.gap) 1) o.max_visible

unfoldable pub toast_capacity : ℕ → ℕ → ℕ
toast_capacity n capacity = if ltb capacity n then capacity - 1 else capacity

-- The Toasts that have a slot, and the count of the others in the last.
abbrev pub slots_of : List Toast → List Slot
slots_of [] = []
slots_of (t ∷ ts) = shown t ∷ slots_of ts

abbrev pub waiting_slot : ℕ → List Slot
waiting_slot n = if ltb 0 n then waiting n ∷ [] else []

-- The top edge of a slot: `u16::try_from(index).unwrap_or(u16::MAX)` rows of `step` from the edge.
unfoldable pub slot_y : Viewport → Placement → ℕ → ℕ → ℕ → ℕ
slot_y v p slot_height step index =
    let offset = sat_mul (min index u16_max) step in
    if is_bottom p then v.height - slot_height - offset else offset

unfoldable pub place_slots : (ℕ → Rect) → Surface → ℕ → List Slot → List PlacedSlot
place_slots rect surface index [] = []
place_slots rect surface index (s ∷ ss) =
    record { rect = rect index; surface = surface; slot = s }
    ∷ place_slots rect surface (suc index) ss

unfoldable pub slot_rect : Viewport → LayoutOptions → ℕ × ℕ → ℕ → Rect
slot_rect v o (slot_width, slot_height) index = record {
  x = horizontal_origin v.width slot_width o.placement;
  y = slot_y v o.placement slot_height (sat_add slot_height o.gap) index;
  width = slot_width;
  height = slot_height;
}

-- The layout of Toasts into slots of a size, of which there is room for `capacity`.
unfoldable pub layout_slots :
    Viewport → List Toast → LayoutOptions → Surface → ℕ × ℕ → ℕ → WindowLayout
layout_slots v toasts o surface (slot_width, slot_height) capacity =
    let ordered = sort_toasts o.stack_order toasts in
    let room = toast_capacity (length ordered) capacity in
    let left = length ordered - room in
    record {
      slots =
          place_slots (slot_rect v o (slot_width, slot_height)) surface 0
            (slots_of (take room ordered) ++ waiting_slot left);
      suppressed = left;
    }

abbrev pub no_layout : List Toast → WindowLayout
no_layout toasts = record { slots = []; suppressed = length toasts }

abbrev pub layout_if : Bool → List Toast → WindowLayout → WindowLayout
layout_if true toasts l = no_layout toasts
layout_if false toasts l = l

unfoldable pub layout_window : Viewport → List Toast → LayoutOptions → WindowLayout
layout_window v toasts o =
    let surface = surface_of v o in
    let size = slot_size surface v o in
    let capacity = per_window v o size.1 in
    layout_if (ltb v.width min_toast_width || o.max_visible == 0 || capacity == 0) toasts
      (layout_slots v toasts o surface size capacity)
