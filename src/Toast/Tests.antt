-- ===== src/Toast/Tests.antt =====
-- The theorems on layouts, at a window of 80 by 24 cells.
use tmnotify.Base.{ℕ, false, none, List, [], ◌∷◌, length, arith}
use tmnotify.Notification.Source.{info}
use tmnotify.Toast.{Viewport, Toast, never, layout_default, layout_window, per_window}
use tmnotify.Toast.Layout.{Accounts, layout_window-Accounts}
use tmnotify.Toast.Fits.{RowsApart, slot_rect-RowsApart}

abbrev window : Viewport
window = record { width = 80; height = 24 }

abbrev plain_toast : ℕ → Toast
plain_toast n = record {
  sequence = n;
  level = info;
  title = [];
  body = [];
  notification_key = none;
  age = never;
  updated = false;
}

abbrev toasts : List Toast
toasts = plain_toast 3 ∷ plain_toast 1 ∷ plain_toast 2 ∷ plain_toast 5 ∷ plain_toast 4 ∷ []

layout_window-Accounts_example :
    Accounts (length toasts) layout_default.max_visible (layout_window window toasts layout_default)
layout_window-Accounts_example = layout_window-Accounts window toasts layout_default

slot_rect-RowsApart_example : RowsApart window layout_default (42, 3) 1 3
unfolding per_window
slot_rect-RowsApart_example =
    slot_rect-RowsApart window layout_default (42, 3) 1 3 (omega arith) (omega arith) (omega arith)
      (omega arith)
