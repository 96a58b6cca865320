-- ===== src/Notification/Update.antt =====
-- src/notification.rs: `NotificationUpdate`, the validated changes of a live Notification.
use tmnotify.Base.{Bool, ◌&&◌, Option, none, some, is_none}
use tmnotify.Notification.Ingress.{Text, Result, ok, ◌>>=◌, max_title_bytes, max_body_bytes}
use tmnotify.Notification.Plain.{normalize_bounded}
use tmnotify.Notification.Source.{Level, Priority, Timeout, PresentationOverrides}

pub record NotificationUpdate : Type 0 where
  pub title : Option Text
  pub body : Option Text
  pub level : Option Level
  pub priority : Option Priority
  pub timeout : Option Timeout
  pub overrides : Option PresentationOverrides

-- `NotificationUpdate::new`
abbrev pub update_new : NotificationUpdate
update_new = record {
  title = none;
  body = none;
  level = none;
  priority = none;
  timeout = none;
  overrides = none;
}

unfoldable pub with_title : NotificationUpdate → Text → Result NotificationUpdate
with_title u value = do
  v ← normalize_bounded "Notification title" value max_title_bytes
  ok (record u { title = some v })

unfoldable pub with_body : NotificationUpdate → Text → Result NotificationUpdate
with_body u value = do
  v ← normalize_bounded "Notification body" value max_body_bytes
  ok (record u { body = some v })

abbrev pub with_level : NotificationUpdate → Level → NotificationUpdate
with_level u l = record u { level = some l }

abbrev pub with_priority : NotificationUpdate → Priority → NotificationUpdate
with_priority u p = record u { priority = some p }

abbrev pub with_timeout : NotificationUpdate → Timeout → NotificationUpdate
with_timeout u t = record u { timeout = some t }

abbrev pub with_overrides : NotificationUpdate → PresentationOverrides → NotificationUpdate
with_overrides u o = record u { overrides = some o }

unfoldable pub is_empty : NotificationUpdate → Bool
is_empty u =
    is_none u.title
    && is_none u.body
    && is_none u.level
    && is_none u.priority
    && is_none u.timeout
    && is_none u.overrides
