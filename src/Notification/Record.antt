-- ===== src/Notification/Record.antt =====
-- src/notification.rs: `Notification`, and the operations that change one. Times of the wall clock
-- are numbers, which the code only stores.
pub mod Laws
use tmnotify.Base.{ℕ, Bool, true, false, ◌&&◌, ◌||◌, Option, none, some, ite, if◌then◌else◌, ◌≡◌}
use mathlib.Core.Option.{discrete as Option-discrete}
use mathlib.Core.Option
use mathlib.Core.Bool.{decide}
use tmnotify.Notification.Ingress.{Text}
use tmnotify.Notification.Source.{
  Presentation, toast, attention, Level, Priority, Timeout, DeliveryState, pending, visible, closed,
  CloseReason, jumped, NotificationId, NotificationKey, SourceContext, NormalizedMetadata,
  PresentationOverrides, Text-discrete, Presentation-discrete, Level-discrete, Priority-discrete,
  Timeout-discrete, Overrides-discrete, Provider-discrete, Metadata-discrete,
}
use tmnotify.Notification.Path.{components, Components-discrete}
use tmnotify.Notification.Draft.{NotificationDraft}
use tmnotify.Notification.Update.{NotificationUpdate}

pub record Notification : Type 0 where
  pub id : NotificationId
  pub key : Option NotificationKey
  pub created_at : ℕ
  pub updated_at : ℕ
  pub level : Level
  pub priority : Priority
  pub presentation : Presentation
  pub title : Text
  pub body : Text
  pub timeout : Timeout
  pub source : Option SourceContext
  pub overrides : PresentationOverrides
  pub delivery : DeliveryState
  pub close_reason : Option CloseReason
  pub hidden_at : Option ℕ
  pub last_jumped_at : Option ℕ
  pub metadata : NormalizedMetadata

-- `NotificationId::new()` is the argument `id`.
unfoldable pub from_draft : NotificationId → NotificationDraft → ℕ → Notification
from_draft id d now = record {
  id = id;
  key = d.key;
  created_at = now;
  updated_at = now;
  level = d.level;
  priority = d.priority;
  presentation = d.presentation;
  title = d.title;
  body = d.body;
  timeout = d.timeout;
  source = d.source;
  overrides = d.overrides;
  delivery = pending;
  close_reason = none;
  hidden_at = none;
  last_jumped_at = none;
  metadata = d.metadata;
}

-- `a == b` by the derived `PartialEq`
abbrev pub eq {ℓ} : {A : Type ℓ} → Discrete A → A → A → Bool
eq dec a b = ite (dec a b) true false

-- `PathBuf`s are compared by their components.
unfoldable pub same_source : SourceContext → SourceContext → Bool
same_source s t =
    eq Provider-discrete s.provider t.provider
    && eq (Option-discrete Text-discrete) s.provider_session_id t.provider_session_id
    && eq Text-discrete s.tmux_server_id t.tmux_server_id
    && eq Text-discrete s.session_id t.session_id
    && eq Text-discrete s.window_id t.window_id
    && eq Text-discrete s.pane_id t.pane_id
    && eq Components-discrete (Option.map components s.cwd) (Option.map components t.cwd)
    && eq (Option-discrete Text-discrete) s.command t.command
    && eq (Option-discrete Text-discrete) s.pane_title t.pane_title

-- `==` of two `Option`s of a Source Context
unfoldable pub same_sources : Option SourceContext → Option SourceContext → Bool
same_sources none none = true
same_sources (some s) (some t) = same_source s t
same_sources _ _ = false

unfoldable pub has_same_content : Notification → NotificationDraft → Bool
has_same_content n d =
    eq (Option-discrete Text-discrete) n.key d.key
    && eq Level-discrete n.level d.level
    && eq Priority-discrete n.priority d.priority
    && eq Presentation-discrete n.presentation d.presentation
    && eq Text-discrete n.title d.title
    && eq Text-discrete n.body d.body
    && eq Timeout-discrete n.timeout d.timeout
    && same_sources n.source d.source
    && eq Overrides-discrete n.overrides d.overrides
    && eq Metadata-discrete n.metadata d.metadata

unfoldable pub replace_content : Notification → NotificationDraft → ℕ → Notification
replace_content n d now = record n {
  key = d.key;
  level = d.level;
  priority = d.priority;
  presentation = d.presentation;
  title = d.title;
  body = d.body;
  timeout = d.timeout;
  source = d.source;
  overrides = d.overrides;
  metadata = d.metadata;
  updated_at = now;
}

-- The macro `replace_if_changed!`: the field's new value, and whether it changed.
unfoldable pub replace_if_changed : {A : Type 0} → Discrete A → A → Option A → A × Bool
replace_if_changed dec old none = (old, false)
replace_if_changed dec old (some value) = ite (dec old value) (old, false) (value, true)

-- The timeout of an Attention is never replaced.
unfoldable pub replace_timeout : Presentation → Timeout → Option Timeout → Timeout × Bool
unfolding replace_if_changed
replace_timeout toast old new = replace_if_changed Timeout-discrete old new
replace_timeout attention old new = (old, false)

unfoldable pub apply_update : Notification → NotificationUpdate → ℕ → Notification × Bool
apply_update n u now =
    let title = replace_if_changed Text-discrete n.title u.title in
    let body = replace_if_changed Text-discrete n.body u.body in
    let level = replace_if_changed Level-discrete n.level u.level in
    let priority = replace_if_changed Priority-discrete n.priority u.priority in
    let overrides = replace_if_changed Overrides-discrete n.overrides u.overrides in
    let timeout = replace_timeout n.presentation n.timeout u.timeout in
    let changed = title.1 || body.1 || level.1 || priority.1 || overrides.1 || timeout.1 in
    (
      record n {
        title = title.0;
        body = body.0;
        level = level.0;
        priority = priority.0;
        overrides = overrides.0;
        timeout = timeout.0;
        updated_at = if changed then now else n.updated_at;
      },
      changed,
    )

abbrev pub mark_delivered : DeliveryState → Notification → ℕ → Notification
mark_delivered pending n now = record n { delivery = visible; updated_at = now }
mark_delivered visible n now = n
mark_delivered closed n now = n

unfoldable pub mark_visible : Notification → ℕ → Notification
mark_visible n now = mark_delivered n.delivery n now

abbrev pub jumped_at : CloseReason → ℕ → Option ℕ → Option ℕ
jumped_at jumped now old = some now
jumped_at _ now old = old

unfoldable pub close : Notification → CloseReason → ℕ → Notification
close n reason now = record n {
  delivery = closed;
  close_reason = some reason;
  updated_at = now;
  last_jumped_at = jumped_at reason now n.last_jumped_at;
}
