-- ===== src/Notification/Draft.antt =====
-- src/notification.rs: `NotificationDraft` with its builders.
pub mod Valid
use tmnotify.Base.{ℕ, ◌*◌, ◌^◌, Bool, true, false, ◌&&◌, Option, none, some, is_none, if◌then◌else◌}
use tmnotify.Notification.Ingress.{
  Text, Result, ok, err, ◌>>=◌, attention_requires_source, max_title_bytes, max_body_bytes,
}
use tmnotify.Notification.Plain.{normalize_bounded}
use tmnotify.Notification.Source.{
  Presentation, toast, attention, Level, info, Priority, normal, Timeout, after, never,
  NotificationKey, SourceContext, NormalizedMetadata, metadata_default, PresentationOverrides,
  overrides_default,
}

pub record NotificationDraft : Type 0 where
  pub key : Option NotificationKey
  pub level : Level
  pub priority : Priority
  pub presentation : Presentation
  pub title : Text
  pub body : Text
  pub timeout : Timeout
  pub source : Option SourceContext
  pub overrides : PresentationOverrides
  pub metadata : NormalizedMetadata

abbrev pub is_attention : Presentation → Bool
is_attention toast = false
is_attention attention = true

-- `Duration::from_secs`
abbrev pub seconds : ℕ → ℕ
seconds n = n * 1_000_000_000

abbrev pub default_timeout : Presentation → Timeout
default_timeout toast = after (seconds 3)
default_timeout attention = never

-- The body of `NotificationDraft::new`, given its two normalized texts.
abbrev pub draft_of :
    Presentation → Option SourceContext → Result Text → Result Text → Result NotificationDraft
draft_of presentation source title body =
    if is_attention presentation && is_none source then err attention_requires_source else do
      title' ← title
      body' ← body
      ok (record {
        key = none;
        level = info;
        priority = normal;
        presentation = presentation;
        title = title';
        body = body';
        timeout = default_timeout presentation;
        source = source;
        overrides = overrides_default;
        metadata = metadata_default;
      })

unfoldable pub draft_new :
    Presentation → Text → Text → Option SourceContext → Result NotificationDraft
draft_new presentation title body source =
    draft_of presentation source (normalize_bounded "Notification title" title max_title_bytes)
      (normalize_bounded "Notification body" body max_body_bytes)

abbrev pub with_key : NotificationDraft → NotificationKey → NotificationDraft
with_key d k = record d { key = some k }

abbrev pub with_level : NotificationDraft → Level → NotificationDraft
with_level d l = record d { level = l }

abbrev pub with_priority : NotificationDraft → Priority → NotificationDraft
with_priority d p = record d { priority = p }

unfoldable pub with_timeout : NotificationDraft → Timeout → NotificationDraft
with_timeout d t = record d { timeout = if is_attention d.presentation then never else t }

abbrev pub with_overrides : NotificationDraft → PresentationOverrides → NotificationDraft
with_overrides d o = record d { overrides = o }

abbrev pub with_metadata : NotificationDraft → NormalizedMetadata → NotificationDraft
with_metadata d m = record d { metadata = m }
