-- ===== src/Notification/Draft/Valid.antt =====
-- What every draft that the builders make satisfies.
use tmnotify.Base.{◌≡◌, refl, ◌≢◌, Option, none, some, [], arith, true, is_some}
use tmnotify.Notification.Ingress.{
  Text, Result, ok, err, attention_requires_source, max_title_bytes, max_body_bytes, max_key_bytes,
}
use tmnotify.Notification.Plain.{normalize_bounded}
use tmnotify.Notification.Plain.Bounded.{IsBounded, normalize_bounded-IsBounded}
use tmnotify.Notification.Source.{
  Presentation, toast, attention, Level, Priority, Timeout, never, NotificationKey, SourceContext,
  NormalizedMetadata, PresentationOverrides,
}
use tmnotify.Notification.Draft.{
  NotificationDraft, is_attention, draft_of, draft_new, with_key, with_level, with_priority,
  with_timeout, with_overrides, with_metadata,
}

abbrev pub IsKey : Text → Type 0
IsKey k = IsBounded max_key_bytes k × (k ≢ [])

abbrev pub IsKeyed : Option NotificationKey → Type 0
IsKeyed none = Unit
IsKeyed (some k) = IsKey k

-- An Attention has a Source Pane and no timeout; title, body and key are bounded plain text.
pub record IsValid (d : NotificationDraft) : Type 0 where
  pub title_ok : IsBounded max_title_bytes d.title
  pub body_ok : IsBounded max_body_bytes d.body
  pub key_ok : IsKeyed d.key
  pub sourced : is_attention d.presentation ≡ true → is_some d.source ≡ true
  pub untimed : is_attention d.presentation ≡ true → d.timeout ≡ never

-- A draft that `NotificationDraft::new` returns is valid: its title, body and key are plain texts
-- within their bounds, and an Attention has a source and no timeout.
pub draft_new-IsValid :
    (p : Presentation) (title body : Text) (source : Option SourceContext) {d : NotificationDraft}
    → draft_new p title body source ≡ ok d
    → IsValid d
unfolding draft_new
draft_new-IsValid p title body source {d} h =
    go p source (normalize_bounded "Notification title" title max_title_bytes)
      (normalize_bounded "Notification body" body max_body_bytes)
      (λ t e. normalize_bounded-IsBounded "Notification title" title max_title_bytes e)
      (λ t e. normalize_bounded-IsBounded "Notification body" body max_body_bytes e) h
  where
    go :
        (p : Presentation) (source : Option SourceContext) (title body : Result Text)
        → ((t : Text) → title ≡ ok t → IsBounded max_title_bytes t)
        → ((t : Text) → body ≡ ok t → IsBounded max_body_bytes t)
        → draft_of p source title body ≡ ok d
        → IsValid d
    go p source (err e) b ht hb h = ground arith
    go p source (ok t) (err e) ht hb h = ground arith
    go toast source (ok t) (ok b) ht hb h = ground (arith, ht t refl, hb b refl)
    go attention none (ok t) (ok b) ht hb h = ground arith
    go attention (some s) (ok t) (ok b) ht hb h = ground (arith, ht t refl, hb b refl)

-- An Attention with no source is refused, whatever its text.
pub draft_new_unsourced :
    (title body : Text) → draft_new attention title body none ≡ err attention_requires_source
unfolding draft_new
draft_new_unsourced title body = refl

-- Each builder keeps a draft valid; in particular no timeout can be put on an Attention.
pub builders-IsValid :
    {d : NotificationDraft}
    → IsValid d
    → ((k : NotificationKey) → IsKey k → IsValid (with_key d k))
      × ((l : Level) → IsValid (with_level d l))
      × ((p : Priority) → IsValid (with_priority d p))
      × ((t : Timeout) → IsValid (with_timeout d t))
      × ((o : PresentationOverrides) → IsValid (with_overrides d o))
      × ((m : NormalizedMetadata) → IsValid (with_metadata d m))
unfolding with_timeout
builders-IsValid {d} v = (
  (λ k h. ground arith),
  (λ l. ground arith),
  (λ p. ground arith),
  (λ t. ground arith),
  (λ o. ground arith),
  (λ m. ground arith),
)
