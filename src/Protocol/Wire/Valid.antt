-- ===== src/Protocol/Wire/Valid.antt =====
-- The metadata and the drafts that come over the wire.
use tmnotify.Base.{ℕ, ◌*◌, ◌≤◌, ◌≡◌, refl, subst, Option, none, some, arith, Bool-cases, inl, inr}
use tmnotify.Notification.Ingress.{
  Text, max_metadata_value_bytes, max_title_bytes, max_body_bytes, max_key_bytes,
}
use tmnotify.Notification.Ingress
use tmnotify.Notification.Plain.{normalize_required, normalize_bounded}
use tmnotify.Notification.Plain.Bounded.{normalize_required-IsBounded}
use tmnotify.Notification.Source.{
  Timeout, after, never, NormalizedMetadata, with_agent_name, with_tool_name, metadata_new,
  metadata_default, SourceContext, Placement, Presentation, toast, attention, notification_key,
  with_position, overrides_default,
}
use tmnotify.Notification.Draft.{NotificationDraft, draft_new, draft_of, is_attention}
use tmnotify.Notification.Draft
use tmnotify.Notification.Draft.Valid.{IsValid, draft_new-IsValid, builders-IsValid}
use tmnotify.Protocol.Error.{ok, accept}
use tmnotify.Protocol.Wire.{
  WireMetadata, WireSourceContext, WireNotificationDraft, optionally, given, metadata_into_domain,
  source_into_domain, sourced, keyed, placed, draft_into_domain, wire_timeout, nanos_per_milli,
  u64_max,
}
use tmnotify.Protocol.Wire.Steps.{bind_ok, ingress_bind_ok, accept_ok, made, optionally_keeps}
use tmnotify.Protocol.Wire.Source.{IsRequired, IsOptional, IsSource, source_into_domain-IsSource}

-- The names of an agent and a tool are plain, bounded and not empty.
pub record IsMetadata (m : NormalizedMetadata) : Type 0 where
  pub agent_ok : IsOptional (IsRequired max_metadata_value_bytes) m.agent_name
  pub tool_ok : IsOptional (IsRequired max_metadata_value_bytes) m.tool_name

with_agent_name-IsMetadata :
    (m : NormalizedMetadata) (value : Text) {t : NormalizedMetadata}
    → IsMetadata m
    → with_agent_name m value ≡ Ingress.ok t
    → IsMetadata t
unfolding with_agent_name
with_agent_name-IsMetadata m value {t} h e =
    let (v, ve, e1) =
      ingress_bind_ok (normalize_required "agent name" value max_metadata_value_bytes) _ e in
    let name = normalize_required-IsBounded "agent name" value max_metadata_value_bytes ve in
    made IsMetadata e1 (ground (arith, h, name))

with_tool_name-IsMetadata :
    (m : NormalizedMetadata) (value : Text) {t : NormalizedMetadata}
    → IsMetadata m
    → with_tool_name m value ≡ Ingress.ok t
    → IsMetadata t
unfolding with_tool_name
with_tool_name-IsMetadata m value {t} h e =
    let (v, ve, e1) =
      ingress_bind_ok (normalize_required "tool name" value max_metadata_value_bytes) _ e in
    let name = normalize_required-IsBounded "tool name" value max_metadata_value_bytes ve in
    made IsMetadata e1 (ground (arith, h, name))

pub metadata_into_domain-IsMetadata :
    (w : WireMetadata) {m : NormalizedMetadata} → metadata_into_domain w ≡ ok m → IsMetadata m
unfolding metadata_into_domain
metadata_into_domain-IsMetadata w {m} e =
    let (named, ne, e1) =
      bind_ok (optionally with_agent_name w.agent_name (metadata_new w.agent_event_kind)) _ e in
    let new : IsMetadata (metadata_new w.agent_event_kind) = record {
      agent_ok = tt;
      tool_ok = tt;
    } in
    optionally_keeps IsMetadata with_tool_name (λ s a t. with_tool_name-IsMetadata s a) w.tool_name
      named
      (optionally_keeps IsMetadata with_agent_name (λ s a t. with_agent_name-IsMetadata s a)
        w.agent_name (metadata_new w.agent_event_kind) new ne)
      e1

-- A timeout that the wire can carry: whole milliseconds of 64 bits, or none.
abbrev pub IsMillis : Timeout → Type 0
IsMillis (after duration) =
    (milliseconds : ℕ) × (duration ≡ milliseconds * nanos_per_milli) × (milliseconds ≤ u64_max)
IsMillis never = Unit

-- A draft that is valid, with its source and metadata, and that the wire can carry.
pub record IsDraft (d : NotificationDraft) : Type 0 where
  pub valid : IsValid d
  pub source_ok : IsOptional IsSource d.source
  pub metadata_ok : IsMetadata d.metadata
  pub millis : IsMillis d.timeout

-- The fields of a new draft that no text decides.
pub draft_new-fields :
    (p : Presentation) (title body : Text) (source : Option SourceContext) {d : NotificationDraft}
    → draft_new p title body source ≡ Ingress.ok d
    → (d.source ≡ source) × (d.presentation ≡ p) × (d.metadata ≡ metadata_default)
unfolding draft_new
draft_new-fields p title body source {d} h =
    go p source (normalize_bounded "Notification title" title max_title_bytes)
      (normalize_bounded "Notification body" body max_body_bytes) h
  where
    go :
        (p : Presentation) (source : Option SourceContext) (title body : Ingress.Result Text)
        → draft_of p source title body ≡ Ingress.ok d
        → (d.source ≡ source) × (d.presentation ≡ p) × (d.metadata ≡ metadata_default)
    go p source (Ingress.err e) b h = ground arith
    go p source (Ingress.ok t) (Ingress.err e) h = ground arith
    go toast source (Ingress.ok t) (Ingress.ok b) h = ground arith
    go attention none (Ingress.ok t) (Ingress.ok b) h = ground arith
    go attention (some s) (Ingress.ok t) (Ingress.ok b) h = ground arith

sourced-IsSource :
    (w : Option WireSourceContext) {s : Option SourceContext}
    → sourced w ≡ ok s
    → IsOptional IsSource s
sourced-IsSource none {s} e = let q : none ≡ s = cc e in subst (IsOptional IsSource) q tt
sourced-IsSource (some w) {s} e =
    let (t, te, e1) = bind_ok (source_into_domain w) _ e in
    let q : some t ≡ s = cc e1 in subst (IsOptional IsSource) q (source_into_domain-IsSource w te)

wire_timeout-IsMillis :
    (ms : Option ℕ) → IsOptional (λ n. n ≤ u64_max) ms → IsMillis (wire_timeout ms)
unfolding wire_timeout
wire_timeout-IsMillis none h = tt
wire_timeout-IsMillis (some n) h = (n, refl, h)

with_timeout-IsMillis :
    (d : NotificationDraft) (t : Timeout) → IsMillis t → IsMillis (Draft.with_timeout d t).timeout
unfolding Draft.with_timeout
with_timeout-IsMillis d t h = elim (Bool-cases (is_attention d.presentation)) [
  | inl e ↦ rw e tt
  | inr e ↦ rw e h
]

keyed-IsDraft :
    (d : NotificationDraft) (key : Text) (t : NotificationDraft)
    → IsDraft d
    → keyed d key ≡ Ingress.ok t
    → IsDraft t
unfolding notification_key
keyed-IsDraft d key t h e =
    let (k, ke, e1) = ingress_bind_ok (notification_key key) _ e in
    let bounded = normalize_required-IsBounded "Notification Key" key max_key_bytes ke in
    made IsDraft {a = Draft.with_key d k} e1
      (ground (arith, h, (builders-IsValid h.valid).0 k bounded))

-- A new draft with the level, the priority and the timeout of a wire form.
new-IsDraft :
    (w : WireNotificationDraft) (source : Option SourceContext) {d : NotificationDraft}
    → IsOptional (λ n. n ≤ u64_max) w.timeout_ms
    → IsOptional IsSource source
    → draft_new w.presentation w.title w.body source ≡ Ingress.ok d
    → IsDraft (
        Draft.with_timeout
          (Draft.with_priority (Draft.with_level d w.level) w.priority)
          (wire_timeout w.timeout_ms))
unfolding Draft.with_timeout
new-IsDraft w source {d} ms h e =
    let built = builders-IsValid (draft_new-IsValid w.presentation w.title w.body source e) in
    let valid =
      (builders-IsValid ((builders-IsValid (built.1 w.level)).2 w.priority)).3
        (wire_timeout w.timeout_ms) in
    let (source_e, presentation_e, metadata_e) =
      draft_new-fields w.presentation w.title w.body source e in
    record {
      valid = valid;
      source_ok = rw source_e h;
      metadata_ok = rw metadata_e (record { agent_ok = tt; tool_ok = tt });
      millis =
          with_timeout-IsMillis (Draft.with_priority (Draft.with_level d w.level) w.priority)
            (wire_timeout w.timeout_ms) (wire_timeout-IsMillis w.timeout_ms ms);
    }

completed-IsDraft :
    (d : NotificationDraft) (position : Option Placement) (m : NormalizedMetadata)
    → IsDraft d
    → IsMetadata m
    → IsDraft (Draft.with_metadata (given placed position d) m)
completed-IsDraft d none m h k = ground (arith, h, k, (builders-IsValid h.valid).5 m)
completed-IsDraft d (some position) m h k =
    let valid =
      (builders-IsValid ((builders-IsValid h.valid).4 (with_position overrides_default position))).5
        m in
    ground (arith, h, k, valid)

-- A draft that comes over the wire, with a timeout of 64 bits, is valid, and its source and
-- metadata are: each text is plain, bounded and of its form, a source has a provider exactly with
-- a session of it, an Attention has a source and no timeout, and a timeout is whole milliseconds.
pub draft_into_domain-IsDraft :
    (w : WireNotificationDraft) {d : NotificationDraft}
    → IsOptional (λ n. n ≤ u64_max) w.timeout_ms
    → draft_into_domain w ≡ ok d
    → IsDraft d
unfolding draft_into_domain
draft_into_domain-IsDraft w {d} ms e =
    let (source, se, e1) = bind_ok (sourced w.source) _ e in
    let (new, ne, e2) = bind_ok (accept (draft_new w.presentation w.title w.body source)) _ e1 in
    let (draft, de, e3) =
      bind_ok
        (optionally keyed w.key (
          Draft.with_timeout (Draft.with_priority (Draft.with_level new w.level) w.priority)
            (wire_timeout w.timeout_ms)))
        _ e2 in
    let (metadata, me, e4) = bind_ok (metadata_into_domain w.metadata) _ e3 in
    let start =
      new-IsDraft w source ms (sourced-IsSource w.source se)
        (accept_ok (draft_new w.presentation w.title w.body source) ne) in
    let start' =
      optionally_keeps IsDraft keyed keyed-IsDraft w.key
        (Draft.with_timeout (Draft.with_priority (Draft.with_level new w.level) w.priority)
          (wire_timeout w.timeout_ms))
        start de in
    let q : Draft.with_metadata (given placed w.position draft) metadata ≡ d = cc e4 in
    subst IsDraft q (
      completed-IsDraft draft w.position metadata start'
        (metadata_into_domain-IsMetadata w.metadata me))
