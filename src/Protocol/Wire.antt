-- ===== src/Protocol/Wire.antt =====
-- src/protocol.rs: the wire forms of a draft, an update, a source and a selector.
pub mod Steps
pub mod Source
pub mod Valid
pub mod RoundTrip
use tmnotify.Base.{ℕ, ◌+◌, ◌-◌, ◌*◌, ◌/◌, ◌^◌, Option, none, some, min}
use mathlib.Core.Option.{map as Option-map}
use tmnotify.Notification.Ingress.{Text}
use tmnotify.Notification.Ingress
use tmnotify.Notification.Source.{
  Level, Priority, Presentation, Timeout, after, never, Placement, Provider, AgentEventKind,
  NotificationId, NotificationKey, notification_id, notification_key, tmux_server_id, SourceContext,
  source_context, with_provider_session, with_cwd, with_command, with_pane_title,
  NormalizedMetadata, metadata_new, with_agent_name, with_tool_name, PresentationOverrides,
  overrides_default, with_position,
}
use tmnotify.Notification.Draft.{NotificationDraft, draft_new}
use tmnotify.Notification.Draft
use tmnotify.Notification.Update.{NotificationUpdate, update_new, with_title, with_body}
use tmnotify.Notification.Update
use tmnotify.Protocol.Error.{
  Result, ok, err, ◌>>=◌, accept, incomplete_provider_source, invalid_selector,
}

pub record WireSourceContext : Type 0 where
  pub provider : Option Provider
  pub provider_session_id : Option Text
  pub tmux_server_id : Text
  pub session_id : Text
  pub window_id : Text
  pub pane_id : Text
  pub cwd : Option Text
  pub command : Option Text
  pub pane_title : Option Text

pub record WireMetadata : Type 0 where
  pub agent_event_kind : Option AgentEventKind
  pub agent_name : Option Text
  pub tool_name : Option Text

pub record WireNotificationDraft : Type 0 where
  pub key : Option Text
  pub level : Level
  pub priority : Priority
  pub presentation : Presentation
  pub title : Text
  pub body : Text
  pub timeout_ms : Option ℕ
  pub source : Option WireSourceContext
  pub position : Option Placement
  pub metadata : WireMetadata

pub record WireNotificationUpdate : Type 0 where
  pub title : Option Text
  pub body : Option Text
  pub level : Option Level
  pub priority : Option Priority
  pub timeout_ms : Option (Option ℕ)
  pub position : Option Placement

pub record WireSelector : Type 0 where
  pub id : Option Text
  pub key : Option Text

pub data TargetSelector : Type 0 where
  target_id : NotificationId → TargetSelector
  target_key : NotificationKey → TargetSelector

pub data WireHistoryClear : Type 0 where
  hidden all : WireHistoryClear
  -- An `i64`, in two's complement.
  before_millis : ℕ → WireHistoryClear

abbrev pub u64_max : ℕ
u64_max = 2 ^ 64 - 1

abbrev pub nanos_per_milli : ℕ
nanos_per_milli = 1_000_000

-- `u64::try_from(duration.as_millis()).unwrap_or(u64::MAX)`
unfoldable pub timeout_millis : Timeout → Option ℕ
timeout_millis (after duration) = some (min (duration / nanos_per_milli) u64_max)
timeout_millis never = none

unfoldable pub wire_timeout : Option ℕ → Timeout
wire_timeout none = never
wire_timeout (some value) = after (value * nanos_per_milli)

-- `if let Some(value) = option { state = f(state, &value)?; }`
abbrev pub optionally {ℓ κ} :
    {S : Type ℓ} {A : Type κ} → (S → A → Ingress.Result S) → Option A → S → Result S
optionally f none s = ok s
optionally f (some a) s = accept (f s a)

-- The same, where `f` cannot fail.
abbrev pub given {ℓ κ} : {S : Type ℓ} {A : Type κ} → (S → A → S) → Option A → S → S
given f none s = s
given f (some a) s = f s a

unfoldable pub source_from_domain : SourceContext → WireSourceContext
source_from_domain s = record {
  provider = s.provider;
  provider_session_id = s.provider_session_id;
  tmux_server_id = s.tmux_server_id;
  session_id = s.session_id;
  window_id = s.window_id;
  pane_id = s.pane_id;
  cwd = s.cwd;
  command = s.command;
  pane_title = s.pane_title;
}

-- The `match` on the provider and its session.
abbrev pub provided : Option Provider → Option Text → SourceContext → Result SourceContext
provided (some p) (some session) s = accept (with_provider_session s p session)
provided none none s = ok s
provided (some p) none s = err incomplete_provider_source
provided none (some session) s = err incomplete_provider_source

unfoldable pub source_into_domain : WireSourceContext → Result SourceContext
source_into_domain w = do
  server ← accept (tmux_server_id w.tmux_server_id)
  source ← accept (source_context server w.session_id w.window_id w.pane_id)
  with_provider ← provided w.provider w.provider_session_id source
  with_cwd' ← optionally with_cwd w.cwd with_provider
  with_command' ← optionally with_command w.command with_cwd'
  optionally with_pane_title w.pane_title with_command'

unfoldable pub metadata_from_domain : NormalizedMetadata → WireMetadata
metadata_from_domain m = record {
  agent_event_kind = m.agent_event_kind;
  agent_name = m.agent_name;
  tool_name = m.tool_name;
}

unfoldable pub metadata_into_domain : WireMetadata → Result NormalizedMetadata
metadata_into_domain w = do
  named ← optionally with_agent_name w.agent_name (metadata_new w.agent_event_kind)
  optionally with_tool_name w.tool_name named

unfoldable pub draft_from_domain : NotificationDraft → WireNotificationDraft
draft_from_domain d = record {
  key = d.key;
  level = d.level;
  priority = d.priority;
  presentation = d.presentation;
  title = d.title;
  body = d.body;
  timeout_ms = timeout_millis d.timeout;
  source = Option-map source_from_domain d.source;
  position = d.overrides.position;
  metadata = metadata_from_domain d.metadata;
}

-- `self.source.map(WireSourceContext::into_domain).transpose()`
abbrev pub sourced : Option WireSourceContext → Result (Option SourceContext)
sourced none = ok none
sourced (some w) = source_into_domain w >>= λ s. ok (some s)

-- `draft.with_key(NotificationKey::new(&key)?)`
abbrev pub keyed : NotificationDraft → Text → Ingress.Result NotificationDraft
keyed d key = Ingress.◌>>=◌ (notification_key key) (λ k. Ingress.ok (Draft.with_key d k))

abbrev pub placed : NotificationDraft → Placement → NotificationDraft
placed d position = Draft.with_overrides d (with_position overrides_default position)

unfoldable pub draft_into_domain : WireNotificationDraft → Result NotificationDraft
draft_into_domain w = do
  source ← sourced w.source
  new ← accept (draft_new w.presentation w.title w.body source)
  draft ← optionally keyed w.key (
      Draft.with_timeout (Draft.with_priority (Draft.with_level new w.level) w.priority)
        (wire_timeout w.timeout_ms))
  metadata ← metadata_into_domain w.metadata
  ok (Draft.with_metadata (given placed w.position draft) metadata)

-- `update.overrides().and_then(PresentationOverrides::position)`
abbrev pub position_of : Option PresentationOverrides → Option Placement
position_of none = none
position_of (some o) = o.position

unfoldable pub update_from_domain : NotificationUpdate → WireNotificationUpdate
update_from_domain u = record {
  title = u.title;
  body = u.body;
  level = u.level;
  priority = u.priority;
  timeout_ms = Option-map timeout_millis u.timeout;
  position = position_of u.overrides;
}

unfoldable pub update_into_domain : WireNotificationUpdate → Result NotificationUpdate
update_into_domain w = do
  titled ← optionally with_title w.title update_new
  bodied ← optionally with_body w.body titled
  ok (
      given (λ u p. Update.with_overrides u (with_position overrides_default p)) w.position
        (given (λ u t. Update.with_timeout u (wire_timeout t)) w.timeout_ms
          (given Update.with_priority w.priority (given Update.with_level w.level bodied))))

-- The `match` on the id and the key. `id.parse()` is given what `Uuid::parse_str` returns.
abbrev pub selected : (Text → Option (ℕ × ℕ)) → Option Text → Option Text → Result TargetSelector
selected parse_uuid (some id) none =
    accept (notification_id (parse_uuid id)) >>= λ i. ok (target_id i)
selected parse_uuid none (some key) = accept (notification_key key) >>= λ k. ok (target_key k)
selected parse_uuid (some id) (some key) = err invalid_selector
selected parse_uuid none none = err invalid_selector

unfoldable pub selector_into_domain : (Text → Option (ℕ × ℕ)) → WireSelector → Result TargetSelector
selector_into_domain parse_uuid w = selected parse_uuid w.id w.key
