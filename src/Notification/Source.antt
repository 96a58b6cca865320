-- ===== src/Notification/Source.antt =====
-- src/notification.rs: the enumerations, the Source Context, the metadata and the overrides, each
-- with its constructors. A value that the source moves into `self` is a new record.
use tmnotify.Base.{ℕ, Option, none, some, ℕ_discrete, ◌==◌, if◌then◌else◌}
use tmnotify.Notification.Ingress.{
  Text, Result, ok, err, ◌>>=◌, invalid_notification_id, max_key_bytes, max_source_id_bytes,
  max_source_value_bytes, max_cwd_bytes, max_metadata_value_bytes,
}
use tmnotify.Notification.Plain.{normalize_required, normalize_bounded, stable_tmux_id}

pub data Presentation : Type 0 where
  toast attention : Presentation

pub data Level : Type 0 where
  info success warning error : Level

pub data Priority : Type 0 where
  low normal high critical : Priority

-- The derived `Ord`: the order of the variants.
abbrev pub priority_rank : Priority → ℕ
priority_rank low = 0
priority_rank normal = 1
priority_rank high = 2
priority_rank critical = 3

-- A `Duration` is its number of nanoseconds.
pub data Timeout : Type 0 where
  after : ℕ → Timeout
  never : Timeout

pub data DeliveryState : Type 0 where
  pending visible closed : DeliveryState

pub data CloseReason : Type 0 where
  timed_out dismissed jumped render_suppressed render_failed daemon_interrupted daemon_stopped
        server_ended :
      CloseReason

pub data Provider : Type 0 where
  claude codex : Provider

pub data AgentEventKind : Type 0 where
  needs_attention completed failed started interrupted subagent_completed tool_started
        tool_completed :
      AgentEventKind

pub data Placement : Type 0 where
  top_left top_center top_right bottom_left bottom_center bottom_right : Placement

-- A UUID of version 7 is the 128-bit number that it stands for.
abbrev pub NotificationId : Type 0
NotificationId = ℕ

-- `NotificationId::from_str`, given what `Uuid::parse_str` returns of the text: the number and its
-- version.
unfoldable pub notification_id : Option (ℕ × ℕ) → Result NotificationId
notification_id none = err invalid_notification_id
notification_id (some (id, version)) = if version == 7 then ok id else err invalid_notification_id

abbrev pub NotificationKey : Type 0
NotificationKey = Text

unfoldable pub notification_key : Text → Result NotificationKey
notification_key value = normalize_required "Notification Key" value max_key_bytes

abbrev pub TmuxServerId : Type 0
TmuxServerId = Text

unfoldable pub tmux_server_id : Text → Result TmuxServerId
tmux_server_id value = normalize_required "tmux server ID" value max_source_id_bytes

pub record SourceContext : Type 0 where
  pub provider : Option Provider
  pub provider_session_id : Option Text
  pub tmux_server_id : TmuxServerId
  pub session_id : Text
  pub window_id : Text
  pub pane_id : Text
  pub cwd : Option Text
  pub command : Option Text
  pub pane_title : Option Text

unfoldable pub source_context : TmuxServerId → Text → Text → Text → Result SourceContext
source_context server session window pane = do
  session' ← stable_tmux_id "session ID" session b'$'
  window' ← stable_tmux_id "window ID" window b'@'
  pane' ← stable_tmux_id "pane ID" pane b'%'
  ok (record {
    provider = none;
    provider_session_id = none;
    tmux_server_id = server;
    session_id = session';
    window_id = window';
    pane_id = pane';
    cwd = none;
    command = none;
    pane_title = none;
  })

unfoldable pub with_provider_session : SourceContext → Provider → Text → Result SourceContext
with_provider_session s p session = do
  v ← normalize_required "provider session ID" session max_source_value_bytes
  ok (record s { provider = some p; provider_session_id = some v })

unfoldable pub with_cwd : SourceContext → Text → Result SourceContext
with_cwd s value = do
  v ← normalize_required "source cwd" value max_cwd_bytes
  ok (record s { cwd = some v })

unfoldable pub with_command : SourceContext → Text → Result SourceContext
with_command s value = do
  v ← normalize_required "source command" value max_source_value_bytes
  ok (record s { command = some v })

unfoldable pub with_pane_title : SourceContext → Text → Result SourceContext
with_pane_title s value = do
  v ← normalize_bounded "source pane title" value max_source_value_bytes
  ok (record s { pane_title = some v })

pub record NormalizedMetadata : Type 0 where
  pub agent_event_kind : Option AgentEventKind
  pub agent_name : Option Text
  pub tool_name : Option Text

abbrev pub metadata_new : Option AgentEventKind → NormalizedMetadata
metadata_new kind = record { agent_event_kind = kind; agent_name = none; tool_name = none }

abbrev pub metadata_default : NormalizedMetadata
metadata_default = metadata_new none

unfoldable pub with_agent_name : NormalizedMetadata → Text → Result NormalizedMetadata
with_agent_name m value = do
  v ← normalize_required "agent name" value max_metadata_value_bytes
  ok (record m { agent_name = some v })

unfoldable pub with_tool_name : NormalizedMetadata → Text → Result NormalizedMetadata
with_tool_name m value = do
  v ← normalize_required "tool name" value max_metadata_value_bytes
  ok (record m { tool_name = some v })

pub record PresentationOverrides : Type 0 where
  pub position : Option Placement

abbrev pub overrides_default : PresentationOverrides
overrides_default = record { position = none }

abbrev pub with_position : PresentationOverrides → Placement → PresentationOverrides
with_position o p = record o { position = some p }

-- The derived `PartialEq` of each type.
unfoldable pub Text-discrete : Discrete Text
unfolding ℕ_discrete
Text-discrete = hlevel ℕ_discrete

unfoldable pub Presentation-discrete : Discrete Presentation
Presentation-discrete = hlevel

unfoldable pub Level-discrete : Discrete Level
Level-discrete = hlevel

unfoldable pub Priority-discrete : Discrete Priority
Priority-discrete = hlevel

unfoldable pub Timeout-discrete : Discrete Timeout
unfolding ℕ_discrete
Timeout-discrete = hlevel ℕ_discrete

unfoldable pub DeliveryState-discrete : Discrete DeliveryState
DeliveryState-discrete = hlevel

unfoldable pub CloseReason-discrete : Discrete CloseReason
CloseReason-discrete = hlevel

unfoldable pub Overrides-discrete : Discrete PresentationOverrides
Overrides-discrete = hlevel

unfoldable pub Provider-discrete : Discrete (Option Provider)
Provider-discrete = hlevel

unfoldable pub Metadata-discrete : Discrete NormalizedMetadata
unfolding ℕ_discrete
Metadata-discrete = hlevel ℕ_discrete
