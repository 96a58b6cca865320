-- ===== src/Protocol/Renderer.antt =====
-- src/protocol.rs: the frames between the daemon and a renderer.
pub mod Line
use tmnotify.Base.{
  ℕ, Bool, true, Option, none, some, List, [], ◌∷◌, ◌++◌, ltb, ◌==◌, if◌then◌else◌, length,
}
use mathlib.Core.Option.{map as Option-map}
use tmnotify.Notification.Ingress.{Text}
use tmnotify.Notification.Source.{
  Provider, AgentEventKind, Presentation, Level, Timeout, SourceContext, NormalizedMetadata,
}
use tmnotify.Notification.Record.{Notification}
use tmnotify.Protocol.Error.{
  Result, ok, err, ◌>>=◌, frame_too_large, malformed_json, encode_failed, unsupported_version,
  unexpected_request_type,
}
use tmnotify.Protocol.Frames.{Bytes, newline, max_request_bytes}
use tmnotify.Protocol.Request.{protocol_version, ok_or, ensure}

pub data RendererBodyMode : Type 0 where
  first_line join_lines wrap : RendererBodyMode

pub record RendererDisplayOptions : Type 0 where
  pub body : RendererBodyMode
  pub unicode : Bool
  pub color : Bool

abbrev pub display_options_default : RendererDisplayOptions
display_options_default = record { body = first_line; unicode = true; color = true }

pub record RendererSource : Type 0 where
  pub provider : Option Provider
  pub provider_session_id : Option Text
  pub session_id : Text
  pub window_id : Text
  pub pane_id : Text
  pub cwd : Option Text
  pub command : Option Text
  pub pane_title : Option Text

pub record RendererMetadata : Type 0 where
  pub agent_event_kind : Option AgentEventKind
  pub agent_name : Option Text
  pub tool_name : Option Text

pub record RendererContent : Type 0 where
  pub notification_id : ℕ
  pub presentation : Presentation
  pub level : Level
  pub notification_key : Option Text
  pub title : Text
  pub body : Text
  pub timeout : Timeout
  pub source : Option RendererSource
  pub metadata : RendererMetadata
  pub display : RendererDisplayOptions

abbrev pub with_display_options : RendererContent → RendererDisplayOptions → RendererContent
with_display_options c display = record c { display = display }

unfoldable pub renderer_source : SourceContext → RendererSource
renderer_source s = record {
  provider = s.provider;
  provider_session_id = s.provider_session_id;
  session_id = s.session_id;
  window_id = s.window_id;
  pane_id = s.pane_id;
  cwd = s.cwd;
  command = s.command;
  pane_title = s.pane_title;
}

unfoldable pub renderer_metadata : NormalizedMetadata → RendererMetadata
renderer_metadata m = record {
  agent_event_kind = m.agent_event_kind;
  agent_name = m.agent_name;
  tool_name = m.tool_name;
}

-- `From<&Notification>`
unfoldable pub renderer_content : Notification → RendererContent
renderer_content n = record {
  notification_id = n.id;
  presentation = n.presentation;
  level = n.level;
  notification_key = n.key;
  title = n.title;
  body = n.body;
  timeout = n.timeout;
  source = Option-map renderer_source n.source;
  metadata = renderer_metadata n.metadata;
  display = display_options_default;
}

pub data RendererTermination : Type 0 where
  recreated dismissed jumped timed_out render_failed daemon_stopped server_ended :
      RendererTermination

pub data RendererAction : Type 0 where
  jump dismiss : RendererAction

pub data RendererMessage : Type 0 where
  initial update : RendererContent → RendererMessage
  error : Text → RendererMessage
  terminate : RendererTermination → RendererMessage

pub record RendererWireFrame : Type 0 where
  pub version : ℕ
  pub message : RendererMessage

pub record RendererActionWireFrame : Type 0 where
  pub version : ℕ
  -- Whether the text of the field is "renderer-action"
  pub is_action : Bool
  pub action : RendererAction

-- `serde_json::to_vec` and `serde_json::from_slice` at one type.
pub record Codec (Frame : Type 0) : Type 0 where
  pub to_vec : Frame → Option Bytes
  pub from_slice : Bytes → Option Frame

-- The end of each `encode_line`.
abbrev pub ended : Bytes → Result Bytes
ended encoded =
    if ltb max_request_bytes (length encoded)
    then err (frame_too_large max_request_bytes)
    else ok (encoded ++ newline ∷ [])

-- `frame.strip_suffix(b"\n").unwrap_or(frame)`
unfoldable pub strip_newline : Bytes → Bytes
strip_newline [] = []
strip_newline (b ∷ []) = if b == newline then [] else b ∷ []
strip_newline (b ∷ c ∷ bytes) = b ∷ strip_newline (c ∷ bytes)

-- The start of each `decode`.
abbrev pub sized : Bytes → Result Bytes
sized frame =
    if ltb max_request_bytes (length frame)
    then err (frame_too_large max_request_bytes)
    else ok frame

-- `RendererMessage::encode_line`
unfoldable pub message_encode_line : Codec RendererWireFrame → RendererMessage → Result Bytes
message_encode_line codec m =
    ok_or (codec.to_vec (record { version = protocol_version; message = m })) malformed_json
    >>= ended

-- `RendererMessage::decode`
unfoldable pub message_decode : Codec RendererWireFrame → Bytes → Result RendererMessage
message_decode codec bytes = do
  frame ← sized (strip_newline bytes)
  decoded ← ok_or (codec.from_slice frame) malformed_json
  known ← ensure (decoded.version == protocol_version) (unsupported_version decoded.version)
  ok decoded.message

-- `RendererAction::encode_line`
unfoldable pub action_encode_line : Codec RendererActionWireFrame → RendererAction → Result Bytes
action_encode_line codec a =
    ok_or (codec.to_vec (record { version = protocol_version; is_action = true; action = a }))
      encode_failed
    >>= ended

-- `RendererAction::decode`
unfoldable pub action_decode : Codec RendererActionWireFrame → Bytes → Result RendererAction
action_decode codec bytes = do
  frame ← sized (strip_newline bytes)
  decoded ← ok_or (codec.from_slice frame) malformed_json
  known ← ensure (decoded.version == protocol_version) (unsupported_version decoded.version)
  typed ← ensure decoded.is_action unexpected_request_type
  ok decoded.action
