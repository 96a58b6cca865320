-- ===== src/Session/State.antt =====
-- src/render.rs: the state of `RendererSessions`, and the channels of the standard library that its
-- senders write to. An `Instant` is a count of nanoseconds.
use tmnotify.Base.{
  ℕ, Bool, ◌||◌, not, Option, none, some, List, [], ◌∷◌, ◌++◌, ltb, ◌==◌, if◌then◌else◌, length,
  ℕ_discrete,
}
use tmnotify.Base.Map.{lookup, insert}
use tmnotify.Notification.Ingress.{Text, byte_len}
use tmnotify.Notification.Plain.{is_empty}
use tmnotify.Protocol.Renderer.{RendererContent, RendererMessage}

pub data SessionError : Type 0 where
  invalid_window_display_id invalid_limits capacity_exhausted randomness_unavailable
        credential_collision unknown_credential mismatched_credential stale_credential
        duplicate_redemption unknown_window_display channel_full renderer_disconnected :
      SessionError

pub data Result (A : Type 0) : Type 0 where
  done : A → Result A
  failed : SessionError → Result A

abbrev pub WindowDisplayId : Type 0
WindowDisplayId = Text

-- `WindowDisplayId::new`
unfoldable pub window_display_id : Text → Result WindowDisplayId
window_display_id value =
    if is_empty value || ltb 128 (byte_len value)
    then failed invalid_window_display_id
    else done value

-- The text of a `RendererToken`
abbrev pub Token : Type 0
Token = Text

pub record RendererLaunch : Type 0 where
  pub window_display_id : WindowDisplayId
  pub token : Token
  pub generation : ℕ

pub record SessionLimits : Type 0 where
  pub max_sessions : ℕ
  pub channel_capacity : ℕ
  pub token_ttl : ℕ

abbrev pub session_limits_default : SessionLimits
session_limits_default = record {
  max_sessions = 256;
  channel_capacity = 16;
  token_ttl = 15_000_000_000;
}

pub data RendererExit : Type 0 where
  successful exit_failed signalled : RendererExit

pub data RendererOutcome : Type 0 where
  stale_exit : RendererOutcome
  stopped : WindowDisplayId → RendererOutcome
  crashed : WindowDisplayId → RendererExit → RendererOutcome

pub record PendingCredential : Type 0 where
  pub window_display_id : WindowDisplayId
  pub generation : ℕ
  pub expires_at : ℕ

pub data RetiredReason : Type 0 where
  consumed stale : RetiredReason

-- A sender or a receiver is the number of its channel.
pub record DisplaySession : Type 0 where
  pub generation : ℕ
  pub pending_token : Option Token
  pub sender : Option ℕ
  pub content : RendererContent

pub record RendererStream : Type 0 where
  pub generation : ℕ
  pub receiver : ℕ

-- `mpsc::sync_channel`: the messages not yet received, and whether the receiver lives.
pub record Channel : Type 0 where
  pub queue : List RendererMessage
  pub capacity : ℕ
  pub connected : Bool

pub record RendererSessions (G : Type 0) : Type 0 where
  pub generator : G
  pub limits : SessionLimits
  pub displays : List (WindowDisplayId × DisplaySession)
  pub credentials : List (Token × PendingCredential)
  pub retired : List (Token × (WindowDisplayId × RetiredReason))
  pub retired_order : List Token
  pub next_generation : ℕ
  -- The channels that were made, by their numbers
  pub channels : List (ℕ × Channel)
  pub next_channel : ℕ

-- `RendererSessions::with_generator`
unfoldable pub with_generator : {G : Type 0} → SessionLimits → G → Result (RendererSessions G)
with_generator limits generator =
    if limits.max_sessions == 0 || (limits.channel_capacity == 0 || limits.token_ttl == 0)
    then failed invalid_limits
    else done (record {
      generator = generator;
      limits = limits;
      displays = [];
      credentials = [];
      retired = [];
      retired_order = [];
      next_generation = 1;
      channels = [];
      next_channel = 0;
    })

pub data Sent : Type 0 where
  sent full disconnected : Sent

-- `SyncSender::try_send` on the state of its channel
unfoldable pub offer : RendererMessage → Channel → Sent × Channel
offer message c =
    if not c.connected
    then (disconnected, c)
    else if ltb (length c.queue) c.capacity
    then (sent, record c { queue = c.queue ++ message ∷ [] })
    else (full, c)

-- `SyncSender::try_send`
abbrev pub try_send_to :
    List (ℕ × Channel) → ℕ → RendererMessage → Option Channel → Sent × List (ℕ × Channel)
try_send_to channels n message none = (disconnected, channels)
try_send_to channels n message (some c) =
    let (result, c') = offer message c in (result, insert ℕ_discrete n c' channels)

unfoldable pub try_send : List (ℕ × Channel) → ℕ → RendererMessage → Sent × List (ℕ × Channel)
try_send channels n message = try_send_to channels n message (lookup ℕ_discrete n channels)
