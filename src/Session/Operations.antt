-- ===== src/Session/Operations.antt =====
-- src/render.rs: the calls of `RendererSessions`. Each returns its result and the state after it.
use tmnotify.Base.{
  ℕ, suc, ◌+◌, ◌%◌, ◌^◌, max, Bool, true, false, ◌||◌, ◌&&◌, not, Option, none, some, List, [], leb,
  ◌==◌, if◌then◌else◌, ite, length, is_none, ℕ_discrete,
}
use tmnotify.Base.Map.{insert, remove}
use tmnotify.Notification.Source.{Text-discrete}
use tmnotify.Notification.Record.{eq}
use tmnotify.Protocol.Renderer.{RendererContent, RendererMessage, initial, terminate, recreated}
use tmnotify.Session.State.{
  capacity_exhausted, mismatched_credential, stale_credential, channel_full, Result, done, failed,
  WindowDisplayId, Token, RendererLaunch, PendingCredential, consumed, stale, DisplaySession,
  RendererStream, Channel, RendererSessions, Sent, sent, full, disconnected, try_send,
}
use tmnotify.Session.Credentials.{
  get, retire, retire_pending, expire_credentials, retired_error, unique_token,
}

-- `next_generation.wrapping_add(1).max(1)`
abbrev pub following : ℕ → ℕ
following generation = max ((generation + 1) % 2 ^ 64) 1

-- `pending_token.as_deref() == Some(token)`
abbrev pub holds_token : Option Token → Token → Bool
holds_token none token = false
holds_token (some pending) token = eq Text-discrete pending token

module _ {G : Type 0} where
  -- `let _ = sender.try_send(message)`
  abbrev pub notify : Option ℕ → RendererMessage → RendererSessions G → RendererSessions G
  notify none message s = s
  notify (some sender) message s = record s { channels = (try_send s.channels sender message).1 }

  -- The previous session of a display that is recreated.
  abbrev pub replace_previous :
      WindowDisplayId → Option DisplaySession → RendererSessions G → RendererSessions G
  replace_previous id none s = s
  replace_previous id (some previous) s = notify previous.sender (terminate recreated) (
      retire_pending id previous stale (record s { displays = remove Text-discrete id s.displays }))

  -- `create`, once there is a token
  abbrev pub launch :
      WindowDisplayId
      → RendererContent
      → ℕ
      → Result Token × RendererSessions G
      → Result RendererLaunch × RendererSessions G
  launch id content now (failed e, s) = (failed e, s)
  launch id content now (done token, s) = (
    done (record { window_display_id = id; token = token; generation = s.next_generation }),
    record s {
      next_generation = following s.next_generation;
      credentials =
          insert Text-discrete token
            (record {
              window_display_id = id;
              generation = s.next_generation;
              expires_at = now + s.limits.token_ttl;
            })
            s.credentials;
      displays =
          insert Text-discrete id
            (record {
              generation = s.next_generation;
              pending_token = some token;
              sender = none;
              content = content;
            })
            s.displays;
    },
  )

  unfoldable pub create_fresh :
      (G → Result (List ℕ) × G)
      → WindowDisplayId
      → RendererContent
      → ℕ
      → RendererSessions G
      → Result RendererLaunch × RendererSessions G
  create_fresh generate id content now s =
      if is_none (get id s.displays) && leb s.limits.max_sessions (length s.displays)
      then (failed capacity_exhausted, s)
      else launch id content now (unique_token generate (replace_previous id (get id s.displays) s))

  unfoldable pub create :
      (G → Result (List ℕ) × G)
      → WindowDisplayId
      → RendererContent
      → ℕ
      → RendererSessions G
      → Result RendererLaunch × RendererSessions G
  create generate id content now s = create_fresh generate id content now (expire_credentials now s)

  -- The stream is connected. The first message fits, since the capacity is positive.
  abbrev pub connect :
      WindowDisplayId
      → Token
      → PendingCredential
      → DisplaySession
      → RendererSessions G
      → Sent × List (ℕ × Channel)
      → Result RendererStream × RendererSessions G
  connect id token c display s (sent, channels) = (
    done (record { generation = c.generation; receiver = s.next_channel }),
    retire token id consumed (record s {
      displays =
          insert Text-discrete id
            (record display { pending_token = none; sender = some s.next_channel }) s.displays;
      credentials = remove Text-discrete token s.credentials;
      channels = channels;
      next_channel = suc s.next_channel;
    }),
  )
  connect id token c display s (full, channels) = (failed channel_full, s)
  connect id token c display s (disconnected, channels) = (failed channel_full, s)

  abbrev pub redeem_display :
      WindowDisplayId
      → Token
      → PendingCredential
      → Option DisplaySession
      → RendererSessions G
      → Result RendererStream × RendererSessions G
  redeem_display id token c none s = (failed stale_credential, s)
  redeem_display id token c (some display) s =
      let channel : Channel = record {
        queue = [];
        capacity = s.limits.channel_capacity;
        connected = true;
      } in
      if not (display.generation == c.generation) || not (holds_token display.pending_token token)
      then (failed stale_credential, s)
      else connect id token c display s (
          try_send (insert ℕ_discrete s.next_channel channel s.channels) s.next_channel
            (initial display.content))

  abbrev pub redeem_credential :
      WindowDisplayId
      → Token
      → Option PendingCredential
      → RendererSessions G
      → Result RendererStream × RendererSessions G
  redeem_credential id token none s = (failed (retired_error s id token), s)
  redeem_credential id token (some c) s =
      ite (Text-discrete c.window_display_id id) (redeem_display id token c (get id s.displays) s)
        (failed mismatched_credential, s)

  unfoldable pub redeem_fresh :
      WindowDisplayId → Token → RendererSessions G → Result RendererStream × RendererSessions G
  redeem_fresh id token s = redeem_credential id token (get token s.credentials) s

  unfoldable pub redeem :
      WindowDisplayId → Token → ℕ → RendererSessions G → Result RendererStream × RendererSessions G
  redeem id token now s = redeem_fresh id token (expire_credentials now s)
