-- ===== src/Session/Streams.antt =====
-- src/render.rs: the calls of `RendererSessions` on a session that is there.
use tmnotify.Base.{ℕ, Bool, Option, none, some, List, ◌==◌, if◌then◌else◌}
use tmnotify.Base.Map.{insert, remove}
use tmnotify.Notification.Source.{Text-discrete}
use tmnotify.Protocol.Renderer.{RendererContent, update, terminate, RendererTermination}
use tmnotify.Session.State.{
  unknown_window_display, channel_full, renderer_disconnected, Result, done, failed,
  WindowDisplayId, RendererExit, successful, exit_failed, signalled, RendererOutcome, stale_exit,
  stopped, crashed, stale, DisplaySession, Channel, RendererSessions, Sent, sent, full,
  disconnected, try_send,
}
use tmnotify.Session.Credentials.{get, retire_pending, has_generation}

abbrev pub outcome : WindowDisplayId → RendererExit → RendererOutcome
outcome id successful = stopped id
outcome id exit_failed = crashed id exit_failed
outcome id signalled = crashed id signalled

module _ {G : Type 0} where
  -- What `update` makes of the answer of the channel.
  abbrev pub updated :
      WindowDisplayId
      → DisplaySession
      → RendererSessions G
      → Sent × List (ℕ × Channel)
      → Result (Unit {0}) × RendererSessions G
  updated id display s (sent, channels) = (done tt, record s { channels = channels })
  updated id display s (full, channels) = (failed channel_full, record s { channels = channels })
  updated id display s (disconnected, channels) = (
    failed renderer_disconnected,
    record s {
      channels = channels;
      displays = insert Text-discrete id (record display { sender = none }) s.displays;
    },
  )

  abbrev pub update_sender :
      WindowDisplayId
      → DisplaySession
      → RendererContent
      → Option ℕ
      → RendererSessions G
      → Result (Unit {0}) × RendererSessions G
  update_sender id display content none s = (done tt, s)
  update_sender id display content (some sender) s =
      updated id display s (try_send s.channels sender (update content))

  abbrev pub update_display :
      WindowDisplayId
      → RendererContent
      → Option DisplaySession
      → RendererSessions G
      → Result (Unit {0}) × RendererSessions G
  update_display id content none s = (failed unknown_window_display, s)
  update_display id content (some display) s =
      let newer : DisplaySession = record display { content = content } in
      update_sender id newer content display.sender
        (record s { displays = insert Text-discrete id newer s.displays })

  -- `update`
  unfoldable pub update_content :
      WindowDisplayId
      → RendererContent
      → RendererSessions G
      → Result (Unit {0}) × RendererSessions G
  update_content id content s = update_display id content (get id s.displays) s

  abbrev pub terminated :
      RendererSessions G → Sent × List (ℕ × Channel) → Result (Unit {0}) × RendererSessions G
  terminated s (full, channels) = (failed channel_full, record s { channels = channels })
  terminated s (sent, channels) = (done tt, record s { channels = channels })
  terminated s (disconnected, channels) = (done tt, record s { channels = channels })

  abbrev pub terminate_sender :
      RendererTermination → Option ℕ → RendererSessions G → Result (Unit {0}) × RendererSessions G
  terminate_sender reason none s = (done tt, s)
  terminate_sender reason (some sender) s =
      terminated s (try_send s.channels sender (terminate reason))

  -- The session is taken out, and its credential is stale.
  abbrev pub drop_session :
      WindowDisplayId → DisplaySession → RendererSessions G → RendererSessions G
  drop_session id display s =
      retire_pending id display stale (record s { displays = remove Text-discrete id s.displays })

  abbrev pub terminate_session :
      WindowDisplayId
      → RendererTermination
      → Option DisplaySession
      → RendererSessions G
      → Result (Unit {0}) × RendererSessions G
  terminate_session id reason none s = (failed unknown_window_display, s)
  terminate_session id reason (some display) s =
      terminate_sender reason display.sender (drop_session id display s)

  -- `terminate`
  unfoldable pub terminate_display :
      WindowDisplayId
      → RendererTermination
      → RendererSessions G
      → Result (Unit {0}) × RendererSessions G
  terminate_display id reason s = terminate_session id reason (get id s.displays) s

  abbrev pub exit_session :
      WindowDisplayId
      → ℕ
      → RendererExit
      → Option DisplaySession
      → RendererSessions G
      → RendererOutcome × RendererSessions G
  exit_session id generation exit none s = (stale_exit, s)
  exit_session id generation exit (some display) s =
      if display.generation == generation
      then (outcome id exit, drop_session id display s)
      else (stale_exit, s)

  unfoldable pub renderer_exited :
      WindowDisplayId → ℕ → RendererExit → RendererSessions G → RendererOutcome × RendererSessions G
  renderer_exited id generation exit s = exit_session id generation exit (get id s.displays) s

  unfoldable pub is_current_generation : WindowDisplayId → ℕ → RendererSessions G → Bool
  is_current_generation id generation s = has_generation generation (get id s.displays)
