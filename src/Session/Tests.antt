-- ===== src/Session/Tests.antt =====
-- The theorems on the sessions at a small run: a display is created, its renderer redeems its token.
use tmnotify.Base.{ℕ, suc, ◌≡◌, ◌≢◌, refl, true, none, some, List, [], ◌∷◌, arith, ℕ_discrete}
use tmnotify.Base.Map.{lookup, insert, remove}
use tmnotify.Notification.Ingress.{Text}
use tmnotify.Notification.Source.{Text-discrete, toast, info, never}
use tmnotify.Protocol.Renderer.{RendererContent, display_options_default, initial}
use tmnotify.Session.State.{
  Result, done, SessionLimits, RendererLaunch, RendererStream, consumed, RendererSessions,
  with_generator, try_send, offer,
}
use tmnotify.Session.Credentials.{
  trim_retired, encode_hex, retire, expire_all, expired_entries, expire_credentials, try_token,
  unique_token,
}
use tmnotify.Session.Operations.{create, create_fresh, redeem, redeem_fresh}
use tmnotify.Session.Invariant.{Inv}
use tmnotify.Session.Redeem.{opened, Redeemed, redeem-Redeemed}
use tmnotify.Session.Launch.{redeem-create}
use tmnotify.Session.Once.{redeem_once}
use tmnotify.Session.Runs.{created, redeemed, still, further, Run-Inv}

-- Each token is one byte, and they count up.
abbrev generate : ℕ → Result (List ℕ) × ℕ
generate n = (done (n ∷ []), suc n)

abbrev limits : SessionLimits
limits = record { max_sessions = 2; channel_capacity = 1; token_ttl = 10 }

abbrev content : RendererContent
content = record {
  notification_id = 7;
  presentation = toast;
  level = info;
  notification_key = none;
  title = 65 ∷ [];
  body = [];
  timeout = never;
  source = none;
  metadata = record { agent_event_kind = none; agent_name = none; tool_name = none };
  display = display_options_default;
}

abbrev display : Text
display = 68 ∷ []

abbrev token : Text
token = 48 ∷ 48 ∷ []

abbrev empty : RendererSessions ℕ
empty = record {
  generator = 0;
  limits = limits;
  displays = [];
  credentials = [];
  retired = [];
  retired_order = [];
  next_generation = 1;
  channels = [];
  next_channel = 0;
}

abbrev waiting : RendererSessions ℕ
waiting = record empty {
  generator = 1;
  displays =
      (
        display,
        record { generation = 1; pending_token = some token; sender = none; content = content },
      )
      ∷ [];
  credentials =
      (token, record { window_display_id = display; generation = 1; expires_at = 13 }) ∷ [];
  next_generation = 2;
}

abbrev streaming : RendererSessions ℕ
streaming = record waiting {
  displays =
      (display, record { generation = 1; pending_token = none; sender = some 0; content = content })
      ∷ [];
  credentials = [];
  retired = (token, (display, consumed)) ∷ [];
  retired_order = token ∷ [];
  channels = (0, record { queue = initial content ∷ []; capacity = 1; connected = true }) ∷ [];
  next_channel = 1;
}

Run-Inv_example : Inv streaming
unfolding create create_fresh redeem redeem_fresh expire_credentials expire_all expired_entries
    unique_token try_token encode_hex retire trim_retired lookup insert remove Text-discrete
    ℕ_discrete try_send offer with_generator
Run-Inv_example = Run-Inv generate limits 0 empty streaming refl (
    further (further (still empty) (created display content 3 empty))
      (redeemed display token 5 waiting))

abbrev launch_of : RendererLaunch
launch_of = record { window_display_id = display; token = token; generation = 1 }

redeem-create_example :
    (stream : RendererStream) × (s'' : RendererSessions ℕ) × (redeem display token 5 waiting
      ≡ (done stream, s''))
    × (stream.generation ≡ 1)
    × (lookup ℕ_discrete stream.receiver s''.channels ≡ some (opened 1 (initial content)))
unfolding create create_fresh expire_credentials expire_all expired_entries unique_token try_token
    encode_hex lookup insert remove Text-discrete with_generator
redeem-create_example =
    redeem-create generate display content 3 5 empty waiting launch_of
      (Run-Inv generate limits 0 empty empty refl (still empty)) refl (ground arith)

redeem-Redeemed_example :
    (stream : RendererStream) × (s' : RendererSessions ℕ) × (redeem display token 5 waiting
      ≡ (done stream, s'))
    × Redeemed display token
        (record { window_display_id = display; generation = 1; expires_at = 13 })
        waiting
        stream
        s'
unfolding create create_fresh expire_credentials expire_all expired_entries unique_token try_token
    encode_hex lookup insert remove Text-discrete with_generator
redeem-Redeemed_example =
    redeem-Redeemed display token 5
      (record { window_display_id = display; generation = 1; expires_at = 13 }) waiting
      (Run-Inv generate limits 0 empty waiting refl
        (further (still empty) (created display content 3 empty)))
      refl refl (ground arith)

redeem_once_example :
    (redeem display token 9 streaming).0 ≢ done (record { generation = 1; receiver = 1 })
unfolding create create_fresh redeem redeem_fresh expire_credentials expire_all expired_entries
    unique_token try_token encode_hex retire trim_retired lookup insert remove Text-discrete
    ℕ_discrete try_send offer with_generator
redeem_once_example =
    redeem_once display display token 5 9 waiting streaming
      (record { generation = 1; receiver = 0 }) (record { generation = 1; receiver = 1 })
      (Run-Inv generate limits 0 empty waiting refl
        (further (still empty) (created display content 3 empty)))
      refl
