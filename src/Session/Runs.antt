-- ===== src/Session/Runs.antt =====
-- The runs of the sessions: calls in any order, at any times, with any tokens and ids, and the
-- receivers of the renderers between them.
use tmnotify.Base.{ℕ, ◌≡◌, List}
use tmnotify.Protocol.Renderer.{RendererContent, RendererTermination}
use tmnotify.Session.State.{
  SessionLimits, Result, done, failed, WindowDisplayId, Token, RendererLaunch, RendererExit,
  Channel, RendererSessions, with_generator,
}
use tmnotify.Session.Operations.{create, redeem}
use tmnotify.Session.Streams.{update_content, terminate_display, renderer_exited}
use tmnotify.Session.Invariant.{Inv}
use tmnotify.Session.Create.{Created, create-Created}
use tmnotify.Session.Once.{redeem-Inv}
use tmnotify.Session.Keeps.{
  with_generator-Inv, channels-Inv, update_content-Inv, terminate_display-Inv, renderer_exited-Inv,
}

module _ {G : Type 0} (generate : G → Result (List ℕ) × G) where
  pub data Step : RendererSessions G → RendererSessions G → Type 0 where
    created :
        (id : WindowDisplayId) (content : RendererContent) (now : ℕ) (s : RendererSessions G)
        → Step s (create generate id content now s).1
    redeemed :
        (id : WindowDisplayId) (token : Token) (now : ℕ) (s : RendererSessions G)
        → Step s (redeem id token now s).1
    changed :
        (id : WindowDisplayId) (content : RendererContent) (s : RendererSessions G)
        → Step s (update_content id content s).1
    ended :
        (id : WindowDisplayId) (reason : RendererTermination) (s : RendererSessions G)
        → Step s (terminate_display id reason s).1
    exited :
        (id : WindowDisplayId) (generation : ℕ) (exit : RendererExit) (s : RendererSessions G)
        → Step s (renderer_exited id generation exit s).1
    -- A renderer receives a message, or its end of a channel closes.
    received :
        (channels : List (ℕ × Channel)) (s : RendererSessions G)
        → Step s (record s { channels = channels })

  pub data Run : RendererSessions G → RendererSessions G → Type 0 where
    still : (s : RendererSessions G) → Run s s
    further : {s t u : RendererSessions G} → Run s t → Step t u → Run s u

  Created-Inv :
      (id : WindowDisplayId) (content : RendererContent) (now ttl : ℕ)
      (r : Result RendererLaunch × RendererSessions G)
      → Created id content now ttl r
      → Inv r.1
  Created-Inv id content now ttl (failed e, s) h = h
  Created-Inv id content now ttl (done l, s) h = h.0

  Step-Inv : {s t : RendererSessions G} → Step s t → Inv s → Inv t
  Step-Inv (created id content now s) h =
      Created-Inv id content now s.limits.token_ttl (create generate id content now s)
        (create-Created generate id content now s h)
  Step-Inv (redeemed id token now s) h = redeem-Inv id token now s h
  Step-Inv (changed id content s) h = update_content-Inv id content s h
  Step-Inv (ended id reason s) h = terminate_display-Inv id reason s h
  Step-Inv (exited id generation exit s) h = renderer_exited-Inv id generation exit s h
  Step-Inv (received channels s) h = channels-Inv s channels h

  -- Along every run from new sessions, of calls in any order with any ids, tokens and times and
  -- of receptions between them, each credential belongs to the one display that waits for it and
  -- each waiting display has its credential; no credential is retired, no token has two
  -- credentials, each retired token stands in the order of the retired ones, and the displays,
  -- the retired tokens and that order are within their bounds.
  pub Run-Inv :
      (limits : SessionLimits) (generator : G) (s t : RendererSessions G)
      → with_generator limits generator ≡ done s
      → Run s t
      → Inv t
  Run-Inv limits generator s t e (still _) = with_generator-Inv limits generator s e
  Run-Inv limits generator s t e (further run step) =
      Step-Inv step (Run-Inv limits generator s _ e run)
