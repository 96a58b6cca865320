-- ===== src/Session/Keeps.antt =====
-- Every call keeps the invariant of the sessions.
use tmnotify.Base.{
  ℕ, ◌<◌, ◌≡◌, refl, sym, ap, ◌∙◌, subst, ◌||◌, Option, none, some, List, [], ◌==◌, ite, if_pos,
  arith, Bool-cases, Option-cases, inl, inr,
}
use tmnotify.Base.Map.{lookup, insert, lookup-insert}
use tmnotify.Base.Keys.{keys, occurs}
use tmnotify.Notification.Source.{Text-discrete}
use tmnotify.Protocol.Renderer.{RendererContent, RendererTermination, terminate, update}
use tmnotify.Session.State.{
  invalid_limits, SessionLimits, done, WindowDisplayId, DisplaySession, RendererExit, Channel,
  RendererSessions, Sent, sent, full, disconnected, try_send, with_generator,
}
use tmnotify.Session.Credentials.{get}
use tmnotify.Session.Streams.{
  updated, update_sender, update_content, terminated, terminate_sender, drop_session,
  terminate_display, renderer_exited,
}
use tmnotify.Session.Matched.{none_ne_link, ext-Matched}
use tmnotify.Session.Invariant.{Inv, waits, credential_view, display_view, drop_session-Inv}
use tmnotify.Session.Expire.{current}
use tmnotify.Session.Redeem.{failed_ne_done, length-insert_known}

module _ {G : Type 0} where
  -- No sessions
  abbrev none_yet : SessionLimits → G → RendererSessions G
  none_yet limits generator = record {
    generator = generator;
    limits = limits;
    displays = [];
    credentials = [];
    retired = [];
    retired_order = [];
    next_generation = 1;
    channels = [];
    next_channel = 0;
  }

  none_yet-Inv :
      (limits : SessionLimits) (generator : G)
      → 0 < limits.channel_capacity
      → Inv (none_yet limits generator)
  unfolding lookup keys occurs
  none_yet-Inv limits generator h = record {
    matched =
        ((λ t i g e. absurd (none_ne_link (i, g) e)), λ t i g e. absurd (none_ne_link (t, g) e));
    apart = λ t. omega arith;
    once = λ t. omega arith;
    room = omega arith;
    kept = omega arith;
    listed = λ t. omega arith;
    stored = omega arith;
    capacity = h;
  }

  -- New sessions, of positive limits
  pub with_generator-Inv :
      (limits : SessionLimits) (generator : G) (s : RendererSessions G)
      → with_generator limits generator ≡ done s
      → Inv s
  unfolding with_generator
  with_generator-Inv limits generator s e =
      elim (Bool-cases
        (limits.max_sessions == 0 || (limits.channel_capacity == 0 || limits.token_ttl == 0))) [
          | inl bad ↦ absurd (failed_ne_done invalid_limits s (rw bad at e))
          | inr good ↦
              let q : none_yet limits generator ≡ s = cc (rw good at e) in
              subst Inv q (none_yet-Inv limits generator (ground (arith, good)))
        ]

  pub channels-Inv :
      (s : RendererSessions G) (channels : List (ℕ × Channel))
      → Inv s
      → Inv (record s { channels = channels })
  channels-Inv s channels h = record {
    matched = h.matched;
    apart = h.apart;
    once = h.once;
    room = h.room;
    kept = h.kept;
    listed = h.listed;
    stored = h.stored;
    capacity = h.capacity;
  }

  -- A session is changed in what no credential is about.
  renewed-Inv :
      (id : WindowDisplayId) (d d' : DisplaySession) (s : RendererSessions G)
      → Inv s
      → get id s.displays ≡ some d
      → waits (some d') ≡ waits (some d)
      → Inv (record s { displays = insert Text-discrete id d' s.displays })
  renewed-Inv id d d' s h at e =
      let s' : RendererSessions G = record s { displays = insert Text-discrete id d' s.displays } in
      record {
        matched =
            ext-Matched (credential_view s) (credential_view s') (display_view s) (display_view s')
              h.matched (λ x. refl)
              (λ y.
                rw (lookup-insert Text-discrete y id d' s.displays)
                  (elim (Text-discrete id y)
                    as (λ q.
                      waits (ite q (some d') (get y s.displays)) ≡ waits (get y s.displays)) [
                        | yes p ↦ e ∙ sym (rw at refl) ∙ ap (display_view s) p
                        | no p ↦ refl
                      ]));
        apart = h.apart;
        once = h.once;
        room = omega (arith, h.room, length-insert_known id d' s.displays (rw at));
        kept = h.kept;
        listed = h.listed;
        stored = h.stored;
        capacity = h.capacity;
      }

  updated-Inv :
      (id : WindowDisplayId) (d : DisplaySession) (s : RendererSessions G)
      (r : Sent × List (ℕ × Channel))
      → Inv s
      → get id s.displays ≡ some d
      → Inv (updated id d s r).1
  updated-Inv id d s (sent, channels) h at = channels-Inv s channels h
  updated-Inv id d s (full, channels) h at = channels-Inv s channels h
  updated-Inv id d s (disconnected, channels) h at =
      renewed-Inv id d (record d { sender = none }) (record s { channels = channels })
        (channels-Inv s channels h) at refl

  update_sender-Inv :
      (id : WindowDisplayId) (d : DisplaySession) (content : RendererContent) (sender : Option ℕ)
      (s : RendererSessions G)
      → Inv s
      → get id s.displays ≡ some d
      → Inv (update_sender id d content sender s).1
  update_sender-Inv id d content none s h at = h
  update_sender-Inv id d content (some n) s h at =
      updated-Inv id d s (try_send s.channels n (update content)) h at

  pub update_content-Inv :
      (id : WindowDisplayId) (content : RendererContent) (s : RendererSessions G)
      → Inv s
      → Inv (update_content id content s).1
  unfolding update_content
  update_content-Inv id content s h = elim (Option-cases (get id s.displays)) [
    | inl at ↦ rw at h
    | inr (d, at) ↦
        let newer : DisplaySession = record d { content = content } in
        let s' : RendererSessions G = record s {
          displays = insert Text-discrete id newer s.displays;
        } in
        rw at (
          update_sender-Inv id newer content d.sender s' (renewed-Inv id d newer s h at refl) (
            lookup-insert Text-discrete id id newer s.displays
            ∙ if_pos (Text-discrete id id) refl (some newer) (get id s.displays)))
  ]

  terminate_sender-Inv :
      (reason : RendererTermination) (sender : Option ℕ) (s : RendererSessions G)
      → Inv s
      → Inv (terminate_sender reason sender s).1
  terminate_sender-Inv reason none s h = h
  terminate_sender-Inv reason (some n) s h = go (try_send s.channels n (terminate reason))
    where
      go : (r : Sent × List (ℕ × Channel)) → Inv (terminated s r).1
      go (sent, channels) = channels-Inv s channels h
      go (full, channels) = channels-Inv s channels h
      go (disconnected, channels) = channels-Inv s channels h

  pub terminate_display-Inv :
      (id : WindowDisplayId) (reason : RendererTermination) (s : RendererSessions G)
      → Inv s
      → Inv (terminate_display id reason s).1
  unfolding terminate_display
  terminate_display-Inv id reason s h = elim (Option-cases (get id s.displays)) [
    | inl at ↦ rw at h
    | inr (d, at) ↦
        rw at (
          terminate_sender-Inv reason d.sender (drop_session id d s) (drop_session-Inv id d s h at))
  ]

  pub renderer_exited-Inv :
      (id : WindowDisplayId) (generation : ℕ) (exit : RendererExit) (s : RendererSessions G)
      → Inv s
      → Inv (renderer_exited id generation exit s).1
  unfolding renderer_exited
  renderer_exited-Inv id generation exit s h = elim (Option-cases (get id s.displays)) [
    | inl at ↦ rw at h
    | inr (d, at) ↦ elim (Bool-cases (d.generation == generation)) [
      | inl current ↦ rw (at, current) (drop_session-Inv id d s h at)
      | inr old ↦ rw (at, old) h
    ]
  ]
