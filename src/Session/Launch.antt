-- ===== src/Session/Launch.antt =====
-- A renderer that was launched redeems its credential.
use tmnotify.Base.{ℕ, ◌+◌, ◌<◌, ◌≡◌, refl, sym, ap, ◌∙◌, subst, Option, some, List, ℕ_discrete}
use tmnotify.Base.Map.{lookup}
use tmnotify.Protocol.Renderer.{RendererContent}
use tmnotify.Session.State.{
  Result, done, WindowDisplayId, PendingCredential, DisplaySession, RendererLaunch,
  RendererSessions,
}
use tmnotify.Session.Credentials.{get}
use tmnotify.Session.Operations.{create}
use tmnotify.Session.Invariant.{Inv}
use tmnotify.Session.Redeem.{opened, redeem-Redeemed}
use tmnotify.Session.Operations.{redeem}
use tmnotify.Session.State.{RendererStream}
use tmnotify.Protocol.Renderer.{initial}
use tmnotify.Session.Create.{Created, create-Created}

none_else : (o : Option DisplaySession) (d e : DisplaySession) → o ≡ some d → o ≡ some e → d ≡ e
none_else o d e p q = cc (sym p ∙ q)

module _ {G : Type 0} where
  -- After a `create` that returned a launch, on sessions that satisfy the invariant, the launched
  -- renderer that redeems its token before the time to live is over gets a stream of its
  -- generation, whose first message is the initial one with the content of the display.
  pub redeem-create :
      (generate : G → Result (List ℕ) × G) (id : WindowDisplayId) (content : RendererContent)
      (now later : ℕ) (s s' : RendererSessions G) (l : RendererLaunch)
      → Inv s
      → create generate id content now s ≡ (done l, s')
      → later < now + s.limits.token_ttl
      → (stream : RendererStream) × (s'' : RendererSessions G) × (redeem id l.token later s'
          ≡ (done stream, s''))
        × (stream.generation ≡ l.generation)
        × (lookup ℕ_discrete stream.receiver s''.channels
            ≡ some (opened s'.limits.channel_capacity (initial content)))
  redeem-create generate id content now later s s' l h e young =
      let (inv, own, credential, shown) : Created id content now s.limits.token_ttl (done l, s') =
        subst (Created id content now s.limits.token_ttl) e
          (create-Created generate id content now s h) in
      let c : PendingCredential = record {
        window_display_id = id;
        generation = l.generation;
        expires_at = now + s.limits.token_ttl;
      } in
      let (stream, s'', run, r) = redeem-Redeemed id l.token later c s' inv credential refl young in
      (
        stream,
        s'',
        run,
        r.generation,
        r.first
            ∙ ap
                (λ d. some (opened s'.limits.channel_capacity (initial (DisplaySession.content d))))
                (none_else (get id s'.displays) r.display _ r.shown shown),
      )
