-- ===== src/Session/Redeem.antt =====
-- The redemption of a credential.
use tmnotify.Base.{
  ℕ, suc, ◌≤◌, ◌<◌, ◌≡◌, refl, sym, ap, ◌∙◌, subst, ◌≢◌, true, false, ◌||◌, not, none, some, List,
  [], ◌∷◌, ◌==◌, length, present, if_pos, arith, inl, inr, ℕ_discrete,
}
use tmnotify.Base.Map.{lookup, insert, remove, lookup-remove, lookup-insert}
use tmnotify.Base.Keys.{occurs-remove, present-lookup, length-remove}
use tmnotify.Notification.Ingress.{Text}
use tmnotify.Notification.Source.{Text-discrete}
use tmnotify.Protocol.Renderer.{RendererContent, RendererMessage, initial}
use tmnotify.Session.State.{
  SessionError, SessionLimits, mismatched_credential, done, failed, WindowDisplayId, Token,
  PendingCredential, consumed, DisplaySession, RendererStream, Channel, RendererSessions, sent,
  offer, try_send,
}
use tmnotify.Session.Credentials.{get, retire, expire_credentials}
use tmnotify.Session.Operations.{redeem_display, redeem_fresh, redeem, holds_token}
use tmnotify.Session.Matched.{drop-Matched}
use tmnotify.Session.Invariant.{
  Inv, credential_view, display_view, retire-Inv, display_of, same_generation,
}
use tmnotify.Session.Expire.{expire_credentials-Current}

-- A map with a key that is there is not longer for another value of it.
pub length-insert_known :
    {V : Type 0} (k : Text) (v : V) (m : List (Text × V))
    → present (get k m) ≡ 1
    → length (insert Text-discrete k v m) ≤ length m
unfolding insert
length-insert_known k v m e =
    ground (arith, e, present-lookup Text-discrete k m, length-remove Text-discrete k m)

-- The test of the generation and the token passes.
fits_display :
    (d : DisplaySession) (token : Token) (generation : ℕ)
    → d.generation ≡ generation
    → d.pending_token ≡ some token
    → not (d.generation == generation) || not (holds_token d.pending_token token) ≡ false
fits_display d token generation g p =
    let same = if_pos (Text-discrete token token) refl true false in
    rw (g, p, same_generation generation, same)

pub none_ne_some : {A : Type 0} (a : A) → none ≢ some a
none_ne_some a e = ground arith

pub failed_ne_done : {A : Type 0} (e : SessionError) (a : A) → failed e ≢ done a
failed_ne_done e a q = ground arith

-- A channel that was just made, with its first message
abbrev pub opened : ℕ → RendererMessage → Channel
opened capacity message = record { queue = message ∷ []; capacity = capacity; connected = true }

try_send-new :
    (channels : List (ℕ × Channel)) (n capacity : ℕ) (message : RendererMessage)
    → 0 < capacity
    → let new : Channel = record { queue = []; capacity = capacity; connected = true } in
      try_send (insert ℕ_discrete n new channels) n message
      ≡ (sent, insert ℕ_discrete n (opened capacity message) (insert ℕ_discrete n new channels))
unfolding try_send offer
try_send-new channels n capacity message h =
    let new : Channel = record { queue = []; capacity = capacity; connected = true } in
    ground (arith, h, lookup-insert ℕ_discrete n n new channels)

module _ {G : Type 0} where
  -- The display has its sender, and waits no more.
  abbrev pub connected :
      WindowDisplayId
      → Token
      → DisplaySession
      → List (ℕ × Channel)
      → RendererSessions G
      → RendererSessions G
  connected id token display channels s = record s {
    displays =
        insert Text-discrete id
          (record display { pending_token = none; sender = some s.next_channel }) s.displays;
    credentials = remove Text-discrete token s.credentials;
    channels = channels;
    next_channel = suc s.next_channel;
  }

  connected-Inv :
      (id : WindowDisplayId) (token : Token) (display : DisplaySession) (g : ℕ)
      (channels : List (ℕ × Channel)) (s : RendererSessions G)
      → Inv s
      → get id s.displays ≡ some display
      → display_view s id ≡ some (token, g)
      → Inv (connected id token display channels s)
  connected-Inv id token display g channels s h at e =
      let s' : RendererSessions G = connected id token display channels s in
      record {
        matched =
            drop-Matched (credential_view s) (credential_view s') (display_view s) (display_view s')
              token id g h.matched e
              (λ x. ground (arith, lookup-remove Text-discrete x token s.credentials))
              (λ y. ground (
                arith,
                lookup-insert Text-discrete y id
                    (record display { pending_token = none; sender = some s.next_channel })
                    s.displays,
              ));
        apart = λ t. ground (arith, h.apart t, lookup-remove Text-discrete t token s.credentials);
        once = λ t. ground (arith, h.once t, occurs-remove Text-discrete t token s.credentials);
        room = omega (
          arith,
          h.room,
          length-insert_known id
              (record display { pending_token = none; sender = some s.next_channel }) s.displays
              (rw at),
        );
        kept = h.kept;
        listed = h.listed;
        stored = h.stored;
        capacity = h.capacity;
      }

  -- The channels after a redemption: the first message is the content of the display.
  abbrev pub opened_channels : RendererContent → RendererSessions G → List (ℕ × Channel)
  opened_channels content s =
      let new : Channel = record {
        queue = [];
        capacity = s.limits.channel_capacity;
        connected = true;
      } in
      insert ℕ_discrete s.next_channel (opened s.limits.channel_capacity (initial content))
        (insert ℕ_discrete s.next_channel new s.channels)

  redeem_fresh-done :
      (id : WindowDisplayId) (token : Token) (c : PendingCredential) (s : RendererSessions G)
      → Inv s
      → get token s.credentials ≡ some c
      → c.window_display_id ≡ id
      → (d : DisplaySession) × (get id s.displays ≡ some d)
        × (display_view s id ≡ some (token, c.generation))
        × (redeem_fresh id token s ≡ (
          done (record { generation = c.generation; receiver = s.next_channel }),
          retire token id consumed (connected id token d (opened_channels d.content s) s),
        ))
  unfolding redeem_fresh
  redeem_fresh-done id token c s h at same =
      let (d, found, generation, pending) = display_of token c s h at in
      let found' : get id s.displays ≡ some d = subst (λ i. get i s.displays ≡ some d) same found in
      (
        d,
        found',
        rw (found', generation, pending),
        rw (
          at,
          if_pos (Text-discrete c.window_display_id id) same
              (redeem_display id token c (get id s.displays) s) (failed mismatched_credential, s),
          found',
          fits_display d token c.generation generation pending,
          try_send-new s.channels s.next_channel s.limits.channel_capacity (initial d.content)
              h.capacity,
        ),
      )

  -- What a redemption leaves.
  pub record Redeemed (id : WindowDisplayId) (token : Token) (c : PendingCredential)
      (s : RendererSessions G) (stream : RendererStream) (s' : RendererSessions G) : Type 0 where
    pub inv : Inv s'
    pub display : DisplaySession
    pub shown : get id s.displays ≡ some display
    pub generation : stream.generation ≡ c.generation
    pub first :
        lookup ℕ_discrete stream.receiver s'.channels
        ≡ some (opened s.limits.channel_capacity (initial display.content))
    pub consumed_token : get token s'.credentials ≡ none
    pub session :
        get id s'.displays
        ≡ some (record display { pending_token = none; sender = some stream.receiver })

  pub redeem_fresh-Redeemed :
      (id : WindowDisplayId) (token : Token) (c : PendingCredential) (s : RendererSessions G)
      → Inv s
      → get token s.credentials ≡ some c
      → c.window_display_id ≡ id
      → (stream : RendererStream) × (s' : RendererSessions G) × (redeem_fresh id token s
          ≡ (done stream, s'))
        × Redeemed id token c s stream s'
  unfolding retire
  redeem_fresh-Redeemed id token c s h at same =
      let (d, found, waiting, run) = redeem_fresh-done id token c s h at same in
      let channels : List (ℕ × Channel) = opened_channels d.content s in
      let between : RendererSessions G = connected id token d channels s in
      let gone : get token between.credentials ≡ none =
        ground (arith, lookup-remove Text-discrete token token s.credentials) in
      (
        record { generation = c.generation; receiver = s.next_channel },
        retire token id consumed between,
        run,
        record {
          inv =
              retire-Inv token id consumed between
                (connected-Inv id token d c.generation channels s h found waiting) gone;
          display = d;
          shown = found;
          generation = refl;
          first =
              lookup-insert ℕ_discrete s.next_channel s.next_channel
                (opened s.limits.channel_capacity (initial d.content))
                (insert ℕ_discrete s.next_channel
                  (record { queue = []; capacity = s.limits.channel_capacity; connected = true })
                  s.channels)
              ∙ if_pos (ℕ_discrete s.next_channel s.next_channel) refl _ _;
          consumed_token = gone;
          session =
              lookup-insert Text-discrete id id
                (record d { pending_token = none; sender = some s.next_channel }) s.displays
              ∙ if_pos (Text-discrete id id) refl _ _;
        },
      )

  -- On sessions that satisfy the invariant, a credential of the display whose time is not over is
  -- redeemed: the stream is of its generation, the first message is the initial one with the
  -- content of the display as it is now, the display holds the sender and waits for no token, the
  -- credential is gone, and the invariant holds.
  pub redeem-Redeemed :
      (id : WindowDisplayId) (token : Token) (now : ℕ) (c : PendingCredential)
      (s : RendererSessions G)
      → Inv s
      → get token s.credentials ≡ some c
      → c.window_display_id ≡ id
      → now < c.expires_at
      → (stream : RendererStream) × (s' : RendererSessions G) × (redeem id token now s
          ≡ (done stream, s'))
        × Redeemed id token c s stream s'
  unfolding redeem
  redeem-Redeemed id token now c s h at same young =
      let fresh = expire_credentials-Current now s h in
      let at' = fresh.credentials token ∙ rw at (ground (arith, young)) in
      let (stream, s', run, r) =
        redeem_fresh-Redeemed id token c (expire_credentials now s) fresh.inv at' same in
      (
        stream,
        s',
        run,
        record {
          inv = r.inv;
          display = r.display;
          shown = elim (fresh.displays id) [
            | inl gone ↦ absurd (none_ne_some r.display (sym gone ∙ r.shown))
            | inr stays ↦ sym stays ∙ r.shown
          ];
          generation = r.generation;
          first =
              r.first
              ∙ ap
                  (λ l.
                    some (opened (SessionLimits.channel_capacity l) (initial r.display.content)))
                  fresh.limits;
          consumed_token = r.consumed_token;
          session = r.session;
        },
      )
