-- ===== src/Session/Create.antt =====
-- A session is created, with a credential of its own.
use tmnotify.Base.{
  ℕ, suc, ◌+◌, ◌≤◌, ◌<◌, ◌≡◌, refl, sym, ◌∙◌, subst, false, ◌&&◌, Option, none, some, List, leb,
  length, is_none, if_pos, arith, Bool-cases, Option-cases, inl, inr,
}
use tmnotify.Base.Map.{insert, lookup-remove, lookup-insert}
use tmnotify.Base.Keys.{occurs-insert, present-lookup, length-remove}
use tmnotify.Notification.Ingress.{Text}
use tmnotify.Notification.Source.{Text-discrete}
use tmnotify.Protocol.Renderer.{RendererContent, RendererMessage, recreated, terminate}
use tmnotify.Session.State.{
  SessionLimits, Result, done, failed, WindowDisplayId, Token, PendingCredential, stale,
  DisplaySession, RendererLaunch, RendererSessions, try_send,
}
use tmnotify.Session.Credentials.{
  get, retire, retire_token, retire_pending, unique_token, expire_credentials,
  token_generation_attempts,
}
use tmnotify.Session.Operations.{notify, replace_previous, launch, create_fresh, create}
use tmnotify.Session.Matched.{add-Matched}
use tmnotify.Session.Invariant.{
  Inv, credential_view, display_view, without_display, drop_session-Inv,
}
use tmnotify.Session.Expire.{expire_credentials-Current}
use tmnotify.Session.Keeps.{channels-Inv}
use tmnotify.Session.Issued.{Issued, try_token-Issued}

length-insert_le :
    {V : Type 0} (k : Text) (v : V) (m : List (Text × V))
    → length (insert Text-discrete k v m) ≤ suc (length m)
unfolding insert
length-insert_le k v m = omega (arith, length-remove Text-discrete k m)

module _ {G : Type 0} where
  -- There is room for the display, which is not there.
  pub record IsReady (id : WindowDisplayId) (s : RendererSessions G) : Type 0 where
    pub inv : Inv s
    pub absent : get id s.displays ≡ none
    pub fits : length s.displays < s.limits.max_sessions

  notify-IsReady :
      (id : WindowDisplayId) (sender : Option ℕ) (message : RendererMessage)
      (s : RendererSessions G)
      → IsReady id s
      → IsReady id (notify sender message s)
  notify-IsReady id none message s h = h
  notify-IsReady id (some n) message s h = record {
    inv = channels-Inv s (try_send s.channels n message).1 h.inv;
    absent = h.absent;
    fits = h.fits;
  }

  retire_pending-fields :
      (id : WindowDisplayId) (d : DisplaySession) (s : RendererSessions G)
      → ((retire_pending id d stale s).displays ≡ s.displays)
        × ((retire_pending id d stale s).limits ≡ s.limits)
  unfolding retire_pending retire
  retire_pending-fields id d s = go d.pending_token
    where
      go :
          (o : Option Token)
          → ((retire_token id o stale s).displays ≡ s.displays)
            × ((retire_token id o stale s).limits ≡ s.limits)
      go none = (refl, refl)
      go (some t) = (refl, refl)

  replace_previous-IsReady :
      (id : WindowDisplayId) (s : RendererSessions G)
      → Inv s
      → is_none (get id s.displays) && leb s.limits.max_sessions (length s.displays) ≡ false
      → IsReady id (replace_previous id (get id s.displays) s)
  replace_previous-IsReady id s h room = elim (Option-cases (get id s.displays)) [
    | inl at ↦ rw at (record { inv = h; absent = at; fits = ground (arith, at, room) })
    | inr (d, at) ↦
        let out : RendererSessions G = without_display id s in
        let (displays, limits) = retire_pending-fields id d out in
        rw at (
          notify-IsReady id d.sender (terminate recreated) (retire_pending id d stale out) (record {
            inv = drop_session-Inv id d s h at;
            absent = rw displays (
                lookup-remove Text-discrete id id s.displays
                ∙ if_pos (Text-discrete id id) refl none (get id s.displays));
            fits =
                rw (displays, limits)
                  (ground (
                    arith,
                    at,
                    h.room,
                    present-lookup Text-discrete id s.displays,
                    length-remove Text-discrete id s.displays,
                  ));
          }))
  ]

  -- What `create` returns: where it launches a renderer, the credential and the display are there.
  abbrev pub Created :
      WindowDisplayId
      → RendererContent
      → ℕ
      → ℕ
      → Result RendererLaunch × RendererSessions G
      → Type 0
  Created id content now ttl (failed e, s') = Inv s'
  Created id content now ttl (done l, s') =
      Inv s'
      × (l.window_display_id ≡ id)
      × (get l.token s'.credentials
          ≡ some (record {
            window_display_id = id;
            generation = l.generation;
            expires_at = now + ttl;
          }))
      × (get id s'.displays
          ≡ some (record {
            generation = l.generation;
            pending_token = some l.token;
            sender = none;
            content = content;
          }))

  drawn-Inv : (s : RendererSessions G) (g : G) → Inv s → Inv (record s { generator = g })
  drawn-Inv s g h = record {
    matched = h.matched;
    apart = h.apart;
    once = h.once;
    room = h.room;
    kept = h.kept;
    listed = h.listed;
    stored = h.stored;
    capacity = h.capacity;
  }

  drawn-IsReady :
      (id : WindowDisplayId) (s : RendererSessions G) (g : G)
      → IsReady id s
      → IsReady id (record s { generator = g })
  drawn-IsReady id s g h = record { inv = drawn-Inv s g h.inv; absent = h.absent; fits = h.fits }

  launched :
      (id : WindowDisplayId) (content : RendererContent) (now : ℕ) (token : Token)
      (s : RendererSessions G)
      → IsReady id s
      → get token s.credentials ≡ none
      → get token s.retired ≡ none
      → Created id content now s.limits.token_ttl (launch id content now (done token, s))
  launched id content now token s h free unused =
      let c : PendingCredential = record {
        window_display_id = id;
        generation = s.next_generation;
        expires_at = now + s.limits.token_ttl;
      } in
      let d : DisplaySession = record {
        generation = s.next_generation;
        pending_token = some token;
        sender = none;
        content = content;
      } in
      let s' : RendererSessions G = (launch id content now (done token, s)).1 in
      (
        record {
          matched =
              add-Matched (credential_view s) (credential_view s') (display_view s)
                (display_view s') token id s.next_generation h.inv.matched (rw free) (rw h.absent)
                (λ x. ground (arith, lookup-insert Text-discrete x token c s.credentials))
                (λ y. ground (arith, lookup-insert Text-discrete y id d s.displays));
          apart = λ t. ground (
            arith,
            h.inv.apart t,
            free,
            unused,
            lookup-insert Text-discrete t token c s.credentials,
          );
          once = λ t.
              ground (arith, h.inv.once t, occurs-insert Text-discrete t token c s.credentials);
          room = omega (arith, h.fits, length-insert_le id d s.displays);
          kept = h.inv.kept;
          listed = h.inv.listed;
          stored = h.inv.stored;
          capacity = h.inv.capacity;
        },
        refl,
        lookup-insert Text-discrete token token c s.credentials
            ∙ if_pos (Text-discrete token token) refl (some c) (get token s.credentials),
        lookup-insert Text-discrete id id d s.displays
            ∙ if_pos (Text-discrete id id) refl (some d) (get id s.displays),
      )

  launch-Created :
      (id : WindowDisplayId) (content : RendererContent) (now : ℕ) (s : RendererSessions G)
      (r : Result Token × RendererSessions G)
      → IsReady id s
      → Issued s r
      → Created id content now s.limits.token_ttl (launch id content now r)
  launch-Created id content now s (failed e, s') h (g, same) =
      subst Inv (sym same) (drawn-Inv s g h.inv)
  launch-Created id content now s (done t, s') h ((g, same), free, unused) =
      subst (λ x. Created id content now s.limits.token_ttl (launch id content now (done t, x)))
        (sym same)
        (launched id content now t (record s { generator = g }) (drawn-IsReady id s g h) free
          unused)

  limits-notify :
      (sender : Option ℕ) (message : RendererMessage) (s : RendererSessions G)
      → (notify sender message s).limits ≡ s.limits
  limits-notify none message s = refl
  limits-notify (some n) message s = refl

  limits-replace_previous :
      (id : WindowDisplayId) (o : Option DisplaySession) (s : RendererSessions G)
      → (replace_previous id o s).limits ≡ s.limits
  limits-replace_previous id none s = refl
  limits-replace_previous id (some d) s =
      let out : RendererSessions G = without_display id s in
      limits-notify d.sender (terminate recreated) (retire_pending id d stale out)
      ∙ (retire_pending-fields id d out).1

  create_fresh-Created :
      (generate : G → Result (List ℕ) × G) (id : WindowDisplayId) (content : RendererContent)
      (now : ℕ) (s : RendererSessions G)
      → Inv s
      → Created id content now s.limits.token_ttl (create_fresh generate id content now s)
  unfolding create_fresh unique_token
  create_fresh-Created generate id content now s h =
      elim (Bool-cases
        (is_none (get id s.displays) && leb s.limits.max_sessions (length s.displays))) [
          | inl no_room ↦ rw no_room h
          | inr room ↦
              let s1 : RendererSessions G = replace_previous id (get id s.displays) s in
              rw room (
                subst
                  (λ l.
                    Created id content now (SessionLimits.token_ttl l)
                      (launch id content now (unique_token generate s1)))
                  (limits-replace_previous id (get id s.displays) s)
                  (launch-Created id content now s1 (unique_token generate s1)
                    (replace_previous-IsReady id s h room)
                    (try_token-Issued generate token_generation_attempts s1)))
        ]

  -- `create`
  pub create-Created :
      (generate : G → Result (List ℕ) × G) (id : WindowDisplayId) (content : RendererContent)
      (now : ℕ) (s : RendererSessions G)
      → Inv s
      → Created id content now s.limits.token_ttl (create generate id content now s)
  unfolding create
  create-Created generate id content now s h =
      let fresh = expire_credentials-Current now s h in
      subst
        (λ l.
          Created id content now (SessionLimits.token_ttl l)
            (create_fresh generate id content now (expire_credentials now s)))
        fresh.limits
        (create_fresh-Created generate id content now (expire_credentials now s) fresh.inv)
