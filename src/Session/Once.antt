-- ===== src/Session/Once.antt =====
-- A credential is redeemed once.
use tmnotify.Base.{ℕ, ◌≡◌, refl, sym, ap, ◌∙◌, subst, ◌≢◌, none, if_neg, Option-cases, inl, inr}
use tmnotify.Notification.Source.{Text-discrete}
use tmnotify.Session.State.{
  mismatched_credential, done, failed, WindowDisplayId, Token, RendererStream, RendererSessions,
}
use tmnotify.Session.Credentials.{get, retired_error, expire_credentials}
use tmnotify.Session.Operations.{redeem_display, redeem_fresh, redeem}
use tmnotify.Session.Invariant.{Inv}
use tmnotify.Session.Expire.{expire_credentials-Current}
use tmnotify.Session.Redeem.{redeem_fresh-Redeemed, failed_ne_done}

module _ {G : Type 0} where
  -- A token with no credential is never redeemed.
  unknown_never :
      (id : WindowDisplayId) (token : Token) (now : ℕ) (s : RendererSessions G)
      (stream : RendererStream)
      → Inv s
      → get token s.credentials ≡ none
      → (redeem id token now s).0 ≢ done stream
  unfolding redeem redeem_fresh
  unknown_never id token now s stream h at e =
      let fresh = expire_credentials-Current now s h in
      let gone : get token (expire_credentials now s).credentials ≡ none =
        fresh.credentials token ∙ rw at refl in
      failed_ne_done (retired_error (expire_credentials now s) id token) stream (rw gone at e)

  -- A redemption that returned a stream leaves the invariant, and its token has no credential.
  redeem_done :
      (id : WindowDisplayId) (token : Token) (now : ℕ) (s s' : RendererSessions G)
      (stream : RendererStream)
      → Inv s
      → redeem id token now s ≡ (done stream, s')
      → Inv s' × (get token s'.credentials ≡ none)
  unfolding redeem redeem_fresh
  redeem_done id token now s s' stream h e =
      let s1 : RendererSessions G = expire_credentials now s in
      let inv = (expire_credentials-Current now s h).inv in
      elim (Option-cases (get token s1.credentials)) [
        | inl gone ↦
            absurd
              (failed_ne_done (retired_error s1 id token) stream (ap (λ r. r.0) (rw gone at e)))
        | inr (c, at) ↦ elim (Text-discrete c.window_display_id id) [
          | yes same ↦
              let (stream', s'', run, r) = redeem_fresh-Redeemed id token c s1 inv at same in
              let q : s'' ≡ s' = ap (λ r. r.1) (sym run ∙ e) in
              (subst Inv q r.inv, subst (λ x. get token x.credentials ≡ none) q r.consumed_token)
          | no other ↦ absurd (
              failed_ne_done mismatched_credential stream (
                ap (λ r. r.0)
                  (rw
                    (
                      at,
                      if_neg (Text-discrete c.window_display_id id) other
                          (redeem_display id token c (get id s1.displays) s1)
                          (failed mismatched_credential, s1),
                    )
                    at e)))
        ]
      ]

  -- Once a redemption on sessions that satisfy the invariant has returned a stream, no redemption
  -- of the same token on what it left returns a stream, for whatever display and at whatever
  -- time.
  pub redeem_once :
      (id other : WindowDisplayId) (token : Token) (now later : ℕ) (s s' : RendererSessions G)
      (stream again : RendererStream)
      → Inv s
      → redeem id token now s ≡ (done stream, s')
      → (redeem other token later s').0 ≢ done again
  redeem_once id other token now later s s' stream again h e =
      let (inv, gone) = redeem_done id token now s s' stream h e in
      unknown_never other token later s' again inv gone

  -- A redemption keeps the invariant, whatever it returns.
  pub redeem-Inv :
      (id : WindowDisplayId) (token : Token) (now : ℕ) (s : RendererSessions G)
      → Inv s
      → Inv (redeem id token now s).1
  unfolding redeem redeem_fresh
  redeem-Inv id token now s h =
      let s1 : RendererSessions G = expire_credentials now s in
      let inv = (expire_credentials-Current now s h).inv in
      elim (Option-cases (get token s1.credentials)) [
        | inl gone ↦ rw gone inv
        | inr (c, at) ↦ elim (Text-discrete c.window_display_id id) [
          | yes same ↦
              let (stream, s', run, r) = redeem_fresh-Redeemed id token c s1 inv at same in
              subst (λ x. Inv x.1) {x = (done stream, s')} (sym run) r.inv
          | no other ↦
              rw
                (
                  at,
                  if_neg (Text-discrete c.window_display_id id) other
                      (redeem_display id token c (get id s1.displays) s1)
                      (failed mismatched_credential, s1),
                )
                inv
        ]
      ]
