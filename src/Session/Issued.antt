-- ===== src/Session/Issued.antt =====
-- The tokens that are issued.
use tmnotify.Base.{ℕ, zero, suc, ◌≡◌, refl, ◌||◌, none, List, is_some, arith, Bool-cases, inl, inr}
use tmnotify.Session.State.{Result, done, failed, Token, RendererSessions}
use tmnotify.Session.Credentials.{get, encode_hex, try_bytes, try_token}

module _ {G : Type 0} where
  -- Only the generator differs.
  abbrev pub Drawn : RendererSessions G → RendererSessions G → Type 0
  Drawn s s' = (g : G) × (s' ≡ record s { generator = g })

  -- A token that is issued is neither a credential nor retired.
  abbrev pub Issued : RendererSessions G → Result Token × RendererSessions G → Type 0
  Issued s (failed e, s') = Drawn s s'
  Issued s (done t, s') = Drawn s s' × (get t s.credentials ≡ none) × (get t s.retired ≡ none)

  try_bytes-Issued :
      (bytes : Result (List ℕ)) (again : Result Token × RendererSessions G) (g : G)
      (s : RendererSessions G)
      → Issued s again
      → Issued s (try_bytes bytes again (record s { generator = g }))
  try_bytes-Issued (failed e) again g s h = (g, refl)
  try_bytes-Issued (done bytes) again g s h =
      elim (Bool-cases (
        is_some (get (encode_hex bytes) s.credentials)
        || is_some (get (encode_hex bytes) s.retired))) [
          | inl taken ↦ rw taken h
          | inr free ↦ rw free ((g, refl), ground (arith, free), ground (arith, free))
        ]

  Issued-drawn :
      (s : RendererSessions G) (g : G) (r : Result Token × RendererSessions G)
      → Issued (record s { generator = g }) r
      → Issued s r
  Issued-drawn s g (failed e, s') h = h
  Issued-drawn s g (done t, s') h = h

  pub try_token-Issued :
      (generate : G → Result (List ℕ) × G) (attempts : ℕ) (s : RendererSessions G)
      → Issued s (try_token generate attempts s)
  unfolding try_token
  try_token-Issued generate zero s = (s.generator, refl)
  try_token-Issued generate (suc attempts) s =
      let s' : RendererSessions G = record s { generator = (generate s.generator).1 } in
      try_bytes-Issued (generate s.generator).0 (try_token generate attempts s')
        (generate s.generator).1 s
        (Issued-drawn s (generate s.generator).1 (try_token generate attempts s')
          (try_token-Issued generate attempts s'))
