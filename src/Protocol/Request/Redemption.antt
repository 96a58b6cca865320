-- ===== src/Protocol/Request/Redemption.antt =====
-- src/protocol.rs: `RendererRedemption`, the credential in a renderer's first frame.
use tmnotify.Base.{
  ◌≡◌, refl, sym, subst, ◌∙◌, Bool, true, false, ◌&&◌, ◌||◌, not, Option, none, some, [], ◌∷◌, leb,
  ◌==◌, if◌then◌else◌, arith, Bool-cases, inl, inr,
}
use tmnotify.Notification.Ingress.{Text, byte_len}
use tmnotify.Notification.Plain.{is_empty, within, is_ascii_digit}
use tmnotify.Protocol.Error.{Result, ok, ◌>>=◌, missing_or_invalid_field, unexpected_request_type}
use tmnotify.Protocol.Wire.Steps.{bind_ok}
use tmnotify.Protocol.Request.Decode.{ok_or-some, ensure-true}
use tmnotify.Protocol.Request.{
  RequestKind, renderer_redeem, RequestEnvelope, Json, ok_or, ensure, text_field,
}

pub record RendererRedemption : Type 0 where
  pub window_display_id : Text
  pub token : Text

-- `option.filter(test)`
abbrev pub filter_some : {A : Type 0} → (A → Bool) → Option A → Option A
filter_some test none = none
filter_some test (some a) = if test a then some a else none

abbrev pub is_redeem : RequestKind → Bool
is_redeem renderer_redeem = true
is_redeem _ = false

abbrev pub is_display_id : Text → Bool
is_display_id value = not (is_empty value) && leb (byte_len value) 128

unfoldable pub all_lower_hex : Text → Bool
all_lower_hex [] = true
all_lower_hex (c ∷ cs) = (is_ascii_digit c || within b'a' b'f' c) && all_lower_hex cs

abbrev pub is_token : Text → Bool
is_token value = byte_len value == 64 && all_lower_hex value

-- `RequestEnvelope::renderer_redemption`
unfoldable pub renderer_redemption :
    {Value : Type 0} → Json Value → RequestEnvelope Value → Result RendererRedemption
renderer_redemption json request = do
  kind ← ensure (is_redeem request.kind) unexpected_request_type
  display ←
      ok_or (filter_some is_display_id (text_field json request.value "window_display"))
        (missing_or_invalid_field "window_display")
  token ←
      ok_or (filter_some is_token (text_field json request.value "token"))
        (missing_or_invalid_field "token")
  ok (record { window_display_id = display; token = token })

-- The credential of a redemption: who may show what, and by which token.
pub record IsRedemption {Value : Type 0} (json : Json Value) (request : RequestEnvelope Value)
    (r : RendererRedemption) : Type 0 where
  pub kind : request.kind ≡ renderer_redeem
  pub display : text_field json request.value "window_display" ≡ some r.window_display_id
  pub display_ok : is_display_id r.window_display_id ≡ true
  pub secret : text_field json request.value "token" ≡ some r.token
  pub secret_ok : is_token r.token ≡ true

filter_some_lem :
    {A : Type 0} (test : A → Bool) (o : Option A) {b : A}
    → filter_some test o ≡ some b
    → (o ≡ some b) × (test b ≡ true)
filter_some_lem test none h = absurd (ground arith)
filter_some_lem test (some a) {b} h = elim (Bool-cases (test a)) [
  | inl e ↦
      let q : some a ≡ some b = sym (rw e) ∙ h in
      let p : a ≡ b = cc q in (q, subst (λ x. test x ≡ true) p e)
  | inr e ↦ absurd (ground (arith, e, h))
]

is_redeem_lem : (k : RequestKind) → is_redeem k ≡ true → k ≡ renderer_redeem
is_redeem_lem renderer_redeem h = refl
is_redeem_lem _ h = absurd (ground arith)

-- A credential that is accepted is of a redemption, and stands in it: the id of a display that is not
-- empty and is of 128 bytes at most, and a token of 64 hexadecimal digits in lower case.
pub renderer_redemption-IsRedemption :
    {Value : Type 0} (json : Json Value) (request : RequestEnvelope Value) {r : RendererRedemption}
    → renderer_redemption json request ≡ ok r
    → IsRedemption json request r
unfolding renderer_redemption
renderer_redemption-IsRedemption json request {r} h =
    let (_, kind, h1) = bind_ok (ensure (is_redeem request.kind) unexpected_request_type) _ h in
    let (display, shown, h2) =
      bind_ok
        (ok_or (filter_some is_display_id (text_field json request.value "window_display"))
          (missing_or_invalid_field "window_display"))
        _ h1 in
    let (token, secret, h3) =
      bind_ok
        (ok_or (filter_some is_token (text_field json request.value "token"))
          (missing_or_invalid_field "token"))
        _ h2 in
    let new : RendererRedemption = record { window_display_id = display; token = token } in
    let q : new ≡ r = cc h3 in
    let shown' = filter_some_lem is_display_id (text_field json request.value "window_display") (
      ok_or-some (filter_some is_display_id (text_field json request.value "window_display"))
        (missing_or_invalid_field "window_display") shown) in
    let secret' = filter_some_lem is_token (text_field json request.value "token") (
      ok_or-some (filter_some is_token (text_field json request.value "token"))
        (missing_or_invalid_field "token") secret) in
    subst (IsRedemption json request) q (record {
      kind =
          is_redeem_lem request.kind
            (ensure-true (is_redeem request.kind) unexpected_request_type kind);
      display = shown'.0;
      display_ok = shown'.1;
      secret = secret'.0;
      secret_ok = secret'.1;
    })
