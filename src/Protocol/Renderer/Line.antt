-- ===== src/Protocol/Renderer/Line.antt =====
-- A message of the daemon, from `encode_line` through the renderer's `FrameDecoder` to `decode`.
use tmnotify.Base.{
  ◌≤◌, ◌≡◌, refl, sym, ◌∙◌, some, List, [], ◌∷◌, ◌++◌, ltb, length, arith, All, Bool-cases, inl,
  inr,
}
use mathlib.Core.List.{append-nil}
use tmnotify.Protocol.Error.{ok, malformed_json}
use tmnotify.Protocol.Frames.{Bytes, newline, max_request_bytes, decoder_new}
use tmnotify.Protocol.Frames.Stream.{push_all, join}
use tmnotify.Protocol.Frames.Lines.{IsPlainByte, lines, push_all-lines}
use tmnotify.Protocol.Wire.Steps.{bind_ok}
use tmnotify.Protocol.Request.Decode.{ok_or-some}
use tmnotify.Protocol.Request.{protocol_version, ok_or}
use tmnotify.Protocol.Renderer.{
  RendererMessage, RendererWireFrame, Codec, ended, sized, strip_newline, message_encode_line,
  message_decode,
}

-- What the code relies on: JSON that was written parses to what was written, and it has no newline.
pub record IsCodec {Frame : Type 0} (codec : Codec Frame) : Type 0 where
  pub back :
      (f : Frame) (bytes : Bytes) → codec.to_vec f ≡ some bytes → codec.from_slice bytes ≡ some f
  pub one_line : (f : Frame) (bytes : Bytes) → codec.to_vec f ≡ some bytes → All IsPlainByte bytes

strip_newline-plain : (bytes : Bytes) → All IsPlainByte bytes → strip_newline bytes ≡ bytes
unfolding strip_newline
strip_newline-plain [] h = refl
strip_newline-plain (b ∷ []) h = rw h.0
strip_newline-plain (b ∷ c ∷ bytes) h = rw (strip_newline-plain (c ∷ bytes) h.1)

ended_ok :
    (encoded : Bytes) {line : Bytes}
    → ended encoded ≡ ok line
    → (length encoded ≤ max_request_bytes) × (line ≡ encoded ++ newline ∷ [])
ended_ok encoded {line} h = elim (Bool-cases (ltb max_request_bytes (length encoded))) [
  | inl e ↦ absurd (ground (arith, e, h))
  | inr e ↦
      let q : ok (encoded ++ newline ∷ []) ≡ ok line = sym (rw e) ∙ h in
      (ground (arith, e), cc (sym q))
]

sized_ok : (frame : Bytes) → length frame ≤ max_request_bytes → sized frame ≡ ok frame
sized_ok frame h = ground (arith, h)

-- If JSON that was written parses back and has no newline, a message whose `encode_line` succeeds
-- comes out of the receiving decoder as one frame, in whatever chunks its bytes arrive, and
-- `decode` returns the message of that frame; nothing is left in the decoder.
pub message_decode-message_encode_line :
    (codec : Codec RendererWireFrame) (m : RendererMessage) (line : Bytes) (chunks : List Bytes)
    → IsCodec codec
    → message_encode_line codec m ≡ ok line
    → join chunks ≡ line
    → (frame : Bytes) × (push_all (decoder_new max_request_bytes) chunks
        ≡ (ok (frame ∷ []), decoder_new max_request_bytes))
      × (message_decode codec frame ≡ ok m)
unfolding message_encode_line message_decode lines
message_decode-message_encode_line codec m line chunks lib e arrive =
    let sent : RendererWireFrame = record { version = protocol_version; message = m } in
    let (frame, fe, e1) = bind_ok (ok_or (codec.to_vec sent) malformed_json) _ e in
    let made = ok_or-some (codec.to_vec sent) malformed_json fe in
    let plain = lib.one_line sent frame made in
    let (fits, le) = ended_ok frame e1 in
    (
      frame,
      push_all-lines max_request_bytes (frame ∷ []) [] chunks ((plain, fits), tt) (tt, omega arith)
          (arrive ∙ le ∙ sym (append-nil (frame ++ newline ∷ []))),
      rw (strip_newline-plain frame plain, sized_ok frame fits, lib.back sent frame made),
    )
