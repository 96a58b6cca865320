-- ===== src/Protocol/Frames.antt =====
-- src/protocol.rs: `FrameDecoder`, which cuts a byte stream into lines of bounded length.
pub mod Bytewise
pub mod Stream
pub mod Lines
use tmnotify.Base.{ℕ, ◌+◌, ◌*◌, Bool, List, [], ◌∷◌, ◌++◌, ltb, ◌==◌, if◌then◌else◌, length}
use tmnotify.Protocol.Error.{ProtocolError, Result, ok, err, frame_too_large}

abbrev pub Bytes : Type 0
Bytes = List ℕ

abbrev pub newline : ℕ
newline = b'\n'

pub record FrameDecoder : Type 0 where
  pub buffer : Bytes
  pub max_frame_bytes : ℕ

-- `FrameDecoder::new`, but for its assertion that the limit is positive
abbrev pub decoder_new : ℕ → FrameDecoder
decoder_new limit = record { buffer = []; max_frame_bytes = limit }

abbrev pub max_request_bytes : ℕ
max_request_bytes = 64 * 1024

unfoldable pub append_bounded : FrameDecoder → Bytes → Result FrameDecoder
append_bounded d bytes =
    if ltb d.max_frame_bytes (length d.buffer + length bytes)
    then err (frame_too_large d.max_frame_bytes)
    else ok (record d { buffer = d.buffer ++ bytes })

-- What a call returns, and the decoder after it.
abbrev pub Pushed : Type 0
Pushed = Result (List Bytes) × FrameDecoder

abbrev pub clear : FrameDecoder → FrameDecoder
clear d = record d { buffer = [] }

-- An error drops the frames of this call too.
abbrev pub after_append : FrameDecoder → (FrameDecoder → Pushed) → Result FrameDecoder → Pushed
after_append d k (ok d') = k d'
after_append d k (err e) = (err e, clear d)

abbrev pub and_frame : Bytes → Pushed → Pushed
and_frame f (ok fs, d) = (ok (f ∷ fs), d)
and_frame f (err e, d) = (err e, d)

-- The loop, with the bytes since the last newline: `&bytes[start..index]`.
unfoldable pub push_from : FrameDecoder → Bytes → Bytes → Pushed
push_from d segment [] = after_append d (λ d'. (ok [], d')) (append_bounded d segment)
push_from d segment (b ∷ bytes) =
    let more = push_from d (segment ++ b ∷ []) bytes in
    let frame =
      after_append d (λ d'. and_frame d'.buffer (push_from (clear d') [] bytes))
        (append_bounded d segment) in
    if b == newline then frame else more

unfoldable pub push : FrameDecoder → Bytes → Pushed
push d bytes = push_from d [] bytes
