-- ===== src/Protocol/Frames/Bytewise.antt =====
-- `push` against a machine that reads one byte at a time.
use tmnotify.Base.{
  ◌+◌, ◌≤◌, ◌<◌, ◌≡◌, ◌∙◌, inl, inr, [], ◌∷◌, ◌++◌, ltb, ◌==◌, if◌then◌else◌, length, arith,
  Bool-cases, length-append,
}
use mathlib.Core.List.{append_assoc, append-nil}
use tmnotify.Protocol.Error.{ok, err, frame_too_large}
use tmnotify.Protocol.Frames.{
  Bytes, newline, FrameDecoder, append_bounded, Pushed, clear, and_frame, push_from, push,
}

-- The machine: a newline ends the frame, and a byte over the limit is refused at once.
unfoldable pub read : FrameDecoder → Bytes → Pushed
read d [] = (ok [], d)
read d (b ∷ bytes) =
    let frame = and_frame d.buffer (read (clear d) bytes) in
    let more = read (record d { buffer = d.buffer ++ b ∷ [] }) bytes in
    if b == newline
    then frame
    else if ltb (length d.buffer) d.max_frame_bytes
    then more
    else (err (frame_too_large d.max_frame_bytes), clear d)

-- What is held is within the limit.
abbrev pub IsWithin : FrameDecoder → Type 0
IsWithin d = length d.buffer ≤ d.max_frame_bytes

abbrev over : FrameDecoder → Pushed
over d = (err (frame_too_large d.max_frame_bytes), clear d)

-- Once too many bytes are held back, the call fails, wherever the next newline stands.
push_from-over :
    (d : FrameDecoder) (segment bytes : Bytes)
    → d.max_frame_bytes < length d.buffer + length segment
    → push_from d segment bytes ≡ over d
unfolding push_from append_bounded
push_from-over d segment [] h = ground arith
push_from-over d segment (b ∷ bytes) h =
    ground (arith, push_from-over d (segment ++ b ∷ []) bytes, length-append segment (b ∷ []))

-- Holding a segment back is as good as having it in the buffer.
push_from-read :
    (bytes : Bytes) (d : FrameDecoder) (segment : Bytes)
    → length d.buffer + length segment ≤ d.max_frame_bytes
    → push_from d segment bytes ≡ read (record d { buffer = d.buffer ++ segment }) bytes
unfolding push_from append_bounded read
push_from-read [] d segment h = ground arith
push_from-read (b ∷ bytes) d segment h = elim (Bool-cases (b == newline)) [
  | inl ends ↦ ground (arith, push_from-read bytes (clear d) [] (omega arith))
  | inr goes ↦ elim (Bool-cases (ltb (length d.buffer + length segment) d.max_frame_bytes)) [
    | inl more ↦ ground (
      arith,
      push_from-read bytes d (segment ++ b ∷ []) (ground (arith, length-append segment (b ∷ []))),
      append_assoc d.buffer segment (b ∷ []),
      length-append d.buffer segment,
    )
    | inr full ↦ ground (
      arith,
      push_from-over d (segment ++ b ∷ []) bytes (ground (arith, length-append segment (b ∷ []))),
      length-append d.buffer segment,
    )
  ]
]

-- Where the bytes held are within the limit, `push` returns what the machine returns that reads
-- one byte at a time: the same frames or the same error, and the same decoder.
pub push-read : (d : FrameDecoder) (bytes : Bytes) → IsWithin d → push d bytes ≡ read d bytes
unfolding push
push-read d bytes h = push_from-read bytes d [] (omega arith) ∙ rw (append-nil d.buffer)
