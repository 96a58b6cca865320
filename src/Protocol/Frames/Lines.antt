-- ===== src/Protocol/Frames/Lines.antt =====
-- The frames of a stream are its lines, and lines that are written are read back.
use tmnotify.Base.{
  ℕ, ◌+◌, ◌≤◌, ◌≡◌, refl, sym, ap, ◌∙◌, inl, inr, true, false, List, [], ◌∷◌, ◌++◌, ltb, ◌==◌,
  length, arith, Bool-cases, length-append, All, All-append,
}
use mathlib.Core.List.{append_assoc, append-nil}
use tmnotify.Protocol.Error.{ok, err, frame_too_large}
use tmnotify.Protocol.Frames.{
  Bytes, newline, FrameDecoder, decoder_new, Pushed, clear, and_frame, push,
}
use tmnotify.Protocol.Frames.Bytewise.{read, push-read}
use tmnotify.Protocol.Frames.Stream.{and_frames, and_frames-nil, push_all, join, read_all}

-- The encoded lines, as `encode_line` writes each.
unfoldable pub lines : List Bytes → Bytes
lines [] = []
lines (f ∷ fs) = f ++ newline ∷ lines fs

abbrev pub IsPlainByte : ℕ → Type 0
IsPlainByte b = (b == newline) ≡ false

-- A frame has no newline and is within the limit.
abbrev pub IsFrame : ℕ → Bytes → Type 0
IsFrame limit f = All IsPlainByte f × (length f ≤ limit)

-- The bytes of a frame are taken in one by one.
read-plain :
    (f rest : Bytes) (d : FrameDecoder)
    → All IsPlainByte f
    → length d.buffer + length f ≤ d.max_frame_bytes
    → read d (f ++ rest) ≡ read (record d { buffer = d.buffer ++ f }) rest
unfolding read
read-plain [] rest d p h = rw (append-nil d.buffer)
read-plain (b ∷ f) rest d p h = ground (
  arith,
  p,
  read-plain f rest (record d { buffer = d.buffer ++ b ∷ [] }) p.1
      (ground (arith, length-append d.buffer (b ∷ []))),
  append_assoc d.buffer (b ∷ []) f,
)

and_frame-and_frames :
    (f : Bytes) (fs : List Bytes) (r : Pushed)
    → and_frame f (and_frames fs r) ≡ and_frames (f ∷ fs) r
and_frame-and_frames f fs (ok gs, d) = refl
and_frame-and_frames f fs (err e, d) = refl

read-lines :
    (limit : ℕ) (fs : List Bytes) (rest : Bytes)
    → All (IsFrame limit) fs
    → read (decoder_new limit) (lines fs ++ rest) ≡ and_frames fs (read (decoder_new limit) rest)
unfolding lines read
read-lines limit [] rest h = sym (and_frames-nil (read (decoder_new limit) rest))
read-lines limit (f ∷ fs) rest h =
    rw
      (
        append_assoc f (newline ∷ lines fs) rest,
        read-plain f (newline ∷ (lines fs ++ rest)) (decoder_new limit) h.0.0
            (omega (arith, h.0.1)),
        read-lines limit fs rest h.1,
      )
      (and_frame-and_frames f fs (read (decoder_new limit) rest))

-- The lines that are written for frames, each of them free of newlines and within the limit, and
-- the start of a further one, are read back as these frames, with that start left in the decoder,
-- in whatever chunks the bytes arrive.
pub push_all-lines :
    (limit : ℕ) (fs : List Bytes) (rest : Bytes) (chunks : List Bytes)
    → All (IsFrame limit) fs
    → IsFrame limit rest
    → join chunks ≡ lines fs ++ rest
    → push_all (decoder_new limit) chunks ≡ (ok fs, record (decoder_new limit) { buffer = rest })
unfolding read
push_all-lines limit fs rest chunks h k e =
    rw
      (
        read_all chunks (decoder_new limit) (omega arith),
        e,
        read-lines limit fs rest h,
        sym (append-nil rest),
        read-plain rest [] (decoder_new limit) k.0 (omega (arith, k.1)),
      )
      (rw (append-nil fs, append-nil rest))

-- What was read, with what is held.
abbrev pub IsSplit : FrameDecoder → Bytes → Pushed → Type 0
IsSplit d bytes (ok fs, d') =
    (lines fs ++ d'.buffer ≡ d.buffer ++ bytes) × All (IsFrame d.max_frame_bytes) fs
IsSplit d bytes (err e, d') = e ≡ frame_too_large d.max_frame_bytes

IsSplit-and_frame :
    (d : FrameDecoder) (bytes : Bytes) (r : Pushed)
    → IsFrame d.max_frame_bytes d.buffer
    → IsSplit (clear d) bytes r
    → IsSplit d (newline ∷ bytes) (and_frame d.buffer r)
unfolding lines
IsSplit-and_frame d bytes (ok fs, d') h k = (
  append_assoc d.buffer (newline ∷ lines fs) d'.buffer ∙ ap (λ x. d.buffer ++ newline ∷ x) k.0,
  (h, k.1),
)
IsSplit-and_frame d bytes (err e, d') h k = k

IsSplit-more :
    (d : FrameDecoder) (b : ℕ) (bytes : Bytes) (r : Pushed)
    → IsSplit (record d { buffer = d.buffer ++ b ∷ [] }) bytes r
    → IsSplit d (b ∷ bytes) r
IsSplit-more d b bytes (ok fs, d') k = (k.0 ∙ append_assoc d.buffer (b ∷ []) bytes, k.1)
IsSplit-more d b bytes (err e, d') k = k

is_newline : (b : ℕ) → b == newline ≡ true → b ≡ newline
is_newline b h = ground arith

read-IsSplit :
    (bytes : Bytes) (d : FrameDecoder)
    → IsFrame d.max_frame_bytes d.buffer
    → IsSplit d bytes (read d bytes)
unfolding read lines
read-IsSplit [] d h = (sym (append-nil d.buffer), tt)
read-IsSplit (b ∷ bytes) d h = elim (Bool-cases (b == newline)) [
  | inl ends ↦ rw (is_newline b ends) (
      IsSplit-and_frame d bytes (read (clear d) bytes) h
        (read-IsSplit bytes (clear d) (tt, omega arith)))
  | inr goes ↦ elim (Bool-cases (ltb (length d.buffer) d.max_frame_bytes)) [
    | inl more ↦
        rw (goes, more)
          (IsSplit-more d b bytes (read (record d { buffer = d.buffer ++ b ∷ [] }) bytes) (
            read-IsSplit bytes (record d { buffer = d.buffer ++ b ∷ [] })
              (
                All-append IsPlainByte d.buffer (b ∷ []) h.0 (goes, tt),
                ground (arith, length-append d.buffer (b ∷ [])),
              )))
    | inr full ↦ rw (goes, full) refl
  ]
]

-- Where what is held is free of newlines and within the limit, a call either returns frames,
-- which as lines and with what is held after it are the bytes held before and those of the call,
-- and each of which is free of newlines and within the limit, or it returns the error that names
-- the limit.
pub push-IsSplit :
    (d : FrameDecoder) (bytes : Bytes)
    → IsFrame d.max_frame_bytes d.buffer
    → IsSplit d bytes (push d bytes)
push-IsSplit d bytes h = rw (push-read d bytes h.1) (read-IsSplit bytes d h)
