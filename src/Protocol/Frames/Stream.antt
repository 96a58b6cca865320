-- ===== src/Protocol/Frames/Stream.antt =====
-- The chunks in which a stream arrives do not matter.
use mathlib.Core.Path.{fun_ext}
use tmnotify.Base.{
  ◌≡◌, refl, sym, ap, ◌∙◌, inl, inr, Option, none, some, List, [], ◌∷◌, ◌++◌, ltb, ◌==◌, length,
  arith, Bool-cases, length-append,
}
use tmnotify.Protocol.Error.{ProtocolError, ok, err}
use tmnotify.Protocol.Frames.{Bytes, newline, FrameDecoder, Pushed, clear, and_frame, push}
use tmnotify.Protocol.Frames.Bytewise.{read, IsWithin, push-read}

abbrev pub and_frames : List Bytes → Pushed → Pushed
and_frames fs (ok gs, d) = (ok (fs ++ gs), d)
and_frames fs (err e, d) = (err e, d)

abbrev pub then_push : (FrameDecoder → Pushed) → Pushed → Pushed
then_push k (ok fs, d) = and_frames fs (k d)
then_push k (err e, d) = (err e, d)

-- The calls for the chunks of a stream. The connection ends at the first error.
pub push_all : FrameDecoder → List Bytes → Pushed
push_all d [] = (ok [], d)
push_all d (chunk ∷ chunks) = then_push (λ d'. push_all d' chunks) (push d chunk)

unfoldable pub join : List Bytes → Bytes
join [] = []
join (c ∷ cs) = c ++ join cs

-- What a call leaves: a decoder of the same limit that is within it.
abbrev Leaves : FrameDecoder → Pushed → Type 0
Leaves d r = IsWithin r.1 × (r.1.max_frame_bytes ≡ d.max_frame_bytes)

and_frame-Leaves :
    (d : FrameDecoder) (f : Bytes) (r : Pushed) → Leaves d r → Leaves d (and_frame f r)
and_frame-Leaves d f (ok fs, d') h = h
and_frame-Leaves d f (err e, d') h = h

read-Leaves : (d : FrameDecoder) (bytes : Bytes) → IsWithin d → Leaves d (read d bytes)
unfolding read
read-Leaves d [] h = ground arith
read-Leaves d (b ∷ bytes) h = elim (Bool-cases (b == newline)) [
  | inl ends ↦
      let rest = read-Leaves (clear d) bytes (omega arith) in
      ground (arith, and_frame-Leaves (clear d) d.buffer (read (clear d) bytes) rest)
  | inr goes ↦ elim (Bool-cases (ltb (length d.buffer) d.max_frame_bytes)) [
    | inl more ↦ ground (
      arith,
      read-Leaves (record d { buffer = d.buffer ++ b ∷ [] }) bytes
          (ground (arith, length-append d.buffer (b ∷ []))),
    )
    | inr full ↦ ground arith
  ]
]

pub push-Leaves : (d : FrameDecoder) (bytes : Bytes) → IsWithin d → Leaves d (push d bytes)
push-Leaves d bytes h = rw (push-read d bytes h) (read-Leaves d bytes h)

then_push-and_frame :
    (k : FrameDecoder → Pushed) (f : Bytes) (r : Pushed)
    → then_push k (and_frame f r) ≡ and_frame f (then_push k r)
then_push-and_frame k f (ok fs, d) = go (k d)
  where
    go : (r : Pushed) → and_frames (f ∷ fs) r ≡ and_frame f (and_frames fs r)
    go (ok gs, d) = refl
    go (err e, d) = refl
then_push-and_frame k f (err e, d) = refl

pub and_frames-nil : (r : Pushed) → and_frames [] r ≡ r
and_frames-nil (ok gs, d) = refl
and_frames-nil (err e, d) = refl

read-append :
    (xs ys : Bytes) (d : FrameDecoder)
    → read d (xs ++ ys) ≡ then_push (λ d'. read d' ys) (read d xs)
unfolding read
read-append [] ys d = sym (and_frames-nil (read d ys))
read-append (b ∷ xs) ys d = elim (Bool-cases (b == newline)) [
  | inl ends ↦ ground (
    arith,
    read-append xs ys (clear d),
    then_push-and_frame (λ d'. read d' ys) d.buffer (read (clear d) xs),
  )
  | inr goes ↦ elim (Bool-cases (ltb (length d.buffer) d.max_frame_bytes)) [
    | inl more ↦ ground (arith, read-append xs ys (record d { buffer = d.buffer ++ b ∷ [] }))
    | inr full ↦ ground arith
  ]
]

pub read_all :
    (chunks : List Bytes) (d : FrameDecoder) → IsWithin d → push_all d chunks ≡ read d (join chunks)
unfolding push_all join read
read_all [] d h = refl
read_all (c ∷ chunks) d h =
    rw (push-read d c h, read-append c (join chunks) d)
      (go (λ d'. read_all chunks d') (read d c) (read-Leaves d c h))
  where
    go :
        ((d' : FrameDecoder) → IsWithin d' → push_all d' chunks ≡ read d' (join chunks))
        → (r : Pushed) → Leaves d r
        → then_push (λ d'. push_all d' chunks) r ≡ then_push (λ d'. read d' (join chunks)) r
    go all (ok fs, d') k = rw (all d' k.0)
    go all (err e, d') k = refl

-- What the calls for some chunks return: all frames of the calls that succeeded, the error of the
-- call that failed, if one did, and the decoder.
abbrev pub Calls : Type 0
Calls = List Bytes × Option ProtocolError × FrameDecoder

abbrev after_call : Pushed → (FrameDecoder → Calls) → Calls
after_call (ok fs, d) k = (fs ++ (k d).0, (k d).1, (k d).2)
after_call (err e, d) k = ([], some e, d)

unfoldable pub push_calls : FrameDecoder → List Bytes → Calls
push_calls d [] = ([], none, d)
push_calls d (chunk ∷ chunks) = after_call (push d chunk) (λ d'. push_calls d' chunks)

-- What one call returns for it: the frames if all succeeded, and else only the error.
abbrev pub as_one : Calls → Pushed
as_one (fs, none, d) = (ok fs, d)
as_one (fs, some e, d) = (err e, d)

as_one-after_call :
    (r : Pushed) (k : FrameDecoder → Calls)
    → as_one (after_call r k) ≡ then_push (λ d. as_one (k d)) r
as_one-after_call (err e, d) k = refl
as_one-after_call (ok fs, d) k = go (k d)
  where
    go : (c : Calls) → as_one (fs ++ c.0, c.1, c.2) ≡ and_frames fs (as_one c)
    go (gs, none, d') = refl
    go (gs, some e, d') = refl

push_calls_all :
    (chunks : List Bytes) (d : FrameDecoder) → as_one (push_calls d chunks) ≡ push_all d chunks
unfolding push_calls push_all
push_calls_all [] d = refl
push_calls_all (c ∷ chunks) d =
    as_one-after_call (push d c) (λ d'. push_calls d' chunks)
    ∙ ap (λ (k : FrameDecoder → Pushed). then_push k (push d c))
        (fun_ext (λ d'. push_calls_all chunks d'))

-- Where the bytes held are within the limit: if the calls for the chunks of a stream all succeed,
-- one call for the whole stream returns all their frames; if one of them fails, that call fails
-- with the same error, and without the frames that the calls before it returned. It leaves the
-- same decoder in both cases.
pub push_calls-push :
    (d : FrameDecoder) (chunks : List Bytes)
    → IsWithin d
    → push d (join chunks) ≡ as_one (push_calls d chunks)
push_calls-push d chunks h =
    push-read d (join chunks) h ∙ sym (read_all chunks d h) ∙ sym (push_calls_all chunks d)
