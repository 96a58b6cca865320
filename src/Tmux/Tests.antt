-- ===== src/Tmux/Tests.antt =====
-- The theorems on the control connection at a small exchange.
use tmnotify.Base.{◌≡◌, refl, true, none, List, [], ◌∷◌, ◌++◌, arith}
use tmnotify.Notification.Ingress.{Text, byte_len}
use tmnotify.Notification.Source.{Text-discrete}
use tmnotify.Tmux.Line.{
  starts_with, is_whitespace, split_words, parse_u64, parse_digits, first_word, is_among,
}
use tmnotify.Tmux.Control.{
  ControlParser, command, good, submitted, frame_command, translate_notification, begin, finish,
  receive,
}
use tmnotify.Tmux.Control.Moves.{tickets_of, waiting}
use tmnotify.Tmux.Control.Limits.{IsBoundedActive}
use tmnotify.Tmux.Control.Fifo.{submit, arrive, Input, run, submissions, run-Fifo}
use tmnotify.Tmux.Control.Response.{receive_all, receive_all-response}

abbrev first : Text
first = b'%' ∷ b'b' ∷ b'e' ∷ b'g' ∷ b'i' ∷ b'n' ∷ b' ' ∷ b'1' ∷ b' ' ∷ b'7' ∷ b' ' ∷ b'0' ∷ []

abbrev middle : Text
middle = b'o' ∷ b'k' ∷ []

abbrev last : Text
last = b'%' ∷ b'e' ∷ b'n' ∷ b'd' ∷ b' ' ∷ b'1' ∷ b' ' ∷ b'7' ∷ b' ' ∷ b'0' ∷ []

abbrev inputs : List Input
inputs = submit 3 ∷ submit 4 ∷ arrive first ∷ arrive middle ∷ arrive last ∷ []

abbrev one_left : ControlParser
one_left = record { pending = 4 ∷ []; active = none }

run-Fifo_example :
    (submissions inputs ≡ (3 ∷ []) ++ waiting one_left) × IsBoundedActive one_left.active
unfolding run submitted receive begin finish frame_command translate_notification starts_with
    split_words is_whitespace parse_u64 parse_digits first_word is_among tickets_of Text-discrete
    byte_len
run-Fifo_example = run-Fifo inputs one_left (3 ∷ []) refl

receive_all-response_example :
    receive_all
      (first ∷ (middle ∷ []) ++ last ∷ [])
      (record { pending = 3 ∷ 4 ∷ []; active = none })
    ≡ (good (command (record { ticket = 3; output = middle ∷ []; success = true }) ∷ []), one_left)
unfolding frame_command translate_notification starts_with split_words is_whitespace parse_u64
    parse_digits first_word is_among Text-discrete byte_len
receive_all-response_example =
    receive_all-response first last 7 (middle ∷ []) 3 (4 ∷ [])
      (record {
        begins = refl;
        begins_number = refl;
        no_begin = refl;
        ends = refl;
        ends_number = refl;
      })
      (record { no_begin = refl; no_end = refl; no_event = refl }, tt) (ground arith) (ground arith)
