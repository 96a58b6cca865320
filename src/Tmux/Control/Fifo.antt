-- ===== src/Tmux/Control/Fifo.antt =====
-- Commands complete in the order in which they were submitted.
use tmnotify.Base.{
  ◌≡◌, sym, ap, ◌∙◌, subst, Option, none, some, List, [], ◌∷◌, ◌++◌, arith, Option-cases, inl, inr,
}
use mathlib.Core.Option.{some-injective}
use mathlib.Core.List.{append_assoc, append-nil}
use tmnotify.Notification.Ingress.{Text}
use tmnotify.Tmux.Control.{
  CommandTicket, ControlItem, ControlParser, Received, good, bad, submitted, receive, parser_new,
}
use tmnotify.Tmux.Control.Moves.{tickets_of, ticket_of, waiting, Moves, receive-Moves}
use tmnotify.Tmux.Control.Limits.{IsBoundedActive, receive-IsBounded}

none_ne_some : {A : Type 0} (a : A) → none ≡ some a → ⊥
none_ne_some a e = ground arith

-- What goes in: the caller submits a command, or a line of tmux arrives.
pub data Input : Type 0 where
  submit : CommandTicket → Input
  arrive : Text → Input

-- The tickets of the results, and the parser, after inputs that it accepts all.
abbrev pub then_run :
    List CommandTicket
    → Option (List CommandTicket × ControlParser)
    → Option (List CommandTicket × ControlParser)
then_run done none = none
then_run done (some (more, p)) = some (done ++ more, p)

abbrev pub continue :
    (ControlParser → Option (List CommandTicket × ControlParser))
    → Received (List ControlItem) × ControlParser
    → Option (List CommandTicket × ControlParser)
continue k (bad e, p) = none
continue k (good items, p) = then_run (tickets_of items) (k p)

unfoldable pub run : List Input → ControlParser → Option (List CommandTicket × ControlParser)
run [] p = some ([], p)
run (submit ticket ∷ inputs) p = run inputs (submitted ticket p)
run (arrive line ∷ inputs) p = continue (run inputs) (receive line p)

-- The abstract queue: what was submitted
pub submissions : List Input → List CommandTicket
submissions [] = []
submissions (submit ticket ∷ inputs) = ticket ∷ submissions inputs
submissions (arrive line ∷ inputs) = submissions inputs

-- What the inputs make of a parser
abbrev Follows : ControlParser → List Input → List CommandTicket → ControlParser → Type 0
Follows p inputs done q =
    (waiting p ++ submissions inputs ≡ done ++ waiting q) × IsBoundedActive q.active

submitted_last :
    (active pending : List CommandTicket) (t : CommandTicket) (later : List CommandTicket)
    → (active ++ pending) ++ t ∷ later ≡ (active ++ (pending ++ t ∷ [])) ++ later
submitted_last active pending t later = rw (
  append_assoc active (pending ++ t ∷ []) later,
  append_assoc pending (t ∷ []) later,
  append_assoc active pending (t ∷ later),
)

-- The line of a run, given the theorem on the rest of the run
accepted :
    (inputs : List Input) (line : Text) (p q : ControlParser) (done : List CommandTicket)
    → ((r : ControlParser) (more : List CommandTicket) (q' : ControlParser)
        → IsBoundedActive r.active
        → run inputs r ≡ some (more, q')
        → Follows r inputs more q')
    → (r : Received (List ControlItem) × ControlParser) → Moves p r
    → IsBoundedActive r.1.active
    → continue (run inputs) r ≡ some (done, q)
    → Follows p (arrive line ∷ inputs) done q
unfolding submissions
accepted inputs line p q done rest (bad error, r) m k e = absurd (ground arith)
accepted inputs line p q done rest (good items, r) m k e = elim (Option-cases (run inputs r)) [
  | inl stops ↦ absurd (none_ne_some (done, q) (rw stops at e))
  | inr ((more, q'), goes) ↦
      let (follows, bounded) = rest r more q' k goes in
      let same = some-injective (tickets_of items ++ more, q') (done, q) (rw goes at e) in
      subst (λ x. Follows p (arrive line ∷ inputs) x.0 x.1) same
        (
          ap (λ w. w ++ submissions inputs) (sym m)
              ∙ append_assoc (tickets_of items) (waiting r) (submissions inputs)
              ∙ ap (λ w. tickets_of items ++ w) follows
              ∙ sym (append_assoc (tickets_of items) more (waiting q')),
          bounded,
        )
]

run-Follows :
    (inputs : List Input) (p q : ControlParser) (done : List CommandTicket)
    → IsBoundedActive p.active
    → run inputs p ≡ some (done, q)
    → Follows p inputs done q
unfolding run submissions submitted
run-Follows [] p q done h e =
    let same = some-injective ([], p) (done, q) e in
    subst (λ x. Follows p [] x.0 x.1) same (append-nil (waiting p), h)
run-Follows (submit ticket ∷ inputs) p q done h e =
    let rest = run-Follows inputs (submitted ticket p) q done h e in
    (submitted_last (ticket_of p.active) p.pending ticket (submissions inputs) ∙ rest.0, rest.1)
run-Follows (arrive line ∷ inputs) p q done h e =
    accepted inputs line p q done (λ r more q'. run-Follows inputs r q' more) (receive line p)
      (receive-Moves line p) (receive-IsBounded line p h) e

-- A new parser refines a queue: after submissions and lines in any order, all accepted, the
-- tickets of the results, then that of the active command, then the pending ones, are the tickets
-- that were submitted, in their order. The output of the active command is within the limits of
-- lines and bytes, and its count of bytes is right.
pub run-Fifo :
    (inputs : List Input) (q : ControlParser) (done : List CommandTicket)
    → run inputs parser_new ≡ some (done, q)
    → (submissions inputs ≡ done ++ waiting q) × IsBoundedActive q.active
run-Fifo inputs q done e = run-Follows inputs parser_new q done tt e
