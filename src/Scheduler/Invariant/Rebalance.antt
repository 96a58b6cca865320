-- ===== src/Scheduler/Invariant/Rebalance.antt =====
-- `rebalance` as a whole: it never fails on a well-formed scheduler, and what it establishes.
use mathlib.Core.Option
use tmnotify.Base.{ℕ, Bool, ◌≡◌, ◌∙◌, sym, ap, inl, inr, arith}
use tmnotify.Notification.Source.{NotificationId, Presentation, toast, attention}
use tmnotify.Scheduler.State.{LiveEntry, Entries, LiveScheduler, entry_at}
use tmnotify.Scheduler.Exec.{Returns, After-mono, Returns-bind, ◌>>=◌}
use tmnotify.Scheduler.Queues.{promote_attention, promote_toasts, mark_shown, run_timers, rebalance}
use tmnotify.Scheduler.Invariant.{Core, Frame}
use tmnotify.Scheduler.Invariant.Live.{Frame-trans, Frame-entry}
use tmnotify.Scheduler.Invariant.Promote.{
  GatePost, ToastsPost, Shrinks, NonePending, GateFilled, ToastsFilled, promote_attention-Core,
  promote_toasts-Core,
}
use tmnotify.Scheduler.Invariant.Show.{Stays, StaysPost, Stays-trans, mark_shown-Core}
use tmnotify.Scheduler.Invariant.Timers.{Timed, TimersPost, run_timers-Core}
use tmnotify.Scheduler.Invariant.Presented.{
  After-also, seen, presented, on_display, Presents, SameSeen, mark_shown-Presents,
  run_timers-SameSeen,
}

-- Nothing waits that could be shown, and the timers run where they should.
pub record Balanced (s : LiveScheduler) : Type 0 where
  pub gate_filled : GateFilled s
  pub toasts_filled : ToastsFilled s
  pub timed : Timed s

abbrev pub BalancePost : ℕ → LiveScheduler → Unit {0} → LiveScheduler → Type 0
BalancePost wall s _ t =
    Core t × Frame s t × Shrinks s t × Balanced t × Presents wall (λ id. on_display id t) s t

Shrinks-trans : (s t u : LiveScheduler) → Shrinks s t → Shrinks t u → Shrinks s u
Shrinks-trans s t u p q = (omega arith, λ id. omega (arith, p.1 id, q.1 id))

-- What waits does not change where only the entries do.
NonePending-Stays :
    {s t : LiveScheduler} (p : Presentation) → Stays s t → NonePending p s → NonePending p t
NonePending-Stays {s} {t} p st h id e c at =
    let (e', at', same) = Frame-entry st.frame id e at in
    ground
      (arith, h id e', st.same_pending, ap (λ (x : LiveEntry). x.notification.presentation) same)

GateFilled-Shrinks :
    (s t : LiveScheduler)
    → t.entries ≡ s.entries
    → t.display_available ≡ s.display_available
    → t.active_attention ≡ s.active_attention
    → Shrinks s t
    → GateFilled s
    → GateFilled t
GateFilled-Shrinks s t e d g sh h up free id x c at =
    h (sym d ∙ up) (sym g ∙ free) id x (omega (arith, sh.1 id)) (ap (entry_at id) (sym e) ∙ at)

GateFilled-Stays : {s t : LiveScheduler} → Stays s t → GateFilled s → GateFilled t
GateFilled-Stays st h up free =
    NonePending-Stays attention st
      (h (sym st.frame.display_available ∙ up) (sym st.same_gate ∙ free))

ToastsFilled-Stays : {s t : LiveScheduler} → Stays s t → ToastsFilled s → ToastsFilled t
ToastsFilled-Stays {s} {t} st h up free =
    elim (h (sym st.frame.display_available ∙ up) (sym st.same_gate ∙ free)) [
      | inl full ↦ inl (ground (arith, st.frame.limits, st.same_toasts))
      | inr empty ↦ inr (NonePending-Stays toast st empty)
    ]

on_display-Stays :
    {s t : LiveScheduler} (id : NotificationId) → Stays s t → on_display id t ≡ on_display id s
on_display-Stays {s} {t} id st =
    ground (arith, st.frame.display_available, st.same_gate, st.same_toasts)

-- On a scheduler with each live id in exactly one place, entries that fit their places and no
-- more active Toasts than the limit, `rebalance` at the last time returns, and keeps this. Each
-- Notification that is then on display and was pending becomes visible, with the time of the wall
-- clock, and the other Notifications stay as they were; of the rest, only the places and the
-- timers change. It adds nothing to the pending queue, leaves no Attention waiting while the
-- display is up with none, leaves no Toast waiting while there is room for it, and lets a timer
-- run exactly for a Toast on display with no jump under way.
pub rebalance-Core :
    {s : LiveScheduler} (now wall : ℕ)
    → Core s
    → now ≡ s.last_now
    → Returns (BalancePost wall s) (rebalance now wall s)
unfolding rebalance
rebalance-Core {s} now wall c e =
    Returns-bind (λ e t. ⊥) (GatePost s) (BalancePost wall s) (promote_attention s)
      (λ _. promote_toasts >>= λ _. mark_shown wall >>= λ _. run_timers now)
      (promote_attention-Core c)
      λ _ t (ct, ft, et, sht, gt).
        Returns-bind (λ e t. ⊥) (ToastsPost t) (BalancePost wall s) (promote_toasts t)
          (λ _. mark_shown wall >>= λ _. run_timers now) (promote_toasts-Core ct)
          λ _ u (cu, fu, eu, gu, shu, tu).
            Returns-bind (λ e t. ⊥)
              (λ x v. StaysPost u x v × Presents wall (λ id. on_display id u) u v)
              (BalancePost wall s) (mark_shown wall u) (λ _. run_timers now)
              (After-also (λ e t. ⊥) (StaysPost u) _ (mark_shown wall u) (mark_shown-Core wall cu)
                (mark_shown-Presents wall u))
              λ _ v ((cv, stv), shown).
                After-mono (run_timers now v)
                  (After-also (λ e t. ⊥) (TimersPost v) (λ _ w. SameSeen v w) (run_timers now v)
                    (run_timers-Core now cv
                      (e ∙ sym (stv.frame.last_now ∙ fu.last_now ∙ ft.last_now)))
                    (run_timers-SameSeen now v))
                  (λ e x k. k)
                  λ _ w ((cw, stw, timed), same).
                    let st = Stays-trans stv stw in
                    (
                      cw,
                      Frame-trans ft (Frame-trans fu st.frame),
                      Shrinks-trans s t w sht (Shrinks-trans t u w shu (kept st)),
                      record {
                        gate_filled =
                            GateFilled-Stays st
                              (GateFilled-Shrinks t u eu fu.display_available gu shu gt);
                        toasts_filled = ToastsFilled-Stays st tu;
                        timed = timed;
                      },
                      λ id.
                          same id
                          ∙ shown id
                          ∙ ap (λ (b : Bool). Option.map (presented wall b) (seen id u))
                              (sym (on_display-Stays id st))
                          ∙ ap
                              (λ (m : Entries).
                                Option.map (presented wall (on_display id w))
                                  (Option.map (λ (e : LiveEntry). e.notification) (entry_at id m)))
                              (eu ∙ et),
                    )
  where
    kept : {u w : LiveScheduler} → Stays u w → Shrinks u w
    kept st = (ground (arith, st.same_pending), λ id. ground (arith, st.same_pending))
