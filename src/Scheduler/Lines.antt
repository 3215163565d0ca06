-- ===== src/Scheduler/Lines.antt =====
-- What the scheduler writes to the log goes behind the lines that are there.
use neur_os.Common.{
  List, [], arith, ◌∷◌, ◌==◌, leb, length, Bool-cases, inl, inr, Whenever, Whenever-bind,
  Whenever-ok, unwrap,
}
use neur_os.Logger.{Logger}
use neur_os.Logger.Growth.{Grows, Grows-refl, Grows-trans, log-Grows}
use neur_os.Process.{Process}
use neur_os.Scheduler.{
  Scheduler, tick, rotate, schedule, stop_back, start_front, push_back, pop_front,
}

stop_back-Grows : (ps : List Process) (l : Logger) → Grows 1 l (stop_back ps l).1
unfolding stop_back
stop_back-Grows [] l = Grows-refl 1 l
stop_back-Grows (p ∷ []) l = log-Grows 0 _ _ l
stop_back-Grows (p ∷ q ∷ ps) l = stop_back-Grows (q ∷ ps) l

start_front-Grows : (ps : List Process) (l : Logger) → Grows 1 l (start_front ps l).1
unfolding start_front
start_front-Grows [] l = Grows-refl 1 l
start_front-Grows (p ∷ ps) l = log-Grows 0 _ _ l

schedule-Grows : (s : Scheduler) (l : Logger) → Whenever (λ r. Grows 2 l r.1) (schedule s l)
unfolding schedule
schedule-Grows s l =
    Whenever-bind (λ r. Grows 2 l r.1) (unwrap (pop_front s.queue)) _
      (λ popped _.
        let stopped = stop_back (push_back popped.0 popped.1) l in
        Grows-trans (omega arith) (stop_back-Grows (push_back popped.0 popped.1) l)
          (start_front-Grows stopped.0 stopped.1))

rotate-Grows : (s : Scheduler) (l : Logger) → Whenever (λ r. Grows 2 l r.1) (rotate s l)
unfolding rotate
rotate-Grows s l = elim (Bool-cases (leb 2 (length s.queue))) [
  | inl many ↦ rw many (schedule-Grows s l)
  | inr few ↦ rw few (log-Grows 1 _ _ l)
]

pub tick-Grows : (s : Scheduler) (l : Logger) → Whenever (λ r. Grows 2 l r.1) (tick s l)
unfolding tick
tick-Grows s l = elim (Bool-cases (s.remaining == 0)) [
  | inr later ↦ rw later (Grows-refl 2 l)
  | inl now ↦ rw now (
      Whenever-bind (λ r. Grows 2 l r.1) (rotate s l) _
        (λ r e. Whenever-ok (λ r'. Grows 2 l r'.1) (rotate s l) r (rotate-Grows s l) e))
]
