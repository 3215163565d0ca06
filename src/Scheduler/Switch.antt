-- ===== src/Scheduler/Switch.antt =====
-- What one switch of `schedule` does to the queue.
use neur_os.Common.{
  ℕ, suc, ◌≡◌, refl, ap, List, [], ◌∷◌, ◌++◌, map, length, length-append, leb-true, ok, arith,
}
use mathlib.Core.List.{map-append}
use neur_os.Logger.{Logger}
use neur_os.Process.{Process, State, get_id, set_state}
use neur_os.Scheduler.{Scheduler, pop_front, stop_back, start_front, schedule, rotate}

abbrev pub ids : List Process → List ℕ
ids ps = map get_id ps

-- The queue after its last process has been stopped.
abbrev pub stopped_last : List Process → Process → List Process
stopped_last ps p = ps ++ (set_state State.stopped p ∷ [])

stop_back-append :
    (ps : List Process) (p : Process) (l : Logger)
    → (l' : Logger) × (stop_back (ps ++ (p ∷ [])) l ≡ (stopped_last ps p, l'))
unfolding stop_back
stop_back-append [] p l = (_, refl)
stop_back-append (q ∷ []) p l = (_, refl)
stop_back-append (q ∷ r ∷ ps) p l = let (l', e) = stop_back-append (r ∷ ps) p l in (l', rw e)

-- With two processes at least, the front goes to the back and stops, and the next one runs.
schedule_many :
    (p q : Process) (ps : List Process) (n r : ℕ) (l : Logger)
    → (l' : Logger) × (schedule (record { queue = p ∷ q ∷ ps; quantum = n; remaining = r }) l
        ≡ ok (
          record {
            queue = set_state State.running q ∷ stopped_last ps p;
            quantum = n;
            remaining = r;
          },
          l',
        ))
unfolding schedule pop_front start_front
schedule_many p q ps n r l =
    let (l₁, e) = stop_back-append (q ∷ ps) p l in
    ((start_front (stopped_last (q ∷ ps) p) l₁).1, rw e refl)

-- The list of processes after a rotation, whatever their number.
unfoldable pub rotated : List Process → List Process
rotated [] = []
rotated (p ∷ []) = p ∷ []
rotated (p ∷ q ∷ ps) = set_state State.running q ∷ stopped_last ps p

-- A rotation never panics, and changes the queue alone.
pub rotate_lem :
    (s : Scheduler) (l : Logger)
    → (l' : Logger) × (rotate s l ≡ ok (record s { queue = rotated s.queue }, l'))
unfolding rotate rotated
rotate_lem s l = go s.queue s.quantum s.remaining
  where
    go :
        (ps : List Process) (n r : ℕ)
        → (l' : Logger) × (rotate (record { queue = ps; quantum = n; remaining = r }) l
            ≡ ok (record { queue = rotated ps; quantum = n; remaining = r }, l'))
    go [] n r = (_, refl)
    go (p ∷ []) n r = (_, refl)
    go (p ∷ q ∷ ps) n r =
        let (l₁, e) = schedule_many p q ps n r l in
        (l₁, rw (leb-true 2 (suc (suc (length ps))) (omega arith)) e)

-- The identifiers go round by one place.
unfoldable pub rotl {ℓ} : {A : Type ℓ} → List A → List A
rotl [] = []
rotl (x ∷ xs) = xs ++ (x ∷ [])

pub ids-rotated : (ps : List Process) → ids (rotated ps) ≡ rotl (ids ps)
unfolding rotated rotl
ids-rotated [] = refl
ids-rotated (p ∷ []) = refl
ids-rotated (p ∷ q ∷ ps) =
    ap (λ r. q.id ∷ r) (map-append get_id ps (set_state State.stopped p ∷ []))

pub length-rotated : (ps : List Process) → length (rotated ps) ≡ length ps
unfolding rotated
length-rotated [] = refl
length-rotated (p ∷ []) = refl
length-rotated (p ∷ q ∷ ps) = omega (arith, length-append ps (set_state State.stopped p ∷ []))
