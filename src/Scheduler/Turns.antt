-- ===== src/Scheduler/Turns.antt =====
-- Many ticks: whole turns, and that every process gets one.
use neur_os.Common.{
  ℕ, zero, suc, ◌+◌, ◌*◌, ◌-◌, ◌≡◌, refl, sym, ap, ◌∙◌, List, [], ◌∷◌, ◌++◌, append_assoc,
  append-nil, length, ok, arith, ◌≤◌, ◌==◌, false, true,
}
use neur_os.Process.{Process}
use neur_os.Logger.{Logger}
use neur_os.Scheduler.{Scheduler, ticks}
use neur_os.Scheduler.Switch.{ids, rotated, rotl, ids-rotated}
use neur_os.Scheduler.RoundRobin.{ticked, tick_lem}

pub iterate {ℓ} : {A : Type ℓ} → ℕ → (A → A) → A → A
iterate zero f x = x
iterate (suc k) f x = iterate k f (f x)

iterate-add {ℓ} :
    {A : Type ℓ} (j k : ℕ) (f : A → A) (x : A) → iterate (j + k) f x ≡ iterate k f (iterate j f x)
unfolding iterate
iterate-add zero k f x = let e : 0 + k ≡ k = omega arith in ap (λ n. iterate n f x) e
iterate-add (suc j) k f x =
    let e : suc j + k ≡ suc (j + k) = omega arith in
    ap (λ n. iterate n f x) e ∙ iterate-add j k f (f x)

pub ticks_lem :
    (k : ℕ) (s : Scheduler) (l : Logger)
    → (l' : Logger) × (ticks k s l ≡ ok (iterate k ticked s, l'))
unfolding ticks iterate
ticks_lem zero s l = (l, refl)
ticks_lem (suc k) s l =
    let (l₁, e) = tick_lem s l in let (l₂, r) = ticks_lem k (ticked s) l₁ in (l₂, rw (e, r) refl)

-- Within a quantum a tick only counts down.
count_down :
    (k : ℕ) (s : Scheduler)
    → k ≤ s.remaining
    → iterate k ticked s ≡ record s { remaining = s.remaining - k }
unfolding iterate ticked
count_down zero s h =
    let e : s.remaining ≡ s.remaining - 0 = omega arith in
    ap (λ (r : ℕ). record s { remaining = r }) e
count_down (suc k) s h =
    let ne : (s.remaining == 0) ≡ false = ground arith in
    let e : s.remaining - 1 - k ≡ s.remaining - suc k = omega arith in
    ap (iterate k ticked) (rw ne refl)
    ∙ count_down k (record s { remaining = s.remaining - 1 }) (omega arith)
    ∙ ap (λ (r : ℕ). record s { remaining = r }) e

-- A whole quantum, and the tick that ends it.
turn :
    (s : Scheduler)
    → s.remaining ≡ s.quantum
    → iterate (suc s.quantum) ticked s ≡ record s { queue = rotated s.queue }
unfolding iterate ticked
turn s e =
    let n : suc s.quantum ≡ s.quantum + 1 = omega arith in
    let done : (s.remaining - s.quantum == 0) ≡ true = ground arith in
    ap (λ k. iterate k ticked s) n
    ∙ iterate-add s.quantum 1 ticked s
    ∙ ap ticked (count_down s.quantum s (omega arith))
    ∙ rw (done, e) refl

turns :
    (k : ℕ) (s : Scheduler)
    → s.remaining ≡ s.quantum
    → iterate (k * suc s.quantum) ticked s ≡ record s { queue = iterate k rotated s.queue }
unfolding iterate
turns zero s e = let n : 0 * suc s.quantum ≡ 0 = omega arith in ap (λ k. iterate k ticked s) n
turns (suc k) s e =
    let n : suc k * suc s.quantum ≡ suc s.quantum + k * suc s.quantum = omega arith in
    ap (λ j. iterate j ticked s) n
    ∙ iterate-add (suc s.quantum) (k * suc s.quantum) ticked s
    ∙ ap (iterate (k * suc s.quantum) ticked) (turn s e)
    ∙ turns k (record s { queue = rotated s.queue }) e

ids-iterate : (k : ℕ) (ps : List Process) → ids (iterate k rotated ps) ≡ iterate k rotl (ids ps)
unfolding iterate
ids-iterate zero ps = refl
ids-iterate (suc k) ps = ids-iterate k (rotated ps) ∙ ap (iterate k rotl) (ids-rotated ps)

-- As many rotations as `xs` is long bring `xs` behind `ys`.
rotl-append {ℓ} : {A : Type ℓ} (xs ys : List A) → iterate (length xs) rotl (xs ++ ys) ≡ ys ++ xs
unfolding iterate rotl
rotl-append [] ys = sym (append-nil ys)
rotl-append (x ∷ xs) ys =
    ap (iterate (length xs) rotl) (append_assoc xs ys (x ∷ []))
    ∙ rotl-append xs (ys ++ (x ∷ []))
    ∙ append_assoc ys (x ∷ []) xs

-- From the start of a quantum, after as many quanta and switching ticks as `xs` is long (each turn
-- takes `quantum + 1` ticks), the processes `xs` that stood in front have had their turns and stand
-- behind the others, in the same order; no tick has panicked.
pub ticks-turns :
    (xs ys : List ℕ) (s : Scheduler) (l : Logger)
    → s.remaining ≡ s.quantum
    → ids s.queue ≡ xs ++ ys
    → (s' : Scheduler) × (l' : Logger) × (ticks (length xs * (s.quantum + 1)) s l ≡ ok (s', l'))
      × (ids s'.queue ≡ ys ++ xs)
      × (s'.remaining ≡ s'.quantum)
ticks-turns xs ys s l e parts =
    let n : s.quantum + 1 ≡ suc s.quantum = omega arith in
    let k = length xs in
    let (l', r) = ticks_lem (k * suc s.quantum) s l in
    (
      record s { queue = iterate k rotated s.queue },
      l',
      rw (n, r, turns k s e) refl,
      ids-iterate k s.queue ∙ ap (iterate k rotl) parts ∙ rotl-append xs ys,
      e,
    )
