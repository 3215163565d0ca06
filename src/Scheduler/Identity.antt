-- ===== src/Scheduler/Identity.antt =====
-- Process identifiers: `fork` gives out the length of the queue plus one, and nothing leaves it.
use mathlib.Core.Logic.Or
use mathlib.Core.HLevel.{⊥_prop}
use mathlib.Core.List.{Mem, Perm, mem-cons, not-mem-nil, perm_append_singleton, map-append}
use mathlib.Core.List.Perm
use native.Mathlib.Numerals.{add-one}
use neur_os.Common.{
  ℕ, zero, suc, ◌+◌, ◌<◌, ◌≡◌, refl, ap, List, [], ◌∷◌, ◌++◌, length, length-append, ok, panic,
  unwrap_failed, arith,
}
use neur_os.Process.{Process, get_id, set_id}
use neur_os.Scheduler.{Scheduler, front, fork}
use neur_os.Scheduler.Switch.{ids, rotated, rotl, ids-rotated, length-rotated}

-- n, n - 1, …, 1
unfoldable pub down_from : ℕ → List ℕ
down_from zero = []
down_from (suc n) = suc n ∷ down_from n

mem-down_from : (a n : ℕ) → n < a → Mem a (down_from n) → ⊥
unfolding down_from
mem-down_from a zero h m = not-mem-nil m
mem-down_from a (suc n) h m =
    Or.elim ⊥_prop (mem-cons.0 m) (λ e. omega arith) (mem-down_from a n (omega arith))

-- The identifiers in the queue are 1 to its length, each once.
abbrev pub IsNumbered : List Process → Type 0
IsNumbered ps = Perm (ids ps) (down_from (length ps))

rotl-perm : (xs : List ℕ) → Perm (rotl xs) xs
unfolding rotl
rotl-perm [] = Perm.refl []
rotl-perm (x ∷ xs) = perm_append_singleton x xs

pub rotated-IsNumbered : (ps : List Process) → IsNumbered ps → IsNumbered (rotated ps)
rotated-IsNumbered ps h = rw (ids-rotated ps, length-rotated ps) (Perm.trans (rotl-perm (ids ps)) h)

-- What `fork` appends to the queue of `parent`.
abbrev pub child : Process → List Process → Process
child parent ps = set_id (length ps + 1) parent

-- The queue after a fork.
abbrev pub forked : Process → List Process → List Process
forked parent ps = ps ++ (child parent ps ∷ [])

pub fork-forked :
    {p : Process} {ps : List Process} {s : Scheduler}
    → s.queue ≡ p ∷ ps
    → fork s ≡ ok (record s { queue = forked p s.queue }, length s.queue + 1)
unfolding fork front
fork-forked e = rw (ap front e) refl

-- A fork that returns found a parent at the front.
pub record Forked (s t : Scheduler) (pid : ℕ) : Type 0 where
  pub parent : Process
  pub others : List Process
  pub before : s.queue ≡ parent ∷ others
  pub after : t ≡ record s { queue = forked parent s.queue }
  pub given : pid ≡ length s.queue + 1

fork-nil : (s : Scheduler) → s.queue ≡ [] → fork s ≡ panic unwrap_failed
unfolding fork front
fork-nil s e = rw (ap front e) refl

pub fork-Forked : (s t : Scheduler) (pid : ℕ) → fork s ≡ ok (t, pid) → Forked s t pid
fork-Forked s t pid e = go s.queue refl
  where
    go : (ps : List Process) → s.queue ≡ ps → Forked s t pid
    go [] q = cc (fork-nil s q)
    go (p ∷ ps) q = record {
      parent = p;
      others = ps;
      before = q;
      after = cc (fork-forked {s = s} q);
      given = cc (fork-forked {s = s} q);
    }

ids-forked :
    (p : Process) (ps : List Process) → ids (forked p ps) ≡ ids ps ++ ((length ps + 1) ∷ [])
ids-forked p ps = map-append get_id ps (child p ps ∷ [])

pub forked-IsNumbered : (p : Process) (ps : List Process) → IsNumbered ps → IsNumbered (forked p ps)
unfolding down_from
forked-IsNumbered p ps h =
    let n : length (forked p ps) ≡ suc (length ps) =
      omega (arith, length-append ps (child p ps ∷ [])) in
    rw (ids-forked p ps, n, add-one (length ps))
      (Perm.trans (perm_append_singleton (suc (length ps)) (ids ps))
        (Perm.cons (suc (length ps)) h))

-- The identifier that `fork` returns is new: no process in the queue has it.
pub fresh : (ps : List Process) → IsNumbered ps → ¬ Mem (length ps + 1) (ids ps)
fresh ps h m = mem-down_from (length ps + 1) (length ps) (omega arith) ((Perm.mem_iff h).0 m)
