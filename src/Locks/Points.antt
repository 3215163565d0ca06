-- ===== src/Locks/Points.antt =====
-- kernel/src: what holds at each point of a piece of code.
use neur_os.Common.{
  ◌≡◌, Bool, true, false, Bool-cases, inl, inr, List, ◌∷◌, All, All-append, ◌==◌, if◌then◌else◌,
  arith,
}
use neur_os.Locks.{
  Static, index, fresh, running, made, State, Script, done, fail, lazy, lock, End, returns, panics,
  waits, and_then, with_progress, with_held, points, points_after,
}
use neur_os.Locks.Spin.{exec, Progress-cases}

-- The code does not use the static.
abbrev pub avoids : Static → Script → Bool
avoids t done = true
avoids t fail = true
avoids t (lazy s closure after) =
    if index s == index t then false else (if avoids t closure then avoids t after else false)
avoids t (lock s body after) =
    if index s == index t then false else (if avoids t body then avoids t after else false)

-- What the uses of the statics other than `t` leave true.
pub record IsKept (t : Static) (Q : State → Type 0) : Type 0 where
  pub begun :
      (s : Static) (σ : State)
      → (index s == index t) ≡ false
      → (σ s).progress ≡ fresh
      → Q σ
      → Q (with_progress running s σ)
  pub ended :
      (s : Static) (σ : State) → (index s == index t) ≡ false → Q σ → Q (with_progress made s σ)
  pub locked :
      (h : Bool) (s : Static) (σ : State) → (index s == index t) ≡ false → Q σ → Q (with_held h s σ)

abbrev AtEnd : (State → Type 0) → End → Type 0
AtEnd Q (returns σ) = Q σ
AtEnd Q (panics σ) = Q σ
AtEnd Q (waits s) = Unit {0}

AtEnd-and_then :
    (Q : State → Type 0) (e : End) (f : State → End)
    → AtEnd Q e
    → ((σ : State) → Q σ → AtEnd Q (f σ))
    → AtEnd Q (and_then e f)
AtEnd-and_then Q (returns σ) f h g = g σ h
AtEnd-and_then Q (panics σ) f h g = h
AtEnd-and_then Q (waits s) f h g = tt

All-points_after :
    (Q : State → Type 0) (e : End) (f : State → List State)
    → AtEnd Q e
    → ((σ : State) → Q σ → All Q (f σ))
    → All Q (points_after e f)
All-points_after Q (returns σ) f h g = g σ h
All-points_after Q (panics σ) f h g = tt
All-points_after Q (waits s) f h g = tt

module _ (t : Static) (Q : State → Type 0) (k : IsKept t Q) where
  exec-AtEnd : (p : Script) (σ : State) → avoids t p ≡ true → Q σ → AtEnd Q (exec p σ)
  unfolding exec
  exec-AtEnd done σ h q = q
  exec-AtEnd fail σ h q = q
  exec-AtEnd (lazy s closure after) σ h q =
      let other : (index s == index t) ≡ false = ground arith in
      let inner : avoids t closure ≡ true = ground arith in
      let outer : avoids t after ≡ true = ground arith in
      elim (Progress-cases (σ s).progress) [
        | inl new ↦
            rw (new, exec)
              (AtEnd-and_then Q (exec closure (with_progress running s σ)) _
                (exec-AtEnd closure (with_progress running s σ) inner (k.begun s σ other new q))
                (λ σ' q'. exec-AtEnd after (with_progress made s σ') outer (k.ended s σ' other q')))
        | inr (inl busy) ↦ rw (busy, exec) tt
        | inr (inr ready) ↦ rw (ready, exec) (exec-AtEnd after σ outer q)
      ]
  exec-AtEnd (lock s body after) σ h q =
      let other : (index s == index t) ≡ false = ground arith in
      let inner : avoids t body ≡ true = ground arith in
      let outer : avoids t after ≡ true = ground arith in
      elim (Bool-cases (σ s).held) [
        | inl held ↦ rw (held, exec) tt
        | inr unheld ↦
            rw (unheld, exec)
              (AtEnd-and_then Q (exec body (with_held true s σ)) _
                (exec-AtEnd body (with_held true s σ) inner (k.locked true s σ other q))
                (λ σ' q'.
                  exec-AtEnd after (with_held false s σ') outer (k.locked false s σ' other q')))
      ]

  pub points-All : (p : Script) (σ : State) → avoids t p ≡ true → Q σ → All Q (points exec p σ)
  unfolding points
  points-All done σ h q = (q, tt)
  points-All fail σ h q = (q, tt)
  points-All (lazy s closure after) σ h q =
      let other : (index s == index t) ≡ false = ground arith in
      let inner : avoids t closure ≡ true = ground arith in
      let outer : avoids t after ≡ true = ground arith in
      elim (Progress-cases (σ s).progress) [
        | inl new ↦
            let σ₁ = with_progress running s σ in
            rw (new, points)
              (All-append (σ ∷ points exec closure σ₁) _ Q (
                (q, points-All closure σ₁ inner (k.begun s σ other new q)),
                All-points_after Q (exec closure σ₁) _
                    (exec-AtEnd closure σ₁ inner (k.begun s σ other new q))
                    (λ σ' q'.
                      points-All after (with_progress made s σ') outer (k.ended s σ' other q')),
              ))
        | inr (inl busy) ↦ rw (busy, points) (q, tt)
        | inr (inr ready) ↦ rw (ready, points) (q, points-All after σ outer q)
      ]
  points-All (lock s body after) σ h q =
      let other : (index s == index t) ≡ false = ground arith in
      let inner : avoids t body ≡ true = ground arith in
      let outer : avoids t after ≡ true = ground arith in
      let σ₁ = with_held true s σ in
      elim (Bool-cases (σ s).held) [
        | inl held ↦ rw (held, points) (q, tt)
        | inr unheld ↦
            rw (unheld, points)
              (All-append (σ ∷ points exec body σ₁) _ Q (
                (q, points-All body σ₁ inner (k.locked true s σ other q)),
                All-points_after Q (exec body σ₁) _
                    (exec-AtEnd body σ₁ inner (k.locked true s σ other q))
                    (λ σ' q'.
                      points-All after (with_held false s σ') outer (k.locked false s σ' other q')),
              ))
      ]
