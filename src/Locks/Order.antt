-- ===== src/Locks/Order.antt =====
-- kernel/src: the order of the locks, and code that keeps to it.
use neur_os.Common.{
  ◌≡◌, ◌≢◌, refl, ap, ◌∙◌, ℕ, ◌<◌, ◌≤◌, ltb, ◌==◌, if◌then◌else◌, Bool, true, false, Bool-cases,
  inl, inr, ◌⊎◌, arith,
}
use neur_os.Locks.{
  Static, index, fresh, running, made, Cell, State, set, Script, done, fail, lazy, lock, End,
  returns,
}
use neur_os.Locks.Spin.{exec}

-- All statics that the code uses have a number below `n`, and each piece of code that runs with a lock
-- held, or makes a static, uses those below it alone; no code panics.
abbrev pub ordered : ℕ → Script → Bool
ordered n done = true
ordered n fail = false
ordered n (lazy s closure after) =
    if ltb (index s) n
    then (if ordered (index s) closure then ordered n after else false)
    else false
ordered n (lock s body after) =
    if ltb (index s) n then (if ordered (index s) body then ordered n after else false) else false

-- A static that nobody holds or makes.
pub record IsFree (c : Cell) : Type 0 where
  pub unheld : c.held ≡ false
  pub still : (c.progress ≡ fresh) ⊎ (c.progress ≡ made)

abbrev pub IsIdle : ℕ → State → Type 0
IsIdle n σ = (s : Static) → index s < n → IsFree (σ s)

-- The code has returned, leaves the statics below `n` free and those above as they were.
pub record Done (n : ℕ) (σ : State) (e : End) : Type 0 where
  pub state : State
  pub result : e ≡ returns state
  pub idle : IsIdle n state
  pub kept : (s : Static) → n ≤ index s → state s ≡ σ s

set-same : (s : Static) (c : Cell) (σ : State) → set s c σ s ≡ c
set-same s c σ = ground arith

set-other : (s t : Static) (c : Cell) (σ : State) → index s ≢ index t → set s c σ t ≡ σ t
set-other s t c σ h = ground arith

-- After the body of `s`, which has put a cell in its place, and with another cell there: above `s` all
-- is as before, and with a free cell all below `n` is free.
module _ (s : Static) (c c' : Cell) (σ : State) (e : End) (b : Done (index s) (set s c σ) e) where
  restored-kept : (t : Static) → index s < index t → set s c' b.state t ≡ σ t
  restored-kept t h =
      set-other s t c' b.state (λ e. absurd (omega arith))
      ∙ b.kept t (omega arith)
      ∙ set-other s t c σ (λ e. absurd (omega arith))

  restored-IsIdle : (n : ℕ) → IsIdle n σ → IsFree c' → IsIdle n (set s c' b.state)
  restored-IsIdle n i f t h = elim (Bool-cases (index s == index t)) [
    | inl same ↦ rw same f
    | inr other ↦ elim (Bool-cases (ltb (index t) (index s))) [
      | inl below ↦ rw other (b.idle t (ground arith))
      | inr above ↦ rw (restored-kept t (ground arith)) (i t h)
    ]
  ]

set-IsIdle :
    (s : Static) (c : Cell) (σ : State) (n : ℕ)
    → index s < n
    → IsIdle n σ
    → IsIdle (index s) (set s c σ)
set-IsIdle s c σ n h i t g = rw (set-other s t c σ (λ e. absurd (omega arith))) (i t (omega arith))

pub exec-Done :
    (n : ℕ) (p : Script) (σ : State) → ordered n p ≡ true → IsIdle n σ → Done n σ (exec p σ)
unfolding exec
exec-Done n done σ h i = record { state = σ; result = refl; idle = i; kept = λ s _. refl }
exec-Done n fail σ h i = cc h
exec-Done n (lazy s closure after) σ h i =
    let below : index s < n = ground arith in
    let inner : ordered (index s) closure ≡ true = ground arith in
    let outer : ordered n after ≡ true = ground arith in
    let free = i s below in
    elim free.still [
      | inr ready ↦
          let a = exec-Done n after σ outer i in
          record {
            state = a.state;
            result = rw (ready, exec) a.result;
            idle = a.idle;
            kept = a.kept;
          }
      | inl new ↦
          let c : Cell = record (σ s) { progress = running } in
          let b = exec-Done (index s) closure (set s c σ) inner (set-IsIdle s c σ n below i) in
          let c' : Cell = record (b.state s) { progress = made } in
          let unheld : c'.held ≡ false =
            ap (λ k. k.held) (b.kept s (omega arith) ∙ set-same s c σ) ∙ free.unheld in
          let a =
            exec-Done n after (set s c' b.state) outer
              (restored-IsIdle s c c' σ _ b n i (record { unheld = unheld; still = inr refl })) in
          record {
            state = a.state;
            result = rw (new, exec, b.result) a.result;
            idle = a.idle;
            kept = λ t g. a.kept t g ∙ restored-kept s c c' σ _ b t (omega arith);
          }
    ]
exec-Done n (lock s body after) σ h i =
    let below : index s < n = ground arith in
    let inner : ordered (index s) body ≡ true = ground arith in
    let outer : ordered n after ≡ true = ground arith in
    let free = i s below in
    let c : Cell = record (σ s) { held = true } in
    let b = exec-Done (index s) body (set s c σ) inner (set-IsIdle s c σ n below i) in
    let c' : Cell = record (b.state s) { held = false } in
    let still : c'.progress ≡ (σ s).progress =
      ap (λ k. k.progress) (b.kept s (omega arith) ∙ set-same s c σ) in
    let a =
      exec-Done n after (set s c' b.state) outer (
        restored-IsIdle s c c' σ _ b n i (record { unheld = refl; still = rw still free.still })) in
    record {
      state = a.state;
      result = rw (free.unheld, exec, b.result) a.result;
      idle = a.idle;
      kept = λ t g. a.kept t g ∙ restored-kept s c c' σ _ b t (omega arith);
    }
