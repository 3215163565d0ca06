-- ===== src/Locks.antt =====
-- The statics of kernel/src with their locks: a static is made when it is used for the first time
-- (`Lazy`), and most are behind a `Mutex`. Both types are the spin crate's, so what a piece of code does
-- with them is an argument, `run`, that does what the crate documents (`IsSpin`).
pub mod Spin
pub mod Scripts
pub mod Order
pub mod Handlers
pub mod Panics
pub mod Points
pub mod SerialPanics
mod Tests
use neur_os.Common.{◌≡◌, ℕ, ◌==◌, if◌then◌else◌, Bool, true, false, List, [], ◌∷◌, ◌++◌}

pub data Static : Type 0 where
  logger initrd timer scheduler vga serial serial_console vga_console keyboard : Static
  physical_manager virtual_manager allocator idt gdt pics : Static

-- A number for each static. Those with a higher number are taken first.
abbrev pub index : Static → ℕ
index logger = 0
index initrd = 1
index timer = 2
index scheduler = 3
index vga = 4
index serial = 5
index serial_console = 6
index vga_console = 7
index keyboard = 8
index physical_manager = 9
index virtual_manager = 10
index allocator = 11
index idt = 12
index gdt = 13
index pics = 14

-- How far the closure of a `Lazy` has come.
pub data Progress : Type 0 where
  fresh running made : Progress

pub record Cell : Type 0 where
  pub progress : Progress
  pub held : Bool

abbrev pub State : Type 0
State = Static → Cell

abbrev pub set : Static → Cell → State → State
set s c σ t = if index s == index t then c else σ t

-- What a piece of code does with the statics: `lazy s closure after` uses the lazy static `s`, and
-- `lock s body after` holds the lock of `s` for the body. At `fail` it panics.
pub data Script : Type 0 where
  done fail : Script
  lazy lock : Static → Script → Script → Script

-- A piece of code returns, panics with the statics in a state, or waits for ever. A panic does not
-- unwind: the locks that are held stay so.
pub data End : Type 0 where
  returns panics : State → End
  waits : Static → End

abbrev pub and_then : End → (State → End) → End
and_then (returns σ) f = f σ
and_then (panics σ) f = panics σ
and_then (waits s) f = waits s

abbrev pub with_progress : Progress → Static → State → State
with_progress p s σ = set s (record (σ s) { progress = p }) σ

abbrev pub with_held : Bool → Static → State → State
with_held h s σ = set s (record (σ s) { held = h }) σ

-- What the spin crate documents of `Lazy::force`, and of `Mutex::lock` with its guard, on one processor:
-- the closure of a lazy static is run once, before the static is used; a lock is held until its guard is
-- dropped; and one who waits for a lock that is held, or for a static that is being made, spins. Nobody
-- else runs who could end that.
pub record IsSpin (run : Script → State → End) : Type 0 where
  pub at_end : (σ : State) → run done σ ≡ returns σ
  pub at_fail : (σ : State) → run fail σ ≡ panics σ
  pub lazy_made :
      (s : Static) (closure after : Script) (σ : State)
      → (σ s).progress ≡ made
      → run (lazy s closure after) σ ≡ run after σ
  pub lazy_running :
      (s : Static) (closure after : Script) (σ : State)
      → (σ s).progress ≡ running
      → run (lazy s closure after) σ ≡ waits s
  pub lazy_fresh :
      (s : Static) (closure after : Script) (σ : State)
      → (σ s).progress ≡ fresh
      → run (lazy s closure after) σ
        ≡ and_then
            (run closure (with_progress running s σ))
            (λ σ'. run after (with_progress made s σ'))
  pub lock_held :
      (s : Static) (body after : Script) (σ : State)
      → (σ s).held ≡ true
      → run (lock s body after) σ ≡ waits s
  pub lock_free :
      (s : Static) (body after : Script) (σ : State)
      → (σ s).held ≡ false
      → run (lock s body after) σ
        ≡ and_then (run body (with_held true s σ)) (λ σ'. run after (with_held false s σ'))

abbrev pub points_after : End → (State → List State) → List State
points_after (returns σ) f = f σ
points_after (panics σ) f = []
points_after (waits s) f = []

module _ (run : Script → State → End) where
  -- One piece of code after the other.
  unfoldable pub run_all : List Script → State → End
  run_all [] σ = returns σ
  run_all (p ∷ ps) σ = and_then (run p σ) (λ σ'. run_all ps σ')

  -- The states in which the code runs between its uses of statics: where a panic or an exception finds
  -- them.
  unfoldable pub points : Script → State → List State
  points done σ = σ ∷ []
  points fail σ = σ ∷ []
  points (lazy s closure after) σ = elim (σ s).progress [
    | made ↦ σ ∷ points after σ
    | running ↦ σ ∷ []
    | fresh ↦
        (σ ∷ points closure (with_progress running s σ))
        ++ points_after (run closure (with_progress running s σ))
            (λ σ'. points after (with_progress made s σ'))
  ]
  points (lock s body after) σ = elim (σ s).held [
    | true ↦ σ ∷ []
    | false ↦
        (σ ∷ points body (with_held true s σ))
        ++ points_after (run body (with_held true s σ)) (λ σ'. points after (with_held false s σ'))
  ]
