-- ===== src/Locks/Tests.antt =====
-- kernel/src: the locks on a run of the start and of six interrupts, and in a panic.
use mathlib.Core.List.{Memᴰ}
use neur_os.Common.{◌≡◌, refl, Bool, true, false, none, some, List, [], ◌∷◌}
use neur_os.Shell.{readelf, fork}
use neur_os.Locks.{made, State, returns, panics, vga, serial, serial_console, with_held, points}
use neur_os.Locks.Spin.{exec, exec-IsSpin}
use neur_os.Locks.Scripts.{Entry, tick, receive, press, panic, serial_handler, Faults, file}
use neur_os.Locks.Handlers.{never, RunsFree, kmain-AllFree}
use neur_os.Locks.Panics.{IsSetUp, PanicEnds, panic_lem}
use neur_os.Locks.SerialPanics.{serial_handler-panic}

abbrev some_interrupts : List Entry
some_interrupts =
    tick 2
    ∷ receive never none
    ∷ press never true
    ∷ receive never (some readelf)
    ∷ receive never (some fork)
    ∷ press never false
    ∷ []

kmain-AllFree_example : RunsFree 2 5 never some_interrupts exec
kmain-AllFree_example =
    kmain-AllFree exec exec-IsSpin 2 5 never some_interrupts (λ fault. refl)
      (tt, (λ fault. refl, (λ fault. refl, (λ fault. refl, (λ fault. refl, (λ fault. refl, tt))))))

-- All statics are made and free, but for the screen.
abbrev ready : (drawing : Bool) → State
ready drawing vga = record { progress = made; held = drawing }
ready drawing _ = record { progress = made; held = false }

ready-IsSetUp : (drawing : Bool) → IsSetUp (ready drawing)
ready-IsSetUp drawing = record { initrd = refl; vga = refl; logger = refl }

panic_lem_example : PanicEnds 2 never 5 (ready true) exec
panic_lem_example = panic_lem exec exec-IsSpin 2 never 5 (ready true) (ready-IsSetUp true) refl

-- The file of `readelf` is not there.
abbrev missing : Faults
missing file = true
missing _ = false

-- The handler panics with both of its locks held.
abbrev reading : State
reading = with_held true serial (with_held true serial_console (ready false))

reading_test : exec (serial_handler 2 missing (some readelf)) (ready false) ≡ panics reading
unfolding exec
reading_test = refl

reading-Memᴰ : Memᴰ reading (points exec (serial_handler 2 missing (some readelf)) (ready false))
unfolding points exec
reading-Memᴰ = Memᴰ.tail (Memᴰ.tail (Memᴰ.tail (Memᴰ.tail (Memᴰ.head refl))))

serial_handler-panic_example : (σ' : State) × (exec (panic 2 never 5) reading ≡ returns σ')
serial_handler-panic_example =
    serial_handler-panic exec exec-IsSpin 2 missing never 5 (some readelf) (ready false) reading
      (ready-IsSetUp false) refl refl refl reading-Memᴰ refl
