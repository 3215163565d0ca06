-- ===== src/Locks/Handlers.antt =====
-- kernel/src/main.rs and kernel/src/interrupts.rs: the start and the handlers, and the order of the locks.
use mathlib.Core.Path.{fun_ext}
use neur_os.Common.{
  Bool, Option, ap, ◌∙◌, All, ◌≡◌, refl, ℕ, zero, suc, ◌<◌, ◌≤◌, ltb-true, true, false, inl, List,
  [], ◌∷◌, map, arith, none, some,
}
use neur_os.Shell.{
  Command, echo, fork, help, id, logs, pwd, readelf, reboot, shutdown, time, unknown,
}
use neur_os.Locks.{
  Static, logger, initrd, timer, scheduler, vga, serial, serial_console, vga_console, keyboard,
  physical_manager, virtual_manager, allocator, idt, gdt, pics, index, fresh, State, Script, done,
  End, returns, and_then, IsSpin, run_all,
}
use neur_os.Locks.Spin.{exec, run-every}
use neur_os.Locks.Scripts.{
  log_lines, get_files, command, handler, Entry, tick, receive, press, kmain, Fault, Faults,
  serial_handler, keyboard_handler,
}
use neur_os.Locks.Order.{ordered, IsFree, exec-Done}

log_lines-ordered :
    (m n : ℕ) (after : Script)
    → 1 ≤ m
    → ordered m after ≡ true
    → ordered m (log_lines n after) ≡ true
log_lines-ordered m zero after h o = o
log_lines-ordered m (suc n) after h o = rw (ltb-true 0 m h) (log_lines-ordered m n after h o)

-- Nothing goes wrong.
abbrev pub never : Faults
never fault = false

abbrev pub IsCalm : Faults → Type 0
IsCalm faults = (fault : Fault) → faults fault ≡ false

never-IsCalm : (faults : Faults) → IsCalm faults → faults ≡ never
never-IsCalm faults calm = fun_ext calm

-- The handler of the interrupt does not panic.
abbrev pub IsCalmEntry : Entry → Type 0
IsCalmEntry (tick lines) = Unit {0}
IsCalmEntry (receive faults c) = IsCalm faults
IsCalmEntry (press faults enter) = IsCalm faults

-- The closure of the ramdisk.
lines-ordered : (files : ℕ) → ordered 1 (log_lines files done) ≡ true
lines-ordered files = log_lines-ordered 1 files done (omega arith) refl

get_files-ordered :
    (m files n : ℕ) (after : Script)
    → 2 ≤ m
    → ordered m after ≡ true
    → ordered m (get_files files never n after) ≡ true
get_files-ordered m files zero after h o = o
get_files-ordered m files (suc n) after h o =
    rw (ltb-true 1 m h, lines-ordered files) (get_files-ordered m files n after h o)

command-ordered : (files : ℕ) (c : Command) → ordered 5 (command files never c) ≡ true
command-ordered files fork = refl
command-ordered files logs = refl
command-ordered files readelf = rw (lines-ordered files) refl
command-ordered files time = refl
command-ordered files echo = refl
command-ordered files help = refl
command-ordered files id = refl
command-ordered files pwd = refl
command-ordered files reboot = refl
command-ordered files shutdown = refl
command-ordered files unknown = refl

serial_handler-ordered :
    (files : ℕ) (c : Option Command) → ordered 15 (serial_handler files never c) ≡ true
serial_handler-ordered files none = rw (lines-ordered files) refl
serial_handler-ordered files (some c) = rw (lines-ordered files, command-ordered files c) refl

keyboard_handler-ordered :
    (files fonts : ℕ) (enter : Bool) → ordered 15 (keyboard_handler files never fonts enter) ≡ true
keyboard_handler-ordered files fonts false = refl
keyboard_handler-ordered files fonts true =
    rw (lines-ordered files, get_files-ordered 4 files fonts done (omega arith) refl) refl

handler-ordered :
    (files fonts : ℕ) (e : Entry) → IsCalmEntry e → ordered 15 (handler files fonts e) ≡ true
handler-ordered files fonts (tick lines) calm =
    rw (log_lines-ordered 3 lines done (omega arith) refl) refl
handler-ordered files fonts (receive faults c) calm =
    ap (λ f. ordered 15 (serial_handler files f c)) (never-IsCalm faults calm)
    ∙ serial_handler-ordered files c
handler-ordered files fonts (press faults enter) calm =
    ap (λ f. ordered 15 (keyboard_handler files f fonts enter)) (never-IsCalm faults calm)
    ∙ keyboard_handler-ordered files fonts enter

kmain-ordered :
    (files fonts : ℕ) (faults : Faults)
    → IsCalm faults
    → ordered 15 (kmain files faults fonts) ≡ true
kmain-ordered files fonts faults calm =
    ap (λ f. ordered 15 (kmain files f fonts)) (never-IsCalm faults calm)
    ∙ rw (lines-ordered files, get_files-ordered 4 files fonts done (omega arith) refl) refl

index-bound : (s : Static) → index s < 15
index-bound logger = omega arith
index-bound initrd = omega arith
index-bound timer = omega arith
index-bound scheduler = omega arith
index-bound vga = omega arith
index-bound serial = omega arith
index-bound serial_console = omega arith
index-bound vga_console = omega arith
index-bound keyboard = omega arith
index-bound physical_manager = omega arith
index-bound virtual_manager = omega arith
index-bound allocator = omega arith
index-bound idt = omega arith
index-bound gdt = omega arith
index-bound pics = omega arith

-- All statics are free.
abbrev pub AllFree : State → Type 0
AllFree σ = (s : Static) → IsFree (σ s)

ordered-AllFree :
    (p : Script) (σ : State)
    → ordered 15 p ≡ true
    → AllFree σ
    → (σ' : State) × (exec p σ ≡ returns σ') × AllFree σ'
ordered-AllFree p σ h i =
    let d = exec-Done 15 p σ h (λ s _. i s) in (d.state, d.result, λ s. d.idle s (index-bound s))

handlers-AllFree :
    (files fonts : ℕ) (events : List Entry) (σ : State)
    → All IsCalmEntry events
    → AllFree σ
    → (σ' : State) × (run_all exec (map (handler files fonts) events) σ ≡ returns σ') × AllFree σ'
unfolding run_all
handlers-AllFree files fonts [] σ calm i = (σ, refl, i)
handlers-AllFree files fonts (e ∷ events) σ calm i =
    let (σ₁, r, i₁) =
      ordered-AllFree (handler files fonts e) σ (handler-ordered files fonts e calm.0) i in
    let (σ₂, r', i₂) = handlers-AllFree files fonts events σ₁ calm.1 i₁ in
    (σ₂, rw (r, and_then) r', i₂)

-- No static is made yet.
abbrev pub start : State
start s = record { progress = fresh; held = false }

-- The start and then the interrupts return, and leave all statics free.
abbrev pub RunsFree : (files fonts : ℕ) → Faults → List Entry → (Script → State → End) → Type 0
RunsFree files fonts faults events run =
    (σ : State) × (run_all run (kmain files faults fonts ∷ map (handler files fonts) events) start
      ≡ returns σ)
    × AllFree σ

exec-RunsFree :
    (files fonts : ℕ) (faults : Faults) (events : List Entry)
    → IsCalm faults
    → All IsCalmEntry events
    → RunsFree files fonts faults events exec
unfolding run_all
exec-RunsFree files fonts faults events calm calm' =
    let (σ₁, r, i₁) =
      ordered-AllFree (kmain files faults fonts) start (kmain-ordered files fonts faults calm)
        (λ s. record { unheld = refl; still = inl refl }) in
    let (σ₂, r', i₂) = handlers-AllFree files fonts events σ₁ calm' i₁ in
    (σ₂, rw (r, and_then) r', i₂)

-- From the start on, through any timer, serial and keyboard interrupts in any order, as long as nothing
-- panics, the kernel never waits for ever for a lock or for a static that is being made, and afterwards
-- no lock is held. The locks and the lazy statics are as the spin crate documents them, and a handler
-- runs with interrupts off.
pub kmain-AllFree :
    (run : Script → State → End)
    → IsSpin run
    → (files fonts : ℕ) (faults : Faults) (events : List Entry) → IsCalm faults
    → All IsCalmEntry events
    → RunsFree files fonts faults events run
kmain-AllFree run spin files fonts faults events calm calm' =
    run-every run spin (RunsFree files fonts faults events)
      (exec-RunsFree files fonts faults events calm calm')
