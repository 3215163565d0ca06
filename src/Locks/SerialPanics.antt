-- ===== src/Locks/SerialPanics.antt =====
-- kernel/src/interrupts.rs: panics in the handler of the serial port, say of `readelf`.
use mathlib.Core.List.{Memᴰ}
use mathlib.Core.Path.{subst}
use neur_os.Common.{
  ◌≡◌, ◌≢◌, refl, sym, ap, ◌∙◌, ℕ, zero, suc, Bool, true, false, Bool-cases, inl, inr, List, [],
  ◌∷◌, All, ◌==◌, ==_iff, Option, none, some,
}
use neur_os.Shell.{
  Command, echo, fork, help, id, logs, pwd, readelf, reboot, shutdown, time, unknown,
}
use neur_os.Locks.{
  Static, logger, initrd, timer, scheduler, vga, serial, serial_console, vga_console, keyboard,
  physical_manager, virtual_manager, allocator, idt, gdt, pics, index, fresh, running, made, State,
  Script, done, End, returns, with_progress, with_held, IsSpin, points,
}
use neur_os.Locks.Spin.{exec, run-every, exec-IsSpin}
use neur_os.Locks.Scripts.{
  log_lines, get_files, command, serial_handler, panic, may_panic, Faults, archive, file, character,
  port,
}
use neur_os.Locks.Panics.{IsSetUp, panic_lem}
use neur_os.Locks.Points.{avoids, IsKept, points-All}

-- The static with a number.
nth : List Static → ℕ → Static
nth [] n = pics
nth (s ∷ ss) zero = s
nth (s ∷ ss) (suc n) = nth ss n

abbrev static : ℕ → Static
unfolding nth
static n =
    nth
      (logger ∷ initrd ∷ timer ∷ scheduler ∷ vga ∷ serial ∷ serial_console ∷ vga_console ∷ keyboard
        ∷ physical_manager ∷ virtual_manager ∷ allocator ∷ idt ∷ gdt ∷ pics ∷ [])
      n

static-index : (s : Static) → static (index s) ≡ s
unfolding nth
static-index logger = refl
static-index initrd = refl
static-index timer = refl
static-index scheduler = refl
static-index vga = refl
static-index serial = refl
static-index serial_console = refl
static-index vga_console = refl
static-index keyboard = refl
static-index physical_manager = refl
static-index virtual_manager = refl
static-index allocator = refl
static-index idt = refl
static-index gdt = refl
static-index pics = refl

index-injective : (s t : Static) → index s ≡ index t → s ≡ t
index-injective s t e = sym (static-index s) ∙ ap static e ∙ static-index t

fresh-ne-made : fresh ≢ made
fresh-ne-made e = cc

-- A static that is made stays made.
made-begun :
    (u s : Static) (σ : State)
    → (σ s).progress ≡ fresh
    → (σ u).progress ≡ made
    → (with_progress running s σ u).progress ≡ made
made-begun u s σ new ready = elim (Bool-cases (index s == index u)) [
  | inl same ↦
      let e = index-injective s u ((==_iff (index s) (index u)).0 same) in
      absurd (fresh-ne-made (sym new ∙ ap (λ k. (σ k).progress) e ∙ ready))
  | inr other ↦ rw other ready
]

made-ended :
    (u s : Static) (σ : State) → (σ u).progress ≡ made → (with_progress made s σ u).progress ≡ made
made-ended u s σ ready = elim (Bool-cases (index s == index u)) [
  | inl same ↦ rw same refl
  | inr other ↦ rw other ready
]

made-locked :
    (h : Bool) (u s : Static) (σ : State)
    → (σ u).progress ≡ made
    → (with_held h s σ u).progress ≡ made
made-locked h u s σ ready = elim (Bool-cases (index s == index u)) [
  | inl same ↦
      let e = index-injective s u ((==_iff (index s) (index u)).0 same) in
      rw same (ap (λ k. (σ k).progress) e ∙ ready)
  | inr other ↦ rw other ready
]

-- All is set up, and nobody draws.
record IsQuiet (σ : State) : Type 0 where
  set_up : IsSetUp σ
  free : (σ vga).held ≡ false

IsQuiet-IsKept : IsKept vga IsQuiet
IsQuiet-IsKept = record {
  begun = λ s σ other new q. record {
    set_up = record {
      initrd = made-begun initrd s σ new q.set_up.initrd;
      vga = made-begun vga s σ new q.set_up.vga;
      logger = made-begun logger s σ new q.set_up.logger;
    };
    free = rw other q.free;
  };
  ended = λ s σ other q. record {
    set_up = record {
      initrd = made-ended initrd s σ q.set_up.initrd;
      vga = made-ended vga s σ q.set_up.vga;
      logger = made-ended logger s σ q.set_up.logger;
    };
    free = rw other q.free;
  };
  locked = λ h s σ other q. record {
    set_up = record {
      initrd = made-locked h initrd s σ q.set_up.initrd;
      vga = made-locked h vga s σ q.set_up.vga;
      logger = made-locked h logger s σ q.set_up.logger;
    };
    free = rw other q.free;
  };
}

may_panic-avoids :
    (b : Bool) (after : Script) → avoids vga after ≡ true → avoids vga (may_panic b after) ≡ true
may_panic-avoids true after h = refl
may_panic-avoids false after h = h

log_lines-avoids :
    (n : ℕ) (after : Script) → avoids vga after ≡ true → avoids vga (log_lines n after) ≡ true
log_lines-avoids zero after h = h
log_lines-avoids (suc n) after h = log_lines-avoids n after h

get_files-avoids :
    (files : ℕ) (faults : Faults) (n : ℕ) (after : Script)
    → avoids vga after ≡ true
    → avoids vga (get_files files faults n after) ≡ true
get_files-avoids files faults zero after h = h
get_files-avoids files faults (suc n) after h =
    rw
      (log_lines-avoids files (may_panic (faults archive) done)
        (may_panic-avoids (faults archive) done refl))
      (may_panic-avoids (faults file) (get_files files faults n after)
        (get_files-avoids files faults n after h))

command-avoids :
    (files : ℕ) (faults : Faults) (c : Command) → avoids vga (command files faults c) ≡ true
command-avoids files faults fork = refl
command-avoids files faults logs = refl
command-avoids files faults readelf = get_files-avoids files faults 1 done refl
command-avoids files faults time = refl
command-avoids files faults echo = refl
command-avoids files faults help = refl
command-avoids files faults id = refl
command-avoids files faults pwd = refl
command-avoids files faults reboot = refl
command-avoids files faults shutdown = refl
command-avoids files faults unknown = refl

serial_handler-avoids :
    (files : ℕ) (faults : Faults) (c : Option Command)
    → avoids vga (serial_handler files faults c) ≡ true
serial_handler-avoids files faults none =
    rw (get_files-avoids files faults 3 done refl, may_panic-avoids (faults port) done refl) refl
serial_handler-avoids files faults (some c) =
    rw
      (
        get_files-avoids files faults 3 done refl,
        may_panic-avoids (faults port) done refl,
        command-avoids files faults c,
      )
      refl

All-Memᴰ : (P : State → Type 0) (xs : List State) (x : State) → All P xs → Memᴰ x xs → P x
All-Memᴰ P [] x h m = elim m [ ]
All-Memᴰ P (y ∷ ys) x h (Memᴰ.head e) = subst P (sym e) h.0
All-Memᴰ P (y ∷ ys) x h (Memᴰ.tail m) = All-Memᴰ P ys x h.1 m

-- Where the handler of the serial port may panic, the handler of that panic returns.
abbrev pub PanicReturns :
    (files : ℕ) (faults faults' : Faults) (fonts : ℕ)
    → Option Command
    → State
    → State
    → (Script → State → End)
    → Type 0
PanicReturns files faults faults' fonts c σ ρ run =
    Memᴰ ρ (points run (serial_handler files faults c) σ)
    → (ρ logger).held ≡ false
    → (σ' : State) × (run (panic files faults' fonts) ρ ≡ returns σ')

exec-PanicReturns :
    (files : ℕ) (faults faults' : Faults) (fonts : ℕ) (c : Option Command) (σ ρ : State)
    → IsSetUp σ
    → (σ vga).held ≡ false
    → faults' file ≡ false
    → faults' character ≡ false
    → PanicReturns files faults faults' fonts c σ ρ exec
exec-PanicReturns files faults faults' fonts c σ ρ h free there known at unlogged =
    let q =
      All-Memᴰ IsQuiet (points exec (serial_handler files faults c) σ) ρ
        (points-All vga IsQuiet IsQuiet-IsKept (serial_handler files faults c) σ
          (serial_handler-avoids files faults c) (record { set_up = h; free = free }))
        at in
    elim (panic_lem exec exec-IsSpin files faults' fonts ρ q.set_up there) [
      | inl (held, _) ↦ let clash : true ≡ false = sym held ∙ q.free in cc
      | inr (inl (_, logging, _)) ↦ let clash : true ≡ false = sym logging ∙ unlogged in cc
      | inr (inr (inl (_, _, strange, _, _, _))) ↦
          let clash : true ≡ false = sym strange ∙ known in cc
      | inr (inr (inr (_, _, _, σ', e))) ↦ (σ', e)
    ]

-- Wherever the handler of the serial port panics with the log free, as `readelf` does where the file is
-- not there, its own locks held or not, the handler of the panic comes to its halt, if the kernel was
-- set up and the screen was free when the interrupt came, the files of the fonts are there, and the font
-- has all characters that are drawn. The locks and the lazy statics are as the spin crate documents them.
pub serial_handler-panic :
    (run : Script → State → End)
    → IsSpin run
    → (files : ℕ) (faults faults' : Faults) (fonts : ℕ) (c : Option Command) (σ ρ : State)
    → IsSetUp σ
    → (σ vga).held ≡ false
    → faults' file ≡ false
    → faults' character ≡ false
    → Memᴰ ρ (points run (serial_handler files faults c) σ)
    → (ρ logger).held ≡ false
    → (σ' : State) × (run (panic files faults' fonts) ρ ≡ returns σ')
serial_handler-panic run spin files faults faults' fonts c σ ρ h free there known =
    run-every run spin (PanicReturns files faults faults' fonts c σ ρ)
      (exec-PanicReturns files faults faults' fonts c σ ρ h free there known)
