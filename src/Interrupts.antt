-- ===== src/Interrupts.antt =====
-- kernel/src/interrupts.rs: the interrupt table and its handlers. The frame of an interrupt comes
-- from the x86_64 crate; a handler uses its `Debug` text only, which is an argument here. The PIC
-- driver is the pic8259 crate: the model keeps the list of the ends of interrupts it was sent.
mod Exceptions
mod Timing
pub mod Console
pub mod Keys
mod Tests
use neur_os.Common.{
  ℕ, zero, suc, ◌+◌, ◌-◌, ◌/◌, ◌%◌, ◌^◌, ◌≡◌, Text, codes, show_hex, Option, none, some, List, [],
  ◌∷◌, ◌++◌, Outcome, ok, ◌>>=◌, ◌==◌, leb, ltb, if◌then◌else◌, Bool,
}
use neur_os.Logger.{Logger, Level, log}
use neur_os.Timer.{Timer, increment}
use neur_os.Scheduler.{Scheduler, tick}

abbrev pub pic_1_offset : ℕ
pic_1_offset = 32

abbrev pub pic_2_offset : ℕ
pic_2_offset = pic_1_offset + 8

pub data InterruptIndex : Type 0 where
  timer keyboard cascade com2 com1 : InterruptIndex

-- `InterruptIndex::… as u8`: the variants count up from the first.
abbrev pub index : InterruptIndex → ℕ
index timer = pic_1_offset
index keyboard = pic_1_offset + 1
index cascade = pic_1_offset + 2
index com2 = pic_1_offset + 3
index com1 = pic_1_offset + 4

-- The entries that the table has for the interrupts of the PICs.
unfoldable pub idt : ℕ → Option InterruptIndex
idt n =
    if n == index timer
    then some timer
    else if n == index keyboard
    then some keyboard
    else if n == index com1
    then some com1
    else none

-- The masks that `initialize` writes to the two PICs. A PIC ignores a line whose bit is set.
abbrev pub mask_1 : ℕ
mask_1 = 0b1110_1100

abbrev pub mask_2 : ℕ
mask_2 = 0b1111_1111

-- Whether interrupt line `irq` reaches the processor after `initialize`.
unfoldable pub unmasked : ℕ → Bool
unmasked irq = if ltb irq 8 then mask_1 / 2 ^ irq % 2 == 0 else mask_2 / 2 ^ (irq - 8) % 2 == 0

-- The state that the handlers of hardware interrupts share.
pub record Kernel : Type 0 where
  pub clock : Timer
  pub scheduler : Scheduler
  pub logger : Logger
  pub ended : List ℕ

-- `PICS.lock().notify_end_of_interrupt(…)`
abbrev pub end_of_interrupt : InterruptIndex → Kernel → Kernel
end_of_interrupt i k = record k { ended = k.ended ++ (index i ∷ []) }

unfoldable pub timer_handler : Kernel → Outcome Kernel
timer_handler k = do
  let clock = increment k.clock
  (s, l) ← tick k.scheduler k.logger
  ok (end_of_interrupt timer (record k { clock = clock; scheduler = s; logger = l }))

-- `n` timer interrupts.
unfoldable pub timer_handlers : ℕ → Kernel → Outcome Kernel
timer_handlers zero k = ok k
timer_handlers (suc n) k = do k' ← timer_handler k; timer_handlers n k'
