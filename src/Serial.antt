-- ===== src/Serial.antt =====
-- kernel/src/serial.rs: the serial port. The device is a parameter: what its line status register
-- and its data register hold at each time that they are read.
pub mod Sending
mod Tests
use neur_os.Common.{
  ℕ, zero, suc, ◌+◌, ◌/◌, ◌%◌, Text, List, [], ◌∷◌, ◌++◌, ◌==◌, if◌then◌else◌, true, false, Outcome,
  ok, panic, stuck, assert, ◌>>=◌, ◌>>◌,
}

-- `Ports::COM1 as u16`
abbrev pub com1 : ℕ
com1 = 0x3F8

-- A write to a port of the processor.
pub record Write : Type 0 where
  pub port : ℕ
  pub value : ℕ

-- The port's first address, how often a register has been read, and what has been written.
pub record Serial : Type 0 where
  pub address : ℕ
  pub reads : ℕ
  pub writes : List Write

-- `Serial::new`
abbrev pub new : Serial
new = record { address = com1; reads = 0; writes = [] }

-- `register offset k` is what the register holds at the read number `k`.
abbrev pub Device : Type 0
Device = ℕ → ℕ → ℕ

module _ (register : Device) where
  -- `Serial::inb`
  unfoldable pub inb : ℕ → Serial → Serial × ℕ
  inb offset s = (record s { reads = s.reads + 1 }, register offset s.reads)

  -- `Serial::outb`
  unfoldable pub outb : ℕ → ℕ → Serial → Serial
  outb offset value s = record s {
    writes = s.writes ++ (record { port = s.address + offset; value = value } ∷ []);
  }

  -- `self.transmit_empty() == 0` and `self.received() == 0` as loops with fuel, for the bit of the
  -- line status register with the value `bit`
  unfoldable pub wait : ℕ → ℕ → Serial → Outcome Serial
  unfolding inb
  wait bit zero s = panic stuck
  wait bit (suc fuel) s =
      let (s', status) = inb 5 s in
      let again = wait bit fuel s' in if status / bit % 2 == 0 then again else ok s'

  -- `Serial::write_char`
  unfoldable pub write_char : ℕ → ℕ → Serial → Outcome Serial
  unfolding outb
  write_char fuel c s = do s' ← wait 0x20 fuel s; ok (outb 0 (c % 256) s')

  -- The body of the loop of `Serial::write_str`
  unfoldable pub put : ℕ → ℕ → Serial → Outcome Serial
  put fuel c s = do
    s' ← elim (c == 10) [ true ↦ write_char fuel 13 s | false ↦ ok s ]
    write_char fuel c s'

  -- `Serial::write_str`
  unfoldable pub write_str : ℕ → Text → Serial → Outcome Serial
  write_str fuel [] s = ok s
  write_str fuel (c ∷ t) s = do s' ← put fuel c s; write_str fuel t s'

  -- `Serial::read`
  unfoldable pub read : ℕ → Serial → Outcome (Serial × ℕ)
  unfolding wait inb
  read fuel s = do s' ← wait 1 fuel s; ok (inb 0 s')

  -- `Serial::initialize`
  unfoldable pub initialize : Serial → Outcome Serial
  unfolding outb inb
  initialize s = do
    let s1 = outb 0 0xAE (
        outb 4 0x1E (
          outb 4 0x0B
            (outb 2 0xC7 (outb 3 0x03 (outb 1 0x00 (outb 0 0x03 (outb 3 0x80 (outb 1 0x01 s))))))))
    let (s2, answer) = inb 0 s1
    assert (answer == 0xAE)
    ok (outb 4 0x0F s2)
