-- ===== src/Serial/Tests.antt =====
-- The serial port's theorem at a device that is busy at every other read, and a test of the set-up.
use neur_os.Common.{
  ◌≡◌, refl, ℕ, ◌%◌, codes, [], ◌∷◌, ◌++◌, ok, ◌==◌, if◌then◌else◌, Bool-cases, inl, inr, arith,
  panic, assert_failed,
}
use neur_os.Serial.{Device, new, write_str, initialize}
use neur_os.Serial.Sending.{Answers, after, line_bytes, write_str-Answers}

abbrev device : Device
device offset k = if k % 2 == 0 then 0 else 0x21

device-Answers : Answers device 0x20 2
device-Answers k = elim (Bool-cases (k % 2 == 0)) [
  | inl e ↦ (1, omega arith, ground arith)
  | inr e ↦ (0, omega arith, ground arith)
]

sending_test :
    (reads : ℕ) × (write_str device 2 (codes "ok" ++ (10 ∷ [])) new
      ≡ ok (after new reads (line_bytes (codes "ok" ++ (10 ∷ [])))))
sending_test = write_str-Answers device 2 (codes "ok" ++ (10 ∷ [])) new device-Answers

-- A port that does not answer with what was sent to it.
initialize_test : initialize device new ≡ panic assert_failed
unfolding initialize
initialize_test = refl
