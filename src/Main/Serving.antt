-- ===== src/Main/Serving.antt =====
-- kernel/src/main.rs: the kernel from its start on, through uses that neither read an executable nor
-- draw.
mod Tests
use neur_os.Logger.Growth.{Grows}
use neur_os.Common.{
  ◌*◌, length, ◌≡◌, refl, ap, sym, ◌∙◌, ℕ, ◌+◌, ◌-◌, ◌/◌, ◌%◌, ◌^◌, ◌<◌, ◌≤◌, List, [], ◌∷◌, ◌++◌,
  map, true, some, none, Option, Outcome, ok, panic, arith, Whenever-ok,
}
use mathlib.Core.Option.{some-injective}
use neur_os.Initrd.Archive.{Initrd}
use neur_os.Memory.Pages.{Mapped}
use neur_os.Serial.Sending.{Answers}
use neur_os.Scheduler.Reach.{IsValid, Reach-IsValid}
use neur_os.Gdt.{Processor}
use neur_os.Shell.{Shell}
use neur_os.Machine.{Machine, Event, run}
use neur_os.Machine.Events.{Follows, vector, ticks_in}
use neur_os.Machine.Session.{AllHarmless, run-AllHarmless}
use neur_os.Main.{Given, Started, kmain}
use neur_os.Main.Boot.{IsFresh, kmain-IsFresh}
use neur_os.Main.Needs.{IsAnswered, IsFurnished, IsConnected}
use neur_os.Main.Returns.{IsStarted, kmain-IsStarted}

module _ {Segments Table : Type 0} (g : Given Segments Table) (fuel : ℕ) where
  -- Where the serial port does not hang, for reading as for writing, the kernel that `kmain` has
  -- started goes on through any sequence of timer, serial and keyboard interrupts in which no line
  -- that the console holds when a character comes is a `readelf` and no key is ENTER: all handlers
  -- return, the queue of the scheduler is valid, the clock is the count of the timer interrupts modulo
  -- 2 ^ 32, the PICs have been told of each end once, in order, and the log has
  -- at most two more lines for each interrupt. The heap has room for them.
  pub kmain-serves :
      (p : Processor Segments) (s : Started Segments Table) (events : List Event)
      → Answers g.register 1 fuel
      → Answers g.register 0x20 fuel
      → kmain g fuel p ≡ ok s
      → AllHarmless g.register fuel events s.machine
      → (m : Machine) × (run g.register fuel events s.machine ≡ ok m)
        × IsValid m.scheduler
        × (m.clock.elapsed ≡ ticks_in events % 2 ^ 32)
        × (m.ended ≡ map vector events)
        × Grows (2 * length events) s.machine.logger m.logger
  kmain-serves p s events received empty started harmless =
      let fresh = Whenever-ok IsFresh (kmain g fuel p) s (kmain-IsFresh g fuel p) started in
      let clock = fresh.clock in
      let (m, ran, follows) =
        run-AllHarmless g.register fuel received empty events s.machine harmless fresh.reach
          (omega arith) in
      (
        m,
        ran,
        Reach-IsValid follows.reach,
        follows.clock
            ∙ ap (λ k. (k + ticks_in events) % 2 ^ 32) clock
            ∙ ap (λ k. k % 2 ^ 32) {y = ticks_in events} (omega arith),
        follows.ended ∙ ap (λ k. k ++ map vector events) fresh.ended,
        follows.logger,
      )
