-- ===== src/Main/Boot.antt =====
-- kernel/src/main.rs: from the start of the kernel on, through any sequence of interrupts.
use neur_os.Common.{
  ◌*◌, length, ◌≡◌, refl, ap, ◌∙◌, ℕ, ◌+◌, ◌%◌, ◌^◌, List, [], ◌++◌, map, true, ok, arith, Whenever,
  Whenever-bind, Whenever-ok,
}
use neur_os.Logger.Growth.{Grows}
use neur_os.Logger
use neur_os.Scheduler.Reach.{Reach, boot, IsValid, Reach-IsValid}
use neur_os.Initrd.Archive
use neur_os.Gdt.{Processor}
use neur_os.Gdt
use neur_os.Memory.Start
use neur_os.Smp
use neur_os.Intro
use neur_os.Userspace
use neur_os.Vga.Screen.{vga_static}
use neur_os.Machine.{Machine, Event, run}
use neur_os.Machine.Events.{vector, ticks_in, run-Follows}
use neur_os.Main.{Given, Started, shell_initialize, kmain}

-- What `kmain` has set up: one process, a clock at zero, no interrupt so far, and interrupts on.
pub record IsFresh {Segments Table : Type 0} (s : Started Segments Table) : Type 0 where
  pub reach : Reach s.machine.scheduler
  pub clock : s.machine.clock.elapsed ≡ 0
  pub ended : s.machine.ended ≡ []
  pub interrupts : s.interrupts ≡ true

module _ {Segments Table : Type 0} (g : Given Segments Table) (fuel : ℕ) where
  pub kmain-IsFresh : (p : Processor Segments) → Whenever IsFresh (kmain g fuel p)
  unfolding kmain
  kmain-IsFresh p = Whenever-bind IsFresh (Gdt.initialize g.new_segments g.append p) _ (λ p' _.
      Whenever-bind IsFresh (Start.initialize g.paging g.answers) _ (λ memory _.
        Whenever-bind IsFresh (Smp.initialize g.cpus Logger.new) _ (λ l₁ _.
          Whenever-bind IsFresh (Archive.new g.ramdisk l₁) _ (λ r _.
            Whenever-bind IsFresh (vga_static r.0 g.framebuffers) _ (λ vga _.
              Whenever-bind IsFresh (Intro.initialize g.build r.0 vga) _ (λ vga' _.
                Whenever-bind IsFresh (shell_initialize g.register fuel r.0) _ (λ console _.
                  Whenever-bind IsFresh
                    (Userspace.initialize g.new_segments g.append g.star_accepts p') _
                    (λ p'' _. record {
                      reach = boot (Archive.initialize r.0 r.1);
                      clock = refl;
                      ended = refl;
                      interrupts = refl;
                    }))))))))

  -- When the kernel has started and the handlers of any sequence of interrupts have returned, the
  -- scheduler is valid, the clock counts the timer's interrupts, and the PICs have been told of each.
  pub boot-run :
      (p : Processor Segments) (s : Started Segments Table) (events : List Event) (m : Machine)
      → kmain g fuel p ≡ ok s
      → run g.register fuel events s.machine ≡ ok m
      → (s.interrupts ≡ true)
        × IsValid m.scheduler
        × (m.clock.elapsed ≡ ticks_in events % 2 ^ 32)
        × (m.ended ≡ map vector events)
        × (m.initrd ≡ s.machine.initrd)
        × Grows (2 * length events) s.machine.logger m.logger
  boot-run p s events m started ran =
      let fresh = Whenever-ok IsFresh (kmain g fuel p) s (kmain-IsFresh p) started in
      let clock = fresh.clock in
      let f = run-Follows g.register fuel events s.machine m fresh.reach (omega arith) ran in
      (
        fresh.interrupts,
        Reach-IsValid f.reach,
        f.clock
            ∙ ap (λ k. (k + ticks_in events) % 2 ^ 32) clock
            ∙ ap (λ k. k % 2 ^ 32) {y = ticks_in events} (omega arith),
        f.ended ∙ ap (λ k. k ++ map vector events) fresh.ended,
        f.initrd,
        f.logger,
      )
