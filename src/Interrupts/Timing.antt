-- ===== src/Interrupts/Timing.antt =====
-- The table against the masks, and what any number of timer interrupts does.
use neur_os.Common.{
  ℕ, zero, suc, ◌+◌, ◌%◌, ◌^◌, ◌<◌, ◌≡◌, refl, ◌∙◌, sym, [], ◌∷◌, ◌++◌, append_assoc, append-nil,
  replicate, ok, Option, none, some, Bool, true, false, arith, passes_below, passes_below→test,
  bool_eq, bool_eq→eq,
}
use neur_os.Timer.{increment}
use neur_os.Scheduler.{tick, ticks}
use neur_os.Scheduler.RoundRobin.{ticked, tick_lem}
use neur_os.Interrupts.{
  Kernel, idt, unmasked, pic_1_offset, timer_handler, timer_handlers, index, timer,
}

abbrev is_some {ℓ} : {A : Type ℓ} → Option A → Bool
is_some none = false
is_some (some a) = true

unmasked_table :
    passes_below (λ irq. bool_eq (unmasked irq) (is_some (idt (pic_1_offset + irq)))) 16 ≡ true
unfolding passes_below unmasked idt
unmasked_table = refl

-- Of the sixteen interrupt lines the PICs let through exactly those for which the table has a
-- handler, at the vector that the line is mapped to.
pub unmasked-idt : (irq : ℕ) → irq < 16 → unmasked irq ≡ is_some (idt (pic_1_offset + irq))
unmasked-idt irq h = bool_eq→eq _ _ (
    passes_below→test (λ irq. bool_eq (unmasked irq) (is_some (idt (pic_1_offset + irq)))) 16 irq h
      unmasked_table)

timer_handler_lem :
    (k : Kernel) (s : _) (l : _)
    → tick k.scheduler k.logger ≡ ok (s, l)
    → timer_handler k
      ≡ ok (record k {
        clock = increment k.clock;
        scheduler = s;
        logger = l;
        ended = k.ended ++ (index timer ∷ []);
      })
unfolding timer_handler
timer_handler_lem k s l e = rw e refl

-- `n` timer interrupts never panic: the clock advances by `n`, around 2 ^ 32, the scheduler has
-- had `n` ticks, and the PIC has been told `n` times, each time for the timer's vector.
pub timer_handlers_lem :
    (n : ℕ) (k : Kernel)
    → k.clock.elapsed < 2 ^ 32
    → (k' : Kernel) × (timer_handlers n k ≡ ok k')
      × (k'.clock.elapsed ≡ (k.clock.elapsed + n) % 2 ^ 32)
      × (ticks n k.scheduler k.logger ≡ ok (k'.scheduler, k'.logger))
      × (k'.ended ≡ k.ended ++ replicate n (index timer))
unfolding timer_handlers ticks increment
timer_handlers_lem zero k h = (k, refl, omega arith, refl, sym (append-nil k.ended))
timer_handlers_lem (suc n) k h =
    let (l, e) = tick_lem k.scheduler k.logger in
    let k₁ : Kernel = record k {
      clock = increment k.clock;
      scheduler = ticked k.scheduler;
      logger = l;
      ended = k.ended ++ (index timer ∷ []);
    } in
    let (k', r, c, t, d) = timer_handlers_lem n k₁ (omega arith) in
    (
      k',
      rw (timer_handler_lem k _ l e) r,
      omega (arith, c),
      rw e t,
      d ∙ append_assoc k.ended (index timer ∷ []) (replicate n (index timer)),
    )
