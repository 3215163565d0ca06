-- ===== src/Locks/Panics.antt =====
-- kernel/src/main.rs: the handler of panics, with the locks that it takes.
use neur_os.Common.{◌≡◌, refl, ap, ◌∙◌, ℕ, zero, suc, true, false, Bool-cases, inl, inr, ◌⊎◌}
use neur_os.Locks.{
  logger, initrd, vga, made, State, Script, done, lock, End, returns, panics, waits, and_then,
  with_held, IsSpin,
}
use neur_os.Locks.Spin.{exec, run-every, exec-IsSpin}
use neur_os.Locks.Scripts.{
  log_lines, get_files, lock_logger, panic, may_panic, Faults, archive, file, character,
}

-- The ramdisk, the screen and the log are there.
pub record IsSetUp (σ : State) : Type 0 where
  pub initrd : (σ initrd).progress ≡ made
  pub vga : (σ vga).progress ≡ made
  pub logger : (σ logger).progress ≡ made

get_files-made :
    (files : ℕ) (faults : Faults) (n : ℕ) (after : Script) (σ : State)
    → (σ initrd).progress ≡ made
    → faults file ≡ false
    → exec (get_files files faults n after) σ ≡ exec after σ
get_files-made files faults zero after σ h there = refl
get_files-made files faults (suc n) after σ h there =
    exec-IsSpin.lazy_made initrd (log_lines files (may_panic (faults archive) done))
      (may_panic (faults file) (get_files files faults n after)) σ h
    ∙ ap (λ b. exec (may_panic b (get_files files faults n after)) σ) there
    ∙ get_files-made files faults n after σ h there

-- The log as it is drawn, and what comes before it: the last line, put behind the log.
abbrev shown : (files : ℕ) → Faults → (fonts : ℕ) → Script
shown files faults fonts = get_files files faults fonts (may_panic (faults character) done)

abbrev write_log : (files : ℕ) → Faults → (fonts : ℕ) → Script
write_log files faults fonts = log_lines 1 (lock_logger (shown files faults fonts) done)

-- The handler once it has the screen.
abbrev panic_body : (files : ℕ) → Faults → (fonts : ℕ) → Script
panic_body files faults fonts = get_files files faults 2 (write_log files faults fonts)

-- The log locked for its last line, given back, and locked again to be drawn.
abbrev drawing : State → State
drawing σ = with_held true logger (with_held false logger (with_held true logger σ))

module _ (files : ℕ) (faults : Faults) (fonts : ℕ) (there : faults file ≡ false) (σ : State)
    (h : IsSetUp σ) where
  -- With the log free, all comes down to the drawing of its characters.
  write_log-free :
      (σ logger).held ≡ false
      → exec (write_log files faults fonts) σ
        ≡ and_then
            (exec (may_panic (faults character) done) (drawing σ))
            (λ σ'. exec done (with_held false logger σ'))
  unfolding exec
  write_log-free free =
      let shown' = shown files faults fonts in
      let σ₁ = with_held true logger σ in
      let σ₂ = with_held false logger σ₁ in
      exec-IsSpin.lazy_made logger done (lock logger done (lock_logger shown' done)) σ h.logger
      ∙ exec-IsSpin.lock_free logger done (lock_logger shown' done) σ free
      ∙ exec-IsSpin.lazy_made logger done (lock logger shown' done) σ₂ h.logger
      ∙ exec-IsSpin.lock_free logger shown' done σ₂ refl
      ∙ ap (λ e. and_then e (λ σ'. exec done (with_held false logger σ')))
          (get_files-made files faults fonts (may_panic (faults character) done) (drawing σ)
            h.initrd there)

  -- The lines that `fatal!` and the loop write wait for the log if that is held.
  write_log-waits : (σ logger).held ≡ true → exec (write_log files faults fonts) σ ≡ waits logger
  write_log-waits held =
      let after = lock_logger (shown files faults fonts) done in
      exec-IsSpin.lazy_made logger done (lock logger done after) σ h.logger
      ∙ exec-IsSpin.lock_held logger done after σ held

-- One who finds the screen held waits for it, whatever else holds.
panic-held :
    (files : ℕ) (faults : Faults) (fonts : ℕ) (σ : State)
    → (σ vga).progress ≡ made
    → (σ vga).held ≡ true
    → exec (panic files faults fonts) σ ≡ waits vga
panic-held files faults fonts σ h held =
    let body = panic_body files faults fonts in
    exec-IsSpin.lazy_made vga (get_files files faults 1 done) (lock vga body done) σ h
    ∙ exec-IsSpin.lock_held vga body done σ held

-- With the screen free, the handler goes on in its body.
panic-free :
    (files : ℕ) (faults : Faults) (fonts : ℕ) (σ : State)
    → IsSetUp σ
    → faults file ≡ false
    → (σ vga).held ≡ false
    → exec (panic files faults fonts) σ
      ≡ and_then
          (exec (write_log files faults fonts) (with_held true vga σ))
          (λ σ'. exec done (with_held false vga σ'))
panic-free files faults fonts σ h there unheld =
    let body = panic_body files faults fonts in
    exec-IsSpin.lazy_made vga (get_files files faults 1 done) (lock vga body done) σ h.vga
    ∙ exec-IsSpin.lock_free vga body done σ unheld
    ∙ ap (λ e. and_then e (λ σ'. exec done (with_held false vga σ')))
        (get_files-made files faults 2 (write_log files faults fonts) (with_held true vga σ)
          h.initrd there)

-- The end of the handler of panics: it waits for the screen if that is held, else for the log if that
-- is held. With both free it panics again if it cannot draw a character, so that the handler of that
-- panic waits for the screen; else it returns.
abbrev pub PanicEnds : (files : ℕ) → Faults → (fonts : ℕ) → State → (Script → State → End) → Type 0
PanicEnds files faults fonts σ run =
    (((σ vga).held ≡ true) × (run (panic files faults fonts) σ ≡ waits vga))
    ⊎ ((((σ vga).held ≡ false)
          × ((σ logger).held ≡ true)
          × (run (panic files faults fonts) σ ≡ waits logger))
        ⊎ ((((σ vga).held ≡ false)
              × ((σ logger).held ≡ false)
              × (faults character ≡ true)
              × (ρ : State) × (run (panic files faults fonts) σ ≡ panics ρ)
              × ((faults' : Faults) (fonts' : ℕ) → run (panic files faults' fonts') ρ ≡ waits vga))
            ⊎ (((σ vga).held ≡ false)
                × ((σ logger).held ≡ false)
                × (faults character ≡ false)
                × (σ' : State) × (run (panic files faults fonts) σ ≡ returns σ'))))

exec-panic :
    (files : ℕ) (faults : Faults) (fonts : ℕ) (σ : State)
    → IsSetUp σ
    → faults file ≡ false
    → PanicEnds files faults fonts σ exec
unfolding exec
exec-panic files faults fonts σ h there =
    let σ₁ = with_held true vga σ in
    let h₁ : IsSetUp σ₁ = record { initrd = h.initrd; vga = h.vga; logger = h.logger } in
    elim (Bool-cases (σ vga).held) [
      | inl held ↦ inl (held, panic-held files faults fonts σ h.vga held)
      | inr unheld ↦
          let body = panic-free files faults fonts σ h there unheld in
          elim (Bool-cases (σ logger).held) [
            | inl logging ↦ inr (
                inl (
                  unheld,
                  logging,
                  rw (body, write_log-waits files faults fonts there σ₁ h₁ logging, and_then) refl,
                ))
            | inr free ↦
                let written = write_log-free files faults fonts there σ₁ h₁ free in
                elim (Bool-cases (faults character)) [
                  | inl strange ↦ inr (
                      inr (
                        inl (
                          unheld,
                          free,
                          strange,
                          drawing σ₁,
                          rw (body, written, strange, may_panic, exec) refl,
                          λ faults' fonts'. panic-held files faults' fonts' (drawing σ₁) h.vga refl,
                        )))
                  | inr known ↦ inr (
                      inr (
                        inr (
                          unheld,
                          free,
                          known,
                          with_held false vga (with_held false logger (drawing σ₁)),
                          rw (body, written, known, may_panic, exec) refl,
                        )))
                ]
          ]
    ]

-- Once the kernel is set up, and with the files of the fonts there, the handler of a panic waits for
-- ever for the screen if the code that panicked was drawing, else for ever for the log if that code had
-- it locked. With both free it comes to its halt if the font has all characters that it draws; if not,
-- it panics again, and the handler of that panic waits for ever for the screen. The locks and the lazy
-- statics are as the spin crate documents them.
pub panic_lem :
    (run : Script → State → End)
    → IsSpin run
    → (files : ℕ) (faults : Faults) (fonts : ℕ) (σ : State) → IsSetUp σ
    → faults file ≡ false
    → PanicEnds files faults fonts σ run
panic_lem run spin files faults fonts σ h there =
    run-every run spin (PanicEnds files faults fonts σ) (exec-panic files faults fonts σ h there)
