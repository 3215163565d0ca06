-- ===== src/Shell/Commands.antt =====
-- kernel/src/shell.rs: what an entered line does.
use neur_os.Common.{
  ◌==◌, Bool-cases, inl, inr, ◌≡◌, ◌≢◌, refl, ap, sym, ◌∙◌, ℕ, Text, codes, show, [], ◌∷◌, ◌++◌,
  All, true, false, some, ok, ◌>>=◌, append-nil, append_assoc, is_whitespace, split_once,
  split_once_from,
}
use neur_os.Ansi
use neur_os.Scheduler.{Scheduler}
use neur_os.Scheduler.Reach.{Reach, next, forks, fork-fresh}
use neur_os.Syscall
use neur_os.Shell.{
  Shell, System, Command, echo, fork, help, id, logs, pwd, readelf, reboot, shutdown, time, unknown,
  command_of, run, split_line, interpret, enter, backspace, line,
}

abbrev pub Solid : ℕ → Type 0
Solid c = is_whitespace c ≡ false

split_once_from-word :
    (before word : Text) (w : ℕ) (rest : Text)
    → All Solid word
    → is_whitespace w ≡ true
    → split_once_from before (word ++ (w ∷ rest)) ≡ some (before ++ word, rest)
unfolding split_once_from
split_once_from-word before [] w rest solid h =
    rw (h, split_once_from) (ap (λ b. some (b, rest)) (sym (append-nil before)))
split_once_from-word before (c ∷ word) w rest solid h =
    rw (solid.0, split_once_from)
      (split_once_from-word (before ++ (c ∷ [])) word w rest solid.1 h
        ∙ ap (λ b. some (b, rest)) (append_assoc before (c ∷ []) word))

-- The first whitespace of a line ends the command's word; the rest is the argument as it stands.
pub split_line-word :
    (word : Text) (w : ℕ) (argument : Text)
    → All Solid word
    → is_whitespace w ≡ true
    → split_line (word ++ (w ∷ argument)) ≡ (word, argument)
unfolding split_line split_once
split_line-word word w argument solid h =
    rw (split_once_from-word [] word w argument solid h, split_line)

-- All commands but `readelf` return, whatever the argument, and keep the scheduler reachable.
run-returns :
    (c : Command) (argument : Text) (s : Shell) (y : System)
    → c ≢ readelf
    → Reach y.scheduler
    → (scheduler : Scheduler) × (out : Text) × (run c argument s y
        ≡ ok (record y { scheduler = scheduler }, out))
      × Reach scheduler
unfolding run Syscall.call
run-returns readelf argument s y h r = absurd (h refl)
run-returns fork argument s y h r =
    let f = fork-fresh r in
    (
      f.0,
      line (codes "Created child process with ID #" ++ (show f.1 ++ codes ".")),
      rw f.3,
      next r (forks f.1 f.3),
    )
run-returns echo argument s y h r = (y.scheduler, _, refl, r)
run-returns help argument s y h r = (y.scheduler, _, refl, r)
run-returns id argument s y h r = (y.scheduler, _, refl, r)
run-returns logs argument s y h r = (y.scheduler, _, refl, r)
run-returns pwd argument s y h r = (y.scheduler, _, refl, r)
run-returns reboot argument s y h r = (y.scheduler, _, refl, r)
run-returns shutdown argument s y h r = (y.scheduler, _, refl, r)
run-returns time argument s y h r = (y.scheduler, _, refl, r)
run-returns unknown argument s y h r = (y.scheduler, _, refl, r)

-- Whatever the character, `interpret` returns where the line that is typed so far is not a
-- `readelf`. It changes of the system the scheduler alone, which stays in its reachable states.
pub interpret-returns :
    (c : ℕ) (s : Shell) (y : System)
    → command_of (split_line s.buffer).0 ≢ readelf
    → Reach y.scheduler
    → (s' : Shell) × (scheduler : Scheduler) × (out : Text) × (interpret c s y
        ≡ ok (s', record y { scheduler = scheduler }, out))
      × Reach scheduler
unfolding interpret enter
interpret-returns c s y h r = elim (Bool-cases (c == 13)) [
  | inl e ↦
      let line' = split_line s.buffer in
      let f = run-returns (command_of line'.0) line'.1 s y h r in
      (
        record s { buffer = [] },
        f.0,
        line Ansi.normal ++ (f.1 ++ s.prompt),
        rw (e, interpret) (rw (f.2, ◌>>=◌)),
        f.3,
      )
  | inr e ↦ elim (Bool-cases (c == 8)) [
    | inl e' ↦
        ((backspace s).0, y.scheduler, (backspace s).1, rw (e, interpret) (rw (e', interpret)), r)
    | inr e' ↦ (
      record s { buffer = s.buffer ++ (c ∷ []) },
      y.scheduler,
      c ∷ [],
      rw (e, interpret) (rw (e', interpret)),
      r,
    )
  ]
]

-- `echo` writes its argument as it was typed, and a new prompt, and leaves the system alone.
pub enter-echo :
    (argument : Text) (w : ℕ) (s : Shell) (y : System)
    → is_whitespace w ≡ true
    → enter (record s { buffer = codes "echo" ++ (w ∷ argument) }) y
      ≡ ok (record s { buffer = [] }, y, line Ansi.normal ++ (line argument ++ s.prompt))
unfolding enter run
enter-echo argument w s y h =
    rw (split_line-word (codes "echo") w argument (refl, (refl, (refl, (refl, tt)))) h)
