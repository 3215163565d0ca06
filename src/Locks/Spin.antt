-- ===== src/Locks/Spin.antt =====
-- The spin crate: a function that does what it documents.
use mathlib.Core.Path.{subst, fun_ext}
use neur_os.Common.{◌≡◌, refl, sym, ap, ◌∙◌, true, false, Bool-cases, inl, inr, ◌⊎◌}
use neur_os.Locks.{
  Progress, fresh, running, made, State, Script, done, fail, lazy, lock, End, returns, panics,
  waits, and_then, with_progress, with_held, IsSpin,
}

unfoldable pub exec : Script → State → End
exec done σ = returns σ
exec fail σ = panics σ
exec (lazy s closure after) σ = elim (σ s).progress [
  | made ↦ exec after σ
  | running ↦ waits s
  | fresh ↦
      and_then (exec closure (with_progress running s σ))
        (λ σ'. exec after (with_progress made s σ'))
]
exec (lock s body after) σ = elim (σ s).held [
  | true ↦ waits s
  | false ↦ and_then (exec body (with_held true s σ)) (λ σ'. exec after (with_held false s σ'))
]

pub Progress-cases : (p : Progress) → (p ≡ fresh) ⊎ ((p ≡ running) ⊎ (p ≡ made))
Progress-cases fresh = inl refl
Progress-cases running = inr (inl refl)
Progress-cases made = inr (inr refl)

pub exec-IsSpin : IsSpin exec
unfolding exec
exec-IsSpin = record {
  at_end = λ σ. refl;
  at_fail = λ σ. refl;
  lazy_made = λ s closure after σ h. rw (h, exec) refl;
  lazy_running = λ s closure after σ h. rw (h, exec) refl;
  lazy_fresh = λ s closure after σ h. rw (h, exec) refl;
  lock_held = λ s body after σ h. rw (h, exec) refl;
  lock_free = λ s body after σ h. rw (h, exec) refl;
}

module _ (run : Script → State → End) (spin : IsSpin run) where
  run-exec : (p : Script) (σ : State) → run p σ ≡ exec p σ
  run-exec done σ = spin.at_end σ ∙ sym (exec-IsSpin.at_end σ)
  run-exec fail σ = spin.at_fail σ ∙ sym (exec-IsSpin.at_fail σ)
  run-exec (lazy s closure after) σ = elim (Progress-cases (σ s).progress) [
    | inl new ↦
        spin.lazy_fresh s closure after σ new
        ∙ ap (λ e. and_then e (λ σ'. run after (with_progress made s σ')))
            (run-exec closure (with_progress running s σ))
        ∙ ap (and_then (exec closure (with_progress running s σ)))
            (fun_ext (λ σ'. run-exec after (with_progress made s σ')))
        ∙ sym (exec-IsSpin.lazy_fresh s closure after σ new)
    | inr (inl busy) ↦
        spin.lazy_running s closure after σ busy
        ∙ sym (exec-IsSpin.lazy_running s closure after σ busy)
    | inr (inr ready) ↦
        spin.lazy_made s closure after σ ready
        ∙ run-exec after σ
        ∙ sym (exec-IsSpin.lazy_made s closure after σ ready)
  ]
  run-exec (lock s body after) σ = elim (Bool-cases (σ s).held) [
    | inl held ↦
        spin.lock_held s body after σ held ∙ sym (exec-IsSpin.lock_held s body after σ held)
    | inr unheld ↦
        spin.lock_free s body after σ unheld
        ∙ ap (λ e. and_then e (λ σ'. run after (with_held false s σ')))
            (run-exec body (with_held true s σ))
        ∙ ap (and_then (exec body (with_held true s σ)))
            (fun_ext (λ σ'. run-exec after (with_held false s σ')))
        ∙ sym (exec-IsSpin.lock_free s body after σ unheld)
  ]

  -- What holds of one such function holds of all.
  pub run-every : (P : (Script → State → End) → Type 0) → P exec → P run
  run-every P h = subst P (sym (fun_ext (λ p. fun_ext (λ σ. run-exec p σ)))) h
