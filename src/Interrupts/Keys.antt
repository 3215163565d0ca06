-- ===== src/Interrupts/Keys.antt =====
-- kernel/src/interrupts.rs: `keyboard_handler`.
use neur_os.Common.{ℕ, List, [], ◌∷◌, ◌++◌, Outcome, ok, ◌>>=◌}
use neur_os.Logger.{Logger}
use neur_os.Initrd.Archive.{Initrd}
use neur_os.Keyboard.{Screen, interpret}
use neur_os.Interrupts.{index, keyboard}

-- The state that the handler works on. `ended` is what the PICs have been told.
pub record Desk : Type 0 where
  pub screen : Screen
  pub logger : Logger
  pub ended : List ℕ

unfoldable pub keyboard_handler : ℕ → Initrd → Desk → Outcome Desk
unfolding interpret
keyboard_handler scan_code i d = do
  (screen, logger) ← interpret scan_code i d.screen d.logger
  ok (record { screen = screen; logger = logger; ended = d.ended ++ (index keyboard ∷ []) })
