-- ===== src/Smp.antt =====
-- kernel/src/smp.rs: the count of the processor's cores, of the boot loader's answer.
use neur_os.Common.{ℕ, codes, show, List, ◌++◌, length, Option, Outcome, ok, unwrap, ◌>>=◌}
use neur_os.Logger.{Logger}
use neur_os.Logger.Macros

unfoldable pub initialize : Option (List ℕ) → Logger → Outcome Logger
initialize cpus l = do
  found ← unwrap cpus
  let count = length found
  ok (
      Macros.debug (codes "Detected that the processor has " ++ (show count ++ codes " core(s)."))
        l)
