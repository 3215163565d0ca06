-- ===== src/Logger/Growth.antt =====
-- kernel/src/logger.rs: the log keeps its lines.
use neur_os.Common.{
  ℕ, suc, ◌+◌, ◌≤◌, length, length-append, arith, ◌≡◌, refl, ap, sym, ◌∙◌, Text, List, [], ◌∷◌,
  ◌++◌, append-nil, append_assoc,
}
use neur_os.Logger.{Logger, Level, Log, log}

-- The second log has the lines of the first, and at most `n` more behind them.
pub record Grows (n : ℕ) (l l' : Logger) : Type 0 where
  pub more : List Log
  pub kept : l'.logs ≡ l.logs ++ more
  pub few : length more ≤ n

pub Grows-refl : (n : ℕ) (l : Logger) → Grows n l l
Grows-refl n l = record { more = []; kept = sym (append-nil l.logs); few = omega arith }

pub Grows-trans : {a b n : ℕ} {l m k : Logger} → a + b ≤ n → Grows a l m → Grows b m k → Grows n l k
Grows-trans {l} h g f = record {
  more = g.more ++ f.more;
  kept = f.kept ∙ ap (λ k. k ++ f.more) g.kept ∙ append_assoc l.logs g.more f.more;
  few = omega (arith, h, g.few, f.few, length-append g.more f.more);
}

pub log-Grows :
    (n : ℕ) (level : Level) (message : Text) (l : Logger) → Grows (suc n) l (log level message l)
unfolding log
log-Grows n level message l = record {
  more = record { level = level; message = message } ∷ [];
  kept = refl;
  few = omega arith;
}
