-- ===== src/Initrd/Display.antt =====
-- kernel/src/initrd.rs: `File::parse_permission` and `File::fmt`.
pub mod Modes
use Prim.Native.Nat.{bit_and}
use neur_os.Common.{
  ℕ, Text, codes, show, List, [], ◌∷◌, ◌++◌, get_elem?, Outcome, ok, unwrap, in_bounds, ◌>>=◌,
  to_digit, ◌==◌, if◌then◌else◌,
}
use neur_os.Initrd.Timestamp.{parse_timestamp}
use neur_os.Initrd.Block.{Header, File}

-- `File::parse_permission`
unfoldable pub parse_permission : ℕ → Text
parse_permission digit =
    let read = if bit_and digit 0b100 == 0b100 then b'r' else b'-' in
    let write = if bit_and digit 0b010 == 0b010 then b'w' else b'-' in
    let execute = if bit_and digit 0b001 == 0b001 then b'x' else b'-' in read ∷ write ∷ execute ∷ []

-- `.chars().map(|x| x.to_digit(10).unwrap()).collect()`
unfoldable pub digits_of : Text → Outcome (List ℕ)
digits_of [] = ok []
digits_of (c ∷ cs) = do d ← unwrap (to_digit 10 c); ds ← digits_of cs; ok (d ∷ ds)

-- The permissions that `fmt` writes, from the decimal digits of the mode.
unfoldable pub permissions : Header → Outcome Text
permissions h = do
  let flag = if h.flag == 5 then b'd' else b'-'
  digits ← digits_of (show h.mode)
  owner ← in_bounds (get_elem? digits 0)
  group ← in_bounds (get_elem? digits 1)
  other ← in_bounds (get_elem? digits 2)
  ok (flag ∷ (parse_permission owner ++ (parse_permission group ++ parse_permission other)))

-- `File::fmt`
unfoldable pub fmt : File → Outcome Text
unfolding permissions digits_of to_digit parse_permission show parse_timestamp
fmt f = do
  permissions ← permissions f.header
  timestamp ← parse_timestamp f.header.mtime
  ok (
      permissions
      ++ (codes " "
          ++ (f.header.username
              ++ (codes "/"
                  ++ (f.header.group
                      ++ (codes " "
                          ++ (show f.header.size
                              ++ (codes " " ++ (timestamp ++ (codes " " ++ f.header.name))))))))))
