-- ===== src/Initrd/Archive.antt =====
-- kernel/src/initrd.rs: `Initrd::new`, `get_files` and `get_data`.
pub mod Lookup
pub mod Ends
use neur_os.Common.{
  ℕ, zero, suc, ◌+◌, ◌*◌, ◌/◌, ◌%◌, Text, codes, show, List, [], ◌∷◌, ◌++◌, length, drop, replicate,
  list_eq, Option, none, some, Outcome, ok, panic, stuck, unwrap, ◌>>=◌, Bool, true, false, ◌==◌,
  if◌then◌else◌,
}
use mathlib.Core.Option
use neur_os.Logger.Macros
use neur_os.Logger.{Logger, log}
use neur_os.Initrd.Block.{
  Header, File, parse_block, parse_data, parse_header, parse_string, parse_integer, parse_octal,
}
use neur_os.Initrd.Display.{fmt}

abbrev pub block_size : ℕ
block_size = 512

abbrev pub eof_block : List ℕ
eof_block = replicate block_size 0

-- `!= EOF_BLOCK`, negated
unfoldable pub is_eof : List ℕ → Bool
is_eof block = list_eq block eof_block

pub record Initrd : Type 0 where
  pub files : List File

-- `u32::div_ceil`
abbrev pub div_ceil : ℕ → ℕ → ℕ
div_ceil n d = if n % d == 0 then n / d else n / d + 1

-- The two branches of the loop's body: the file, and the address after it.
unfoldable pub load_file : List ℕ → Outcome (File × List ℕ)
load_file address = do
  header ← parse_header address
  let next = drop block_size address
  if header.size == 0 then ok (record { header = header; contents = [] }, next) else (do
    contents ← parse_data next header.size
    ok (
      record { header = header; contents = contents },
      drop (block_size * div_ceil header.size block_size) next,
    ))

-- The loop of `Initrd::new`, with fuel. The files found are written to the log.
unfoldable pub load_files : ℕ → List ℕ → List File → Logger → Outcome (List File × Logger)
load_files zero address files l = panic stuck
load_files (suc fuel) address files l = do
  block ← parse_block address block_size
  elim (is_eof block) [
    | true ↦ ok (files, l)
    | false ↦ do
      (file, next) ← load_file address
      line ← fmt file
      load_files fuel next (files ++ (file ∷ [])) (Macros.trace line l)
  ]

-- `Initrd::new`, of the first module that the boot loader passes. Each round goes on by a block at
-- least, so the fuel is enough.
unfoldable pub new : List ℕ → Logger → Outcome (Initrd × Logger)
unfolding load_files is_eof load_file parse_header parse_data parse_block parse_string parse_integer
    parse_octal fmt log
new module_bytes l = do
  (files, l') ← load_files (suc (length module_bytes)) module_bytes [] l
  ok (record { files = files }, l')

-- `initialize`, once the lazy `INITRD` has been made.
unfoldable pub initialize : Initrd → Logger → Logger
initialize i l =
    Macros.debug
      (codes "Loaded " ++ (show (length i.files) ++ codes " files from the initial ramdisk.")) l

abbrev pub get_files : Initrd → List File
get_files i = i.files

-- `.iter().find(|x| x.header.name == path)`
unfoldable pub find_file : Text → List File → Option File
find_file path [] = none
find_file path (f ∷ fs) = if list_eq f.header.name path then some f else find_file path fs

-- `Initrd::get_data`
unfoldable pub get_data : Initrd → Text → Outcome (List ℕ)
unfolding find_file
get_data i path = do file ← unwrap (find_file path i.files); ok file.contents
