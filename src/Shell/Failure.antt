-- ===== src/Shell/Failure.antt =====
-- kernel/src/shell.rs: a command that stops the kernel.
use neur_os.Common.{
  ◌≡◌, refl, Text, codes, ◌∷◌, ◌++◌, ℕ, All, true, panic, unwrap_failed, is_whitespace,
}
use neur_os.Initrd.Archive.Lookup.{Unlike, get_data-panics}
use neur_os.Elf.{elf_new}
use neur_os.Shell.{Shell, System, run, enter}
use neur_os.Shell.Commands.{split_line-word}

-- `readelf` of a name that no file has makes the kernel panic.
pub enter-readelf :
    (path : Text) (w : ℕ) (s : Shell) (y : System)
    → is_whitespace w ≡ true
    → All (Unlike path) y.initrd.files
    → enter (record s { buffer = codes "readelf" ++ (w ∷ path) }) y ≡ panic unwrap_failed
unfolding enter run elf_new
enter-readelf path w s y h missing = rw (
  split_line-word (codes "readelf") w path
      (refl, (refl, (refl, (refl, (refl, (refl, (refl, tt))))))) h,
  get_data-panics path y.initrd missing,
)
