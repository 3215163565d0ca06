-- ===== src/Keyboard.antt =====
-- kernel/src/keyboard.rs: the keyboard, and with kernel/src/shell.rs the console on the screen, which
-- is set up when ENTER is pressed for the first time. The byte that the port has is an argument.
use neur_os.Common.{
  ℕ, ◌+◌, codes, show_hex, [], ◌∷◌, ◌++◌, ◌==◌, true, false, Option, none, some, Outcome, ok, ◌>>=◌,
}
use neur_os.Logger.{Logger}
use neur_os.Logger.Macros
use neur_os.Initrd.Archive.{Initrd}
use neur_os.Vga.{Vga, set_cursor}
use neur_os.Vga.Text.{rgb, white, black}
use neur_os.Vga.Screen.{clear, write_fmt, get_font_width, get_font_height}
use neur_os.Shell.{Shell, shell_new, read_text}

-- `VGA` and the lazy `VGA_CONSOLE`, `none` before it is used.
pub record Screen : Type 0 where
  pub vga : Vga
  pub console : Option Shell

-- The closure of `VGA_CONSOLE`
unfoldable pub console_new : Initrd → Vga → Outcome (Shell × Vga)
unfolding shell_new clear
console_new i vga = do
  let x = get_font_width vga
  let y = get_font_height vga + x
  shell ← shell_new i
  ok (shell, set_cursor x y (rgb white) (rgb black) (clear vga))

-- `VGA_CONSOLE.lock()`
unfoldable pub lock_console : Initrd → Screen → Outcome (Shell × Vga)
unfolding console_new
lock_console i s = elim s.console [ some shell ↦ ok (shell, s.vga) | none ↦ console_new i s.vga ]

-- `Shell::display` on the screen: two calls of `write_fmt`.
unfoldable pub display : Initrd → Shell → Vga → Outcome Vga
unfolding read_text
display i shell vga = do
  motd ← read_text i (codes "initrd/etc/motd")
  vga' ← write_fmt i (motd ++ (10 ∷ [])) vga
  write_fmt i shell.prompt vga'

-- `Enter as u8`
abbrev pub enter : ℕ
enter = 0x1C

-- `Keyboard::interpret`, of the scan code that `read` returns
unfoldable pub interpret : ℕ → Initrd → Screen → Logger → Outcome (Screen × Logger)
unfolding lock_console display
interpret scan_code i s l = do
  let l' =
      Macros.trace
        (codes "Received scan code (0x" ++ (show_hex scan_code ++ codes ") from keyboard.")) l
  elim (scan_code == enter) [
    | false ↦ ok (s, l')
    | true ↦ do
      (shell, vga) ← lock_console i s
      vga' ← display i shell vga
      ok (record { vga = vga'; console = some shell }, l')
  ]
