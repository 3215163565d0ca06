-- ===== src/Shell.antt =====
-- kernel/src/shell.rs: the console. A handler of the serial interrupt passes it one character at a
-- time; what it writes is a text here, and `Serial` sends it. The locks are free when the handler
-- runs, since interrupts are off.
pub mod Commands
pub mod Editing
pub mod Failure
pub mod Setup
pub mod Keeps
mod Tests
use neur_os.Common.{
  ℕ, ◌+◌, Text, codes, show, List, [], ◌∷◌, ◌++◌, drop, get_elem?, list_eq, ◌==◌, if◌then◌else◌,
  Option, none, some, true, false, Outcome, ok, unwrap, ◌>>=◌, from_utf8, from_str_radix,
  split_once, split_terminator, trim_end,
}
use neur_os.Ansi
use neur_os.Logger.{Logger, Log, get_logs}
use neur_os.Logger
use neur_os.Timer.{Timer, get_elapsed}
use neur_os.Scheduler.{Scheduler}
use neur_os.Syscall
use neur_os.Initrd.Archive.{Initrd, get_data}
use neur_os.Elf.{elf_new}
use neur_os.Elf.Report

pub record Shell : Type 0 where
  pub buffer : List ℕ
  pub group : Text
  pub group_id : ℕ
  pub prompt : Text
  pub user_id : ℕ
  pub username : Text
  pub working_directory : Text

-- The statics of the kernel that the commands use.
pub record System : Type 0 where
  pub initrd : Initrd
  pub scheduler : Scheduler
  pub logger : Logger
  pub clock : Timer

-- `str::from_utf8(INITRD.get_data(path)).unwrap()`
unfoldable pub read_text : Initrd → Text → Outcome Text
unfolding get_data
read_text i path = do bytes ← get_data i path; unwrap (from_utf8 bytes)

unfoldable pub prompt_of : Text → Text → Text
prompt_of username hostname =
    Ansi.bold
    ++ (Ansi.default
        ++ (codes "["
            ++ (Ansi.green
                ++ (username
                    ++ (codes "@"
                        ++ (hostname
                            ++ (codes " "
                                ++ (Ansi.blue
                                    ++ (codes "~" ++ (Ansi.default ++ codes "]# "))))))))))

-- `Shell::new`. Each `nth` leaves the pieces behind the one that it returns.
unfoldable pub shell_new : Initrd → Outcome Shell
unfolding read_text prompt_of from_utf8 split_terminator trim_end from_str_radix
shell_new i = do
  hostname ← read_text i (codes "initrd/etc/hostname")
  text ← read_text i (codes "initrd/etc/passwd")
  let passwd = split_terminator 58 text
  username ← unwrap (get_elem? passwd 0)
  let passwd' = drop 1 passwd
  user ← unwrap (get_elem? passwd' 1)
  user_id ← unwrap (from_str_radix 10 user)
  let passwd'' = drop 2 passwd'
  number ← unwrap (get_elem? passwd'' 0)
  group_id ← unwrap (from_str_radix 10 number)
  let passwd''' = drop 1 passwd''
  home ← unwrap (get_elem? passwd''' 1)
  groups ← read_text i (codes "initrd/etc/group")
  group ← unwrap (get_elem? (split_terminator 58 groups) 0)
  ok (record {
    buffer = [];
    group = group;
    group_id = group_id;
    prompt = prompt_of username (trim_end hostname);
    user_id = user_id;
    username = username;
    working_directory = home;
  })

-- `Shell::display`
unfoldable pub display : Shell → Initrd → Outcome Text
unfolding read_text
display s i = do motd ← read_text i (codes "initrd/etc/motd"); ok (motd ++ (10 ∷ s.prompt))

pub data Command : Type 0 where
  echo fork help id logs pwd readelf reboot shutdown time unknown : Command

-- The arms of the `match` on the command's word.
unfoldable pub command_of : Text → Command
command_of word =
    if list_eq word (codes "echo")
    then echo
    else if list_eq word (codes "fork")
    then fork
    else if list_eq word (codes "help")
    then help
    else if list_eq word (codes "id")
    then id
    else if list_eq word (codes "logs")
    then logs
    else if list_eq word (codes "pwd")
    then pwd
    else if list_eq word (codes "readelf")
    then readelf
    else if list_eq word (codes "reboot")
    then reboot
    else if list_eq word (codes "shutdown")
    then shutdown
    else if list_eq word (codes "time")
    then time
    else unknown

-- `writeln!`
abbrev pub line : Text → Text
line t = t ++ (10 ∷ [])

unfoldable pub help_text : Text
help_text =
    line (codes "Available commands:")
    ++ (line (9 ∷ codes "echo     -- Display a line of text.")
        ++ (line (9 ∷ codes "fork     -- Create child process.")
            ++ (line (9 ∷ codes "help     -- Print a list of commands.")
                ++ (line (9 ∷ codes "id       -- Print user and group ID.")
                    ++ (line (9 ∷ codes "logs     -- Retrieve the system logs.")
                        ++ (line (9 ∷ codes "pwd      -- Print current working directory.")
                            ++ (line (9 ∷ codes "readelf  -- Read ELF executable file.")
                                ++ (line (9 ∷ codes "reboot   -- Reboot the operating system.")
                                    ++ (line
                                          (9 ∷ codes "shutdown -- Shutdown the operating system.")
                                        ++ line (
                                            9
                                            ∷ codes
                                                "time     -- Display the elapsed time."))))))))))

unfoldable pub log_lines : List Log → Text
log_lines [] = []
log_lines (l ∷ ls) = line (Logger.fmt l) ++ log_lines ls

unfoldable pub id_text : Shell → Text
unfolding show
id_text s =
    codes "uid="
    ++ (show s.user_id
        ++ (codes "("
            ++ (s.username
                ++ (codes ") gid=" ++ (show s.group_id ++ (codes "(" ++ (s.group ++ codes ")")))))))

-- The arm of a command: the system after it, and what it writes.
unfoldable pub run : Command → Text → Shell → System → Outcome (System × Text)
run echo argument s y = ok (y, line argument)
run fork argument s y = do
  (scheduler, pid) ← Syscall.call Syscall.fork y.scheduler
  ok (
    record y { scheduler = scheduler },
    line (codes "Created child process with ID #" ++ (show pid ++ codes ".")),
  )
run help argument s y = ok (y, help_text)
run id argument s y = ok (y, line (id_text s))
run logs argument s y = ok (y, log_lines (get_logs y.logger))
run pwd argument s y = ok (y, line s.working_directory)
run readelf argument s y = do
  executable ← elf_new y.initrd argument
  ok (y, line (Report.fmt executable))
run reboot argument s y = ok (y, line (codes "Rebooting the operating system."))
run shutdown argument s y = ok (y, line (codes "Shutting down the operating system."))
run time argument s y = ok (y, line (show (get_elapsed y.clock)))
run unknown argument s y = ok (y, line (Ansi.red ++ codes "ERROR: Command not found."))

-- The command's word and the argument of a line.
unfoldable pub split_line : Text → Text × Text
split_line text = elim (split_once text) [ none ↦ (text, []) | some pair ↦ pair ]

-- The arm of `\r`
unfoldable pub enter : Shell → System → Outcome (Shell × System × Text)
unfolding command_of help_text log_lines id_text show split_line split_once
enter s y = do
  let (word, argument) = split_line s.buffer
  (y', out) ← run (command_of word) argument s y
  ok (record s { buffer = [] }, y', line Ansi.normal ++ (out ++ s.prompt))

-- The arm of `\x08`. `pop` takes the last character off.
abbrev pub pop : List ℕ → List ℕ
pop [] = []
pop (c ∷ []) = []
pop (c ∷ d ∷ cs) = c ∷ pop (d ∷ cs)

abbrev pub backspace : Shell → Shell × Text
backspace s = elim s.buffer [
  | [] ↦ (s, [])
  | c ∷ cs ↦ (record s { buffer = pop (c ∷ cs) }, 8 ∷ 32 ∷ 8 ∷ [])
]

-- `Shell::interpret`, of the character that the serial port has read
unfoldable pub interpret : ℕ → Shell → System → Outcome (Shell × System × Text)
interpret c s y = elim (c == 13) [
  | true ↦ enter s y
  | false ↦ elim (c == 8) [
    | true ↦ let (s', out) = backspace s in ok (s', y, out)
    | false ↦ ok (record s { buffer = s.buffer ++ (c ∷ []) }, y, c ∷ [])
  ]
]

-- One interrupt after the other: the characters of a session, and all that is written.
unfoldable pub session : List ℕ → Shell → System → Outcome (Shell × System × Text)
session [] s y = ok (s, y, [])
session (c ∷ cs) s y = do
  (s', y', out) ← interpret c s y
  (s'', y'', more) ← session cs s' y'
  ok (s'', y'', out ++ more)
