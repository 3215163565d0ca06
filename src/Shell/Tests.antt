-- ===== src/Shell/Tests.antt =====
-- The console's theorems at a small ramdisk.
use neur_os.Common.{
  ◌≡◌, ◌≢◌, refl, Text, codes, [], ◌∷◌, ◌++◌, replicate, ok, panic, unwrap_failed, ne_of_list_eq,
  from_utf8, split_once, is_whitespace,
}
use neur_os.Ansi
use neur_os.Logger.{Logger}
use neur_os.Logger
use neur_os.Timer
use neur_os.Scheduler.{Scheduler, initialize}
use neur_os.Scheduler.Reach.{Reach, boot}
use neur_os.Initrd.Block.{Header, File}
use neur_os.Initrd.Archive.{Initrd}
use neur_os.Shell.{
  Shell, System, readelf, command_of, split_line, shell_new, read_text, prompt_of, session,
  interpret, enter, line,
}
use neur_os.Shell.Editing.{session-corrected, prefixed, rubout}
use neur_os.Shell.Commands.{interpret-returns, enter-echo}
use neur_os.Shell.Failure.{enter-readelf}
use neur_os.Shell.Setup.{passwd_line, shell_new-passwd_line}

abbrev file_header : Text → Header
file_header name = record {
  name = name;
  mode = 644;
  user_id = 0;
  group_id = 0;
  size = 20;
  mtime = 1709210096;
  checksum = codes "0001234";
  flag = 0;
  linked = [];
  indicator = codes "ustar";
  version = codes "00";
  username = codes "root";
  group = codes "root";
  major = 0;
  minor = 0;
  prefix = [];
}

abbrev file : Text → Text → File
file name contents = record { header = file_header name; contents = contents }

abbrev passwd_text : Text
passwd_text =
    passwd_line (codes "root") (codes "x") (codes "0") (codes "0") (codes "root") (codes "/root")
      (codes "/bin/sh")

abbrev ramdisk : Initrd
ramdisk = record {
  files =
      file (codes "initrd/etc/hostname") (line (codes "neuro"))
      ∷ file (codes "initrd/etc/passwd") passwd_text
      ∷ file (codes "initrd/etc/group") (codes "root" ++ (58 ∷ codes "x:0:"))
      ∷ [];
}

abbrev shell : Shell
shell = record {
  buffer = [];
  group = codes "root";
  group_id = 0;
  prompt = codes "# ";
  user_id = 0;
  username = codes "root";
  working_directory = codes "/root";
}

abbrev booted : Scheduler
booted = (initialize Logger.new).0

abbrev system : System
system = record { initrd = ramdisk; scheduler = booted; logger = Logger.new; clock = Timer.new }

shell_new-passwd_line_example :
    shell_new ramdisk ≡ ok (record shell { prompt = prompt_of (codes "root") (codes "neuro") })
unfolding read_text from_utf8 shell_new
shell_new-passwd_line_example =
    shell_new-passwd_line ramdisk (line (codes "neuro")) (codes "root") (codes "x") (codes "0")
      (codes "0") (codes "root") (codes "/root") (codes "/bin/sh") (codes "root") (codes "x:0:") 0 0
      refl refl refl
      (
        (refl, (refl, (refl, (refl, tt)))),
        (refl, tt),
        (refl, tt),
        (refl, tt),
        (refl, (refl, (refl, (refl, tt)))),
        (refl, (refl, (refl, (refl, (refl, tt))))),
        (refl, (refl, (refl, (refl, tt)))),
      )
      refl refl

session-corrected_example :
    session (codes "ls" ++ (codes "x" ++ (replicate 1 8 ++ (13 ∷ [])))) shell system
    ≡ prefixed
        (codes "ls" ++ (codes "x" ++ rubout 1))
        (enter (record shell { buffer = codes "ls" }) system)
session-corrected_example =
    session-corrected (codes "ls") (codes "x") shell system refl ((refl, refl), ((refl, refl), tt))
      ((refl, refl), tt)

not_readelf : command_of (split_line []).0 ≢ readelf
unfolding command_of split_line split_once
not_readelf e = cc e

interpret-returns_example :
    (s' : Shell) × (scheduler : Scheduler) × (out : Text) × (interpret 13 shell system
      ≡ ok (s', record system { scheduler = scheduler }, out))
    × Reach scheduler
interpret-returns_example = interpret-returns 13 shell system not_readelf (boot Logger.new)

echo_test :
    enter (record shell { buffer = codes "echo" ++ (32 ∷ codes "hi there") }) system
    ≡ ok (shell, system, line Ansi.normal ++ (line (codes "hi there") ++ codes "# "))
unfolding is_whitespace
echo_test = enter-echo (codes "hi there") 32 shell system refl

enter-readelf_example :
    enter (record shell { buffer = codes "readelf" ++ (32 ∷ codes "init") }) system
    ≡ panic unwrap_failed
unfolding is_whitespace
enter-readelf_example =
    enter-readelf (codes "init") 32 shell system refl
      (ne_of_list_eq _ _ refl, (ne_of_list_eq _ _ refl, (ne_of_list_eq _ _ refl, tt)))
