-- ===== src/Machine/Tests.antt =====
-- A key, a tick and a character, on a kernel that has started.
use neur_os.Common.{◌≡◌, refl, ◌^◌, ◌-◌, codes, show_hex, List, [], ◌∷◌, some, ok, arith}
use neur_os.Logger
use neur_os.Timer.{increment}
use neur_os.Logger.{log, trace}
use neur_os.Scheduler.{initialize}
use neur_os.Scheduler
use neur_os.Scheduler.Reach.{boot}
use neur_os.Initrd.Archive.{Initrd, get_data}
use neur_os.Serial.{Device}
use neur_os.Serial
use neur_os.Shell.{Shell, read_text, interpret}
use neur_os.Vga.Text.{write_str}
use neur_os.Interrupts.{timer_handler}
use neur_os.Interrupts.Console.{serial_handler}
use neur_os.Interrupts.Keys.{keyboard_handler}
use neur_os.Machine.{Machine, Event, tick, receive, press, run}
use neur_os.Machine.Events.{Follows, run-Follows}
use neur_os.Machine.Typing.{run-NoEnter}

-- A port that is always ready, and receives `l`.
abbrev device : Device
device offset k = 0x6D

abbrev shell : Shell
shell = record {
  buffer = [];
  group = codes "root";
  group_id = 0;
  prompt = [];
  user_id = 0;
  username = codes "root";
  working_directory = codes "/root";
}

abbrev motd : Initrd
motd = record {
  files =
      record {
        header = record {
          name = codes "initrd/etc/motd";
          mode = 644;
          user_id = 0;
          group_id = 0;
          size = 0;
          mtime = 1709210096;
          checksum = codes "0001234";
          flag = 0;
          linked = [];
          indicator = codes "ustar";
          version = codes "00";
          username = codes "root";
          group = codes "root";
          major = 0;
          minor = 0;
          prefix = [];
        };
        contents = [];
      }
      ∷ [];
}

abbrev started : Machine
started = record {
  initrd = motd;
  shell = shell;
  serial = Serial.new;
  screen = record {
    vga = record {
      cursor = record { x = 8; y = 24; fg = 0xF5F6FA; bg = 0 };
      font = record { magic = 0x0436; font_mode = 2; glyph_size = 16; glyphs = [] };
      height = 768;
      pitch = 4096;
      width = 1024;
      words = [];
    };
    console = some shell;
  };
  clock = record { elapsed = 2 ^ 32 - 1 };
  scheduler = (initialize Logger.new).0;
  logger = Logger.new;
  ended = [];
}

abbrev events : List Event
events = press 0x1C ∷ tick ∷ receive ∷ []

abbrev later : Machine
later = record {
  initrd = motd;
  shell = record shell { buffer = 0x6D ∷ [] };
  serial = record {
    address = Serial.com1;
    reads = 3;
    writes = record { port = Serial.com1; value = 0x6D } ∷ [];
  };
  screen = record {
    vga = record started.screen.vga { cursor = record { x = 8; y = 40; fg = 0xF5F6FA; bg = 0 } };
    console = some shell;
  };
  clock = record { elapsed = 0 };
  scheduler = record started.scheduler { remaining = 99 };
  logger = record {
    logs =
        record { level = trace; message = codes "Received scan code (0x1c) from keyboard." } ∷ [];
  };
  ended = 33 ∷ 32 ∷ 36 ∷ [];
}

run-later : run device 1 events started ≡ ok later
unfolding run keyboard_handler timer_handler serial_handler read_text get_data write_str interpret
    Scheduler.tick Serial.read Serial.write_str Serial.put Serial.write_char show_hex initialize log
    increment
run-later = refl

run-Follows_example : Follows events started later
run-Follows_example =
    run-Follows device 1 events started later (boot Logger.new) (omega arith) run-later

abbrev typing : List Event
typing = receive ∷ tick ∷ press 0x1E ∷ receive ∷ []

typing_test : (m' : Machine) × (run device 1 typing started ≡ ok m') × Follows typing started m'
typing_test =
    run-NoEnter device 1 (λ k. (0, omega arith, refl)) (λ k. (0, omega arith, refl)) (λ k. refl)
      typing started (tt, (tt, (refl, (tt, tt)))) (boot Logger.new) (omega arith)
