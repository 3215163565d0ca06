-- ===== src/Main/Sample/Facts.antt =====
-- The sample has all that the start and the console rely on.
use neur_os.Common.{◌≡◌, refl, ℕ, ◌+◌, ◌*◌, codes, [], ◌∷◌, replicate, ok}
use neur_os.Gdt
use neur_os.Gdt.{Descriptor, Processor}
use neur_os.Main.Needs.{IsAnswered, IsFurnished, IsConnected}
use neur_os.Memory.Sample.{
  mapped, paging, documented, memory, offset, unmapped, memory-IsMemoryMap, memory-enough,
}
use neur_os.Userspace.Selectors.{entries, Appends}
use neur_os.Memory.Heap.{heap_pages}
use neur_os.Initrd.Archive.{get_data}
use neur_os.Image.{Image, image_new}
use neur_os.Shell.{Shell, shell_new, read_text, prompt_of}
use neur_os.Common.{ap, ◌≤◌, inr, arith, length-replicate, split_whitespace, parse_usize}
use neur_os.Main.Sample.{initrd, lines, files-IsEntry, files-Printed, append, star_accepts, given}

abbrev pub console : Shell
console = record {
  buffer = [];
  group = codes "root";
  group_id = 0;
  prompt = prompt_of (codes "root") (codes "neuro");
  user_id = 0;
  username = codes "root";
  working_directory = codes "/root";
}

abbrev pub picture : Image
picture = record {
  header = record { width = 1; height = 1; x = 0; y = 0 };
  pixels = (record { red = 194; green = 54; blue = 22 } ∷ []) ∷ [];
}

pub furnished : IsFurnished (given paging) initrd
unfolding get_data image_new split_whitespace parse_usize shell_new read_text
furnished = record {
  lines = lines;
  rest = [];
  packed = refl;
  entries = files-IsEntry;
  printed = files-Printed;
  glyphs = replicate 4096 0xFF;
  font = refl;
  glyph_bytes = omega (arith, length-replicate {A = ℕ} 4096 0xFF);
  framebuffer = record { height = 768; pitch = 4096; width = 1024 };
  others = [];
  framebuffers = refl;
  pitched = omega arith;
  images = record {
    logo = record {
      image = picture;
      found = refl;
      fits = omega arith;
      right = omega arith;
      bottom = omega arith;
    };
    neuro = record {
      image = picture;
      found = refl;
      fits = omega arith;
      right = omega arith;
      bottom = omega arith;
    };
    evil = record {
      image = picture;
      found = refl;
      fits = omega arith;
      right = omega arith;
      bottom = omega arith;
    };
  };
  room = record {
    version = tt;
    commit = tt;
    authors = tt;
    tall = omega arith;
    wide = omega arith;
    versioned = omega arith;
    copyrighted = omega arith;
  };
  shell = console;
  users = refl;
  motd = codes "Hello";
  greeting = refl;
}

append-Appends : (t : ℕ) (d : Descriptor) → t + entries d ≤ 8 → Appends (λ n. n) append t d
unfolding append
append-Appends t Gdt.kernel_code_segment h = record {
  table = t + 1;
  result = ap (λ k. ok (t + 1, k)) {y = t * 8 + 0} (omega arith);
  longer = refl;
}
append-Appends t Gdt.kernel_data_segment h = record {
  table = t + 1;
  result = ap (λ k. ok (t + 1, k)) {y = t * 8 + 0} (omega arith);
  longer = refl;
}
append-Appends t Gdt.user_data_segment h = record { table = t + 1; result = refl; longer = refl }
append-Appends t Gdt.user_code_segment h = record { table = t + 1; result = refl; longer = refl }
append-Appends t Gdt.tss_segment h = record {
  table = t + 2;
  result = ap (λ k. ok (t + 2, k)) {y = t * 8 + 0} (omega arith);
  longer = refl;
}

pub answered : IsAnswered (λ n. n) mapped (given paging)
unfolding append star_accepts
answered = record {
  empty = refl;
  appends = append-Appends;
  accepts = λ a b c d e f _ _. ground arith;
  paging = documented;
  memory_map = memory;
  offset = offset;
  answers = refl;
  placed = memory-IsMemoryMap;
  enough = memory-enough;
  canonical = inr (omega arith, omega arith);
  canonical_table = inr (omega arith, omega arith);
  unmapped = unmapped heap_pages;
  cores = 0 ∷ 1 ∷ [];
  cpus = refl;
}

pub connected : IsConnected (given paging) 1
connected = record { loops_back = refl; sends = λ k. (0, omega arith, refl) }

pub furnished-console : furnished.shell ≡ console
unfolding furnished
furnished-console = refl
