-- ===== src/Main/Sample.antt =====
-- A ramdisk, a table of segments, a serial port and a screen on which the kernel starts.
pub mod Facts
use neur_os.Common.{
  ◌≢◌, refl, ℕ, ◌+◌, ◌*◌, ◌^◌, ◌<◌, Text, codes, List, [], ◌∷◌, ◌++◌, length, replicate,
  length-replicate, some, All, arith, none, Bool, false, Outcome, ok, ◌==◌, if◌then◌else◌,
  trim_end_nul,
}
use neur_os.Initrd.Block.{File}
use neur_os.Initrd.Archive.{Initrd}
use neur_os.Initrd.Display.{fmt}
use neur_os.Initrd.Ustar.{archive, Fits, IsEntry, Printed}
use neur_os.Gdt
use neur_os.Gdt.{Descriptor, Processor}
use neur_os.Memory.Start.{Paging}
use neur_os.Memory.Sample.{memory, offset}
use neur_os.Serial.{Device}
use neur_os.Main.{Given}

abbrev pub file : Text → Text → File
file name contents = record {
  header = record {
    name = name;
    mode = 644;
    user_id = 0;
    group_id = 0;
    size = length contents;
    mtime = 1709210096;
    checksum = codes "0001234";
    flag = 0;
    linked = [];
    indicator = codes "ustar";
    version = codes "00";
    username = codes "root";
    group = codes "root";
    major = 0;
    minor = 0;
    prefix = [];
  };
  contents = contents;
}

abbrev pub image : Text
image = codes "P6" ++ (10 ∷ (codes "1 1" ++ (10 ∷ (codes "255" ++ (10 ∷ 194 ∷ 54 ∷ 22 ∷ [])))))

abbrev pub files : List File
files =
    file (codes "initrd/usr/share/fonts/ter-i16n.psf") (0x36 ∷ 0x04 ∷ 2 ∷ 16 ∷ replicate 4096 0xFF)
    ∷ file (codes "initrd/usr/share/fonts/ter-i16b.psf")
        (0x36 ∷ 0x04 ∷ 2 ∷ 16 ∷ replicate 4096 0x7E)
    ∷ file (codes "initrd/usr/share/images/logo.ppm") image
    ∷ file (codes "initrd/usr/share/images/neuro.ppm") image
    ∷ file (codes "initrd/usr/share/images/evil.ppm") image
    ∷ file (codes "initrd/etc/hostname") (codes "neuro")
    ∷ file (codes "initrd/etc/passwd") (codes "root:x:0:0:root:/root:/bin/sh")
    ∷ file (codes "initrd/etc/group") (codes "root:x:0:")
    ∷ file (codes "initrd/etc/motd") (codes "Hello")
    ∷ []

abbrev pub initrd : Initrd
initrd = record { files = files }

-- A table of segments that counts its entries.
unfoldable pub append : ℕ → Descriptor → Outcome (ℕ × ℕ)
append used Gdt.user_data_segment = ok (used + 1, used * 8 + 3)
append used Gdt.user_code_segment = ok (used + 1, used * 8 + 3)
append used Gdt.tss_segment = ok (used + 2, used * 8)
append used _ = ok (used + 1, used * 8)

unfoldable pub star_accepts : ℕ → ℕ → ℕ → ℕ → Bool
star_accepts a b c d = if a == b + 8 then d == c + 8 else false

-- A port that answers as the loop-back test wants, is always ready, and receives carriage returns.
abbrev pub register : Device
register offset k = if offset == 0 then (if k == 0 then 0xAE else 13) else 0x21

abbrev pub given : {Table : Type 0} → Paging Table → Given ℕ Table
given paging = record {
  new_segments = 1;
  append = append;
  star_accepts = star_accepts;
  paging = paging;
  answers = record { entries = some memory; offset = some offset };
  cpus = some (0 ∷ 1 ∷ []);
  ramdisk = archive files [];
  framebuffers = some (record { height = 768; pitch = 4096; width = 1024 } ∷ []);
  build = record { version = []; commit = []; authors = [] };
  register = register;
}

abbrev pub reset : Processor ℕ
reset = record {
  gdt = none;
  cs = 0;
  ds = 0;
  es = 0;
  fs = 0;
  gs = 0;
  ss = 0;
  tr = 0;
  star = none;
  efer = 0;
}

-- The files can be in an archive.
file-IsEntry :
    (name contents : Text)
    → Fits 100 name
    → name ≢ []
    → length contents < 2 ^ 32
    → IsEntry (file name contents)
unfolding trim_end_nul
file-IsEntry name contents fits named short = record {
  header_ok = record {
    name = fits;
    mode = omega arith;
    user_id = omega arith;
    group_id = omega arith;
    size = short;
    mtime = omega arith;
    checksum = record { short = omega arith; ascii = omega arith; trimmed = refl };
    flag = omega arith;
    linked = record { short = omega arith; ascii = tt; trimmed = refl };
    indicator = record { short = omega arith; ascii = omega arith; trimmed = refl };
    version = record { short = omega arith; ascii = omega arith; trimmed = refl };
    username = record { short = omega arith; ascii = omega arith; trimmed = refl };
    group = record { short = omega arith; ascii = omega arith; trimmed = refl };
    major = omega arith;
    minor = omega arith;
    prefix = record { short = omega arith; ascii = tt; trimmed = refl };
  };
  named = named;
  sized = refl;
}

abbrev pub lines : List Text
lines =
    line (codes "4100") (codes "initrd/usr/share/fonts/ter-i16n.psf")
    ∷ line (codes "4100") (codes "initrd/usr/share/fonts/ter-i16b.psf")
    ∷ line (codes "14") (codes "initrd/usr/share/images/logo.ppm")
    ∷ line (codes "14") (codes "initrd/usr/share/images/neuro.ppm")
    ∷ line (codes "14") (codes "initrd/usr/share/images/evil.ppm")
    ∷ line (codes "5") (codes "initrd/etc/hostname")
    ∷ line (codes "29") (codes "initrd/etc/passwd")
    ∷ line (codes "9") (codes "initrd/etc/group")
    ∷ line (codes "5") (codes "initrd/etc/motd")
    ∷ []
  where
    line : Text → Text → Text
    line size name =
        codes "-rw-r--r-- root/root " ++ (size ++ (codes " 2024-02-29 12:34:56 " ++ name))

pub files-Printed : Printed files lines
unfolding fmt
files-Printed = (refl, (refl, (refl, (refl, (refl, (refl, (refl, (refl, (refl, tt)))))))))

pub files-IsEntry : All IsEntry files
unfolding trim_end_nul
files-IsEntry = (
  file-IsEntry (codes "initrd/usr/share/fonts/ter-i16n.psf")
      (0x36 ∷ 0x04 ∷ 2 ∷ 16 ∷ replicate 4096 0xFF)
      (record { short = omega arith; ascii = omega arith; trimmed = refl }) (λ e. cc e)
      (omega (arith, length-replicate {A = ℕ} 4096 0xFF)),
  (
    file-IsEntry (codes "initrd/usr/share/fonts/ter-i16b.psf")
        (0x36 ∷ 0x04 ∷ 2 ∷ 16 ∷ replicate 4096 0x7E)
        (record { short = omega arith; ascii = omega arith; trimmed = refl }) (λ e. cc e)
        (omega (arith, length-replicate {A = ℕ} 4096 0x7E)),
    (
      file-IsEntry (codes "initrd/usr/share/images/logo.ppm") image
          (record { short = omega arith; ascii = omega arith; trimmed = refl }) (λ e. cc e)
          (omega arith),
      (
        file-IsEntry (codes "initrd/usr/share/images/neuro.ppm") image
            (record { short = omega arith; ascii = omega arith; trimmed = refl }) (λ e. cc e)
            (omega arith),
        (
          file-IsEntry (codes "initrd/usr/share/images/evil.ppm") image
              (record { short = omega arith; ascii = omega arith; trimmed = refl }) (λ e. cc e)
              (omega arith),
          (
            file-IsEntry (codes "initrd/etc/hostname") (codes "neuro")
                (record { short = omega arith; ascii = omega arith; trimmed = refl }) (λ e. cc e)
                (omega arith),
            (
              file-IsEntry (codes "initrd/etc/passwd") (codes "root:x:0:0:root:/root:/bin/sh")
                  (record { short = omega arith; ascii = omega arith; trimmed = refl }) (λ e. cc e)
                  (omega arith),
              (
                file-IsEntry (codes "initrd/etc/group") (codes "root:x:0:")
                    (record { short = omega arith; ascii = omega arith; trimmed = refl })
                    (λ e. cc e) (omega arith),
                (
                  file-IsEntry (codes "initrd/etc/motd") (codes "Hello")
                      (record { short = omega arith; ascii = omega arith; trimmed = refl })
                      (λ e. cc e) (omega arith),
                  tt,
                ),
              ),
            ),
          ),
        ),
      ),
    ),
  ),
)
