-- ===== src/Elf/Tests.antt =====
-- The executable's theorems at a file with one program and one section.
use neur_os.Common.{◌≡◌, refl, Text, codes, List, ℕ, [], ◌∷◌, ◌++◌, ok, arith, DoesPanic, replicate}
use neur_os.Initrd.Block
use neur_os.Initrd.Archive.{Initrd, get_data}
use neur_os.Elf.{Header, Program, Section, Elf, elf_new, header_new}
use neur_os.Elf.Image.{header_bytes, program_bytes, section_bytes}
use neur_os.Elf.Table.{elf_new-IsElfFile}
use neur_os.Elf.Failure.{elf_new-DoesPanic, elf_new-short}
use neur_os.Elf.Report.{class_name}

abbrev header : Header
header = record {
  magic = 1179403647;
  class = 2;
  encoding = 1;
  version = 1;
  os_abi = 0;
  abi_version = 0;
  file_type = 2;
  machine = 62;
  exec_version = 1;
  entrypoint = 4198400;
  ph_offset = 64;
  sh_offset = 120;
  flags = 0;
  eh_size = 64;
  ph_size = 56;
  ph_number = 1;
  sh_size = 64;
  sh_number = 1;
  sh_index = 0;
}

abbrev program : Program
program = record {
  segment_type = 1;
  flags = 5;
  offset = 0;
  virtual_address = 4194304;
  physical_address = 4194304;
  file_size = 184;
  memory_size = 184;
  alignment = 4096;
}

abbrev section : Section
section = record {
  name = 1;
  header_type = 1;
  flags = 6;
  address = 4198400;
  offset = 4096;
  size = 10;
  link = 0;
  info = 0;
  alignment = 16;
  entry_size = 0;
}

abbrev executable : Elf
executable = record { header = header; programs = program ∷ []; sections = section ∷ [] }

abbrev zeros : ℕ → ℕ
zeros i = 0

abbrev executable_bytes : List ℕ
executable_bytes = header_bytes zeros header ++ (program_bytes program ++ section_bytes section)

abbrev file_header : Text → Block.Header
file_header name = record {
  name = name;
  mode = 755;
  user_id = 0;
  group_id = 0;
  size = 184;
  mtime = 1709210096;
  checksum = codes "0001234";
  flag = 0;
  linked = [];
  indicator = codes "ustar";
  version = codes "00";
  username = codes "root";
  group = codes "root";
  major = 0;
  minor = 0;
  prefix = [];
}

abbrev ramdisk : List ℕ → Initrd
ramdisk contents = record {
  files = record { header = file_header (codes "init"); contents = contents } ∷ [];
}

found : (contents : List ℕ) → get_data (ramdisk contents) (codes "init") ≡ ok contents
unfolding get_data
found contents = refl

elf_new-IsElfFile_example : elf_new (ramdisk executable_bytes) (codes "init") ≡ ok executable
elf_new-IsElfFile_example =
    elf_new-IsElfFile (ramdisk executable_bytes) (codes "init") zeros executable_bytes executable
      (found executable_bytes)
      (record {
        after_header = program_bytes program ++ section_bytes section;
        after_programs = section_bytes section;
        after_sections = [];
        headed = refl;
        programmed = refl;
        sectioned = refl;
        header_fits = record {
          magic = omega arith;
          class = omega arith;
          encoding = omega arith;
          version = omega arith;
          os_abi = omega arith;
          abi_version = omega arith;
          file_type = omega arith;
          machine = omega arith;
          exec_version = omega arith;
          entrypoint = omega arith;
          ph_offset = omega arith;
          sh_offset = omega arith;
          flags = omega arith;
          eh_size = omega arith;
          ph_size = omega arith;
          ph_number = omega arith;
          sh_size = omega arith;
          sh_number = omega arith;
          sh_index = omega arith;
        };
        programs_fit = (
          record {
            segment_type = omega arith;
            flags = omega arith;
            offset = omega arith;
            virtual_address = omega arith;
            physical_address = omega arith;
            file_size = omega arith;
            memory_size = omega arith;
            alignment = omega arith;
          },
          tt,
        );
        sections_fit = (
          record {
            name = omega arith;
            header_type = omega arith;
            flags = omega arith;
            address = omega arith;
            offset = omega arith;
            size = omega arith;
            link = omega arith;
            info = omega arith;
            alignment = omega arith;
            entry_size = omega arith;
          },
          tt,
        );
        program_size = refl;
        section_size = refl;
        program_count = refl;
        section_count = refl;
        few_programs = omega arith;
        few_sections = omega arith;
        memory = omega arith;
      })

-- The same file, with 1025 sections promised.
abbrev crowded : Header
crowded = record header { sh_number = 1025 }

crowded-header : header_new (header_bytes zeros crowded) ≡ ok crowded
unfolding header_new
crowded-header = refl

elf_new-DoesPanic_example :
    DoesPanic (elf_new (ramdisk (header_bytes zeros crowded)) (codes "init"))
elf_new-DoesPanic_example =
    elf_new-DoesPanic (ramdisk (header_bytes zeros crowded)) (codes "init")
      (header_bytes zeros crowded) crowded (found (header_bytes zeros crowded)) crowded-header
      (omega arith) (omega arith)

elf_new-short_example : DoesPanic (elf_new (ramdisk (replicate 10 0)) (codes "init"))
elf_new-short_example =
    elf_new-short (ramdisk (replicate 10 0)) (codes "init") (replicate 10 0)
      (found (replicate 10 0)) (omega arith)

class_test : class_name 2 ≡ codes "ELF64"
unfolding class_name
class_test = refl

executable_test : elf_new (ramdisk executable_bytes) (codes "init") ≡ ok executable
unfolding elf_new get_data
executable_test = refl
