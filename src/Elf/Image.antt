-- ===== src/Elf/Image.antt =====
-- kernel/src/elf.rs: the bytes that hold a header, and that the decoders read them back.
use neur_os.Common.{◌≡◌, ℕ, zero, suc, ◌/◌, ◌%◌, ◌^◌, ◌<◌, List, [], ◌∷◌, ◌++◌, arith, ok}
use neur_os.Elf.{
  Header, Program, Section, header_new, program_new, section_new, from_le_bytes, le_at, bytes_at,
}

-- A number of `w` bytes, the least significant first.
abbrev pub to_le_bytes : ℕ → ℕ → List ℕ
to_le_bytes zero v = []
to_le_bytes (suc w) v = v % 256 ∷ to_le_bytes w (v / 256)

from_le_bytes-to_le_bytes : (w v : ℕ) → v < 256 ^ w → from_le_bytes (to_le_bytes w v) ≡ v
from_le_bytes-to_le_bytes zero v h = omega arith
from_le_bytes-to_le_bytes (suc w) v h =
    omega (arith, from_le_bytes-to_le_bytes w (v / 256) (omega arith))

-- The seven bytes of padding after the identification are not read.
abbrev pub header_bytes : (ℕ → ℕ) → Header → List ℕ
header_bytes pad h =
    to_le_bytes 4 h.magic
    ++ (to_le_bytes 1 h.class
        ++ (to_le_bytes 1 h.encoding
            ++ (to_le_bytes 1 h.version
                ++ (to_le_bytes 1 h.os_abi
                    ++ (to_le_bytes 1 h.abi_version
                        ++ ((pad 0 ∷ pad 1 ∷ pad 2 ∷ pad 3 ∷ pad 4 ∷ pad 5 ∷ pad 6 ∷ [])
                            ++ (to_le_bytes 2 h.file_type
                                ++ (to_le_bytes 2 h.machine
                                    ++ (to_le_bytes 4 h.exec_version
                                        ++ (to_le_bytes 8 h.entrypoint
                                            ++ (to_le_bytes 8 h.ph_offset
                                                ++ (to_le_bytes 8 h.sh_offset
                                                    ++ (to_le_bytes 4 h.flags
                                                        ++ (to_le_bytes 2 h.eh_size
                                                            ++ (to_le_bytes 2 h.ph_size
                                                            ++ (to_le_bytes 2 h.ph_number
                                                            ++ (to_le_bytes 2 h.sh_size
                                                            ++ (to_le_bytes 2 h.sh_number
                                                            ++ (to_le_bytes 2
                                                            h.sh_index)))))))))))))))))))

abbrev pub program_bytes : Program → List ℕ
program_bytes p =
    to_le_bytes 4 p.segment_type
    ++ (to_le_bytes 4 p.flags
        ++ (to_le_bytes 8 p.offset
            ++ (to_le_bytes 8 p.virtual_address
                ++ (to_le_bytes 8 p.physical_address
                    ++ (to_le_bytes 8 p.file_size
                        ++ (to_le_bytes 8 p.memory_size ++ (to_le_bytes 8 p.alignment)))))))

abbrev pub section_bytes : Section → List ℕ
section_bytes s =
    to_le_bytes 4 s.name
    ++ (to_le_bytes 4 s.header_type
        ++ (to_le_bytes 8 s.flags
            ++ (to_le_bytes 8 s.address
                ++ (to_le_bytes 8 s.offset
                    ++ (to_le_bytes 8 s.size
                        ++ (to_le_bytes 4 s.link
                            ++ (to_le_bytes 4 s.info
                                ++ (to_le_bytes 8 s.alignment
                                    ++ (to_le_bytes 8 s.entry_size)))))))))

pub record HeaderFits (h : Header) : Type 0 where
  pub magic : h.magic < 256 ^ 4
  pub class : h.class < 256 ^ 1
  pub encoding : h.encoding < 256 ^ 1
  pub version : h.version < 256 ^ 1
  pub os_abi : h.os_abi < 256 ^ 1
  pub abi_version : h.abi_version < 256 ^ 1
  pub file_type : h.file_type < 256 ^ 2
  pub machine : h.machine < 256 ^ 2
  pub exec_version : h.exec_version < 256 ^ 4
  pub entrypoint : h.entrypoint < 256 ^ 8
  pub ph_offset : h.ph_offset < 256 ^ 8
  pub sh_offset : h.sh_offset < 256 ^ 8
  pub flags : h.flags < 256 ^ 4
  pub eh_size : h.eh_size < 256 ^ 2
  pub ph_size : h.ph_size < 256 ^ 2
  pub ph_number : h.ph_number < 256 ^ 2
  pub sh_size : h.sh_size < 256 ^ 2
  pub sh_number : h.sh_number < 256 ^ 2
  pub sh_index : h.sh_index < 256 ^ 2

pub record ProgramFits (p : Program) : Type 0 where
  pub segment_type : p.segment_type < 256 ^ 4
  pub flags : p.flags < 256 ^ 4
  pub offset : p.offset < 256 ^ 8
  pub virtual_address : p.virtual_address < 256 ^ 8
  pub physical_address : p.physical_address < 256 ^ 8
  pub file_size : p.file_size < 256 ^ 8
  pub memory_size : p.memory_size < 256 ^ 8
  pub alignment : p.alignment < 256 ^ 8

pub record SectionFits (s : Section) : Type 0 where
  pub name : s.name < 256 ^ 4
  pub header_type : s.header_type < 256 ^ 4
  pub flags : s.flags < 256 ^ 8
  pub address : s.address < 256 ^ 8
  pub offset : s.offset < 256 ^ 8
  pub size : s.size < 256 ^ 8
  pub link : s.link < 256 ^ 4
  pub info : s.info < 256 ^ 4
  pub alignment : s.alignment < 256 ^ 8
  pub entry_size : s.entry_size < 256 ^ 8

pub program_new-program_bytes :
    (p : Program) (rest : List ℕ) → ProgramFits p → program_new (program_bytes p ++ rest) ≡ ok p
unfolding program_new le_at bytes_at
program_new-program_bytes p rest f = λ i. ok (record {
  segment_type = from_le_bytes-to_le_bytes 4 p.segment_type f.segment_type i;
  flags = from_le_bytes-to_le_bytes 4 p.flags f.flags i;
  offset = from_le_bytes-to_le_bytes 8 p.offset f.offset i;
  virtual_address = from_le_bytes-to_le_bytes 8 p.virtual_address f.virtual_address i;
  physical_address = from_le_bytes-to_le_bytes 8 p.physical_address f.physical_address i;
  file_size = from_le_bytes-to_le_bytes 8 p.file_size f.file_size i;
  memory_size = from_le_bytes-to_le_bytes 8 p.memory_size f.memory_size i;
  alignment = from_le_bytes-to_le_bytes 8 p.alignment f.alignment i;
})

pub section_new-section_bytes :
    (s : Section) (rest : List ℕ) → SectionFits s → section_new (section_bytes s ++ rest) ≡ ok s
unfolding section_new le_at bytes_at
section_new-section_bytes s rest f = λ i. ok (record {
  name = from_le_bytes-to_le_bytes 4 s.name f.name i;
  header_type = from_le_bytes-to_le_bytes 4 s.header_type f.header_type i;
  flags = from_le_bytes-to_le_bytes 8 s.flags f.flags i;
  address = from_le_bytes-to_le_bytes 8 s.address f.address i;
  offset = from_le_bytes-to_le_bytes 8 s.offset f.offset i;
  size = from_le_bytes-to_le_bytes 8 s.size f.size i;
  link = from_le_bytes-to_le_bytes 4 s.link f.link i;
  info = from_le_bytes-to_le_bytes 4 s.info f.info i;
  alignment = from_le_bytes-to_le_bytes 8 s.alignment f.alignment i;
  entry_size = from_le_bytes-to_le_bytes 8 s.entry_size f.entry_size i;
})

pub header_new-header_bytes :
    (pad : ℕ → ℕ) (h : Header) (rest : List ℕ)
    → HeaderFits h
    → header_new (header_bytes pad h ++ rest) ≡ ok h
unfolding header_new le_at bytes_at
header_new-header_bytes pad h rest f = λ i. ok (record {
  magic = from_le_bytes-to_le_bytes 4 h.magic f.magic i;
  class = from_le_bytes-to_le_bytes 1 h.class f.class i;
  encoding = from_le_bytes-to_le_bytes 1 h.encoding f.encoding i;
  version = from_le_bytes-to_le_bytes 1 h.version f.version i;
  os_abi = from_le_bytes-to_le_bytes 1 h.os_abi f.os_abi i;
  abi_version = from_le_bytes-to_le_bytes 1 h.abi_version f.abi_version i;
  file_type = from_le_bytes-to_le_bytes 2 h.file_type f.file_type i;
  machine = from_le_bytes-to_le_bytes 2 h.machine f.machine i;
  exec_version = from_le_bytes-to_le_bytes 4 h.exec_version f.exec_version i;
  entrypoint = from_le_bytes-to_le_bytes 8 h.entrypoint f.entrypoint i;
  ph_offset = from_le_bytes-to_le_bytes 8 h.ph_offset f.ph_offset i;
  sh_offset = from_le_bytes-to_le_bytes 8 h.sh_offset f.sh_offset i;
  flags = from_le_bytes-to_le_bytes 4 h.flags f.flags i;
  eh_size = from_le_bytes-to_le_bytes 2 h.eh_size f.eh_size i;
  ph_size = from_le_bytes-to_le_bytes 2 h.ph_size f.ph_size i;
  ph_number = from_le_bytes-to_le_bytes 2 h.ph_number f.ph_number i;
  sh_size = from_le_bytes-to_le_bytes 2 h.sh_size f.sh_size i;
  sh_number = from_le_bytes-to_le_bytes 2 h.sh_number f.sh_number i;
  sh_index = from_le_bytes-to_le_bytes 2 h.sh_index f.sh_index i;
})
