-- ===== src/Elf.antt =====
-- kernel/src/elf.rs: the headers of an executable, read from its bytes. A field of the source that is
-- called `data` is a keyword here.
pub mod Report
pub mod Image
pub mod Table
pub mod Failure
mod Tests
use neur_os.Common.{
  ℕ, zero, suc, ◌+◌, ◌*◌, ◌^◌, ltb, leb, if◌then◌else◌, List, [], ◌∷◌, ◌++◌, get_elem?, drop,
  length, Text, Outcome, ok, panic, overflow, out_of_bounds, in_bounds, ◌>>=◌,
}
use neur_os.Initrd.Archive.{Initrd, get_data}

pub record Header : Type 0 where
  pub magic : ℕ
  pub class : ℕ
  pub encoding : ℕ
  pub version : ℕ
  pub os_abi : ℕ
  pub abi_version : ℕ
  pub file_type : ℕ
  pub machine : ℕ
  pub exec_version : ℕ
  pub entrypoint : ℕ
  pub ph_offset : ℕ
  pub sh_offset : ℕ
  pub flags : ℕ
  pub eh_size : ℕ
  pub ph_size : ℕ
  pub ph_number : ℕ
  pub sh_size : ℕ
  pub sh_number : ℕ
  pub sh_index : ℕ

pub record Program : Type 0 where
  pub segment_type : ℕ
  pub flags : ℕ
  pub offset : ℕ
  pub virtual_address : ℕ
  pub physical_address : ℕ
  pub file_size : ℕ
  pub memory_size : ℕ
  pub alignment : ℕ

pub record Section : Type 0 where
  pub name : ℕ
  pub header_type : ℕ
  pub flags : ℕ
  pub address : ℕ
  pub offset : ℕ
  pub size : ℕ
  pub link : ℕ
  pub info : ℕ
  pub alignment : ℕ
  pub entry_size : ℕ

pub record Elf : Type 0 where
  pub header : Header
  pub programs : List Program
  pub sections : List Section

-- `from_le_bytes`
abbrev pub from_le_bytes : List ℕ → ℕ
from_le_bytes [] = 0
from_le_bytes (b ∷ bs) = b + 256 * from_le_bytes bs

-- `[data[i], data[i + 1], ...]` of `n` bytes
unfoldable pub bytes_at : List ℕ → ℕ → ℕ → Outcome (List ℕ)
bytes_at bytes i zero = ok []
bytes_at bytes i (suc n) = do
  b ← in_bounds (get_elem? bytes i)
  bs ← bytes_at bytes (suc i) n
  ok (b ∷ bs)

unfoldable pub le_at : List ℕ → ℕ → ℕ → Outcome ℕ
le_at bytes i n = do bs ← bytes_at bytes i n; ok (from_le_bytes bs)

-- `Header::new`
unfoldable pub header_new : List ℕ → Outcome Header
unfolding le_at bytes_at
header_new bytes = do
  magic ← le_at bytes 0 4
  class ← le_at bytes 4 1
  encoding ← le_at bytes 5 1
  version ← le_at bytes 6 1
  os_abi ← le_at bytes 7 1
  abi_version ← le_at bytes 8 1
  file_type ← le_at bytes 16 2
  machine ← le_at bytes 18 2
  exec_version ← le_at bytes 20 4
  entrypoint ← le_at bytes 24 8
  ph_offset ← le_at bytes 32 8
  sh_offset ← le_at bytes 40 8
  flags ← le_at bytes 48 4
  eh_size ← le_at bytes 52 2
  ph_size ← le_at bytes 54 2
  ph_number ← le_at bytes 56 2
  sh_size ← le_at bytes 58 2
  sh_number ← le_at bytes 60 2
  sh_index ← le_at bytes 62 2
  ok (record {
    magic = magic;
    class = class;
    encoding = encoding;
    version = version;
    os_abi = os_abi;
    abi_version = abi_version;
    file_type = file_type;
    machine = machine;
    exec_version = exec_version;
    entrypoint = entrypoint;
    ph_offset = ph_offset;
    sh_offset = sh_offset;
    flags = flags;
    eh_size = eh_size;
    ph_size = ph_size;
    ph_number = ph_number;
    sh_size = sh_size;
    sh_number = sh_number;
    sh_index = sh_index;
  })

-- `Program::new`
unfoldable pub program_new : List ℕ → Outcome Program
unfolding le_at bytes_at
program_new bytes = do
  segment_type ← le_at bytes 0 4
  flags ← le_at bytes 4 4
  offset ← le_at bytes 8 8
  virtual_address ← le_at bytes 16 8
  physical_address ← le_at bytes 24 8
  file_size ← le_at bytes 32 8
  memory_size ← le_at bytes 40 8
  alignment ← le_at bytes 48 8
  ok (record {
    segment_type = segment_type;
    flags = flags;
    offset = offset;
    virtual_address = virtual_address;
    physical_address = physical_address;
    file_size = file_size;
    memory_size = memory_size;
    alignment = alignment;
  })

-- `Section::new`
unfoldable pub section_new : List ℕ → Outcome Section
unfolding le_at bytes_at
section_new bytes = do
  name ← le_at bytes 0 4
  header_type ← le_at bytes 4 4
  flags ← le_at bytes 8 8
  address ← le_at bytes 16 8
  offset ← le_at bytes 24 8
  size ← le_at bytes 32 8
  link ← le_at bytes 40 4
  info ← le_at bytes 44 4
  alignment ← le_at bytes 48 8
  entry_size ← le_at bytes 56 8
  ok (record {
    name = name;
    header_type = header_type;
    flags = flags;
    address = address;
    offset = offset;
    size = size;
    link = link;
    info = info;
    alignment = alignment;
    entry_size = entry_size;
  })

-- `index * size` on `u16`, then the sum on `u64`
unfoldable pub entry_offset : ℕ → ℕ → ℕ → Outcome ℕ
entry_offset base size index =
    if ltb (index * size) (2 ^ 16)
    then (if ltb (base + index * size) (2 ^ 64) then ok (base + index * size) else panic overflow)
    else panic overflow

-- `&data[offset..]`
unfoldable pub slice_from : List ℕ → ℕ → Outcome (List ℕ)
slice_from bytes offset =
    if leb offset (length bytes) then ok (drop offset bytes) else panic out_of_bounds

-- The body of both loops, with the `new` of the entry's type.
unfoldable pub load_entry : {A : Type 0} → (List ℕ → Outcome A) → List ℕ → ℕ → ℕ → ℕ → Outcome A
load_entry entry_new bytes base size index = do
  offset ← entry_offset base size index
  slice ← slice_from bytes offset
  entry_new slice

-- Both loops: `count` entries are left, `index` is the next, and `entries` has those read so far.
unfoldable pub load_entries :
    {A : Type 0} → (List ℕ → Outcome A) → List ℕ → ℕ → ℕ → ℕ → ℕ → List A → Outcome (List A)
load_entries entry_new bytes base size index zero entries = ok entries
load_entries entry_new bytes base size index (suc count) entries = do
  entry ← load_entry entry_new bytes base size index
  load_entries entry_new bytes base size (suc index) count (entries ++ (entry ∷ []))

-- `Elf::new`, once the file has been found
unfoldable pub load : List ℕ → Outcome Elf
unfolding load_entries load_entry entry_offset slice_from header_new program_new section_new le_at
    bytes_at
load bytes = do
  header ← header_new bytes
  programs ← load_entries program_new bytes header.ph_offset header.ph_size 0 header.ph_number []
  sections ← load_entries section_new bytes header.sh_offset header.sh_size 0 header.sh_number []
  ok (record { header = header; programs = programs; sections = sections })

-- `Elf::new`
unfoldable pub elf_new : Initrd → Text → Outcome Elf
unfolding load
elf_new initrd path = do bytes ← get_data initrd path; load bytes
