-- ===== src/Initrd/Ustar.antt =====
-- The ustar format, as a writer of archives fills it in: the specification that the parsers of the
-- ramdisk are held against. Text is padded with NUL bytes; a number has a digit for each byte of
-- its field but the last, which is NUL. The modes and the device numbers are written in octal and
-- kept by the parser as the decimal number with the same digits.
pub mod Numbers
pub mod Fields
pub mod Files
use neur_os.Common.{
  ℕ, zero, suc, ◌+◌, ◌-◌, ◌/◌, ◌%◌, ◌^◌, ◌<◌, ◌≤◌, ◌≡◌, ◌≢◌, Text, List, [], ◌∷◌, ◌++◌, length,
  replicate, IsAscii, trim_end_nul, ok,
}
use neur_os.Logger.{Logger, log, trace}
use neur_os.Initrd.Block.{Header, File}
use neur_os.Initrd.Display.{fmt}

-- `width` bytes: the text, then NULs.
abbrev pub pad : ℕ → Text → List ℕ
pad width t = t ++ replicate (width - length t) 0

-- The last `width` digits of a number.
unfoldable pub digits : (radix width : ℕ) → ℕ → Text
digits radix zero n = []
digits radix (suc width) n = digits radix width (n / radix) ++ ((48 + n % radix) ∷ [])

-- A header block from each of its sixteen fields on, and what follows it. The last twelve bytes are
-- not used.
module _ (h : Header) (rest : List ℕ) where
  abbrev pub from_padding : List ℕ
  from_padding = replicate 12 0 ++ rest

  abbrev pub from_prefix : List ℕ
  from_prefix = pad 155 h.prefix ++ from_padding

  abbrev pub from_minor : List ℕ
  from_minor = pad 8 (digits 10 7 h.minor) ++ from_prefix

  abbrev pub from_major : List ℕ
  from_major = pad 8 (digits 10 7 h.major) ++ from_minor

  abbrev pub from_group : List ℕ
  from_group = pad 32 h.group ++ from_major

  abbrev pub from_username : List ℕ
  from_username = pad 32 h.username ++ from_group

  abbrev pub from_version : List ℕ
  from_version = pad 2 h.version ++ from_username

  abbrev pub from_indicator : List ℕ
  from_indicator = pad 6 h.indicator ++ from_version

  abbrev pub from_linked : List ℕ
  from_linked = pad 100 h.linked ++ from_indicator

  abbrev pub from_flag : List ℕ
  from_flag = pad 1 (digits 10 1 h.flag) ++ from_linked

  abbrev pub from_checksum : List ℕ
  from_checksum = pad 8 h.checksum ++ from_flag

  abbrev pub from_mtime : List ℕ
  from_mtime = pad 12 (digits 8 11 h.mtime) ++ from_checksum

  abbrev pub from_size : List ℕ
  from_size = pad 12 (digits 8 11 h.size) ++ from_mtime

  abbrev pub from_group_id : List ℕ
  from_group_id = pad 8 (digits 8 7 h.group_id) ++ from_size

  abbrev pub from_user_id : List ℕ
  from_user_id = pad 8 (digits 8 7 h.user_id) ++ from_group_id

  abbrev pub from_mode : List ℕ
  from_mode = pad 8 (digits 10 7 h.mode) ++ from_user_id

  abbrev pub header_block : List ℕ
  header_block = pad 100 h.name ++ from_mode

-- Text that fits a field and is ASCII without a NUL at its end.
pub record Fits (width : ℕ) (t : Text) : Type 0 where
  pub short : length t ≤ width
  pub ascii : IsAscii t
  pub trimmed : trim_end_nul t ≡ t

-- A header that the format can hold. Sizes and times are below 2 ^ 32, as the parser wants it.
pub record IsUstar (h : Header) : Type 0 where
  pub name : Fits 100 h.name
  pub mode : h.mode < 10 ^ 7
  pub user_id : h.user_id < 8 ^ 7
  pub group_id : h.group_id < 8 ^ 7
  pub size : h.size < 2 ^ 32
  pub mtime : h.mtime < 2 ^ 32
  pub checksum : Fits 8 h.checksum
  pub flag : h.flag < 10
  pub linked : Fits 100 h.linked
  pub indicator : Fits 6 h.indicator
  pub version : Fits 2 h.version
  pub username : Fits 32 h.username
  pub group : Fits 32 h.group
  pub major : h.major < 10 ^ 7
  pub minor : h.minor < 10 ^ 7
  pub prefix : Fits 155 h.prefix

-- How many NUL bytes fill up the last block of a file's contents.
abbrev pub padding : ℕ → ℕ
padding size = (512 - size % 512) % 512

-- The blocks of one file, and of an archive with its end.
abbrev pub file_blocks : File → List ℕ → List ℕ
file_blocks f rest =
    header_block f.header (f.contents ++ (replicate (padding (length f.contents)) 0 ++ rest))

abbrev pub archive : List File → List ℕ → List ℕ
archive [] rest = replicate 512 0 ++ rest
archive (f ∷ fs) rest = file_blocks f (archive fs rest)

-- A file that a writer can put into an archive: it has a name, and its size is that of its contents.
pub record IsEntry (f : File) : Type 0 where
  pub header_ok : IsUstar f.header
  pub named : f.header.name ≢ []
  pub sized : f.header.size ≡ length f.contents

-- The lines that `File::fmt` writes for some files.
abbrev pub Printed : List File → List Text → Type 0
Printed [] [] = Unit {0}
Printed [] (t ∷ ts) = ⊥
Printed (f ∷ fs) [] = ⊥
Printed (f ∷ fs) (t ∷ ts) = (fmt f ≡ ok t) × Printed fs ts

abbrev pub trace_all : List Text → Logger → Logger
trace_all [] l = l
trace_all (t ∷ ts) l = trace_all ts (log trace t l)
