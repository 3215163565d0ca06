-- ===== src/Initrd/Block.antt =====
-- kernel/src/initrd.rs: the types, and the parsers of one header block. A raw address is what the
-- module holds from there on, so `wrapping_add` drops bytes.
use neur_os.Common.{
  ℕ, Text, List, length, take, drop, Outcome, ok, panic, bad_pointer, unwrap, ◌>>=◌, from_utf8,
  trim_end_nul, from_str_radix, leb, if◌then◌else◌,
}
use mathlib.Core.Option.{get_or}

pub record Header : Type 0 where
  pub name : Text
  pub mode : ℕ
  pub user_id : ℕ
  pub group_id : ℕ
  pub size : ℕ
  pub mtime : ℕ
  pub checksum : Text
  pub flag : ℕ
  pub linked : Text
  pub indicator : Text
  pub version : Text
  pub username : Text
  pub group : Text
  pub major : ℕ
  pub minor : ℕ
  pub prefix : Text

-- The field `data` of the source is a keyword here.
pub record File : Type 0 where
  pub header : Header
  pub contents : List ℕ

-- `slice_from_raw_parts(address, length)`, dereferenced. Past the module's end the program's
-- behaviour is undefined.
unfoldable pub slice : List ℕ → ℕ → Outcome (List ℕ)
slice address n = if leb n (length address) then ok (take n address) else panic bad_pointer

-- `Initrd::parse_slice`
unfoldable pub parse_slice : List ℕ → ℕ → Outcome Text
unfolding slice
parse_slice address n = do
  bytes ← slice address n
  text ← unwrap (from_utf8 bytes)
  ok (trim_end_nul text)

-- `Initrd::parse_string`
unfoldable pub parse_string : List ℕ → ℕ → Outcome Text
unfolding parse_slice
parse_string address n = parse_slice address n

-- `Initrd::parse_integer`
unfoldable pub parse_integer : List ℕ → ℕ → Outcome ℕ
unfolding parse_slice
parse_integer address n = do text ← parse_slice address n; ok (get_or (from_str_radix 10 text) 0)

-- `Initrd::parse_octal`
unfoldable pub parse_octal : List ℕ → ℕ → Outcome ℕ
unfolding parse_slice
parse_octal address n = do text ← parse_slice address n; unwrap (from_str_radix 8 text)

-- `Initrd::parse_block`
unfoldable pub parse_block : List ℕ → ℕ → Outcome (List ℕ)
unfolding slice
parse_block address n = slice address n

-- `Initrd::parse_data`
unfoldable pub parse_data : List ℕ → ℕ → Outcome (List ℕ)
unfolding slice
parse_data address n = slice address n

-- `Initrd::parse_header`
unfoldable pub parse_header : List ℕ → Outcome Header
parse_header address = do
  name ← parse_string address 100
  mode ← parse_integer (drop 100 address) 8
  user_id ← parse_octal (drop 108 address) 8
  group_id ← parse_octal (drop 116 address) 8
  size ← parse_octal (drop 124 address) 12
  mtime ← parse_octal (drop 136 address) 12
  checksum ← parse_string (drop 148 address) 8
  flag ← parse_integer (drop 156 address) 1
  linked ← parse_string (drop 157 address) 100
  indicator ← parse_string (drop 257 address) 6
  version ← parse_string (drop 263 address) 2
  username ← parse_string (drop 265 address) 32
  group ← parse_string (drop 297 address) 32
  major ← parse_integer (drop 329 address) 8
  minor ← parse_integer (drop 337 address) 8
  prefix ← parse_string (drop 345 address) 155
  ok (record {
    name = name;
    mode = mode;
    user_id = user_id;
    group_id = group_id;
    size = size;
    mtime = mtime;
    checksum = checksum;
    flag = flag;
    linked = linked;
    indicator = indicator;
    version = version;
    username = username;
    group = group;
    major = major;
    minor = minor;
    prefix = prefix;
  })
