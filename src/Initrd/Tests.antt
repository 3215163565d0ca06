-- ===== src/Initrd/Tests.antt =====
-- The ramdisk's theorems at a small archive.
use neur_os.Common.{
  ◌≡◌, ◌≢◌, refl, Text, codes, [], ◌∷◌, ◌++◌, ok, panic, out_of_bounds, unwrap_failed, stuck, arith,
  trim_end_nul, ne_of_list_eq,
}
use neur_os.Logger
use neur_os.Initrd.Block.{Header, File, parse_header}
use neur_os.Initrd.Display.{fmt, permissions}
use neur_os.Initrd.Display.Modes.{shown, permissions-three, permissions-four, permissions-panics}
use neur_os.Initrd.Archive.{new, get_data}
use neur_os.Initrd.Archive.Lookup.{get_data_first, get_data-panics}
use neur_os.Initrd.Archive.Ends.{new-ne-stuck}
use neur_os.Initrd.Ustar.{header_block, IsUstar, archive, IsEntry, trace_all}
use neur_os.Initrd.Ustar.Fields.{parse_header-header_block}
use neur_os.Initrd.Ustar.Files.{new-archive}

abbrev motd_header : Header
motd_header = record {
  name = codes "initrd/etc/motd";
  mode = 644;
  user_id = 0;
  group_id = 0;
  size = 5;
  mtime = 1709210096;
  checksum = codes "0001234";
  flag = 0;
  linked = [];
  indicator = codes "ustar";
  version = codes "00";
  username = codes "root";
  group = codes "root";
  major = 0;
  minor = 0;
  prefix = [];
}

abbrev motd : File
motd = record { header = motd_header; contents = codes "Hello" }

abbrev etc : File
etc = record {
  header = record motd_header { name = codes "initrd/etc/"; mode = 755; size = 0; flag = 5 };
  contents = [];
}

motd_header-IsUstar : IsUstar motd_header
unfolding trim_end_nul
motd_header-IsUstar = record {
  name = record { short = omega arith; ascii = omega arith; trimmed = refl };
  mode = omega arith;
  user_id = omega arith;
  group_id = omega arith;
  size = omega arith;
  mtime = omega arith;
  checksum = record { short = omega arith; ascii = omega arith; trimmed = refl };
  flag = omega arith;
  linked = record { short = omega arith; ascii = tt; trimmed = refl };
  indicator = record { short = omega arith; ascii = omega arith; trimmed = refl };
  version = record { short = omega arith; ascii = omega arith; trimmed = refl };
  username = record { short = omega arith; ascii = omega arith; trimmed = refl };
  group = record { short = omega arith; ascii = omega arith; trimmed = refl };
  major = omega arith;
  minor = omega arith;
  prefix = record { short = omega arith; ascii = tt; trimmed = refl };
}

motd-IsEntry : IsEntry motd
motd-IsEntry = record { header_ok = motd_header-IsUstar; named = λ e. cc e; sized = refl }

etc-IsEntry : IsEntry etc
unfolding trim_end_nul
etc-IsEntry = record {
  header_ok = record {
    name = record { short = omega arith; ascii = omega arith; trimmed = refl };
    mode = omega arith;
    user_id = omega arith;
    group_id = omega arith;
    size = omega arith;
    mtime = omega arith;
    checksum = motd_header-IsUstar.checksum;
    flag = omega arith;
    linked = motd_header-IsUstar.linked;
    indicator = motd_header-IsUstar.indicator;
    version = motd_header-IsUstar.version;
    username = motd_header-IsUstar.username;
    group = motd_header-IsUstar.group;
    major = omega arith;
    minor = omega arith;
    prefix = motd_header-IsUstar.prefix;
  };
  named = λ e. cc e;
  sized = refl;
}

abbrev motd_line : Text
motd_line = codes "-rw-r--r-- root/root 5 2024-02-29 12:34:56 initrd/etc/motd"

abbrev etc_line : Text
etc_line = codes "drwxr-xr-x root/root 0 2024-02-29 12:34:56 initrd/etc/"

motd_line_test : fmt motd ≡ ok motd_line
unfolding fmt
motd_line_test = refl

etc_line_test : fmt etc ≡ ok etc_line
unfolding fmt
etc_line_test = refl

header_block_test : parse_header (header_block motd_header (1 ∷ [])) ≡ ok motd_header
header_block_test = parse_header-header_block motd_header (1 ∷ []) motd_header-IsUstar

new-archive_example :
    new (archive (etc ∷ motd ∷ []) (7 ∷ [])) Logger.new
    ≡ ok (record { files = etc ∷ motd ∷ [] }, trace_all (etc_line ∷ motd_line ∷ []) Logger.new)
new-archive_example =
    new-archive (etc ∷ motd ∷ []) (etc_line ∷ motd_line ∷ []) (7 ∷ []) Logger.new
      (etc-IsEntry, (motd-IsEntry, tt)) (etc_line_test, (motd_line_test, tt))

new-ne-stuck_example : new (1 ∷ 2 ∷ []) Logger.new ≢ panic stuck
new-ne-stuck_example = new-ne-stuck (1 ∷ 2 ∷ []) Logger.new

first_test :
    get_data (record { files = (etc ∷ []) ++ (motd ∷ []) }) (codes "initrd/etc/motd")
    ≡ ok (codes "Hello")
first_test =
    get_data_first (codes "initrd/etc/motd") (etc ∷ []) [] motd (ne_of_list_eq _ _ refl, tt) refl

missing_test :
    get_data (record { files = etc ∷ motd ∷ [] }) (codes "initrd/bin/init") ≡ panic unwrap_failed
missing_test =
    get_data-panics (codes "initrd/bin/init") (record { files = etc ∷ motd ∷ [] })
      (ne_of_list_eq _ _ refl, (ne_of_list_eq _ _ refl, tt))

permissions-three_example : permissions motd_header ≡ ok (shown motd_header 6 4 4)
permissions-three_example = permissions-three motd_header (omega arith) (omega arith)

-- A set-user-id executable, mode 4755
permissions-four_example :
    permissions (record motd_header { mode = 4755 }) ≡ ok (shown motd_header 4 7 5)
permissions-four_example =
    permissions-four (record motd_header { mode = 4755 }) (omega arith) (omega arith)

permissions-panics_example : permissions (record motd_header { mode = 44 }) ≡ panic out_of_bounds
permissions-panics_example = permissions-panics (record motd_header { mode = 44 }) (omega arith)
