-- ===== src/Elf/Report.antt =====
-- kernel/src/elf.rs: `Elf::fmt`, the report that `readelf` prints.
use neur_os.Common.{ℕ, ◌==◌, if◌then◌else◌, Text, codes, show, show_hex, List, [], ◌∷◌, ◌++◌}
use neur_os.Elf.{Elf, Header}

unfoldable pub class_name : ℕ → Text
class_name n = if n == 1 then codes "ELF32" else if n == 2 then codes "ELF64" else codes "Unknown"

unfoldable pub encoding_name : ℕ → Text
encoding_name n =
    if n == 1
    then codes "2's complement, little endian"
    else if n == 2
    then codes "2's complement, big endian"
    else codes "Unknown"

unfoldable pub version_name : ℕ → Text
version_name n = if n == 1 then codes "1 (current)" else codes "Unknown"

unfoldable pub os_abi_name : ℕ → Text
os_abi_name n =
    if n == 0
    then codes "UNIX - System V"
    else if n == 1
    then codes "UNIX - HP-UX"
    else if n == 2
    then codes "UNIX - NetBSD"
    else if n == 3
    then codes "UNIX - Linux"
    else if n == 4
    then codes "UNIX - GNU Hurd"
    else if n == 6
    then codes "UNIX - Solaris"
    else if n == 7
    then codes "UNIX - AIX"
    else if n == 8
    then codes "UNIX - IRIX"
    else if n == 9
    then codes "UNIX - FreeBSD"
    else if n == 10
    then codes "UNIX - TRU64"
    else if n == 11
    then codes "Novell - Modesto"
    else if n == 12
    then codes "UNIX - OpenBSD"
    else if n == 13
    then codes "VMS - OpenVMS"
    else if n == 14
    then codes "HP - Non-Stop Kernel"
    else if n == 15
    then codes "AROS"
    else if n == 16
    then codes "FenixOS"
    else if n == 17
    then codes "Nuxi CloudABI"
    else if n == 18
    then codes "Stratus Technologies OpenVOS"
    else codes "Unknown"

unfoldable pub file_type_name : ℕ → Text
file_type_name n =
    if n == 0
    then codes "NONE (None)"
    else if n == 1
    then codes "REL (Relocatable file)"
    else if n == 2
    then codes "EXEC (Executable file)"
    else if n == 3
    then codes "DYN (Position-Independent Executable file)"
    else if n == 4
    then codes "CORE (Core file)"
    else codes "Unknown"

unfoldable pub machine_name : ℕ → Text
machine_name n = if n == 62 then codes "Advanced Micro Devices X86-64" else codes "Unknown"

-- `writeln!` of a label, a value and what follows it
unfoldable pub line : Text → Text → Text → Text
line name value after = name ++ (value ++ (after ++ (10 ∷ [])))

unfoldable pub header_lines : Header → List Text
unfolding line class_name encoding_name version_name os_abi_name file_type_name machine_name show
    show_hex
header_lines h =
    line (codes "ELF Header:") [] []
    ∷ line (codes "  Magic: 0x") (show_hex h.magic) []
    ∷ line (codes "  Class: ") (class_name h.class) []
    ∷ line (codes "  Data: ") (encoding_name h.encoding) []
    ∷ line (codes "  Version: ") (version_name h.version) []
    ∷ line (codes "  OS/ABI: ") (os_abi_name h.os_abi) []
    ∷ line (codes "  ABI Version: ") (show h.abi_version) []
    ∷ line (codes "  Type: ") (file_type_name h.file_type) []
    ∷ line (codes "  Machine: ") (machine_name h.machine) []
    ∷ line (codes "  Version: 0x") (show_hex h.exec_version) []
    ∷ line (codes "  Entry point address: 0x") (show_hex h.entrypoint) []
    ∷ line (codes "  Start of program headers: ") (show h.ph_offset) (codes " (bytes into file)")
    ∷ line (codes "  Start of section headers: ") (show h.sh_offset) (codes " (bytes into file)")
    ∷ line (codes "  Flags: 0x") (show_hex h.flags) []
    ∷ line (codes "  Size of this header: ") (show h.eh_size) (codes " (bytes)")
    ∷ line (codes "  Size of program headers: ") (show h.ph_size) (codes " (bytes)")
    ∷ line (codes "  Number of program headers: ") (show h.ph_number) []
    ∷ line (codes "  Size of section headers: ") (show h.sh_size) (codes " (bytes)")
    ∷ line (codes "  Number of section headers: ") (show h.sh_number) []
    ∷ line (codes "  Section header string table index: ") (show h.sh_index) []
    ∷ []

unfoldable pub join : List Text → Text
join [] = []
join (t ∷ ts) = t ++ join ts

-- `Elf::fmt`
unfoldable pub fmt : Elf → Text
unfolding header_lines join
fmt e = join (header_lines e.header)
