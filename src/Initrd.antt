-- ===== src/Initrd.antt =====
-- kernel/src/initrd.rs: the initial ramdisk, an archive in the ustar format. `Block` reads one
-- header, `Display` is what is logged of a file, `Archive` walks the module and finds files.
pub mod Timestamp
pub mod Block
pub mod Display
pub mod Archive
pub mod Ustar
mod Tests
