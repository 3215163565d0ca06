-- ===== src/Elf/Failure.antt =====
-- kernel/src/elf.rs: what a table that is too long, or a file that is too short, does.
use neur_os.Common.{
  ◌≡◌, ℕ, zero, suc, ◌+◌, ◌*◌, ◌-◌, ◌^◌, ◌<◌, ◌≤◌, List, [], ◌∷◌, ◌++◌, length, arith, Outcome, ok,
  in_bounds, ltb-false, get_elem?, get_elem?-none, DoesPanic, DoesPanic-bind, DoesPanic-bind-first,
  Text, ◌>>=◌,
}
use neur_os.Initrd.Archive.{Initrd, get_data}
use neur_os.Elf.{
  Header, header_new, program_new, section_new, le_at, bytes_at, entry_offset, load_entry,
  load_entries, load, elf_new,
}

entry_offset-DoesPanic :
    (base size index : ℕ) → 2 ^ 16 ≤ index * size → DoesPanic (entry_offset base size index)
unfolding entry_offset
entry_offset-DoesPanic base size index h = rw (ltb-false (index * size) (2 ^ 16) h) tt

-- A table whose entry `k` from `index` on lies past what `u16` can count is not loaded.
load_entries-DoesPanic :
    {A : Type 0} (entry_new : List ℕ → Outcome A) (bytes : List ℕ) (base size k index count : ℕ)
    (entries : List A)
    → k < count
    → 2 ^ 16 ≤ (index + k) * size
    → DoesPanic (load_entries entry_new bytes base size index count entries)
unfolding load_entries load_entry
load_entries-DoesPanic entry_new bytes base size k index zero entries h g = absurd (omega arith)
load_entries-DoesPanic entry_new bytes base size zero index (suc count) entries h g =
    DoesPanic-bind-first _ _ (
      DoesPanic-bind-first (entry_offset base size index) _
        (entry_offset-DoesPanic base size index (omega arith)))
load_entries-DoesPanic entry_new bytes base size (suc k) index (suc count) entries h g =
    DoesPanic-bind _ _ (λ e _.
      load_entries-DoesPanic entry_new bytes base size k (suc index) count (entries ++ (e ∷ []))
        (omega arith) (omega arith))

-- The product of an entry's index and its size is taken on 16 bits: where the last section's leaves
-- them, `Elf::new` panics, whatever else the file holds.
pub elf_new-DoesPanic :
    (i : Initrd) (path : Text) (bytes : List ℕ) (h : Header)
    → get_data i path ≡ ok bytes
    → header_new bytes ≡ ok h
    → 0 < h.sh_number
    → 2 ^ 16 ≤ (h.sh_number - 1) * h.sh_size
    → DoesPanic (elf_new i path)
unfolding elf_new load
elf_new-DoesPanic i path bytes h found header some_section large =
    rw (found, header)
      (DoesPanic-bind (load_entries program_new bytes h.ph_offset h.ph_size 0 h.ph_number []) _
        (λ ps _. DoesPanic-bind-first _ _ (
          load_entries-DoesPanic section_new bytes h.sh_offset h.sh_size (h.sh_number - 1) 0
            h.sh_number [] (omega arith) (omega arith))))

read-short : (bytes : List ℕ) (i : ℕ) → length bytes ≤ i → DoesPanic (in_bounds (get_elem? bytes i))
read-short bytes i h = rw (get_elem?-none bytes i h) tt

le_at-short : (bytes : List ℕ) → length bytes < 64 → DoesPanic (le_at bytes 62 2)
unfolding le_at bytes_at
le_at-short bytes h = DoesPanic-bind-first _ _ (
    DoesPanic-bind (in_bounds (get_elem? bytes 62)) _ (λ b _. DoesPanic-bind-first _ _ (
      DoesPanic-bind-first (in_bounds (get_elem? bytes 63)) _ (read-short bytes 63 (omega arith)))))

after-le_at :
    {A : Type 0} (bytes : List ℕ) (i n : ℕ) (f : ℕ → Outcome A)
    → ((v : ℕ) → DoesPanic (f v))
    → DoesPanic (le_at bytes i n >>= f)
after-le_at bytes i n f h = DoesPanic-bind (le_at bytes i n) f (λ v _. h v)

header_new-DoesPanic : (bytes : List ℕ) → length bytes < 64 → DoesPanic (header_new bytes)
unfolding header_new
header_new-DoesPanic bytes h = after-le_at bytes 0 4 _ (λ _. after-le_at bytes 4 1 _ (λ _.
    after-le_at bytes 5 1 _ (λ _. after-le_at bytes 6 1 _ (λ _. after-le_at bytes 7 1 _ (λ _.
      after-le_at bytes 8 1 _ (λ _. after-le_at bytes 16 2 _ (λ _. after-le_at bytes 18 2 _ (λ _.
        after-le_at bytes 20 4 _ (λ _. after-le_at bytes 24 8 _ (λ _. after-le_at bytes 32 8 _ (λ _.
          after-le_at bytes 40 8 _ (λ _. after-le_at bytes 48 4 _ (λ _.
            after-le_at bytes 52 2 _ (λ _. after-le_at bytes 54 2 _ (λ _.
              after-le_at bytes 56 2 _ (λ _. after-le_at bytes 58 2 _ (λ _.
                after-le_at bytes 60 2 _ (λ _.
                  DoesPanic-bind-first (le_at bytes 62 2) _ (le_at-short bytes h)))))))))))))))))))

-- A file of fewer than 64 bytes makes `Elf::new` panic.
pub elf_new-short :
    (i : Initrd) (path : Text) (bytes : List ℕ)
    → get_data i path ≡ ok bytes
    → length bytes < 64
    → DoesPanic (elf_new i path)
unfolding elf_new load
elf_new-short i path bytes found h =
    rw found (DoesPanic-bind-first (header_new bytes) _ (header_new-DoesPanic bytes h))
