-- ===== src/Elf/Table.antt =====
-- kernel/src/elf.rs: the tables of an executable: a written file is read back.
use neur_os.Common.{
  ◌≡◌, refl, ap, sym, ◌∙◌, ℕ, suc, ◌+◌, ◌*◌, ◌-◌, ◌^◌, ◌<◌, ◌≤◌, List, [], ◌∷◌, ◌++◌, length, drop,
  All, arith, Outcome, ok, ltb-true, leb-true, drop-append, drop-drop, length-drop, length-append,
  append-nil, append_assoc, Text,
}
use neur_os.Initrd.Archive.{Initrd, get_data}
use neur_os.Elf.{
  Elf, header_new, program_new, section_new, entry_offset, slice_from, load_entry, load_entries,
  load, elf_new,
}
use neur_os.Elf.Image.{
  header_bytes, program_bytes, section_bytes, HeaderFits, ProgramFits, SectionFits,
  header_new-header_bytes, program_new-program_bytes, section_new-section_bytes,
}

abbrev pub table_bytes : {A : Type 0} → (A → List ℕ) → List A → List ℕ
table_bytes encode [] = []
table_bytes encode (e ∷ es) = encode e ++ table_bytes encode es

entry_offset-ok :
    (base size index limit : ℕ)
    → index * size < 2 ^ 16
    → base + index * size ≤ limit
    → limit < 2 ^ 64
    → entry_offset base size index ≡ ok (base + index * size)
unfolding entry_offset
entry_offset-ok base size index limit h g k =
    rw (ltb-true (index * size) (2 ^ 16) h, ltb-true (base + index * size) (2 ^ 64) (omega arith))

slice_from-ok :
    (bytes : List ℕ) (offset : ℕ)
    → offset ≤ length bytes
    → slice_from bytes offset ≡ ok (drop offset bytes)
unfolding slice_from
slice_from-ok bytes offset h = rw (leb-true offset (length bytes) h)

-- The decoder of an entry, the encoding that it reads, and the entry's size.
module _ {A : Type 0} (entry_new : List ℕ → Outcome A) (encode : A → List ℕ) (size : ℕ)
    (Fits : A → Type 0) (positive : 0 < size) (measured : (e : A) → length (encode e) ≡ size)
    (decoded : (e : A) (rest : List ℕ) → Fits e → entry_new (encode e ++ rest) ≡ ok e) where
  load_entry-written :
      (bytes : List ℕ) (base index : ℕ) (e : A) (rest : List ℕ)
      → drop (base + index * size) bytes ≡ encode e ++ rest
      → Fits e
      → index * size < 2 ^ 16
      → length bytes < 2 ^ 64
      → load_entry entry_new bytes base size index ≡ ok e
  unfolding load_entry
  load_entry-written bytes base index e rest d f small memory =
      let n : length bytes - (base + index * size) ≡ size + length rest =
        sym (length-drop (base + index * size) bytes)
        ∙ ap length d
        ∙ length-append (encode e) rest
        ∙ ap (λ k. k + length rest) (measured e) in
      let inside : base + index * size ≤ length bytes = omega (arith, n, positive) in
      rw (
        entry_offset-ok base size index (length bytes) small inside memory,
        slice_from-ok bytes (base + index * size) inside,
        d,
        decoded e rest f,
      )

  load_entries-written :
      (bytes : List ℕ) (base : ℕ) (es : List A) (index : ℕ) (entries : List A) (rest : List ℕ)
      → drop (base + index * size) bytes ≡ table_bytes encode es ++ rest
      → All Fits es
      → ((i : ℕ) → i < index + length es → i * size < 2 ^ 16)
      → length bytes < 2 ^ 64
      → load_entries entry_new bytes base size index (length es) entries ≡ ok (entries ++ es)
  unfolding load_entries
  load_entries-written bytes base [] index entries rest d f small memory = rw (append-nil entries)
  load_entries-written bytes base (e ∷ es) index entries rest d f small memory =
      let here = d ∙ append_assoc (encode e) (table_bytes encode es) rest in
      let step : (base + index * size) + size ≡ base + suc index * size = omega arith in
      let there : drop (base + suc index * size) bytes ≡ table_bytes encode es ++ rest =
        sym (ap (λ k. drop k bytes) step)
        ∙ sym (drop-drop (base + index * size) size bytes)
        ∙ ap (drop size) here
        ∙ drop-append size (encode e) (table_bytes encode es ++ rest) (measured e) in
      rw (
        load_entry-written bytes base index e (table_bytes encode es ++ rest) here f.0
            (small index (omega arith)) memory,
        load_entries-written bytes base es (suc index) (entries ++ (e ∷ [])) rest there f.1
            (λ i h. small i (omega arith)) memory,
        append_assoc entries (e ∷ []) es,
      )

-- The file of an executable: its header first, and the tables where the header says.
pub record IsElfFile (pad : ℕ → ℕ) (bytes : List ℕ) (e : Elf) : Type 0 where
  pub after_header : List ℕ
  pub after_programs : List ℕ
  pub after_sections : List ℕ
  pub headed : bytes ≡ header_bytes pad e.header ++ after_header
  pub programmed :
      drop e.header.ph_offset bytes ≡ table_bytes program_bytes e.programs ++ after_programs
  pub sectioned :
      drop e.header.sh_offset bytes ≡ table_bytes section_bytes e.sections ++ after_sections
  pub header_fits : HeaderFits e.header
  pub programs_fit : All ProgramFits e.programs
  pub sections_fit : All SectionFits e.sections
  pub program_size : e.header.ph_size ≡ 56
  pub section_size : e.header.sh_size ≡ 64
  pub program_count : e.header.ph_number ≡ length e.programs
  pub section_count : e.header.sh_number ≡ length e.sections
  pub few_programs : length e.programs ≤ 1171
  pub few_sections : length e.sections ≤ 1024
  pub memory : length bytes < 2 ^ 64

no_entries : (base size : ℕ) → base + 0 * size ≡ base
no_entries base size = omega arith

-- `Elf::new` reads back every executable that is written to a file of the ramdisk, wherever its
-- tables stand, if it has at most 1171 programs and 1024 sections.
pub elf_new-IsElfFile :
    (i : Initrd) (path : Text) (pad : ℕ → ℕ) (bytes : List ℕ) (e : Elf)
    → get_data i path ≡ ok bytes
    → IsElfFile pad bytes e
    → elf_new i path ≡ ok e
unfolding elf_new load
elf_new-IsElfFile i path pad bytes e found f =
    let h =
      ap header_new f.headed ∙ header_new-header_bytes pad e.header f.after_header f.header_fits in
    let ps =
      load_entries-written program_new program_bytes 56 ProgramFits (omega arith) (λ p. refl)
        program_new-program_bytes bytes e.header.ph_offset e.programs 0 [] f.after_programs
        (ap (λ k. drop k bytes) (no_entries e.header.ph_offset 56) ∙ f.programmed) f.programs_fit
        (λ k less. let few = f.few_programs in omega arith) f.memory in
    let ss =
      load_entries-written section_new section_bytes 64 SectionFits (omega arith) (λ s. refl)
        section_new-section_bytes bytes e.header.sh_offset e.sections 0 [] f.after_sections
        (ap (λ k. drop k bytes) (no_entries e.header.sh_offset 64) ∙ f.sectioned) f.sections_fit
        (λ k less. let few = f.few_sections in omega arith) f.memory in
    rw (found, h, f.program_size, f.section_size, f.program_count, f.section_count, ps, ss)
