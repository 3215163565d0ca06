-- ===== src/Memory/Heap.antt =====
-- kernel/src/memory.rs: after `initialize` the heap is mapped.
use neur_os.Common.{
  ◌≡◌, ◌≢◌, refl, sym, ap, ◌∙◌, ℕ, zero, suc, ◌+◌, ◌-◌, ◌*◌, ◌/◌, ◌%◌, ◌^◌, ◌<◌, ◌≤◌, ◌⊎◌, inl,
  List, [], ◌∷◌, append-nil, length, get_elem?, none, some, All, ok, arith,
}
use mathlib.Core.Option.{some-injective}
use neur_os.Memory.{Entry, PhysicalManager, frame_size}
use neur_os.Memory.Frames.{
  run, frames, IsMemoryMap, Rising, Rising-run, length-run, get_elem?-run, ContainsOwnStart,
}
use neur_os.Memory.Pages.{Mapped, MapsFreePages, Apart, MappedInOrder, allocate_pages_lem}
use neur_os.Memory.Start.{
  Paging, Answers, Memory, heap_start, heap_size, physical_new, virtual_new, page_range, initialize,
}

-- The addresses that the processor takes: 47 bits, or the upper half.
abbrev pub IsCanonical : ℕ → Type 0
IsCanonical a = (a < 2 ^ 47) ⊎ ((2 ^ 64 - 2 ^ 47 ≤ a) × (a < 2 ^ 64))

-- What the x86_64 crate documents of its functions.
pub record IsPaging {Table : Type 0} (mapped : Mapped Table) (p : Paging Table) : Type 0 where
  pub virt_addr : (a : ℕ) → IsCanonical a → p.virt_addr a ≡ ok a
  pub add : (a b : ℕ) → IsCanonical (a + b) → p.add a b ≡ ok (a + b)
  pub sub : (a b : ℕ) → b ≤ a → IsCanonical (a - b) → p.sub a b ≡ ok (a - b)
  pub page_of : (a : ℕ) → p.page_of a ≡ a / frame_size * frame_size
  pub range_inclusive :
      (a n : ℕ) → a % frame_size ≡ 0 → p.range_inclusive a (a + n * frame_size) ≡ run (suc n) a
  pub containing_address : ContainsOwnStart p.containing_address
  pub map_to : MapsFreePages mapped p.map_to

-- The pages of the heap.
unfoldable pub heap_pages : List ℕ
heap_pages = run 1024 heap_start

Rising-other : (xs : List ℕ) (from a : ℕ) → a < from → Rising from xs → All (λ q. q ≢ a) xs
Rising-other [] from a h r = tt
Rising-other (x ∷ xs) from a h r =
    let lower = r.0 in
    ((λ e. absurd (omega arith)), Rising-other xs (x + frame_size) a (omega arith) r.1)

Rising-Apart : (xs : List ℕ) (from : ℕ) → Rising from xs → Apart xs
Rising-Apart [] from r = tt
Rising-Apart (x ∷ xs) from r =
    (Rising-other xs (x + frame_size) x (omega arith) r.1, Rising-Apart xs (x + frame_size) r.1)

run-Apart : (n a : ℕ) → Apart (run n a)
run-Apart n a = Rising-Apart (run n a) a (rw (append-nil (run n a)) at (Rising-run n a [] tt))

MappedInOrder-mapped :
    {Table : Type 0} (mapped : Mapped Table) (available pages : List ℕ) (t : Table)
    (from i page : ℕ)
    → MappedInOrder mapped available t from pages
    → get_elem? pages i ≡ some page
    → (frame : ℕ) × (mapped t page ≡ some frame)
MappedInOrder-mapped mapped available [] t from i page m e = ground arith
MappedInOrder-mapped mapped available (q ∷ pages) t from zero page m e =
    let (frame, _, f, _, _, _) = m in (frame, ap (mapped t) (some-injective page q (sym e)) ∙ f)
MappedInOrder-mapped mapped available (q ∷ pages) t from (suc i) page m e =
    let (frame, _, _, _, _, rest) = m in
    MappedInOrder-mapped mapped available pages t (frame + frame_size) i page rest e

heap_pages-Apart : Apart heap_pages
unfolding heap_pages
heap_pages-Apart = run-Apart 1024 heap_start

length-heap_pages : length heap_pages ≡ 1024
unfolding heap_pages
length-heap_pages = length-run 1024 heap_start

module _ {Table : Type 0} (mapped : Mapped Table) (p : Paging Table)
    (documented : IsPaging mapped p) where
  page_range-heap_pages : page_range p ≡ ok heap_pages
  unfolding page_range heap_pages
  page_range-heap_pages =
      rw
        (
          documented.virt_addr heap_start (inl (omega arith)),
          documented.add heap_start heap_size (inl (omega arith)),
          documented.sub (heap_start + heap_size) 1 (omega arith) (inl (omega arith)),
          documented.page_of heap_start,
          documented.page_of (heap_start + heap_size - 1),
        )
        (ap ok (documented.range_inclusive heap_start 1023 refl))

  -- The table that `VirtualManager::new` starts from.
  abbrev pub start_table : ℕ → Table
  start_table offset = p.offset_page_table (offset + p.level_4_table) offset

  virtual_new-start_table :
      (answers : Answers) (offset : ℕ)
      → answers.offset ≡ some offset
      → IsCanonical offset
      → IsCanonical (offset + p.level_4_table)
      → virtual_new p answers ≡ ok (start_table offset)
  unfolding virtual_new
  virtual_new-start_table answers offset e low high =
      rw (e, documented.virt_addr offset low, documented.add offset p.level_4_table high)

  page-mapped :
      (available : List ℕ) (t : Table) (a : ℕ)
      → MappedInOrder mapped available t 0 heap_pages
      → heap_start ≤ a
      → a < heap_start + heap_size
      → (frame : ℕ) × (mapped t (a / frame_size * frame_size) ≡ some frame)
  unfolding heap_pages
  page-mapped available t a m h g =
      let i = a / frame_size - heap_start / frame_size in
      MappedInOrder-mapped mapped available (run 1024 heap_start) t 0 i
        (a / frame_size * frame_size) m
        (get_elem?-run 1024 heap_start i (omega arith) ∙ ap some (omega arith))

  -- After `initialize` each address of the heap lies in a page that is mapped.
  pub initialize_lem :
      (entries : List Entry) (offset : ℕ)
      → IsMemoryMap 0 entries
      → 4096 ≤ length (frames entries)
      → IsCanonical offset
      → IsCanonical (offset + p.level_4_table)
      → All (λ page. mapped (start_table offset) page ≡ none) heap_pages
      → (m : Memory Table) × (initialize p (record { entries = some entries; offset = some offset })
          ≡ ok m)
        × MappedInOrder mapped (frames entries) m.table 0 heap_pages
        × ((a : ℕ)
            → m.heap_start ≤ a
            → a < m.heap_start + m.heap_size
            → (frame : ℕ) × (mapped m.table (a / frame_size * frame_size) ≡ some frame))
  unfolding initialize physical_new
  initialize_lem entries offset placed enough low high free =
      let answers : Answers = record { entries = some entries; offset = some offset } in
      let manager : PhysicalManager = record { memory_map = entries; next = 0 } in
      let (t, next, e, in_order) =
        allocate_pages_lem mapped p.map_to documented.map_to p.containing_address
          documented.containing_address heap_pages (start_table offset) manager placed
          heap_pages-Apart free (omega (arith, length-heap_pages)) in
      (
        record {
          physical = record manager { next = next };
          table = t;
          heap_start = heap_start;
          heap_size = heap_size;
        },
        rw (page_range-heap_pages, virtual_new-start_table answers offset refl low high, e),
        in_order,
        λ a h g. page-mapped (frames entries) t a in_order h g,
      )
