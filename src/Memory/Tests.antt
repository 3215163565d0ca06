-- ===== src/Memory/Tests.antt =====
-- The frame allocator's theorems at a small memory map.
use neur_os.Common.{◌≡◌, refl, ℕ, ◌+◌, ◌*◌, ◌/◌, ◌<◌, ◌≤◌, inr, List, [], ◌∷◌, some, ok, arith}
use neur_os.Memory.{
  Entry, usable, other, PhysicalManager, frame_size, allocate_frame, allocate_pages,
}
use neur_os.Memory.Frames.{frames, IsMemoryMap, allocate_frame_lem}
use neur_os.Memory.Pages.{MappedInOrder, allocate_pages_lem}
use neur_os.Memory.Start.{Memory, initialize}
use neur_os.Memory.Heap.{heap_pages, initialize_lem}
use neur_os.Memory.Sample.{
  containing_address, contains, Table, mapped, map_to, maps, empty, paging, documented, memory,
  offset, unmapped, memory-IsMemoryMap, memory-enough,
}

abbrev memory_map : List Entry
memory_map =
    record { base = 4096; length = 8192; entry_type = usable }
    ∷ record { base = 12288; length = 4096; entry_type = other }
    ∷ record { base = 65536; length = 32768; entry_type = usable }
    ∷ []

abbrev manager : PhysicalManager
manager = record { memory_map = memory_map; next = 0 }

placed : IsMemoryMap 0 memory_map
placed = (
  record { above = omega arith; aligned = refl; whole = refl; addressed = omega arith },
  (record { above = omega arith; aligned = refl; whole = refl; addressed = omega arith }, tt),
)

allocate_frame_lem_example :
    allocate_frame containing_address (record manager { next = 2 })
    ≡ ok (some 65536, record manager { next = 3 })
allocate_frame_lem_example =
    allocate_frame_lem containing_address contains (record manager { next = 2 }) placed

allocate_pages_lem_example :
    (t' : Table) × (next : ℕ) × (allocate_pages containing_address map_to
        (20480 ∷ 24576 ∷ [])
        empty
        manager
      ≡ ok (t', record manager { next = next }))
    × MappedInOrder mapped (frames memory_map) t' 0 (20480 ∷ 24576 ∷ [])
unfolding mapped empty
allocate_pages_lem_example =
    allocate_pages_lem mapped map_to maps containing_address contains (20480 ∷ 24576 ∷ []) empty
      manager placed (((λ e. absurd (omega arith)), tt), (tt, tt)) (refl, (refl, tt)) (omega arith)

initialize_lem_example :
    (m : Memory Table) × (initialize paging (record { entries = some memory; offset = some offset })
      ≡ ok m)
    × MappedInOrder mapped (frames memory) m.table 0 heap_pages
    × ((a : ℕ)
        → m.heap_start ≤ a
        → a < m.heap_start + m.heap_size
        → (frame : ℕ) × (mapped m.table (a / frame_size * frame_size) ≡ some frame))
initialize_lem_example =
    initialize_lem mapped paging documented memory offset memory-IsMemoryMap memory-enough
      (inr (omega arith, omega arith)) (inr (omega arith, omega arith)) (unmapped heap_pages)
