-- ===== src/Memory/Start.antt =====
-- kernel/src/memory.rs: the two managers and `initialize`, which maps the pages of the heap. What the
-- processor's registers and the boot loader's answers hold, and the functions of the x86_64 crate,
-- are arguments.
use neur_os.Common.{ℕ, ◌*◌, List, Option, Outcome, ok, unwrap, ◌>>=◌}
use neur_os.Memory.{Entry, PhysicalManager, allocate_pages}

-- `Cr3::read` as the start of the frame, `VirtAddr::new`, its sums and differences,
-- `Page::containing_address`, `Page::range_inclusive`, `OffsetPageTable::new` and `map_to`.
pub record Paging (Table : Type 0) : Type 0 where
  pub level_4_table : ℕ
  pub virt_addr : ℕ → Outcome ℕ
  pub add : ℕ → ℕ → Outcome ℕ
  pub sub : ℕ → ℕ → Outcome ℕ
  pub page_of : ℕ → ℕ
  pub range_inclusive : ℕ → ℕ → List ℕ
  pub offset_page_table : ℕ → ℕ → Table
  pub containing_address : ℕ → Outcome ℕ
  pub map_to : Table → ℕ → ℕ → PhysicalManager → Outcome (Option (Table × PhysicalManager))

-- What the boot loader answers to `MEMORY_MAP_REQUEST` and `HHDM_REQUEST`.
pub record Answers : Type 0 where
  pub entries : Option (List Entry)
  pub offset : Option ℕ

-- `PhysicalManager::new`
unfoldable pub physical_new : Answers → Outcome PhysicalManager
physical_new answers = do
  entries ← unwrap answers.entries
  ok (record { memory_map = entries; next = 0 })

-- `PHYSICAL_MANAGER`, the table of `VIRTUAL_MANAGER`, and where `ALLOCATOR` was told that the heap is.
pub record Memory (Table : Type 0) : Type 0 where
  pub physical : PhysicalManager
  pub table : Table
  pub heap_start : ℕ
  pub heap_size : ℕ

abbrev pub heap_start : ℕ
heap_start = 0x444444440000

abbrev pub heap_size : ℕ
heap_size = 4 * 1024 * 1024

module _ {Table : Type 0} (p : Paging Table) where
  -- `VirtualManager::new`
  unfoldable pub virtual_new : Answers → Outcome Table
  virtual_new answers = do
    answer ← unwrap answers.offset
    physical_memory_offset ← p.virt_addr answer
    virtual_address ← p.add physical_memory_offset p.level_4_table
    ok (p.offset_page_table virtual_address physical_memory_offset)

  -- The `page_range` of `initialize`
  unfoldable pub page_range : Outcome (List ℕ)
  page_range = do
    start ← p.virt_addr heap_start
    past ← p.add start heap_size
    end ← p.sub past 1
    ok (p.range_inclusive (p.page_of start) (p.page_of end))

  -- `initialize`
  unfoldable pub initialize : Answers → Outcome (Memory Table)
  unfolding page_range virtual_new physical_new
  initialize answers = do
    pages ← page_range
    table ← virtual_new answers
    manager ← physical_new answers
    (table', manager') ← allocate_pages p.containing_address p.map_to pages table manager
    ok (record {
      physical = manager';
      table = table';
      heap_start = heap_start;
      heap_size = heap_size;
    })
