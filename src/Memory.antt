-- ===== src/Memory.antt =====
-- kernel/src/memory.rs: the allocator of physical frames, and the mapping of the heap's pages. The
-- types of the x86_64 crate are numbers: a frame and a page are the addresses where they start. Its
-- functions `PhysFrame::containing_address` and `Mapper::map_to` are arguments.
pub mod Frames
pub mod Pages
pub mod Start
pub mod Heap
pub mod Sample
mod Tests
use neur_os.Common.{
  ℕ, zero, suc, ◌+◌, ◌/◌, ◌%◌, ◌^◌, ltb, ◌==◌, if◌then◌else◌, Bool, true, false, List, [], ◌∷◌,
  Option, none, some, Outcome, ok, panic, overflow, unwrap, ◌>>=◌,
}

-- The types of the boot loader's entries. All but the first are alike to the kernel.
pub data EntryType : Type 0 where
  usable other : EntryType

pub record Entry : Type 0 where
  pub base : ℕ
  pub length : ℕ
  pub entry_type : EntryType

pub record PhysicalManager : Type 0 where
  pub memory_map : List Entry
  pub next : ℕ

abbrev pub frame_size : ℕ
frame_size = 4096

-- `x.base + x.length` on `u64`
unfoldable pub entry_end : Entry → Outcome ℕ
entry_end e = if ltb (e.base + e.length) (2 ^ 64) then ok (e.base + e.length) else panic overflow

-- How many addresses `(base..end).step_by(4096)` has.
unfoldable pub steps : ℕ → ℕ
steps length = if length % frame_size == 0 then length / frame_size else length / frame_size + 1

-- Where `nth` stands after one entry: at the frame, or with that many still to pass.
pub data Walk : Type 0 where
  found : ℕ → Walk
  passed : ℕ → Walk

module _ (containing_address : ℕ → Outcome ℕ) where
  -- The addresses of one entry from the given one on. The closure of `map` runs for those that
  -- `nth` passes by, too.
  unfoldable pub walk : ℕ → ℕ → ℕ → Outcome Walk
  walk zero address n = ok (passed n)
  walk (suc count) address zero = do frame ← containing_address address; ok (found frame)
  walk (suc count) address (suc n) = do
    frame ← containing_address address
    walk count (address + frame_size) n

  -- `self.usable_frames().nth(n)`; the iterator looks at an entry when it comes to it.
  unfoldable pub nth_frame : List Entry → ℕ → Outcome (Option ℕ)
  nth_frame [] n = ok none
  nth_frame (e ∷ entries) n = elim e.entry_type [
    | other ↦ nth_frame entries n
    | usable ↦ do
      end ← entry_end e
      step ← walk (steps e.length) e.base n
      elim step [ found frame ↦ ok (some frame) | passed m ↦ nth_frame entries m ]
  ]

  -- `PhysicalManager::allocate_frame`. The count of the calls stays far below 2 ^ 64.
  unfoldable pub allocate_frame : PhysicalManager → Outcome (Option ℕ × PhysicalManager)
  unfolding nth_frame walk steps entry_end
  allocate_frame m = do
    frame ← nth_frame m.memory_map m.next
    ok (frame, record m { next = m.next + 1 })

  -- `VirtualManager::allocate_pages`, for the pages of the range. `map_to` may take frames for page
  -- tables from the manager; `none` stands for its errors.
  unfoldable pub allocate_pages :
      {Table : Type 0}
      → (Table → ℕ → ℕ → PhysicalManager → Outcome (Option (Table × PhysicalManager)))
      → List ℕ
      → Table
      → PhysicalManager
      → Outcome (Table × PhysicalManager)
  allocate_pages map_to [] table m = ok (table, m)
  allocate_pages map_to (page ∷ pages) table m = do
    (allocated, m') ← allocate_frame m
    frame ← unwrap allocated
    result ← map_to table page frame m'
    (table', m'') ← unwrap result
    allocate_pages map_to pages table' m''
