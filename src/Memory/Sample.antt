-- ===== src/Memory/Sample.antt =====
-- A page table as a function, the x86_64 crate's functions on it, and a memory map with frames enough
-- for the heap.
use neur_os.Common.{
  suc, ◌≡◌, refl, ap, ℕ, ◌+◌, ◌*◌, ◌-◌, ◌/◌, ◌^◌, ◌≤◌, ◌∙◌, inl, inr, All, length, append-nil,
  ltb-false, List, [], ◌∷◌, Option, none, some, Outcome, ok, panic, explicit_panic, arith, ltb,
  ltb-true, if◌then◌else◌, ◌==◌,
}
use neur_os.Memory.{Entry, usable, frame_size}
use neur_os.Memory.Frames.{run, length-run, frames, IsMemoryMap, ContainsOwnStart}
use neur_os.Memory.Pages.{MapTo, Mapped, MapsFreePages}
use neur_os.Memory.Start.{Paging}
use neur_os.Memory.Heap.{IsCanonical, IsPaging}

-- An address of more than 52 bits is no `PhysAddr`.
pub containing_address : ℕ → Outcome ℕ
containing_address a =
    if ltb a (2 ^ 52) then ok (a / frame_size * frame_size) else panic explicit_panic

pub contains : ContainsOwnStart containing_address
unfolding containing_address
contains a h g =
    let start : a / frame_size * frame_size ≡ a = omega arith in
    rw (ltb-true a (2 ^ 52) g) (ap ok start)

abbrev pub Table : Type 0
Table = ℕ → Option ℕ

unfoldable pub mapped : Mapped Table
mapped t page = t page

-- A page table that takes one frame for each page.
pub map_to : MapTo Table
map_to t page frame m =
    ok (some ((λ q. if q == page then some frame else t q), record m { next = m.next + 1 }))

pub maps : MapsFreePages mapped map_to
unfolding mapped map_to
maps t page frame m free enough = record {
  table = λ q. if q == page then some frame else t q;
  taken = 1;
  few = omega arith;
  result = refl;
  here = ground arith;
  elsewhere = λ q other. ground arith;
}

unfoldable pub empty : Table
empty q = none

-- The crate's functions on addresses.
pub canonical : ℕ → Outcome ℕ
canonical a =
    if ltb a (2 ^ 47)
    then ok a
    else if ltb a (2 ^ 64 - 2 ^ 47)
    then panic explicit_panic
    else if ltb a (2 ^ 64)
    then ok a
    else panic explicit_panic

pub canonical-ok : (a : ℕ) → IsCanonical a → canonical a ≡ ok a
unfolding canonical
canonical-ok a (inl low) = rw (ltb-true a (2 ^ 47) low)
canonical-ok a (inr (high, fits)) = rw (
  ltb-false a (2 ^ 47) (omega arith),
  ltb-false a (2 ^ 64 - 2 ^ 47) high,
  ltb-true a (2 ^ 64) fits,
)

abbrev pub paging : Paging Table
paging = record {
  level_4_table = 8192;
  virt_addr = canonical;
  add = λ a b. canonical (a + b);
  sub = λ a b. canonical (a - b);
  page_of = λ a. a / frame_size * frame_size;
  range_inclusive = λ a b. run ((b - a) / frame_size + 1) a;
  offset_page_table = λ a b. empty;
  containing_address = containing_address;
  map_to = map_to;
}

pub documented : IsPaging mapped paging
documented = record {
  virt_addr = canonical-ok;
  add = λ a b h. canonical-ok (a + b) h;
  sub = λ a b _ h. canonical-ok (a - b) h;
  page_of = λ a. refl;
  range_inclusive = λ a n h. ap (λ k. run k a) {y = suc n} (omega arith);
  containing_address = contains;
  map_to = maps;
}

abbrev pub memory : List Entry
memory = record { base = 2 ^ 20; length = 2 ^ 24; entry_type = usable } ∷ []

abbrev pub offset : ℕ
offset = 2 ^ 64 - 2 ^ 47

pub unmapped : (pages : List ℕ) → All (λ page. mapped empty page ≡ none) pages
unfolding mapped empty
unmapped [] = tt
unmapped (page ∷ pages) = (refl, unmapped pages)

pub memory-IsMemoryMap : IsMemoryMap 0 memory
memory-IsMemoryMap =
    (record { above = omega arith; aligned = refl; whole = refl; addressed = omega arith }, tt)

pub memory-enough : 4096 ≤ length (frames memory)
memory-enough =
    let frames_left : length (frames memory) ≡ 4096 =
      ap length (append-nil (run 4096 (2 ^ 20))) ∙ length-run 4096 (2 ^ 20) in
    omega (arith, frames_left)
