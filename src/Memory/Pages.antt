-- ===== src/Memory/Pages.antt =====
-- kernel/src/memory.rs: `allocate_pages` gives each page a frame of its own.
use neur_os.Common.{
  ◌≡◌, ◌≢◌, refl, sym, ◌∙◌, ℕ, zero, suc, ◌+◌, ◌*◌, ◌<◌, ◌≤◌, List, [], ◌∷◌, length, get_elem?,
  Option, none, some, All, Outcome, ok, arith,
}
use neur_os.Memory.{PhysicalManager, frame_size, allocate_pages}
use neur_os.Memory.Frames.{
  frames, IsMemoryMap, Rising-frames, Rising-apart, ContainsOwnStart, allocate_frame_lem,
}

abbrev pub MapTo : Type 0 → Type 0
MapTo Table = Table → ℕ → ℕ → PhysicalManager → Outcome (Option (Table × PhysicalManager))

-- What a page is mapped to.
abbrev pub Mapped : Type 0 → Type 0
Mapped Table = Table → ℕ → Option ℕ

-- The result of `map_to` on a page that is free: it has mapped that page to the frame and left the
-- others as they were, and has taken three frames at most for new page tables.
pub record Maps {Table : Type 0} (mapped : Mapped Table) (map_to : MapTo Table) (t : Table)
    (page frame : ℕ) (m : PhysicalManager) : Type 0 where
  pub table : Table
  pub taken : ℕ
  pub few : taken ≤ 3
  pub result : map_to t page frame m ≡ ok (some (table, record m { next = m.next + taken }))
  pub here : mapped table page ≡ some frame
  pub elsewhere : (q : ℕ) → q ≢ page → mapped table q ≡ mapped t q

-- What the x86_64 crate documents of `map_to`: with frames enough, a page that is not mapped is
-- mapped to the frame.
abbrev pub MapsFreePages : {Table : Type 0} → Mapped Table → MapTo Table → Type 0
MapsFreePages mapped map_to =
    (t : _) (page frame : ℕ) (m : PhysicalManager)
    → mapped t page ≡ none
    → m.next + 3 ≤ length (frames m.memory_map)
    → Maps mapped map_to t page frame m

-- Pages that differ from each other.
abbrev pub Apart : List ℕ → Type 0
Apart [] = Unit {0}
Apart (p ∷ ps) = All (λ q. q ≢ p) ps × Apart ps

-- One after the other the pages are mapped to frames of the memory map, each of which starts where
-- the frame of the page before it ends, or later.
abbrev pub MappedInOrder : {Table : Type 0} → Mapped Table → List ℕ → Table → ℕ → List ℕ → Type 0
MappedInOrder mapped available t from [] = Unit {0}
MappedInOrder mapped available t from (p ∷ ps) =
    (frame : ℕ) × (i : ℕ) × (mapped t p ≡ some frame)
    × (get_elem? available i ≡ some frame)
    × (from ≤ frame)
    × MappedInOrder mapped available t (frame + frame_size) ps

get_elem?-some : (xs : List ℕ) (i : ℕ) → i < length xs → (a : ℕ) × (get_elem? xs i ≡ some a)
get_elem?-some [] i h = absurd (omega arith)
get_elem?-some (x ∷ xs) zero h = (x, refl)
get_elem?-some (x ∷ xs) (suc i) h = get_elem?-some xs i (omega arith)

module _ {Table : Type 0} (mapped : Mapped Table) (map_to : MapTo Table)
    (maps : MapsFreePages mapped map_to) (containing_address : ℕ → Outcome ℕ)
    (contains : ContainsOwnStart containing_address) where
  -- The result of `allocate_pages`, with what the induction needs.
  record Allocated (pages : List ℕ) (t : Table) (m : PhysicalManager) (from : ℕ) : Type 0 where
    table : Table
    next : ℕ
    result :
        allocate_pages containing_address map_to pages t m ≡ ok (table, record m { next = next })
    in_order : MappedInOrder mapped (frames m.memory_map) table from pages
    elsewhere : (q : ℕ) → All (λ p. p ≢ q) pages → mapped table q ≡ mapped t q

  free_elsewhere :
      (pages : List ℕ) (page : ℕ) (t t' : Table)
      → ((q : ℕ) → q ≢ page → mapped t' q ≡ mapped t q)
      → All (λ q. q ≢ page) pages
      → All (λ q. mapped t q ≡ none) pages
      → All (λ q. mapped t' q ≡ none) pages
  free_elsewhere [] page t t' same apart free = tt
  free_elsewhere (p ∷ ps) page t t' same apart free =
      (same p apart.0 ∙ free.0, free_elsewhere ps page t t' same apart.1 free.1)

  allocated :
      (pages : List ℕ) (t : Table) (m : PhysicalManager) (from : ℕ)
      → IsMemoryMap 0 m.memory_map
      → Apart pages
      → All (λ p. mapped t p ≡ none) pages
      → m.next + 4 * length pages ≤ length (frames m.memory_map)
      → ((i a : ℕ) → m.next ≤ i → get_elem? (frames m.memory_map) i ≡ some a → from ≤ a)
      → Allocated pages t m from
  unfolding allocate_pages
  allocated [] t m from placed apart free enough above = record {
    table = t;
    next = m.next;
    result = refl;
    in_order = tt;
    elsewhere = λ q _. refl;
  }
  allocated (page ∷ pages) t m from placed apart free enough above =
      let available = frames m.memory_map in
      let (frame, e) = get_elem?-some available m.next (omega arith) in
      let r = maps t page frame (record m { next = m.next + 1 }) free.0 (omega arith) in
      let few = r.few in
      let rest =
        allocated pages r.table (record m { next = m.next + 1 + r.taken }) (frame + frame_size)
          placed apart.1 (free_elsewhere pages page t r.table r.elsewhere apart.0 free.1)
          (omega arith)
          (λ i a h g.
            Rising-apart available 0 m.next i frame a (Rising-frames m.memory_map 0 placed)
              (omega arith) e g) in
      record {
        table = rest.table;
        next = rest.next;
        result =
            rw (allocate_frame_lem containing_address contains m placed, e, r.result) rest.result;
        in_order = (
          frame,
          m.next,
          rest.elsewhere page apart.0 ∙ r.here,
          e,
          above m.next frame (omega arith) e,
          rest.in_order,
        );
        elsewhere =
            λ q other. rest.elsewhere q other.1 ∙ r.elsewhere q (λ same. other.0 (sym same));
      }

  -- With four frames left for each page, `allocate_pages` maps pages that are free: it returns, and
  -- no two pages share a frame or a part of one.
  pub allocate_pages_lem :
      (pages : List ℕ) (t : Table) (m : PhysicalManager)
      → IsMemoryMap 0 m.memory_map
      → Apart pages
      → All (λ p. mapped t p ≡ none) pages
      → m.next + 4 * length pages ≤ length (frames m.memory_map)
      → (t' : Table) × (next : ℕ) × (allocate_pages containing_address map_to pages t m
          ≡ ok (t', record m { next = next }))
        × MappedInOrder mapped (frames m.memory_map) t' 0 pages
  allocate_pages_lem pages t m placed apart free enough =
      let a = allocated pages t m 0 placed apart free enough (λ i a _ _. omega arith) in
      (a.table, a.next, a.result, a.in_order)
