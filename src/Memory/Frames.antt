-- ===== src/Memory/Frames.antt =====
-- kernel/src/memory.rs: the frames that `allocate_frame` gives out, one after the other.
use neur_os.Common.{
  get_elem?-left, get_elem?-right, ◌≡◌, refl, ap, ◌∙◌, ℕ, zero, suc, ◌+◌, ◌*◌, ◌-◌, ◌/◌, ◌%◌, ◌^◌,
  ◌<◌, ◌≤◌, List, [], ◌∷◌, ◌++◌, length, get_elem?, some, ◌⊎◌, Outcome, ok, arith, ltb-true, inl,
  inr, le-or-gt,
}
use neur_os.Memory.{
  Entry, EntryType, usable, other, PhysicalManager, found, passed, frame_size, entry_end, steps,
  walk, nth_frame, allocate_frame,
}

-- `n` frames in a row.
abbrev pub run : ℕ → ℕ → List ℕ
run zero a = []
run (suc n) a = a ∷ run n (a + frame_size)

-- The usable frames of a memory map, in order.
abbrev pub frames : List Entry → List ℕ
frames [] = []
frames (e ∷ entries) = elim e.entry_type [
  | other ↦ frames entries
  | usable ↦ run (e.length / frame_size) e.base ++ frames entries
]

-- What the boot protocol promises of the usable entries: they are made of whole frames, lie in
-- order and do not overlap, and the processor can address them.
pub record IsPlaced (from : ℕ) (e : Entry) : Type 0 where
  pub above : from ≤ e.base
  pub aligned : e.base % frame_size ≡ 0
  pub whole : e.length % frame_size ≡ 0
  pub addressed : e.base + e.length ≤ 2 ^ 52

abbrev pub IsMemoryMap : ℕ → List Entry → Type 0
IsMemoryMap from [] = Unit {0}
IsMemoryMap from (e ∷ entries) = elim e.entry_type [
  | other ↦ IsMemoryMap from entries
  | usable ↦ IsPlaced from e × IsMemoryMap (e.base + e.length) entries
]

-- Addresses that lie a frame apart, at least, from the given one on.
abbrev pub Rising : ℕ → List ℕ → Type 0
Rising from [] = Unit {0}
Rising from (x ∷ xs) = (from ≤ x) × Rising (x + frame_size) xs

Rising-mono : (xs : List ℕ) (a b : ℕ) → a ≤ b → Rising b xs → Rising a xs
Rising-mono [] a b h r = tt
Rising-mono (x ∷ xs) a b h r = let lower = r.0 in (omega arith, r.1)

pub Rising-run : (n a : ℕ) (xs : List ℕ) → Rising (a + n * frame_size) xs → Rising a (run n a ++ xs)
Rising-run zero a xs r = Rising-mono xs a (a + 0 * frame_size) (omega arith) r
Rising-run (suc n) a xs r = (
  omega arith,
  Rising-run n (a + frame_size) xs
      (Rising-mono xs (a + frame_size + n * frame_size) (a + suc n * frame_size) (omega arith) r),
)

EntryType-cases : (t : EntryType) → (t ≡ usable) ⊎ (t ≡ other)
EntryType-cases usable = inl refl
EntryType-cases other = inr refl

pub Rising-frames :
    (entries : List Entry) (from : ℕ) → IsMemoryMap from entries → Rising from (frames entries)
Rising-frames [] from h = tt
Rising-frames (e ∷ entries) from h = elim (EntryType-cases e.entry_type) [
  | inr o ↦ rw o (Rising-frames entries from (rw o at h))
  | inl u ↦
      let h' = rw u at h in
      let p = h'.0 in
      rw u (
        Rising-mono (run (e.length / frame_size) e.base ++ frames entries) from e.base p.above (
          Rising-run (e.length / frame_size) e.base (frames entries) (
            Rising-mono (frames entries) (e.base + e.length / frame_size * frame_size)
              (e.base + e.length) (omega (arith, p.whole))
              (Rising-frames entries (e.base + e.length) h'.1))))
]

pub Rising-bound :
    (xs : List ℕ) (from i a : ℕ) → Rising from xs → get_elem? xs i ≡ some a → from ≤ a
Rising-bound [] from i a r e = ground arith
Rising-bound (x ∷ xs) from zero a r e = let lower = r.0 in ground arith
Rising-bound (x ∷ xs) from (suc i) a r e =
    let lower = r.0 in let later = Rising-bound xs (x + frame_size) i a r.1 e in omega arith

pub Rising-apart :
    (xs : List ℕ) (from i j a b : ℕ)
    → Rising from xs
    → i < j
    → get_elem? xs i ≡ some a
    → get_elem? xs j ≡ some b
    → a + frame_size ≤ b
Rising-apart [] from i j a b r h e g = ground arith
Rising-apart (x ∷ xs) from zero zero a b r h e g = absurd (omega arith)
Rising-apart (x ∷ xs) from zero (suc j) a b r h e g =
    let later = Rising-bound xs (x + frame_size) j b r.1 g in ground arith
Rising-apart (x ∷ xs) from (suc i) zero a b r h e g = absurd (omega arith)
Rising-apart (x ∷ xs) from (suc i) (suc j) a b r h e g =
    Rising-apart xs (x + frame_size) i j a b r.1 (omega arith) e g

pub length-run : (n a : ℕ) → length (run n a) ≡ n
length-run zero a = refl
length-run (suc n) a = omega (arith, length-run n (a + frame_size))

pub get_elem?-run : (n a i : ℕ) → i < n → get_elem? (run n a) i ≡ some (a + i * frame_size)
get_elem?-run zero a i h = absurd (omega arith)
get_elem?-run (suc n) a zero h = ap some (omega arith)
get_elem?-run (suc n) a (suc i) h =
    get_elem?-run n (a + frame_size) i (omega arith) ∙ ap some (omega arith)

-- What the x86_64 crate documents: an address is made a `PhysAddr` if it has 52 bits at most, and
-- the frame of an address that is the start of a frame is that frame.
abbrev pub ContainsOwnStart : (ℕ → Outcome ℕ) → Type 0
ContainsOwnStart containing_address =
    (a : ℕ) → a % frame_size ≡ 0 → a < 2 ^ 52 → containing_address a ≡ ok a

entry_end-ok : (e : Entry) → e.base + e.length ≤ 2 ^ 52 → entry_end e ≡ ok (e.base + e.length)
unfolding entry_end
entry_end-ok e h = rw (ltb-true (e.base + e.length) (2 ^ 64) (omega arith))

steps-whole : (length : ℕ) → length % frame_size ≡ 0 → steps length ≡ length / frame_size
unfolding steps
steps-whole length h = rw h

module _ (containing_address : ℕ → Outcome ℕ) (contains : ContainsOwnStart containing_address) where
  walk-found :
      (count a n : ℕ)
      → n < count
      → a % frame_size ≡ 0
      → a + count * frame_size ≤ 2 ^ 52
      → walk containing_address count a n ≡ ok (found (a + n * frame_size))
  unfolding walk
  walk-found zero a n h g k = absurd (omega arith)
  walk-found (suc count) a zero h g k =
      let start : a ≡ a + 0 * frame_size = omega arith in
      rw (contains a g (omega arith)) (ap (λ b. ok (found b)) start)
  walk-found (suc count) a (suc n) h g k =
      let there : (a + frame_size) + n * frame_size ≡ a + suc n * frame_size = omega arith in
      rw (contains a g (omega arith)) (
        walk-found count (a + frame_size) n (omega arith) (omega arith) (omega arith)
        ∙ ap (λ b. ok (found b)) there)

  walk-passed :
      (count a n : ℕ)
      → count ≤ n
      → a % frame_size ≡ 0
      → a + count * frame_size ≤ 2 ^ 52
      → walk containing_address count a n ≡ ok (passed (n - count))
  unfolding walk
  walk-passed zero a n h g k = ap (λ m. ok (passed m)) (omega arith)
  walk-passed (suc count) a zero h g k = absurd (omega arith)
  walk-passed (suc count) a (suc n) h g k = rw (contains a g (omega arith)) (
      walk-passed count (a + frame_size) n (omega arith) (omega arith) (omega arith)
      ∙ ap (λ m. ok (passed m)) (omega arith))

  nth_frame_lem :
      (entries : List Entry) (from n : ℕ)
      → IsMemoryMap from entries
      → nth_frame containing_address entries n ≡ ok (get_elem? (frames entries) n)
  unfolding nth_frame
  nth_frame_lem [] from n h = refl
  nth_frame_lem (e ∷ entries) from n h = elim (EntryType-cases e.entry_type) [
    | inr o ↦ rw o (nth_frame_lem entries from n (rw o at h))
    | inl u ↦
        let h' = rw u at h in
        let p = h'.0 in
        let count = e.length / frame_size in
        let fits : e.base + count * frame_size ≤ 2 ^ 52 = omega (arith, p.addressed, p.whole) in
        let measured : length (run count e.base) ≡ count = length-run count e.base in
        rw (u, entry_end-ok e p.addressed, steps-whole e.length p.whole)
          (elim (le-or-gt count n) [
            | inr inside ↦ rw (
              walk-found count e.base n inside p.aligned fits,
              get_elem?-left (run count e.base) (frames entries) n (omega (arith, measured)),
              get_elem?-run count e.base n inside,
            )
            | inl after ↦ rw (
              walk-passed count e.base n after p.aligned fits,
              get_elem?-right (run count e.base) (frames entries) n (omega (arith, measured)),
              measured,
              nth_frame_lem entries (e.base + e.length) (n - count) h'.1,
            )
          ])
  ]

  -- `allocate_frame` gives out the usable frames of the memory map one after the other, and `None`
  -- when there are no more.
  pub allocate_frame_lem :
      (m : PhysicalManager)
      → IsMemoryMap 0 m.memory_map
      → allocate_frame containing_address m
        ≡ ok (get_elem? (frames m.memory_map) m.next, record m { next = m.next + 1 })
  unfolding allocate_frame
  allocate_frame_lem m h = rw (nth_frame_lem m.memory_map 0 m.next h)
