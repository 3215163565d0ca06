-- ===== src/Image/Raster.antt =====
-- kernel/src/image.rs: PBM images against the format, in which each row starts at a byte of its own.
use neur_os.Common.{
  ◌≡◌, ap, sym, ◌∙◌, ℕ, ◌+◌, ◌*◌, ◌/◌, ◌%◌, List, drop, get_elem?, Outcome, ok, ◌>>=◌, ◌==◌,
  if◌then◌else◌, in_bounds, Bool-cases, inl, inr, arith,
}
use neur_os.Image.{Pixel, pbm, gray, masks, byte_at, pixel_at}
use neur_os.Image.Pixels.{get_elem?-drop}

-- The bytes of a row.
abbrev pub stride : ℕ → ℕ
stride width = if width % 8 == 0 then width / 8 else width / 8 + 1

-- The pixel as the format has it: a bit of a row's byte, the most significant first, and 1 is black.
unfoldable pub raster_at : List ℕ → ℕ → ℕ → ℕ → Outcome Pixel
raster_at pixels width y x = do
  pixel ← byte_at pixels (y * stride width + x / 8)
  mask ← byte_at masks (x % 8)
  ok (gray (if pixel / mask % 2 == 0 then 0xFF else 0x00))

-- How many bytes in front of the right one the code reads in row `y`.
unfoldable pub slack : ℕ → ℕ → ℕ
slack width y = if width % 8 == 0 then 0 else y

slack-stride :
    (width y x : ℕ) → slack width y + (y * (width / 8) + x / 8) ≡ y * stride width + x / 8
unfolding slack
slack-stride width y x = elim (Bool-cases (width % 8 == 0)) [
  | inl e ↦ rw e (omega arith)
  | inr e ↦ rw e (omega arith)
]

-- In row `y` of a PBM image the code reads the pixel that the format has `y` bytes later, or the right
-- one if the width is a multiple of 8: it is right for all images if the first `slack` bytes are
-- taken away.
pub pixel_at-raster_at :
    (pixels : List ℕ) (width y x : ℕ)
    → pixel_at pbm (drop (slack width y) pixels) width y x ≡ raster_at pixels width y x
unfolding pixel_at raster_at
pixel_at-raster_at pixels width y x =
    ap
      (λ b. in_bounds b >>= λ pixel.
        byte_at masks (x % 8) >>= λ mask. ok (gray (if pixel / mask % 2 == 0 then 0xFF else 0x00)))
      (sym (get_elem?-drop (slack width y) (y * (width / 8) + x / 8) pixels)
        ∙ ap (get_elem? pixels) (slack-stride width y x))
