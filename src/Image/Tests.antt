-- ===== src/Image/Tests.antt =====
-- The images' theorems at an image of two pixels, and a run of `Image::new` on a PBM image.
use neur_os.Common.{
  ◌≡◌, refl, ℕ, ◌+◌, ◌*◌, Text, codes, List, [], ◌∷◌, ◌++◌, length, get_elem?, drop, some, ok, inl,
  arith, parse_usize, split_terminator, is_whitespace,
}
use neur_os.Initrd.Archive.{Initrd, get_data}
use neur_os.Vga.{Vga, Word}
use neur_os.Image.{Pixel, pbm, pixel_at, image_new, draw, color_of, gray}
use neur_os.Image.Header.{HeaderText, IsHeaderText}
use neur_os.Image.Pixels.{rgb_bytes, image_bytes, image_of, image_new-image_bytes}
use neur_os.Image.Raster.{slack, raster_at, pixel_at-raster_at}
use neur_os.Image.Drawing.{draw_lem}

abbrev orange : Pixel
orange = record { red = 194; green = 54; blue = 22 }

abbrev pixels : List (List Pixel)
pixels = (orange ∷ gray 10 ∷ []) ∷ []

abbrev header : HeaderText
header = record {
  magic = codes "P6";
  width_text = codes "2";
  height_text = codes "1";
  depth = codes "255";
}

abbrev path : Text
path = codes "initrd/logo.ppm"

abbrev ramdisk : List ℕ → Initrd
ramdisk bytes = record {
  files =
      record {
        header = record {
          name = path;
          mode = 644;
          user_id = 0;
          group_id = 0;
          size = length bytes;
          mtime = 1709210096;
          checksum = codes "0001234";
          flag = 0;
          linked = [];
          indicator = codes "ustar";
          version = codes "00";
          username = codes "root";
          group = codes "root";
          major = 0;
          minor = 0;
          prefix = [];
        };
        contents = bytes;
      }
      ∷ [];
}

header-IsHeaderText : IsHeaderText header 2 1
unfolding is_whitespace parse_usize
header-IsHeaderText = record {
  magic_word = record {
    some_letter = λ e. cc e;
    letters = (
      record { ascii = omega arith; solid = refl },
      (record { ascii = omega arith; solid = refl }, tt),
    );
  };
  width_word = record {
    some_letter = λ e. cc e;
    letters = (record { ascii = omega arith; solid = refl }, tt);
  };
  height_word = record {
    some_letter = λ e. cc e;
    letters = (record { ascii = omega arith; solid = refl }, tt);
  };
  depth_word = record {
    some_letter = λ e. cc e;
    letters = (
      record { ascii = omega arith; solid = refl },
      (
        record { ascii = omega arith; solid = refl },
        (record { ascii = omega arith; solid = refl }, tt),
      ),
    );
  };
  width_read = refl;
  height_read = refl;
}

image_new-image_bytes_example :
    image_new (ramdisk (image_bytes header rgb_bytes pixels [])) path ≡ ok (image_of 2 pixels)
unfolding get_data split_terminator
image_new-image_bytes_example =
    image_new-image_bytes (ramdisk (image_bytes header rgb_bytes pixels [])) path header 2 pixels []
      header-IsHeaderText (inl (refl, ((refl, (tt, (tt, tt))), tt), refl))

abbrev screen : Vga
screen = record {
  cursor = record { x = 8; y = 24; fg = 0xF5F6FA; bg = 0 };
  font = record { magic = 0x0436; font_mode = 2; glyph_size = 16; glyphs = [] };
  height = 768;
  pitch = 4096;
  width = 1024;
  words = [];
}

draw_lem_example :
    (words : List Word) × (draw (image_of 2 pixels) screen ≡ record screen { words = [] ++ words })
    × (length words ≡ 1 * 2)
    × (get_elem? words (0 * 2 + 1)
        ≡ some (record { offset = (0 + 0) * 4096 + (0 + 1) * 4; color = color_of (gray 10) }))
draw_lem_example =
    draw_lem (image_of 2 pixels) screen 0 1 (orange ∷ gray 10 ∷ []) (gray 10) refl (refl, tt) refl
      refl (omega arith)

-- Three columns: the second row is at the second byte, the code reads the first.
pixel_at-raster_at_example :
    pixel_at pbm (drop (slack 3 1) (0 ∷ 255 ∷ [])) 3 1 0 ≡ raster_at (0 ∷ 255 ∷ []) 3 1 0
pixel_at-raster_at_example = pixel_at-raster_at (0 ∷ 255 ∷ []) 3 1 0

misread_test : pixel_at pbm (0 ∷ 255 ∷ []) 3 1 0 ≡ ok (gray 255)
unfolding pixel_at
misread_test = refl

raster_test : raster_at (0 ∷ 255 ∷ []) 3 1 0 ≡ ok (gray 0)
unfolding raster_at
raster_test = refl
