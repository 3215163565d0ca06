-- ===== src/Initrd/Archive/Ends.antt =====
-- The walk of `Initrd::new` ends, whatever the module holds.
use neur_os.Common.{
  ℕ, zero, suc, ◌+◌, ◌*◌, ◌<◌, ◌≤◌, ◌≢◌, List, [], ◌∷◌, ◌++◌, length, drop, length-drop, Text, Ends,
  Ends-bind, Settles, Settles-bind, unwrap, in_bounds, Ends-unwrap, Ends-in_bounds,
  ne_stuck_of_Ends, panic, stuck, arith, Bool-cases, inl, inr, leb, ◌==◌, from_utf8, from_str_radix,
  le-or-gt, leb-true, leb-false, show, get_elem?, to_digit,
}
use neur_os.Logger.{Logger, log, trace}
use neur_os.Initrd.Block.{
  File, slice, parse_string, parse_integer, parse_octal, parse_block, parse_data, parse_header,
}
use neur_os.Initrd.Display.{fmt, permissions, digits_of}
use neur_os.Initrd.Timestamp.{parse_timestamp}
use neur_os.Initrd.Timestamp.Ends.{Ends-parse_timestamp}
use neur_os.Initrd.Archive.{block_size, is_eof, div_ceil, load_file, load_files, new}

Ends-slice : (a : List ℕ) (n : ℕ) → Ends (slice a n)
unfolding slice
Ends-slice a n = elim (Bool-cases (leb n (length a))) [ inl e ↦ rw e tt | inr e ↦ rw e tt ]

Ends-parse_data : (a : List ℕ) (n : ℕ) → Ends (parse_data a n)
unfolding parse_data
Ends-parse_data a n = Ends-slice a n

Ends-parse_string : (a : List ℕ) (n : ℕ) → Ends (parse_string a n)
unfolding parse_string
Ends-parse_string a n =
    Ends-bind (slice a n) _ (Ends-slice a n)
      (λ b. Ends-bind (unwrap (from_utf8 b)) _ (Ends-unwrap (from_utf8 b)) (λ _. tt))

Ends-parse_integer : (a : List ℕ) (n : ℕ) → Ends (parse_integer a n)
unfolding parse_integer parse_string
Ends-parse_integer a n = Ends-bind (parse_string a n) _ (Ends-parse_string a n) (λ _. tt)

Ends-parse_octal : (a : List ℕ) (n : ℕ) → Ends (parse_octal a n)
unfolding parse_octal parse_string
Ends-parse_octal a n =
    Ends-bind (parse_string a n) _ (Ends-parse_string a n) (λ t. Ends-unwrap (from_str_radix 8 t))

Ends-parse_header : (a : List ℕ) → Ends (parse_header a)
unfolding parse_header
Ends-parse_header a = Ends-bind (parse_string a 100) _ (Ends-parse_string a 100) λ _.
    Ends-bind (parse_integer (drop 100 a) 8) _ (Ends-parse_integer (drop 100 a) 8) λ _.
      Ends-bind (parse_octal (drop 108 a) 8) _ (Ends-parse_octal (drop 108 a) 8) λ _.
        Ends-bind (parse_octal (drop 116 a) 8) _ (Ends-parse_octal (drop 116 a) 8) λ _.
          Ends-bind (parse_octal (drop 124 a) 12) _ (Ends-parse_octal (drop 124 a) 12) λ _.
            Ends-bind (parse_octal (drop 136 a) 12) _ (Ends-parse_octal (drop 136 a) 12) λ _.
              Ends-bind (parse_string (drop 148 a) 8) _ (Ends-parse_string (drop 148 a) 8) λ _.
                Ends-bind (parse_integer (drop 156 a) 1) _ (Ends-parse_integer (drop 156 a) 1) λ _.
                  Ends-bind (parse_string (drop 157 a) 100) _ (Ends-parse_string (drop 157 a) 100)
                    λ _.
                      Ends-bind (parse_string (drop 257 a) 6) _ (Ends-parse_string (drop 257 a) 6)
                        λ _.
                          Ends-bind (parse_string (drop 263 a) 2) _
                            (Ends-parse_string (drop 263 a) 2)
                            λ _.
                              Ends-bind (parse_string (drop 265 a) 32) _
                                (Ends-parse_string (drop 265 a) 32)
                                λ _.
                                  Ends-bind (parse_string (drop 297 a) 32) _
                                    (Ends-parse_string (drop 297 a) 32)
                                    λ _.
                                      Ends-bind (parse_integer (drop 329 a) 8) _
                                        (Ends-parse_integer (drop 329 a) 8)
                                        λ _.
                                          Ends-bind (parse_integer (drop 337 a) 8) _
                                            (Ends-parse_integer (drop 337 a) 8)
                                            λ _.
                                              Ends-bind (parse_string (drop 345 a) 155) _
                                                (Ends-parse_string (drop 345 a) 155) λ _. tt

-- A file that is loaded leaves less to walk.
load_file-Settles :
    (a : List ℕ)
    → 512 ≤ length a
    → Settles (λ (r : File × List ℕ). length r.1 + 512 ≤ length a) (load_file a)
unfolding load_file
load_file-Settles a h =
    Settles-bind (λ _. Unit {0}) _ (parse_header a) _ (Ends-parse_header a)
      λ header _. elim (Bool-cases (header.size == 0)) [
        | inl e ↦ rw e (omega (arith, length-drop 512 a))
        | inr e ↦ rw e (
            Settles-bind (λ _. Unit {0}) _ (parse_data (drop block_size a) header.size) _
              (Ends-parse_data (drop block_size a) header.size)
              λ c _. omega (
                arith,
                length-drop 512 a,
                length-drop (block_size * div_ceil header.size block_size) (drop 512 a),
              ))
      ]

Ends-digits_of : (t : Text) → Ends (digits_of t)
unfolding digits_of
Ends-digits_of [] = tt
Ends-digits_of (c ∷ cs) =
    Ends-bind (unwrap (to_digit 10 c)) _ (Ends-unwrap (to_digit 10 c))
      (λ d. Ends-bind (digits_of cs) _ (Ends-digits_of cs) (λ _. tt))

Ends-fmt : (f : File) → Ends (fmt f)
unfolding fmt
Ends-fmt f =
    Ends-bind (permissions f.header) _
      (Ends-bind (digits_of (show f.header.mode)) _ (Ends-digits_of (show f.header.mode)) λ ds.
        Ends-bind (in_bounds (get_elem? ds 0)) _ (Ends-in_bounds (get_elem? ds 0)) λ _.
          Ends-bind (in_bounds (get_elem? ds 1)) _ (Ends-in_bounds (get_elem? ds 1))
            λ _. Ends-bind (in_bounds (get_elem? ds 2)) _ (Ends-in_bounds (get_elem? ds 2)) λ _. tt)
      (λ _.
        Ends-bind (parse_timestamp f.header.mtime) _ (Ends-parse_timestamp f.header.mtime)
          (λ _. tt))

parse_block-Settles : (a : List ℕ) (n : ℕ) → Settles (λ _. n ≤ length a) (parse_block a n)
unfolding parse_block slice
parse_block-Settles a n = elim (le-or-gt n (length a)) [
  | inl h ↦ rw (leb-true n (length a) h) h
  | inr h ↦ rw (leb-false n (length a) h) tt
]

Ends-load_files :
    (fuel : ℕ) (a : List ℕ) (files : List File) (l : Logger)
    → length a < fuel
    → Ends (load_files fuel a files l)
unfolding load_files
Ends-load_files zero a files l h = absurd (omega arith)
Ends-load_files (suc fuel) a files l h =
    Settles-bind (λ _. 512 ≤ length a) _ (parse_block a block_size) _ (parse_block-Settles a 512)
      λ block big. elim (Bool-cases (is_eof block)) [
        | inl e ↦ rw e tt
        | inr e ↦ rw e (
            Settles-bind (λ (r : File × List ℕ). length r.1 + 512 ≤ length a) (λ _. Unit {0})
              (load_file a) _ (load_file-Settles a big)
              λ r shrunk. Ends-bind (fmt r.0) _ (Ends-fmt r.0) λ line.
                Ends-load_files fuel r.1 (files ++ (r.0 ∷ [])) (log trace line l) (omega arith))
      ]

-- Whatever the module holds, the walk of `Initrd::new` comes to an end: at the empty block, at a
-- panic, or where it would read past the module. It never runs out of the fuel of the model.
pub new-ne-stuck : (bytes : List ℕ) (l : Logger) → new bytes l ≢ panic stuck
unfolding new
new-ne-stuck bytes l = ne_stuck_of_Ends _ (
    Ends-bind (load_files (suc (length bytes)) bytes [] l) _
      (Ends-load_files (suc (length bytes)) bytes [] l (omega arith)) (λ _. tt))
