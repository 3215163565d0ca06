-- ===== src/Initrd/Ustar/Files.antt =====
-- Whole archives: `Initrd::new` finds the files that a writer has put in.
use neur_os.Common.{
  ℕ, zero, suc, ◌-◌, ◌*◌, ◌<◌, ◌≤◌, ◌≡◌, ◌≢◌, refl, ap, ap₂, sym, ◌∙◌, Text, List, [], ◌∷◌, ◌++◌,
  append_assoc, append-nil, length, length-append, length-replicate, length-drop, take, drop,
  take-append, drop-append, replicate, All, arith, ok, leb-true, ◌>>=◌, list_eq, list_eq→eq,
  Bool-cases, inl, inr, true, false, trim_end_nul, ◌==◌,
}
use neur_os.Logger.{Logger, log, trace}
use neur_os.Initrd.Block.{Header, File, parse_block, parse_data}
use neur_os.Initrd.Display.{fmt}
use neur_os.Initrd.Archive.{block_size, eof_block, is_eof, div_ceil, load_file, load_files, new}
use neur_os.Initrd.Ustar.{
  header_block, from_mode, Fits, IsUstar, padding, file_blocks, archive, IsEntry, Printed,
  trace_all,
}
use neur_os.Initrd.Ustar.Fields.{parse_header-header_block, drop-header_block, at_padding}

header_block_le : (h : Header) (rest : List ℕ) → IsUstar h → 512 ≤ length (header_block h rest)
header_block_le h rest v = omega (
  arith,
  length-drop 500 (header_block h rest),
  ap length (at_padding h rest v),
  length-append (replicate 12 0) rest,
  length-replicate {A = ℕ} 12 0,
)

parse_block_lem : (a : List ℕ) (n : ℕ) → n ≤ length a → parse_block a n ≡ ok (take n a)
unfolding parse_block
parse_block_lem a n h = rw (leb-true n (length a) h) refl

parse_data-append : (n : ℕ) (xs ys : List ℕ) → n ≡ length xs → parse_data (xs ++ ys) n ≡ ok xs
unfolding parse_data
parse_data-append n xs ys e =
    rw
      (
        leb-true n (length (xs ++ ys)) (omega (arith, length-append xs ys)),
        take-append n xs ys (sym e),
      )
      refl

-- The walk goes over the contents and what fills up their last block.
drop-padding :
    (n : ℕ) (c rest : List ℕ)
    → n ≡ length c
    → drop (block_size * div_ceil n block_size) (c ++ (replicate (padding (length c)) 0 ++ rest))
      ≡ rest
drop-padding n c rest e =
    ap (drop (block_size * div_ceil n block_size))
      (sym (append_assoc c (replicate (padding (length c)) 0) rest))
    ∙ drop-append (block_size * div_ceil n block_size) (c ++ replicate (padding (length c)) 0) rest
        (ground (
          arith,
          length-append c (replicate (padding (length c)) 0),
          length-replicate {A = ℕ} (padding (length c)) 0,
        ))

-- A text whose bytes are all in a block of NULs is nothing but NULs.
take-replicate :
    (n : ℕ) (t ys : List ℕ)
    → length t ≤ n
    → take n (t ++ ys) ≡ replicate n 0
    → t ≡ replicate (length t) 0
take-replicate n [] ys h e = refl
take-replicate zero (c ∷ t) ys h e = absurd (omega arith)
take-replicate (suc n) (c ∷ t) ys h e =
    let first : c ≡ 0 = ground arith in
    let others : take n (t ++ ys) ≡ replicate n 0 = ground arith in
    ap₂ ◌∷◌ first (take-replicate n t ys (omega arith) others)

trim_end_nul-replicate : (n : ℕ) → trim_end_nul (replicate n 0) ≡ []
unfolding trim_end_nul
trim_end_nul-replicate zero = refl
trim_end_nul-replicate (suc n) = rw (trim_end_nul-replicate n, trim_end_nul) refl

-- A header with a name is not the end of the archive.
name-not-eof :
    (n : ℕ) (t : Text) (ys : List ℕ)
    → Fits n t
    → t ≢ []
    → list_eq (take n (t ++ ys)) (replicate n 0) ≡ false
name-not-eof n t ys f ne = elim (Bool-cases (list_eq (take n (t ++ ys)) (replicate n 0))) [
  | inl e ↦
      let zeros = take-replicate n t ys f.short (list_eq→eq _ _ e) in
      absurd (ne (sym f.trimmed ∙ ap trim_end_nul zeros ∙ trim_end_nul-replicate (length t)))
  | inr e ↦ e
]

wider : (m n : ℕ) (t : Text) → m ≤ n → Fits m t → Fits n t
wider m n t h f = record { short = omega (arith, f.short); ascii = f.ascii; trimmed = f.trimmed }

load_data :
    (h : Header) (c rest : List ℕ)
    → IsUstar h
    → h.size ≡ length c
    → load_file (header_block h (c ++ (replicate (padding (length c)) 0 ++ rest)))
      ≡ ok (record { header = h; contents = c }, rest)
unfolding load_file
load_data h [] rest v e =
    rw
      (
        parse_header-header_block h (replicate (padding 0) 0 ++ rest) v,
        drop-header_block h (replicate (padding 0) 0 ++ rest) v,
        e,
      )
      refl
load_data h (x ∷ c) rest v e =
    let next = (x ∷ c) ++ (replicate (padding (length (x ∷ c))) 0 ++ rest) in
    let some_data : (h.size == 0) ≡ false = ground (arith, e) in
    rw
      (
        parse_header-header_block h next v,
        drop-header_block h next v,
        some_data,
        parse_data-append h.size (x ∷ c) (replicate (padding (length (x ∷ c))) 0 ++ rest) e,
        drop-padding h.size (x ∷ c) rest e,
      )
      refl

not_eof : (f : File) (rest : List ℕ) → IsEntry f → is_eof (take 512 (file_blocks f rest)) ≡ false
unfolding is_eof
not_eof f rest v =
    let name = f.header.name in
    let next =
      from_mode f.header (f.contents ++ (replicate (padding (length f.contents)) 0 ++ rest)) in
    let nuls : List ℕ = replicate (100 - length name) 0 in
    ap (λ b. list_eq (take 512 b) eof_block) (append_assoc name nuls next)
    ∙ name-not-eof 512 name (nuls ++ next) (wider 100 512 name (omega arith) v.header_ok.name)
        v.named

-- A round of the loop at a block that is not the last.
load_files_round :
    (fuel : ℕ) (a : List ℕ) (f : File) (line : Text) (rest : List ℕ) (files : List File)
    (l : Logger)
    → 512 ≤ length a
    → is_eof (take 512 a) ≡ false
    → load_file a ≡ ok (f, rest)
    → fmt f ≡ ok line
    → load_files (suc fuel) a files l ≡ load_files fuel rest (files ++ (f ∷ [])) (log trace line l)
unfolding load_files
load_files_round fuel a f line rest files l h n r e =
    rw (parse_block_lem a 512 h) (rw (n, ◌>>=◌) (rw (r, e) refl))

eof-is_eof : is_eof eof_block ≡ true
unfolding is_eof
eof-is_eof = refl

load_files_end :
    (fuel : ℕ) (a : List ℕ) (files : List File) (l : Logger)
    → 512 ≤ length a
    → is_eof (take 512 a) ≡ true
    → load_files (suc fuel) a files l ≡ ok (files, l)
unfolding load_files
load_files_end fuel a files l h n = rw (parse_block_lem a 512 h) (rw (n, ◌>>=◌) refl)

load_files-archive :
    (fuel : ℕ) (fs : List File) (lines : List Text) (rest : List ℕ) (files : List File) (l : Logger)
    → length fs < fuel
    → All IsEntry fs
    → Printed fs lines
    → load_files fuel (archive fs rest) files l ≡ ok (files ++ fs, trace_all lines l)
load_files-archive zero fs lines rest files l h v p = absurd (omega arith)
load_files-archive (suc fuel) [] [] rest files l h v p =
    let n = length-replicate {A = ℕ} 512 0 in
    load_files_end fuel (eof_block ++ rest) files l (omega (arith, length-append eof_block rest, n))
      (ap is_eof (take-append 512 eof_block rest n) ∙ eof-is_eof)
    ∙ ap (λ (gs : List File). ok (gs, l)) (sym (append-nil files))
load_files-archive (suc fuel) [] (t ∷ lines) rest files l h v p = absurd p
load_files-archive (suc fuel) (f ∷ fs) [] rest files l h v p = absurd p
load_files-archive (suc fuel) (f ∷ fs) (t ∷ lines) rest files l h v p =
    let next = f.contents ++ (replicate (padding (length f.contents)) 0 ++ archive fs rest) in
    load_files_round fuel (file_blocks f (archive fs rest)) f t (archive fs rest) files l
      (header_block_le f.header next v.0.header_ok) (not_eof f (archive fs rest) v.0)
      (load_data f.header f.contents (archive fs rest) v.0.header_ok v.0.sized) p.0
    ∙ load_files-archive fuel fs lines rest (files ++ (f ∷ [])) (log trace t l) (omega arith) v.1
        p.1
    ∙ ap (λ (gs : List File). ok (gs, trace_all lines (log trace t l)))
        (append_assoc files (f ∷ []) fs)

-- Every file takes a block at least.
enough :
    (fs : List File) (rest : List ℕ) → All IsEntry fs → length fs < suc (length (archive fs rest))
enough [] rest v = omega arith
enough (f ∷ fs) rest v =
    let tail = archive fs rest in
    let nuls : List ℕ = replicate (padding (length f.contents)) 0 in
    let next = f.contents ++ (nuls ++ tail) in
    omega (
      arith,
      enough fs rest v.1,
      header_block_le f.header next v.0.header_ok,
      length-drop 512 (header_block f.header next),
      ap length (drop-header_block f.header next v.0.header_ok),
      length-append f.contents (nuls ++ tail),
      length-append nuls tail,
    )

-- `Initrd::new` on a well-formed archive, whatever follows its end, finds exactly the files that
-- were written, in order and with their contents, and traces a line for each, if each file's line
-- can be printed. The walk ends within its fuel.
pub new-archive :
    (fs : List File) (lines : List Text) (rest : List ℕ) (l : Logger)
    → All IsEntry fs
    → Printed fs lines
    → new (archive fs rest) l ≡ ok (record { files = fs }, trace_all lines l)
unfolding new
new-archive fs lines rest l v p =
    let walk =
      load_files-archive (suc (length (archive fs rest))) fs lines rest [] l (enough fs rest v) v
        p in
    rw walk refl
