-- ===== src/Initrd/Ustar/Fields.antt =====
-- Each field of a header block is where `parse_header` looks for it.
use neur_os.Common.{
  ℕ, zero, suc, ◌+◌, ◌-◌, ◌^◌, ◌<◌, ◌≤◌, ◌≡◌, refl, ap, sym, ◌∙◌, Text, List, [], ◌∷◌, ◌++◌, length,
  length-append, length-replicate, drop, take-append, drop-append, drop-drop, replicate, All,
  All-append, All-replicate, IsAscii, from_utf8_ascii, trim_end_nul, arith, ok, leb-true, ◌==◌,
  false,
}
use neur_os.Initrd.Block.{
  Header, parse_slice, parse_string, parse_integer, parse_octal, parse_header,
}
use neur_os.Initrd.Ustar.{
  pad, digits, header_block, from_mode, from_user_id, from_group_id, from_size, from_mtime,
  from_checksum, from_flag, from_linked, from_indicator, from_version, from_username, from_group,
  from_major, from_minor, from_prefix, from_padding, Fits, IsUstar,
}
use neur_os.Initrd.Ustar.Numbers.{length-digits, IsDigit, digits-IsDigit, from_str_radix-digits}

pub length-pad : (w : ℕ) (t : Text) → length t ≤ w → length (pad w t) ≡ w
length-pad w t h =
    omega (
      arith,
      length-append t (replicate (w - length t) 0),
      length-replicate {A = ℕ} (w - length t) 0,
    )

trim_end_nul-pad : (t : Text) (k : ℕ) → trim_end_nul (t ++ replicate k 0) ≡ trim_end_nul t
unfolding trim_end_nul
trim_end_nul-pad [] zero = refl
trim_end_nul-pad [] (suc k) = rw (trim_end_nul-pad [] k, trim_end_nul) refl
trim_end_nul-pad (c ∷ t) k = rw (trim_end_nul-pad t k, trim_end_nul) refl

-- A padded field is read as its text.
parse_slice-pad :
    (w : ℕ) (t : Text) (rest : List ℕ) → Fits w t → parse_slice (pad w t ++ rest) w ≡ ok t
unfolding parse_slice
parse_slice-pad w t rest f =
    let n = length-pad w t f.short in
    let fits : w ≤ length (pad w t ++ rest) = omega (arith, n, length-append (pad w t) rest) in
    let ascii : IsAscii (pad w t) =
      All-append t (replicate (w - length t) 0) (λ b. b < 128)
        (f.ascii, All-replicate (λ b. b < 128) (w - length t) 0 (omega arith)) in
    rw
      (
        leb-true w (length (pad w t ++ rest)) fits,
        take-append w (pad w t) rest n,
        from_utf8_ascii (pad w t) ascii,
        trim_end_nul-pad t (w - length t),
        f.trimmed,
      )
      refl

trim_end_nul-digits : (s : Text) → All IsDigit s → trim_end_nul s ≡ s
unfolding trim_end_nul
trim_end_nul-digits [] d = refl
trim_end_nul-digits (c ∷ []) d = let ne : (c == 0) ≡ false = ground (arith, d.0) in rw ne refl
trim_end_nul-digits (c ∷ e ∷ s) d = rw (trim_end_nul-digits (e ∷ s) d.1, trim_end_nul) refl

-- Digits fit their field.
digits-Fits :
    (radix width n w : ℕ) → 0 < radix → radix ≤ 10 → width ≤ w → Fits w (digits radix width n)
digits-Fits radix width n w p t h = record {
  short = omega (arith, length-digits radix width n);
  ascii = ascii _ (digits-IsDigit radix width n p t);
  trimmed = trim_end_nul-digits _ (digits-IsDigit radix width n p t);
}
  where
    ascii : (s : Text) → All IsDigit s → IsAscii s
    ascii [] d = tt
    ascii (c ∷ s) d = (omega (arith, d.0), ascii s d.1)

-- What the three parsers read from an address at which a field stands.
module _ (address rest : List ℕ) (w : ℕ) where
  string_at : (t : Text) → Fits w t → address ≡ pad w t ++ rest → parse_string address w ≡ ok t
  unfolding parse_string
  string_at t f e = rw (e, parse_slice-pad w t rest f) refl

  octal_at :
      (n width : ℕ)
      → suc width ≤ w
      → n < 8 ^ suc width
      → n < 2 ^ 32
      → address ≡ pad w (digits 8 (suc width) n) ++ rest
      → parse_octal address w ≡ ok n
  unfolding parse_octal
  octal_at n width h a b e =
      rw
        (
          e,
          parse_slice-pad w (digits 8 (suc width) n) rest
              (digits-Fits 8 (suc width) n w (omega arith) (omega arith) h),
          from_str_radix-digits 8 width n (omega arith) (omega arith) a b,
        )
        refl

  integer_at :
      (n width : ℕ)
      → suc width ≤ w
      → n < 10 ^ suc width
      → n < 2 ^ 32
      → address ≡ pad w (digits 10 (suc width) n) ++ rest
      → parse_integer address w ≡ ok n
  unfolding parse_integer
  integer_at n width h a b e =
      rw
        (
          e,
          parse_slice-pad w (digits 10 (suc width) n) rest
              (digits-Fits 10 (suc width) n w (omega arith) (omega arith) h),
          from_str_radix-digits 10 width n (omega arith) (omega arith) a b,
        )
        refl

-- `parse_header` returns what its sixteen parsers return.
parse_header_of :
    (a : List ℕ) (h : Header)
    → parse_string a 100 ≡ ok h.name
    → parse_integer (drop 100 a) 8 ≡ ok h.mode
    → parse_octal (drop 108 a) 8 ≡ ok h.user_id
    → parse_octal (drop 116 a) 8 ≡ ok h.group_id
    → parse_octal (drop 124 a) 12 ≡ ok h.size
    → parse_octal (drop 136 a) 12 ≡ ok h.mtime
    → parse_string (drop 148 a) 8 ≡ ok h.checksum
    → parse_integer (drop 156 a) 1 ≡ ok h.flag
    → parse_string (drop 157 a) 100 ≡ ok h.linked
    → parse_string (drop 257 a) 6 ≡ ok h.indicator
    → parse_string (drop 263 a) 2 ≡ ok h.version
    → parse_string (drop 265 a) 32 ≡ ok h.username
    → parse_string (drop 297 a) 32 ≡ ok h.group
    → parse_integer (drop 329 a) 8 ≡ ok h.major
    → parse_integer (drop 337 a) 8 ≡ ok h.minor
    → parse_string (drop 345 a) 155 ≡ ok h.prefix
    → parse_header a ≡ ok h
unfolding parse_header
parse_header_of a h e₁ e₂ e₃ e₄ e₅ e₆ e₇ e₈ e₉ f₁ f₂ f₃ f₄ f₅ f₆ f₇ =
    rw (e₁, e₂, e₃, e₄, e₅, e₆, e₇, e₈, e₉, f₁, f₂, f₃, f₄, f₅, f₆, f₇) refl

-- From one field to the next.
advance :
    (k w : ℕ) (a rest : List ℕ) (t : Text)
    → length t ≤ w
    → drop k a ≡ pad w t ++ rest
    → drop (k + w) a ≡ rest
advance k w a rest t h e =
    sym (drop-drop k w a) ∙ ap (drop w) e ∙ drop-append w (pad w t) rest (length-pad w t h)

module _ (h : Header) (rest : List ℕ) (v : IsUstar h) where
  at_mode : drop 100 (header_block h rest) ≡ from_mode h rest
  at_mode = advance 0 100 (header_block h rest) (from_mode h rest) h.name v.name.short refl

  at_user_id : drop 108 (header_block h rest) ≡ from_user_id h rest
  at_user_id =
      advance 100 8 (header_block h rest) (from_user_id h rest) (digits 10 7 h.mode)
        (omega (arith, length-digits 10 7 h.mode)) at_mode

  at_group_id : drop 116 (header_block h rest) ≡ from_group_id h rest
  at_group_id =
      advance 108 8 (header_block h rest) (from_group_id h rest) (digits 8 7 h.user_id)
        (omega (arith, length-digits 8 7 h.user_id)) at_user_id

  at_size : drop 124 (header_block h rest) ≡ from_size h rest
  at_size =
      advance 116 8 (header_block h rest) (from_size h rest) (digits 8 7 h.group_id)
        (omega (arith, length-digits 8 7 h.group_id)) at_group_id

  at_mtime : drop 136 (header_block h rest) ≡ from_mtime h rest
  at_mtime =
      advance 124 12 (header_block h rest) (from_mtime h rest) (digits 8 11 h.size)
        (omega (arith, length-digits 8 11 h.size)) at_size

  at_checksum : drop 148 (header_block h rest) ≡ from_checksum h rest
  at_checksum =
      advance 136 12 (header_block h rest) (from_checksum h rest) (digits 8 11 h.mtime)
        (omega (arith, length-digits 8 11 h.mtime)) at_mtime

  at_flag : drop 156 (header_block h rest) ≡ from_flag h rest
  at_flag =
      advance 148 8 (header_block h rest) (from_flag h rest) h.checksum v.checksum.short at_checksum

  at_linked : drop 157 (header_block h rest) ≡ from_linked h rest
  at_linked =
      advance 156 1 (header_block h rest) (from_linked h rest) (digits 10 1 h.flag)
        (omega (arith, length-digits 10 1 h.flag)) at_flag

  at_indicator : drop 257 (header_block h rest) ≡ from_indicator h rest
  at_indicator =
      advance 157 100 (header_block h rest) (from_indicator h rest) h.linked v.linked.short
        at_linked

  at_version : drop 263 (header_block h rest) ≡ from_version h rest
  at_version =
      advance 257 6 (header_block h rest) (from_version h rest) h.indicator v.indicator.short
        at_indicator

  at_username : drop 265 (header_block h rest) ≡ from_username h rest
  at_username =
      advance 263 2 (header_block h rest) (from_username h rest) h.version v.version.short
        at_version

  at_group : drop 297 (header_block h rest) ≡ from_group h rest
  at_group =
      advance 265 32 (header_block h rest) (from_group h rest) h.username v.username.short
        at_username

  at_major : drop 329 (header_block h rest) ≡ from_major h rest
  at_major = advance 297 32 (header_block h rest) (from_major h rest) h.group v.group.short at_group

  at_minor : drop 337 (header_block h rest) ≡ from_minor h rest
  at_minor =
      advance 329 8 (header_block h rest) (from_minor h rest) (digits 10 7 h.major)
        (omega (arith, length-digits 10 7 h.major)) at_major

  at_prefix : drop 345 (header_block h rest) ≡ from_prefix h rest
  at_prefix =
      advance 337 8 (header_block h rest) (from_prefix h rest) (digits 10 7 h.minor)
        (omega (arith, length-digits 10 7 h.minor)) at_minor

  pub at_padding : drop 500 (header_block h rest) ≡ from_padding h rest
  at_padding =
      advance 345 155 (header_block h rest) (from_padding h rest) h.prefix v.prefix.short at_prefix

  -- `parse_header` recovers every header that the format can hold from its block, whatever follows.
  pub parse_header-header_block : parse_header (header_block h rest) ≡ ok h
  parse_header-header_block =
      let a = header_block h rest in
      parse_header_of a h (string_at a (from_mode h rest) 100 h.name v.name refl)
        (integer_at (drop 100 a) (from_user_id h rest) 8 h.mode 6 (omega arith)
          (omega (arith, v.mode)) (omega (arith, v.mode)) at_mode)
        (octal_at (drop 108 a) (from_group_id h rest) 8 h.user_id 6 (omega arith)
          (omega (arith, v.user_id)) (omega (arith, v.user_id)) at_user_id)
        (octal_at (drop 116 a) (from_size h rest) 8 h.group_id 6 (omega arith)
          (omega (arith, v.group_id)) (omega (arith, v.group_id)) at_group_id)
        (octal_at (drop 124 a) (from_mtime h rest) 12 h.size 10 (omega arith)
          (omega (arith, v.size)) (omega (arith, v.size)) at_size)
        (octal_at (drop 136 a) (from_checksum h rest) 12 h.mtime 10 (omega arith)
          (omega (arith, v.mtime)) (omega (arith, v.mtime)) at_mtime)
        (string_at (drop 148 a) (from_flag h rest) 8 h.checksum v.checksum at_checksum)
        (integer_at (drop 156 a) (from_linked h rest) 1 h.flag 0 (omega arith)
          (omega (arith, v.flag)) (omega (arith, v.flag)) at_flag)
        (string_at (drop 157 a) (from_indicator h rest) 100 h.linked v.linked at_linked)
        (string_at (drop 257 a) (from_version h rest) 6 h.indicator v.indicator at_indicator)
        (string_at (drop 263 a) (from_username h rest) 2 h.version v.version at_version)
        (string_at (drop 265 a) (from_group h rest) 32 h.username v.username at_username)
        (string_at (drop 297 a) (from_major h rest) 32 h.group v.group at_group)
        (integer_at (drop 329 a) (from_minor h rest) 8 h.major 6 (omega arith)
          (omega (arith, v.major)) (omega (arith, v.major)) at_major)
        (integer_at (drop 337 a) (from_prefix h rest) 8 h.minor 6 (omega arith)
          (omega (arith, v.minor)) (omega (arith, v.minor)) at_minor)
        (string_at (drop 345 a) (from_padding h rest) 155 h.prefix v.prefix at_prefix)

  -- The block is 512 bytes long.
  pub drop-header_block : drop 512 (header_block h rest) ≡ rest
  drop-header_block =
      sym (drop-drop 500 12 (header_block h rest))
      ∙ ap (drop 12) at_padding
      ∙ drop-append 12 (replicate 12 0) rest refl
