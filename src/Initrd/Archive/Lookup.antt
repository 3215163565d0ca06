-- ===== src/Initrd/Archive/Lookup.antt =====
-- `get_data` by name.
use neur_os.Common.{
  ℕ, Text, List, [], ◌∷◌, ◌++◌, All, ◌≡◌, ◌≢◌, refl, ok, panic, unwrap_failed, list_eq,
  list_eq_refl, list_eq→eq, Bool-cases, inl, inr, false, none,
}
use neur_os.Initrd.Block.{File}
use neur_os.Initrd.Archive.{Initrd, find_file, get_data}

-- The file has another name.
abbrev pub Unlike : Text → File → Type 0
Unlike path f = f.header.name ≢ path

list_eq_ne : (xs ys : List ℕ) → xs ≢ ys → list_eq xs ys ≡ false
list_eq_ne xs ys h = elim (Bool-cases (list_eq xs ys)) [
  | inl e ↦ absurd (h (list_eq→eq xs ys e))
  | inr e ↦ e
]

find_file-append :
    (path : Text) (before after : List File)
    → All (Unlike path) before
    → find_file path (before ++ after) ≡ find_file path after
unfolding find_file
find_file-append path [] after h = refl
find_file-append path (f ∷ before) after h =
    rw (list_eq_ne f.header.name path h.0) (find_file-append path before after h.1)

-- `get_data` returns the contents of the first file with the name that is asked for.
pub get_data_first :
    (path : Text) (before after : List File) (f : File)
    → All (Unlike path) before
    → f.header.name ≡ path
    → get_data (record { files = before ++ (f ∷ after) }) path ≡ ok f.contents
unfolding get_data
get_data_first path before after f h e =
    rw (find_file-append path before (f ∷ after) h, e, list_eq_refl path) refl

find_file-none : (path : Text) (fs : List File) → All (Unlike path) fs → find_file path fs ≡ none
unfolding find_file
find_file-none path [] h = refl
find_file-none path (f ∷ fs) h = rw (list_eq_ne f.header.name path h.0) (find_file-none path fs h.1)

-- A name that no file has makes `get_data` panic.
pub get_data-panics :
    (path : Text) (i : Initrd) → All (Unlike path) i.files → get_data i path ≡ panic unwrap_failed
unfolding get_data
get_data-panics path i h = rw (find_file-none path i.files h) refl
