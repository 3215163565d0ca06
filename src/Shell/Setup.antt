-- ===== src/Shell/Setup.antt =====
-- kernel/src/shell.rs: `Shell::new` reads the user from the files of the ramdisk.
use neur_os.Common.{
  ◌≡◌, refl, ℕ, Text, [], ◌∷◌, ◌++◌, All, false, some, ok, ◌==◌, split_terminator, from_str_radix,
  trim_end, codes,
}
use neur_os.Initrd.Archive.{Initrd}
use neur_os.Shell.{shell_new, read_text, prompt_of}

-- A text without colons.
abbrev pub Field : Text → Type 0
Field t = All (λ c. (c == 58) ≡ false) t

split_terminator-Field :
    (t rest : Text)
    → Field t
    → split_terminator 58 (t ++ (58 ∷ rest)) ≡ t ∷ split_terminator 58 rest
unfolding split_terminator
split_terminator-Field [] rest f = refl
split_terminator-Field (c ∷ t) rest f = rw (f.0, split_terminator-Field t rest f.1)

-- A line of /etc/passwd: seven fields, the last without a colon after it.
abbrev pub passwd_line : (user password uid gid gecos home shell : Text) → Text
passwd_line user password uid gid gecos home shell =
    user
    ++ (58
        ∷ (password
            ++ (58 ∷ (uid ++ (58 ∷ (gid ++ (58 ∷ (gecos ++ (58 ∷ (home ++ (58 ∷ shell)))))))))))

-- The first line of /etc/passwd gives the user's name, its two numbers and its directory, the first
-- field of /etc/group the group, and /etc/hostname the rest of the prompt.
pub shell_new-passwd_line :
    (i : Initrd) (hostname user password uid gid gecos home shell group rest : Text)
    (user_id group_id : ℕ)
    → read_text i (codes "initrd/etc/hostname") ≡ ok hostname
    → read_text i (codes "initrd/etc/passwd")
      ≡ ok (passwd_line user password uid gid gecos home shell)
    → read_text i (codes "initrd/etc/group") ≡ ok (group ++ (58 ∷ rest))
    → Field user × Field password × Field uid × Field gid × Field gecos × Field home × Field group
    → from_str_radix 10 uid ≡ some user_id
    → from_str_radix 10 gid ≡ some group_id
    → shell_new i
      ≡ ok (record {
        buffer = [];
        group = group;
        group_id = group_id;
        prompt = prompt_of user (trim_end hostname);
        user_id = user_id;
        username = user;
        working_directory = home;
      })
unfolding shell_new
shell_new-passwd_line i hostname user password uid gid gecos home shell group rest user_id group_id
      h p g f u v =
    rw (
      h,
      p,
      g,
      split_terminator-Field user _ f.0,
      split_terminator-Field password _ f.1,
      split_terminator-Field uid _ f.2,
      split_terminator-Field gid _ f.3,
      split_terminator-Field gecos _ f.4,
      split_terminator-Field home _ f.5,
      split_terminator-Field group rest f.6,
      u,
      v,
    )
