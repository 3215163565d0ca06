-- ===== src/Userspace.antt =====
-- kernel/src/userspace.rs: the registers for system calls. `Star::write` of the x86_64 crate, which
-- refuses selectors that do not stand as the processor wants them, is an argument.
pub mod Selectors
use neur_os.Common.{ℕ, ◌+◌, ◌^◌, Bool, true, false, some, Outcome, ok, panic, unwrap_failed, ◌>>=◌}
use neur_os.Gdt.{
  Descriptor, Processor, gdt, get_kernel_code, get_kernel_data, get_user_code, get_user_data,
}

-- The bits of `EferFlags`.
abbrev pub system_call_extensions : ℕ
system_call_extensions = 2 ^ 0

abbrev pub long_mode_enable : ℕ
long_mode_enable = 2 ^ 8

abbrev pub long_mode_active : ℕ
long_mode_active = 2 ^ 10

abbrev pub no_execute_enable : ℕ
no_execute_enable = 2 ^ 11

module _ {Table : Type 0} (new : Table) (append : Table → Descriptor → Outcome (Table × ℕ))
    (star_accepts : ℕ → ℕ → ℕ → ℕ → Bool) where
  unfoldable pub initialize : Processor Table → Outcome (Processor Table)
  initialize p = do
    (_, s) ← gdt new append
    elim (star_accepts (get_user_code s) (get_user_data s) (get_kernel_code s)
        (get_kernel_data s)) [
          | false ↦ panic unwrap_failed
          | true ↦ ok (record p {
            star = some (get_user_code s, get_user_data s, get_kernel_code s, get_kernel_data s);
            efer = system_call_extensions + long_mode_enable + long_mode_active + no_execute_enable;
          })
        ]
