-- ===== src/Userspace/Selectors.antt =====
-- kernel/src/gdt.rs and userspace.rs: the segments are appended in the order that SYSRET and SYSCALL
-- suppose.
use neur_os.Common.{
  ◌≡◌, refl, ap, ◌∙◌, ℕ, ◌+◌, ◌*◌, ◌%◌, ◌^◌, ◌≤◌, Bool, true, some, Outcome, ok, arith,
}
use neur_os.Gdt.{
  Descriptor, kernel_code_segment, kernel_data_segment, user_data_segment, user_code_segment,
  tss_segment, Processor, gdt,
}
use neur_os.Gdt
use neur_os.Userspace

-- How many entries a descriptor takes, and who may use it.
abbrev pub entries : Descriptor → ℕ
entries tss_segment = 2
entries _ = 1

abbrev pub privilege : Descriptor → ℕ
privilege user_data_segment = 3
privilege user_code_segment = 3
privilege _ = 0

-- What the x86_64 crate documents of `append`: while the table of eight entries has room, the
-- descriptor comes behind those that are there, and its selector is made of its index and its privilege.
pub record Appends {Table : Type 0} (used : Table → ℕ)
    (append : Table → Descriptor → Outcome (Table × ℕ)) (t : Table) (d : Descriptor) : Type 0 where
  pub table : Table
  pub result : append t d ≡ ok (table, used t * 8 + privilege d)
  pub longer : used table ≡ used t + entries d

-- What it documents of `Star::write`.
abbrev pub AcceptsInOrder : (ℕ → ℕ → ℕ → ℕ → Bool) → Type 0
AcceptsInOrder star_accepts =
    (cs_sysret ss_sysret cs_syscall ss_syscall : ℕ)
    → cs_sysret ≡ ss_sysret + 8
    → ss_syscall ≡ cs_syscall + 8
    → ss_sysret % 4 ≡ 3
    → ss_syscall % 4 ≡ 0
    → star_accepts cs_sysret ss_sysret cs_syscall ss_syscall ≡ true

module _ {Table : Type 0} (used : Table → ℕ) (new : Table)
    (append : Table → Descriptor → Outcome (Table × ℕ)) (empty : used new ≡ 1)
    (appends : (t : Table) (d : Descriptor) → used t + entries d ≤ 8 → Appends used append t d)
    (star_accepts : ℕ → ℕ → ℕ → ℕ → Bool) (accepts : AcceptsInOrder star_accepts) where
  append_at :
      (t : Table) (d : Descriptor) (n : ℕ)
      → used t ≡ n
      → n + entries d ≤ 8
      → (t' : Table) × (append t d ≡ ok (t', n * 8 + privilege d)) × (used t' ≡ n + entries d)
  append_at t d n e h =
      let a = appends t d (rw e h) in
      (
        a.table,
        a.result ∙ ap (λ k. ok (a.table, k * 8 + privilege d)) e,
        a.longer ∙ ap (λ k. k + entries d) e,
      )

  gdt-selectors :
      (table : Table) × (used table ≡ 7)
      × (gdt new append
          ≡ ok (
            table,
            record { kernel_code = 8; kernel_data = 16; user_data = 27; user_code = 35; tss = 40 },
          ))
  unfolding gdt
  gdt-selectors =
      let (t₁, a, used₁) = append_at new kernel_code_segment 1 empty (omega arith) in
      let (t₂, b, used₂) = append_at t₁ kernel_data_segment 2 used₁ (omega arith) in
      let (t₃, c, used₃) = append_at t₂ user_data_segment 3 used₂ (omega arith) in
      let (t₄, d, used₄) = append_at t₃ user_code_segment 4 used₃ (omega arith) in
      let (t₅, e, used₅) = append_at t₄ tss_segment 5 used₄ (omega arith) in
      (t₅, used₅, rw (a, b, c, d, e) refl)

  -- `initialize` of the table and then `initialize` of the user space return. SYSCALL gives the kernel
  -- the segments that it runs in, and SYSRET, which counts from the user's selectors, the user's.
  pub initialize_lem :
      (p : Processor Table)
      → (p' : Processor Table) × (p'' : Processor Table) × (Gdt.initialize new append p ≡ ok p')
        × (Userspace.initialize new append star_accepts p' ≡ ok p'')
        × (p''.cs ≡ 8)
        × (p''.ss ≡ 16)
        × (p''.tr ≡ 40)
        × (p''.star ≡ some (35, 27, p''.cs, p''.ss))
  unfolding Gdt.initialize Userspace.initialize
  initialize_lem p =
      let (table, _, e) = gdt-selectors in
      let p' = record p {
        gdt = some table;
        cs = 8;
        ds = 16;
        es = 16;
        fs = 16;
        gs = 16;
        ss = 16;
        tr = 40;
      } in
      (
        p',
        record p' { star = some (35, 27, 8, 16); efer = 2 ^ 0 + 2 ^ 8 + 2 ^ 10 + 2 ^ 11 },
        rw e refl,
        rw (e, accepts 35 27 8 16 refl refl refl refl) refl,
        refl,
        refl,
        refl,
        refl,
      )
