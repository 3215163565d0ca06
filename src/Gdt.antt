-- ===== src/Gdt.antt =====
-- kernel/src/gdt.rs: the table of segment descriptors and the selectors of its entries. The table is
-- the x86_64 crate's: `GlobalDescriptorTable::new` and `append` are arguments.
use neur_os.Common.{ℕ, Option, some, Outcome, ok, ◌>>=◌}

-- `Descriptor::kernel_code_segment` and so on.
pub data Descriptor : Type 0 where
  kernel_code_segment kernel_data_segment user_data_segment user_code_segment tss_segment :
      Descriptor

pub record Selectors : Type 0 where
  pub kernel_code : ℕ
  pub kernel_data : ℕ
  pub user_code : ℕ
  pub user_data : ℕ
  pub tss : ℕ

abbrev pub get_kernel_code : Selectors → ℕ
get_kernel_code s = s.kernel_code

abbrev pub get_kernel_data : Selectors → ℕ
get_kernel_data s = s.kernel_data

abbrev pub get_user_code : Selectors → ℕ
get_user_code s = s.user_code

abbrev pub get_user_data : Selectors → ℕ
get_user_data s = s.user_data

-- The registers of the processor that the kernel sets: the table, the segments, the task, STAR (the
-- four selectors of `Star::write`) and EFER's flags.
pub record Processor (Table : Type 0) : Type 0 where
  pub gdt : Option Table
  pub cs : ℕ
  pub ds : ℕ
  pub es : ℕ
  pub fs : ℕ
  pub gs : ℕ
  pub ss : ℕ
  pub tr : ℕ
  pub star : Option (ℕ × ℕ × ℕ × ℕ)
  pub efer : ℕ

module _ {Table : Type 0} (new : Table) (append : Table → Descriptor → Outcome (Table × ℕ)) where
  -- The closure of `GDT`
  unfoldable pub gdt : Outcome (Table × Selectors)
  gdt = do
    (gdt₁, kernel_code) ← append new kernel_code_segment
    (gdt₂, kernel_data) ← append gdt₁ kernel_data_segment
    (gdt₃, user_data) ← append gdt₂ user_data_segment
    (gdt₄, user_code) ← append gdt₃ user_code_segment
    (gdt₅, tss) ← append gdt₄ tss_segment
    ok (
      gdt₅,
      record {
        kernel_code = kernel_code;
        kernel_data = kernel_data;
        user_code = user_code;
        user_data = user_data;
        tss = tss;
      },
    )

  unfoldable pub initialize : Processor Table → Outcome (Processor Table)
  unfolding gdt
  initialize p = do
    (table, selectors) ← gdt
    ok (record p {
      gdt = some table;
      cs = selectors.kernel_code;
      ds = selectors.kernel_data;
      es = selectors.kernel_data;
      fs = selectors.kernel_data;
      gs = selectors.kernel_data;
      ss = selectors.kernel_data;
      tr = selectors.tss;
    })
