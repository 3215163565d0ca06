-- ===== src/Interrupts/Exceptions.antt =====
-- The handlers of the processor's exceptions: each logs one line, and two of them halt.
pub mod Halting
use neur_os.Common.{ℕ, Text, codes, show_hex, ◌++◌}
use neur_os.Logger.Macros
use neur_os.Logger.{Logger}

pub data Exception : Type 0 where
  divide_error debug_exception nmi breakpoint overflow_exception bound_range invalid_opcode :
      Exception
  device_not_available double_fault invalid_tss segment_not_present stack_segment_fault : Exception
  general_protection_fault page_fault x87_floating_point alignment_check machine_check : Exception
  simd_floating_point virtualization control_protection hypervisor_injection : Exception
  vmm_communication security : Exception

-- Whether a handler returns to the interrupted code, or its type is `!` and it calls `halt`.
pub data Flow : Type 0 where
  resumes halts : Flow

-- `"{what} was thrown: {frame:?}"`
thrown : Text → Text → Text
thrown what frame = what ++ (codes " was thrown: " ++ frame)

-- `"{what} was thrown (code 0x{code:x}): {frame:?}"`
pub thrown_code : Text → ℕ → Text → Text
thrown_code what code frame =
    what ++ (codes " was thrown (code 0x" ++ (show_hex code ++ (codes "): " ++ frame)))

-- The handlers from `divide_error_handler` to `security_handler`. The code is that which the
-- processor pushes; a handler without one does not read it.
unfoldable pub exception_handler : Exception → ℕ → Text → Logger → Logger × Flow
unfolding thrown thrown_code
exception_handler divide_error code frame l =
    (Macros.error (thrown (codes "Division error") frame) l, resumes)
exception_handler debug_exception code frame l =
    (Macros.debug (thrown (codes "Debug exception") frame) l, resumes)
exception_handler nmi code frame l =
    (Macros.error (thrown (codes "Non-Maskable Interrupt (NMI)") frame) l, resumes)
exception_handler breakpoint code frame l =
    (Macros.warn (thrown (codes "Breakpoint exception") frame) l, resumes)
exception_handler overflow_exception code frame l =
    (Macros.error (thrown (codes "Overflow exception") frame) l, resumes)
exception_handler bound_range code frame l =
    (Macros.error (thrown (codes "Bound range exceeded exception") frame) l, resumes)
exception_handler invalid_opcode code frame l =
    (Macros.error (thrown (codes "Invalid opcode exception") frame) l, resumes)
exception_handler device_not_available code frame l =
    (Macros.error (thrown (codes "Device not available exception") frame) l, resumes)
exception_handler double_fault code frame l =
    (Macros.error (thrown_code (codes "Double fault") code frame) l, halts)
exception_handler invalid_tss code frame l =
    (Macros.error (thrown_code (codes "Invalid TSS exception") code frame) l, resumes)
exception_handler segment_not_present code frame l =
    (Macros.error (thrown_code (codes "Segment not present exception") code frame) l, resumes)
exception_handler stack_segment_fault code frame l =
    (Macros.error (thrown_code (codes "Stack segment fault") code frame) l, resumes)
exception_handler general_protection_fault code frame l =
    (Macros.error (thrown_code (codes "General protection fault") code frame) l, resumes)
exception_handler page_fault code frame l =
    (Macros.error (thrown_code (codes "Page fault") code frame) l, resumes)
exception_handler x87_floating_point code frame l =
    (Macros.error (thrown (codes "x87 floating point exception") frame) l, resumes)
exception_handler alignment_check code frame l =
    (Macros.error (thrown_code (codes "Alignment check exception") code frame) l, resumes)
exception_handler machine_check code frame l =
    (Macros.error (thrown (codes "Machine check exception") frame) l, halts)
exception_handler simd_floating_point code frame l =
    (Macros.error (thrown (codes "SIMD floating point exception") frame) l, resumes)
exception_handler virtualization code frame l =
    (Macros.error (thrown (codes "Virtualization exception") frame) l, resumes)
exception_handler control_protection code frame l =
    (Macros.error (thrown_code (codes "Control protection exception") code frame) l, resumes)
exception_handler hypervisor_injection code frame l =
    (Macros.error (thrown (codes "Hypervisor injection exception") frame) l, resumes)
exception_handler vmm_communication code frame l =
    (Macros.error (thrown_code (codes "VMM communication exception") code frame) l, resumes)
exception_handler security code frame l =
    (Macros.error (thrown_code (codes "Security exception") code frame) l, resumes)
