-- ===== src/Interrupts/Exceptions/Halting.antt =====
-- kernel/src/interrupts.rs: which exceptions stop the kernel, and that each leaves a trace.
use neur_os.Common.{
  codes, show_hex, append_assoc, ap, sym, ◌∙◌, ◌≡◌, refl, ℕ, Text, Bool, true, false, if◌then◌else◌,
  [], ◌∷◌, ◌++◌,
}
use neur_os.Logger.{Logger, Level, log}
use neur_os.Interrupts.Exceptions.{
  Exception, Flow, resumes, halts, exception_handler, thrown_code, divide_error, debug_exception,
  nmi, breakpoint, overflow_exception, bound_range, invalid_opcode, device_not_available,
  double_fault, invalid_tss, segment_not_present, stack_segment_fault, general_protection_fault,
  page_fault, x87_floating_point, alignment_check, machine_check, simd_floating_point,
  virtualization, control_protection, hypervisor_injection, vmm_communication, security,
}

-- The exceptions of the class that the processor's manual calls aborts: the interrupted code cannot
-- be resumed.
abbrev pub is_abort : Exception → Bool
is_abort double_fault = true
is_abort machine_check = true
is_abort _ = false

-- The line of a handler with an error code.
coded :
    (what : Text) (code : ℕ) (frame : Text) (l : Logger) (flow : Flow)
    → (level : Level) × (start : Text) × ◌≡◌ {A = Logger × Flow}
        (log Level.error (thrown_code what code frame) l, flow)
        (
          record { logs = l.logs ++ (record { level = level; message = start ++ frame } ∷ []) },
          flow,
        )
unfolding thrown_code log
coded what code frame l flow =
    let opening = codes " was thrown (code 0x" in
    let closing = codes "): " in
    (
      Level.error,
      what ++ (opening ++ (show_hex code ++ closing)),
      ap
          (λ m.
            (record { logs = l.logs ++ (record { level = Level.error; message = m } ∷ []) }, flow))
          (sym (
            append_assoc what (opening ++ (show_hex code ++ closing)) frame
            ∙ ap (λ t. what ++ t)
                (append_assoc opening (show_hex code ++ closing) frame
                  ∙ ap (λ t. opening ++ t) (append_assoc (show_hex code) closing frame)))),
    )

-- Every handler of an exception adds one line to the log, which names the frame of the interrupt at
-- its end, and halts the kernel just after an abort: a double fault or a machine check.
pub exception_handler_lem :
    (e : Exception) (code : ℕ) (frame : Text) (l : Logger)
    → (level : Level) × (what : Text) × (exception_handler e code frame l ≡ (
      record { logs = l.logs ++ (record { level = level; message = what ++ frame } ∷ []) },
      if is_abort e then halts else resumes,
    ))
unfolding exception_handler log thrown_code
exception_handler_lem divide_error code frame l =
    (Level.error, codes "Division error" ++ codes " was thrown: ", refl)
exception_handler_lem debug_exception code frame l =
    (Level.debug, codes "Debug exception" ++ codes " was thrown: ", refl)
exception_handler_lem nmi code frame l =
    (Level.error, codes "Non-Maskable Interrupt (NMI)" ++ codes " was thrown: ", refl)
exception_handler_lem breakpoint code frame l =
    (Level.warn, codes "Breakpoint exception" ++ codes " was thrown: ", refl)
exception_handler_lem overflow_exception code frame l =
    (Level.error, codes "Overflow exception" ++ codes " was thrown: ", refl)
exception_handler_lem bound_range code frame l =
    (Level.error, codes "Bound range exceeded exception" ++ codes " was thrown: ", refl)
exception_handler_lem invalid_opcode code frame l =
    (Level.error, codes "Invalid opcode exception" ++ codes " was thrown: ", refl)
exception_handler_lem device_not_available code frame l =
    (Level.error, codes "Device not available exception" ++ codes " was thrown: ", refl)
exception_handler_lem double_fault code frame l = coded (codes "Double fault") code frame l halts
exception_handler_lem invalid_tss code frame l =
    coded (codes "Invalid TSS exception") code frame l resumes
exception_handler_lem segment_not_present code frame l =
    coded (codes "Segment not present exception") code frame l resumes
exception_handler_lem stack_segment_fault code frame l =
    coded (codes "Stack segment fault") code frame l resumes
exception_handler_lem general_protection_fault code frame l =
    coded (codes "General protection fault") code frame l resumes
exception_handler_lem page_fault code frame l = coded (codes "Page fault") code frame l resumes
exception_handler_lem x87_floating_point code frame l =
    (Level.error, codes "x87 floating point exception" ++ codes " was thrown: ", refl)
exception_handler_lem alignment_check code frame l =
    coded (codes "Alignment check exception") code frame l resumes
exception_handler_lem machine_check code frame l =
    (Level.error, codes "Machine check exception" ++ codes " was thrown: ", refl)
exception_handler_lem simd_floating_point code frame l =
    (Level.error, codes "SIMD floating point exception" ++ codes " was thrown: ", refl)
exception_handler_lem virtualization code frame l =
    (Level.error, codes "Virtualization exception" ++ codes " was thrown: ", refl)
exception_handler_lem control_protection code frame l =
    coded (codes "Control protection exception") code frame l resumes
exception_handler_lem hypervisor_injection code frame l =
    (Level.error, codes "Hypervisor injection exception" ++ codes " was thrown: ", refl)
exception_handler_lem vmm_communication code frame l =
    coded (codes "VMM communication exception") code frame l resumes
exception_handler_lem security code frame l =
    coded (codes "Security exception") code frame l resumes
