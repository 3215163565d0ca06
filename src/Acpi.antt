-- ===== src/Acpi.antt =====
-- kernel/src/acpi.rs: the tables of ACPI, through the acpi crate. Its `AcpiTables::from_rsdp` and the
-- answer of the boot loader are arguments. Nothing calls `Acpi::new` yet.
use neur_os.Common.{
  ◌≡◌, ℕ, Option, none, some, Outcome, panic, explicit_panic, unwrap, ◌>>=◌, DoesPanic,
}

-- The trait `AcpiHandler`: how the crate reaches physical memory.
pub record AcpiHandler (Mapping : Type 0) : Type 0 where
  pub map_physical_region : (physical_address size : ℕ) → Outcome Mapping
  pub unmap_physical_region : Mapping → Outcome (Unit {0})

-- `Handler`: both functions are `todo!`.
unfoldable pub acpi_handler : {Mapping : Type 0} → AcpiHandler Mapping
acpi_handler = record {
  map_physical_region = λ physical_address size. panic explicit_panic;
  unmap_physical_region = λ region. panic explicit_panic;
}

module _ {Mapping Tables : Type 0}
    (from_rsdp : AcpiHandler Mapping → ℕ → Outcome (Option Tables)) where
  -- `Acpi::new`, of the address that the boot loader answers
  unfoldable pub acpi_new : Option ℕ → Outcome Tables
  unfolding acpi_handler
  acpi_new answer = do rsdp ← unwrap answer; tables ← from_rsdp acpi_handler rsdp; unwrap tables

  -- Since `from_rsdp` reads the table at the address, for which it maps the `size` bytes there through its
  -- handler first, `Acpi::new` panics, whatever the boot loader answers.
  pub acpi_new-DoesPanic :
      (size : ℕ)
      → ((h : AcpiHandler Mapping) (address : ℕ)
          → (rest : Mapping → Outcome (Option Tables)) × (from_rsdp h address
              ≡ (h.map_physical_region address size >>= rest)))
      → (answer : Option ℕ) → DoesPanic (acpi_new answer)
  unfolding acpi_new acpi_handler
  acpi_new-DoesPanic size reads none = tt
  acpi_new-DoesPanic size reads (some address) =
      let (rest, e) = reads acpi_handler address in rw e tt
