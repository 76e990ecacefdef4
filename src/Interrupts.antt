-- ===== src/Interrupts.antt =====
-- kern/lib/intr: the tables of the processor and the dispatch of interrupts.
mod Defs
mod Apic
pub mod Descriptor
mod Tests
unfoldable pub use Defs.*
unfoldable pub use Apic.*
