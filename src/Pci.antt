-- ===== src/Pci.antt =====
-- kern/lib/io/pci.c: the tables of the firmware, the configuration space and the PCI devices.
mod Defs
mod Devices
pub mod Rsdp
pub mod Config
mod Tests
unfoldable pub use Defs.*
unfoldable pub use Devices.*
