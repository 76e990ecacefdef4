-- ===== src/Interrupts/Tests.antt =====
-- The descriptors of a table without handlers.
use dunkos.Common.{◌≡◌, arith}
use dunkos.Interrupts.Defs.{InterruptTables, unknown, intr_default, idt_descriptor}
use dunkos.Interrupts.Descriptor.{handler_address, handler-idt_descriptor}

abbrev empty_tables : InterruptTables
empty_tables = record {
  pidt_limit = 0;
  pidt_offset = 0;
  idt = λ _. record {
    offsetl = 0;
    selector = 0;
    ist = 0;
    typeattr = 0;
    offsetm = 0;
    offseth = 0;
    reserved = 0;
  };
  gdt64tss = record {
    limitl = 0;
    basel = 0;
    basem1 = 0;
    typeattr = 0;
    limith = 0;
    basem2 = 0;
    baseh = 0;
    reserved = 0;
  };
  id = λ i. i;
  name = λ _. unknown;
  handler = λ _. intr_default;
}

handler-idt_descriptor_example :
    handler_address ((idt_descriptor 14 0xFFFF800000123456 8 0x8E empty_tables).idt 14)
    ≡ 0xFFFF800000123456
handler-idt_descriptor_example =
    (handler-idt_descriptor 14 14 0xFFFF800000123456 8 0x8E empty_tables (omega arith) (omega arith)
      (omega arith)).0
