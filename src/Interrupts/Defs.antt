-- ===== src/Interrupts/Defs.antt =====
-- idt.c, tss.c and interrupt.c. Loading the tables and signalling the end of an interrupt are
-- instructions; the stubs that the assembly installs are an argument.
use Prim.Native.Nat.{bit_and}
use dunkos.Common.{ℕ, ◌-◌, ◌*◌, ◌/◌, ◌%◌, ◌^◌, ◌==◌, ltb, if◌then◌else◌}
use dunkos.Threads.{Sys, context, set_interrupt_level, yield_current}
use dunkos.Timer.{InterruptDefer, intrdefr_yield, intrdefr_none}

abbrev pub intr_count : ℕ
intr_count = 0x100

pub record IdtDescriptor : Type 0 where
  pub offsetl : ℕ
  pub selector : ℕ
  pub ist : ℕ
  pub typeattr : ℕ
  pub offsetm : ℕ
  pub offseth : ℕ
  pub reserved : ℕ

pub record TssDescriptor : Type 0 where
  pub limitl : ℕ
  pub basel : ℕ
  pub basem1 : ℕ
  pub typeattr : ℕ
  pub limith : ℕ
  pub basem2 : ℕ
  pub baseh : ℕ
  pub reserved : ℕ

pub data InterruptName : Type 0 where
  unknown division_by_zero double_fault_name protection_fault page_fault : InterruptName
  timer_interrupt_name spurious : InterruptName

-- The handlers of the file, and those that others install, by address.
pub data Handler : Type 0 where
  intr_default double_fault gp_fault : Handler
  installed : ℕ → Handler

-- The tables, with the reference that `lidt` reads.
pub record InterruptTables : Type 0 where
  pub pidt_limit : ℕ
  pub pidt_offset : ℕ
  pub idt : ℕ → IdtDescriptor
  pub gdt64tss : TssDescriptor
  pub id : ℕ → ℕ
  pub name : ℕ → InterruptName
  pub handler : ℕ → Handler

-- The fields are of 16, 8 and 32 bits.
unfoldable pub idt_descriptor : ℕ → ℕ → ℕ → ℕ → InterruptTables → InterruptTables
idt_descriptor which offset selector flags t =
    let pidte : IdtDescriptor = record {
      offsetl = bit_and offset 0xFFFF;
      selector = selector % 2 ^ 16;
      ist = 0;
      typeattr = flags % 2 ^ 8;
      offsetm = bit_and (offset / 2 ^ 16) 0xFFFF;
      offseth = offset / 2 ^ 32 % 2 ^ 32;
      reserved = 0;
    } in
    record t { idt = λ i. if i == which then pidte else t.idt i }

abbrev zero_descriptor : IdtDescriptor
zero_descriptor = record {
  offsetl = 0;
  selector = 0;
  ist = 0;
  typeattr = 0;
  offsetm = 0;
  offseth = 0;
  reserved = 0;
}

-- `idt_at` is the address of the table.
unfoldable pub init_idt : ℕ → InterruptTables → InterruptTables
init_idt idt_at t = record t {
  pidt_limit = (intr_count * 16 - 1) % 2 ^ 16;
  pidt_offset = idt_at;
  idt = λ i. if ltb i intr_count then zero_descriptor else t.idt i;
}

-- `base` is the address of the task state segment, which has 104 bytes.
unfoldable pub init_tss : ℕ → InterruptTables → InterruptTables
init_tss base t =
    let limit = 104 - 1 in
    record t {
      gdt64tss = record (t.gdt64tss) {
        limitl = bit_and limit 0xFFFF;
        basel = bit_and base 0xFFFF;
        basem1 = bit_and base 0xFF0000 / 2 ^ 16;
        typeattr = 0x89;
        limith = bit_and limit 0xF0000 / 2 ^ 16;
        basem2 = bit_and base 0xFF000000 / 2 ^ 24;
        baseh = base / 2 ^ 32 % 2 ^ 32;
      };
    }

unfoldable pub install_interrupt_handler : ℕ → Handler → InterruptTables → InterruptTables
install_interrupt_handler which h t = record t {
  handler = λ i. if i == which then h else t.handler i;
}

abbrev interrupt_name : ℕ → InterruptName
interrupt_name i =
    if i == 0
    then division_by_zero
    else if i == 8
    then double_fault_name
    else (if i == 13
        then protection_fault
        else if i == 14
        then page_fault
        else if i == 0x20
        then timer_interrupt_name
        else (if i == 0x27 then spurious else unknown))

-- The entries after the loop and the names.
abbrev pub fill_table : InterruptTables → InterruptTables
fill_table t = record t {
  id = λ i. if ltb i intr_count then i else t.id i;
  name = λ i. if ltb i intr_count then interrupt_name i else t.name i;
  handler = λ i. if ltb i intr_count then intr_default else t.handler i;
}

unfoldable pub init_interrupts :
    ℕ → ℕ → (InterruptTables → InterruptTables) → InterruptTables → InterruptTables
unfolding init_idt init_tss install_interrupt_handler
init_interrupts idt_at tss_at install_stubs t = install_interrupt_handler 13 gp_fault (
    install_interrupt_handler 8 double_fault
      (fill_table (install_stubs (init_tss tss_at (init_idt idt_at t)))))

-- `run` is what the handlers do for an interrupt, and `others` what the other threads do until the
-- thread is scheduled again, if it yields.
unfoldable pub isr_common_stub :
    (Handler → ℕ → Sys → InterruptDefer × Sys) → (Sys → Sys) → ℕ → InterruptTables → Sys → Sys
unfolding set_interrupt_level yield_current
isr_common_stub run others intr t s =
    let (old_level, s₁) = set_interrupt_level context s in
    let (action, s₂) = run (t.handler intr) (t.id intr) s₁ in
    let s₃ : Sys = elim action [
      | intrdefr_yield ↦ others (yield_current s₂)
      | intrdefr_none ↦ s₂
    ] in
    (set_interrupt_level old_level s₃).1
