-- ===== src/Pci/Devices.antt =====
-- The devices by group, and the search of the buses. A `struct pci_device` is named by its address,
-- which is also that of its `group_elem`; the text of get_device_string is not modelled, only its
-- block. Recursion through the bridges is on fuel.
use Prim.Native.Nat.{bit_and}
use dunkos.Common.{ℕ, zero, suc, ◌+◌, ◌-◌, ◌*◌, ◌/◌, ◌%◌, true, false, not, ◌&&◌}
use dunkos.Common.{Option, none, some, List, [], ◌∷◌, ◌==◌, leb, if◌then◌else◌, update, word_limit}
use dunkos.Common.Memory.{load}
use dunkos.Strings.{memsum}
use dunkos.LinkedList.{Mem, list_init, list_push_back, list_empty, list_begin, list_end, list_next}
use dunkos.LinkedList.{list_size}
use dunkos.Pci.Defs.{Machine, getbyte, pci_config_word, find_rsdp, find_sdt}

pub record PciDevice : Type 0 where
  pub class : ℕ
  pub subclass : ℕ
  pub progif : ℕ
  pub id : ℕ
  pub buses : ℕ → ℕ
  pub config : ℕ
  pub bridge : ℕ
  pub devstr : ℕ

-- `heap` is the list of the blocks that `kcalloc` is still going to return.
pub record Pci : Type 0 where
  pub links : Mem
  pub device_table : ℕ
  pub devices : ℕ → PciDevice
  pub cfg_table : ℕ
  pub heap : List ℕ

-- `&device_table[class].devices`
abbrev pub group_of : Pci → ℕ → ℕ
group_of s class = s.device_table + 40 * class

abbrev pub set_device : ℕ → PciDevice → Pci → Pci
set_device a dev s = record s { devices = λ q. if q == a then dev else s.devices q }

abbrev pub take_block : Pci → ℕ × Pci
take_block s = elim (s.heap) [ [] ↦ (0, s) | p ∷ rest ↦ (p, record s { heap = rest }) ]

abbrev blank_device : PciDevice
blank_device = record {
  class = 0;
  subclass = 0;
  progif = 0;
  id = 0;
  buses = λ _. 0;
  config = 0;
  bridge = 0;
  devstr = 0;
}

-- `kcalloc(1, sizeof *dev)`
abbrev pub new_device : Pci → ℕ × Pci
new_device s = let (dev, s') = take_block s in (dev, set_device dev blank_device s')

unfoldable pub init_pci_dev : Machine → ℕ → ℕ → ℕ → ℕ → ℕ → Pci → Pci
unfolding pci_config_word getbyte list_push_back
init_pci_dev m pci_dev cfg bus dev bridge s =
    let classdata = pci_config_word m cfg bus dev 0 5 in
    let class = getbyte classdata 1 in
    let (devstr, s₁) = take_block s in
    let s₂ =
      set_device pci_dev
        (record {
          class = class;
          subclass = getbyte classdata 0;
          progif = getbyte (pci_config_word m cfg bus dev 0 4) 1;
          id = pci_config_word m cfg bus dev 0 1;
          buses = update (s.devices pci_dev).buses 0 bus;
          config = cfg;
          bridge = bridge;
          devstr = devstr;
        })
        s₁ in
    record s₂ { links = list_push_back (group_of s₂ class) pci_dev s₂.links }

abbrev pub Check : Type 0
Check = ℕ → ℕ → Pci → Option Pci

abbrev then_do : Option Pci → (Pci → Option Pci) → Option Pci
then_do none f = none
then_do (some s) f = f s

-- `below` is check_bus.
unfoldable pub check_function : Machine → Check → ℕ → ℕ → ℕ → ℕ → ℕ → Pci → Option Pci
unfolding pci_config_word getbyte
check_function m below dev bridge bus device function s =
    let config = (s.devices bridge).config in
    let classdata = pci_config_word m config bus device function 5 in
    let sndbus = getbyte (pci_config_word m config bus device function 12) 1 in
    let d = s.devices dev in
    if (getbyte classdata 1 == 6) && (getbyte classdata 0 == 4)
    then below dev sndbus (set_device dev (record d { buses = update d.buses function sndbus }) s)
    else some s

-- The loop of check_device over the functions from `function` on.
unfoldable pub function_loop : Machine → Check → ℕ → ℕ → ℕ → ℕ → ℕ → ℕ → Pci → Option Pci
unfolding pci_config_word check_function
function_loop m below zero dev bridge bus device function s = some s
function_loop m below (suc left) dev bridge bus device function s =
    let word = pci_config_word m (s.devices bridge).config bus device function 0 in
    then_do
      (if not (word == 0xFFFF)
        then check_function m below dev bridge bus device function s
        else some s)
      (function_loop m below left dev bridge bus device (function + 1))

unfoldable pub check_device : Machine → Check → ℕ → ℕ → ℕ → Pci → Option Pci
unfolding pci_config_word init_pci_dev check_function function_loop getbyte
check_device m below bridge bus device s =
    let config = (s.devices bridge).config in
    let header_type = getbyte (pci_config_word m config bus device 0 7) 0 in
    let (dev, s₁) = new_device s in
    if pci_config_word m config bus device 0 0 == 0xFFFF
    then some s
    else then_do
        (check_function m below dev bridge bus device 0
          (init_pci_dev m dev config bus device bridge s₁))
        (λ s₂.
          if not (bit_and header_type 128 == 0)
          then function_loop m below 7 dev bridge bus device 1 s₂
          else some s₂)

-- The loop of check_bus from device `dev` on.
unfoldable pub device_loop : Machine → Check → ℕ → ℕ → ℕ → ℕ → Pci → Option Pci
unfolding check_device
device_loop m below zero bridge bus dev s = some s
device_loop m below (suc left) bridge bus dev s =
    then_do (check_device m below bridge bus dev s) (device_loop m below left bridge bus (dev + 1))

-- `depth` bounds the bridges behind each other.
unfoldable pub check_bus : Machine → ℕ → ℕ → ℕ → Pci → Option Pci
unfolding device_loop
check_bus m zero bridge bus s = none
check_bus m (suc depth) bridge bus s = device_loop m (check_bus m depth) 32 bridge bus 0 s

-- The loop of enumerate_device over the functions from `function` on.
unfoldable pub bus_loop : Machine → ℕ → ℕ → ℕ → ℕ → ℕ → ℕ → Pci → Option Pci
unfolding check_bus pci_config_word
bus_loop m depth zero cfg bus dev function s = some s
bus_loop m depth (suc left) cfg bus dev function s =
    if not (pci_config_word m cfg bus 0 function 0 == 0xFFFF)
    then some s
    else then_do (check_bus m depth dev function s)
        (bus_loop m depth left cfg bus dev (function + 1))

-- `none` is `PDEV_NO_CFG`.
unfoldable pub enumerate_device : Machine → ℕ → Option ℕ → Pci → Option Pci
unfolding check_bus bus_loop pci_config_word init_pci_dev getbyte load
enumerate_device m depth pdev s =
    let cfg : ℕ = elim pdev [ none ↦ 0 | some i ↦ s.cfg_table + 16 * i ] in
    let bus = if cfg == 0 then 0 else load m.memory (cfg + 10) 1 in
    let header_type = getbyte (pci_config_word m cfg bus 0 0 7) 0 in
    let (dev, s₁) = new_device s in
    let s₂ = init_pci_dev m dev cfg bus 0 0 s₁ in
    if bit_and header_type 128 == 0
    then check_bus m depth dev 0 s₂
    else bus_loop m depth 8 cfg bus dev 0 s₂

unfoldable pub enumerate_loop : Machine → ℕ → ℕ → ℕ → Pci → Option Pci
unfolding enumerate_device
enumerate_loop m depth zero i s = some s
enumerate_loop m depth (suc left) i s =
    then_do (enumerate_device m depth (some i) s) (enumerate_loop m depth left (i + 1))

-- Where the literals and the local array of find_sdt are.
pub record Literals : Type 0 where
  pub signature : ℕ
  pub mcfg : ℕ
  pub namecmpstr : ℕ

-- What follows the search for the table: `mcfg` is its address, or 0.
unfoldable pub enumerate_mcfg : Machine → ℕ → ℕ → Pci → Option Pci
unfolding load memsum getbyte enumerate_loop enumerate_device
enumerate_mcfg m depth mcfg s =
    let length = load m.memory (mcfg + 4) 4 in
    if mcfg == 0
    then enumerate_device m depth none s
    else if not (getbyte (memsum m.memory mcfg length) 0 == 0)
    then none
    else enumerate_loop m depth ((length + (word_limit - 44)) % word_limit / 16) 0
        (record s { cfg_table = mcfg + 44 })

-- `none` is a failed assertion, or an end of the fuel.
unfoldable pub enumerate_pci_devices : Machine → Literals → ℕ → ℕ → Pci → Option Pci
unfolding find_rsdp find_sdt memsum getbyte load enumerate_mcfg
enumerate_pci_devices m l fuel depth s = elim (find_rsdp fuel m.memory l.signature) [
  | none ↦ none
  | some rsdp ↦
      let revision = m.memory (rsdp + 15) in
      let summed = if revision == 2 then 36 else 20 in
      let sdt =
        if revision == 2 then load m.memory (rsdp + 24) 8 else load m.memory (rsdp + 16) 4 in
      if rsdp == 0
      then none
      else if not (getbyte (memsum m.memory rsdp summed) 0 == 0)
      then none
      else elim (find_sdt l.namecmpstr l.mcfg 4 sdt m.memory) [
        | none ↦ none
        | some mcfg ↦ enumerate_mcfg m depth mcfg s
      ]
]

-- The loop from `PCI_DCLASS_UNCLASSIFIED` to the same has one round.
unfoldable pub init_pci : Machine → Literals → ℕ → ℕ → Pci → Option Pci
unfolding list_init enumerate_pci_devices
init_pci m l fuel depth s =
    enumerate_pci_devices m l fuel depth (record s { links = list_init (group_of s 0) s.links })

-- `while (dev->subclass != subclass && el != list_end(dgrlist))`, on fuel.
unfoldable pub subclass_loop : ℕ → Pci → ℕ → ℕ → ℕ → ℕ
unfolding list_end list_next
subclass_loop zero s dgrlist subclass el = el
subclass_loop (suc fuel) s dgrlist subclass el =
    elim (not ((s.devices el).subclass == subclass) && not (el == list_end dgrlist)) [
      | true ↦ subclass_loop fuel s dgrlist subclass (list_next el s.links)
      | false ↦ el
    ]

-- `none` is the subclass -1, and 0 is `NULL`.
unfoldable pub get_pci_device : Pci → ℕ → Option ℕ → ℕ
unfolding list_empty list_begin list_size subclass_loop
get_pci_device s class subclass =
    let dgrlist = group_of s class in
    let el = list_begin dgrlist s.links in
    if leb class 0xFF && not (list_empty dgrlist s.links)
    then elim subclass [
      | none ↦ el
      | some sub ↦
          let dev = subclass_loop (suc (list_size dgrlist s.links)) s dgrlist sub el in
          if (s.devices dev).subclass == sub then dev else 0
    ]
    else 0
