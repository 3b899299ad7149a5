-- ===== src/Machine/State.antt =====
-- The state of the machine: `struct VM` and `struct VCPU` of vm.h with `Disk` and `MMIO_Device`,
-- the constants of vm.h, flags.h and io.h, and how a call of the C code ends (panic.c).
-- Arrays are functions of the index. The host's clocks and the bytes sent to the terminal are
-- fields, since the code reads the one and writes the other.
use lamp_vm.Common.Tests.{ℕ, ◌+◌, ◌*◌, ◌≡◌, Bool, Option, List}

-- vm.h
abbrev pub fb_width : ℕ
fb_width = 640

abbrev pub fb_height : ℕ
fb_height = 480

abbrev pub fb_bpp : ℕ
fb_bpp = 4

abbrev pub fb_size : ℕ
fb_size = fb_width * fb_height * fb_bpp

abbrev pub io_size : ℕ
io_size = 256

abbrev pub reg_count : ℕ
reg_count = 32

abbrev pub ivt_size : ℕ
ivt_size = 256

abbrev pub irq_bitmap_words : ℕ
irq_bitmap_words = 4

abbrev pub call_stack_size : ℕ
call_stack_size = 256

abbrev pub data_stack_size : ℕ
data_stack_size = 256

abbrev pub isr_stack_size : ℕ
isr_stack_size = 256

abbrev pub ivt_base : ℕ
ivt_base = 0

abbrev pub call_stack_base_addr : ℕ
call_stack_base_addr = ivt_base + ivt_size * 8

abbrev pub data_stack_base_addr : ℕ
data_stack_base_addr = call_stack_base_addr + call_stack_size * 8

abbrev pub isr_stack_base_addr : ℕ
isr_stack_base_addr = data_stack_base_addr + data_stack_size * 8

abbrev pub time_base : ℕ
time_base = isr_stack_base_addr + isr_stack_size * 8

abbrev pub program_base : ℕ
program_base = time_base + 28

abbrev pub fb_legacy_base : ℕ
fb_legacy_base = 0x00620000

abbrev pub sysinfo_base : ℕ
sysinfo_base = fb_legacy_base + fb_size

-- flags.h
abbrev pub flag_cf : ℕ
flag_cf = 0x01

abbrev pub flag_zf : ℕ
flag_zf = 0x08

abbrev pub flag_sf : ℕ
flag_sf = 0x10

abbrev pub flag_of : ℕ
flag_of = 0x20

-- What `panic` is called with: one constructor for each message, with the address or number that
-- the message shows.
pub data AtomicOp : Type 0 where
  cas xadd xchg ldar stlr : AtomicOp

pub data Panic : Type 0 where
  data_stack_overflow data_stack_underflow call_stack_overflow call_stack_underflow : Panic
  isr_stack_overflow isr_stack_underflow ip_out_of_bounds : Panic
  read8_bounds read32_bounds write8_bounds write32_bounds write64_bounds : ℕ → Panic
  mmio_read mmio_write in_address out_address unknown_opcode interrupt_number : ℕ → Panic
  atomic_unaligned atomic_bounds atomic_mmio : AtomicOp → ℕ → Panic

-- `panic` dumps the machine and calls `exit(1)`. `undefined` is an access outside a C array, which
-- C leaves undefined.
pub data Outcome (A : Type 0) : Type 0 where
  ok : A → Outcome A
  exit : Panic → Outcome A
  undefined : Outcome A

-- The callbacks that a device may register.
pub data Handler : Type 0 where
  fb_handler time_handler sysinfo_handler : Handler

pub record MmioDevice : Type 0 where
  pub start : ℕ
  pub end : ℕ
  pub read32 : Option Handler
  pub write32 : Option Handler

-- The part of `Disk` that the processor side and the worker share.
pub record Disk : Type 0 where
  pub lba : ℕ
  pub mem_addr : ℕ
  pub count : ℕ
  pub busy : Bool
  pub current_cmd : ℕ
  pub op_complete : Bool

pub record Vcpu : Type 0 where
  pub regs : ℕ → ℕ
  pub ip : ℕ
  pub last_ip : ℕ
  pub flags : ℕ
  pub dsp : ℕ
  pub csp : ℕ
  pub isp : ℕ
  pub in_interrupt : Bool
  pub irq_masked : Bool
  pub core_id : ℕ
  pub call_stack_base : ℕ
  pub data_stack_base : ℕ
  pub isr_stack_base : ℕ
  pub is_bsp : Bool

-- `cpu` is the VCPU of the executing thread (`vm_tls_vcpu`); `cpus` are the others by number.
pub record Vm : Type 0 where
  pub halted : Bool
  pub memory : ℕ → ℕ
  pub memory_size : ℕ
  pub fb : ℕ → ℕ
  pub io : ℕ → ℕ
  pub serial_rx_fifo : ℕ → ℕ
  pub serial_rx_head : ℕ
  pub serial_rx_tail : ℕ
  pub disk : Disk
  pub interrupt_bitmap : ℕ → ℕ
  pub start_realtime_ns : ℕ
  pub start_monotonic_ns : ℕ
  pub latched_realtime : ℕ
  pub latched_monotonic : ℕ
  pub latched_boottime : ℕ
  pub disk_size_bytes : ℕ
  pub sysinfo_vendor_words : ℕ → ℕ
  pub mmio_devices : List MmioDevice
  pub mmio_cache_dev : Option MmioDevice
  pub mmio_cache_start : ℕ
  pub mmio_cache_end : ℕ
  pub smp_cores : ℕ
  pub cpu : Vcpu
  pub cpus : ℕ → Vcpu
  pub core_released : ℕ → Bool
  pub timer_period_us : ℕ
  pub timer_next_deadline_ns : ℕ
  pub timer_enabled : Bool
  pub host_realtime_ns : ℕ
  pub host_monotonic_ns : ℕ
  pub terminal : List ℕ

abbrev pub M : Type 0 → Type 0
M A = Vm → Outcome (A × Vm)

abbrev pub pure : {A : Type 0} → A → M A
pure a vm = ok (a, vm)

infixl 5 ◌>>=◌ ◌>>◌
abbrev pub ◌>>=◌ : {A B : Type 0} → M A → (A → M B) → M B
◌>>=◌ m f vm = elim (m vm) [ ok (a, vm') ↦ f a vm' | exit p ↦ exit p | undefined ↦ undefined ]

abbrev pub ◌>>◌ : {B : Type 0} → M (Unit {0}) → M B → M B
m >> k = m >>= λ _. k

abbrev pub panic : {A : Type 0} → Panic → M A
panic p vm = exit p

abbrev pub fault : {A : Type 0} → M A
fault vm = undefined

-- A read of the state, and a change of it.
abbrev pub gets : {A : Type 0} → (Vm → A) → M A
gets f vm = ok (f vm, vm)

abbrev pub modify : (Vm → Vm) → M (Unit {0})
modify f vm = ok (tt, f vm)

abbrev pub set_cpu : (Vcpu → Vcpu) → M (Unit {0})
set_cpu f vm = ok (tt, record vm { cpu = f vm.cpu })

-- How a chain of calls goes on after one that returned.
pub bind-ok :
    {A B : Type 0} (m : M A) (f : A → M B) {a : A} {vm vm' : Vm}
    → m vm ≡ ok (a, vm')
    → (m >>= f) vm ≡ f a vm'
bind-ok m f e = rw (e, ◌>>=◌)

pub bind-exit :
    {A B : Type 0} (m : M A) (f : A → M B) {p : Panic} {vm : Vm}
    → m vm ≡ exit p
    → (m >>= f) vm ≡ exit p
bind-exit m f e = rw (e, ◌>>=◌)

pub bind-undefined :
    {A B : Type 0} (m : M A) (f : A → M B) {vm : Vm} → m vm ≡ undefined → (m >>= f) vm ≡ undefined
bind-undefined m f e = rw (e, ◌>>=◌)
