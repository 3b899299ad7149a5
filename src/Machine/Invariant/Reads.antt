-- ===== src/Machine/Invariant/Reads.antt =====
-- Reads of memory and devices leave the core as it is.
use lamp_vm.Common.Tests.{ℕ, ◌≡◌, refl, ◌∙◌, subst, Option, some, none, if-both, arith}
use lamp_vm.Common.Word.{◌<<<◌, add32}
use lamp_vm.Common.Bits.Step.{bit_or}
use lamp_vm.Machine.State.{
  Vm, Vcpu, Outcome, ok, exit, undefined, MmioDevice, Handler, fb_handler, time_handler,
  sysinfo_handler, ◌>>=◌, pure, mmio_read,
}
use lamp_vm.Machine.Devices.Frame.{fb_read32}
use lamp_vm.Machine.Devices.Time.{Clock, get_timer, time_read32}
use lamp_vm.Machine.Mmio.{
  scan, cached, remember, find_mmio, call_read32, vm_mmio_read32, read_handler,
}
use lamp_vm.Machine.Memory.{in_ram, vm_read32, vm_read64, read32_found}

-- Reads leave the core as it is.
abbrev pub SameCpu : {A : Type 0} → Vcpu → Outcome (A × Vm) → Type 0
SameCpu c (ok (a, vm)) = vm.cpu ≡ c
SameCpu c (exit p) = Unit {0}
SameCpu c undefined = Unit {0}

find_mmio-cpu : (a : ℕ) (vm : Vm) → (find_mmio a vm).1.cpu ≡ vm.cpu
unfolding find_mmio remember
find_mmio-cpu a vm = looked_up (cached vm a)
  where
    remembered : (o : Option MmioDevice) → (remember o vm).cpu ≡ vm.cpu
    remembered none = refl
    remembered (some d) = refl

    looked_at : Option MmioDevice → Option MmioDevice × Vm
    looked_at (some d) = (some d, vm)
    looked_at none = (scan vm.mmio_devices a, remember (scan vm.mmio_devices a) vm)

    looked_up : (o : Option MmioDevice) → (looked_at o).1.cpu ≡ vm.cpu
    looked_up none = remembered (scan vm.mmio_devices a)
    looked_up (some d) = refl

get_timer-cpu : (c : Clock) (vm : Vm) → (get_timer c vm).1.cpu ≡ vm.cpu
unfolding get_timer
get_timer-cpu Clock.realtime vm = refl
get_timer-cpu Clock.monotonic vm = refl
get_timer-cpu Clock.boot vm = refl

call_read32-cpu : (h : Handler) (a : ℕ) (vm : Vm) → (call_read32 h a vm).1.cpu ≡ vm.cpu
unfolding call_read32 fb_read32 time_read32
call_read32-cpu fb_handler a vm = refl
call_read32-cpu time_handler a vm =
    let r = get_timer-cpu Clock.realtime vm in
    let m = get_timer-cpu Clock.monotonic vm in
    let b = get_timer-cpu Clock.boot vm in ground (arith, r, m, b)
call_read32-cpu sysinfo_handler a vm = refl

read32_found-SameCpu :
    (a : ℕ) (o : Option MmioDevice) (vm : Vm) → SameCpu vm.cpu (read32_found a (o, vm))
unfolding vm_mmio_read32
read32_found-SameCpu a none vm = if-both (SameCpu vm.cpu) (in_ram vm a 4) refl tt
read32_found-SameCpu a (some d) vm = read_by (read_handler (find_mmio a vm).0)
  where
    read_by :
        (o : Option Handler)
        → SameCpu vm.cpu (elim o [
          | none ↦ exit (mmio_read a)
          | some h ↦ ok (call_read32 h a (find_mmio a vm).1)
        ])
    read_by none = tt
    read_by (some h) = call_read32-cpu h a (find_mmio a vm).1 ∙ find_mmio-cpu a vm

pub vm_read32-SameCpu : (a : ℕ) (vm : Vm) → SameCpu vm.cpu (vm_read32 a vm)
unfolding vm_read32
vm_read32-SameCpu a vm =
    subst (λ c. SameCpu c (read32_found a (find_mmio a vm))) (find_mmio-cpu a vm)
      (read32_found-SameCpu a (find_mmio a vm).0 (find_mmio a vm).1)

pub vm_read64-SameCpu : (a : ℕ) (vm : Vm) → SameCpu vm.cpu (vm_read64 a vm)
unfolding vm_read64
vm_read64-SameCpu a vm = low (vm_read32 a vm) (vm_read32-SameCpu a vm)
  where
    high :
        (lo : ℕ) (c : Vcpu) (o : Outcome (ℕ × Vm))
        → SameCpu c o
        → SameCpu c (elim o [
          | ok (hi, vm') ↦ pure (bit_or lo (hi <<< 32)) vm'
          | exit p ↦ exit p
          | undefined ↦ undefined
        ])
    high lo c (ok (hi, vm')) e = e
    high lo c (exit p) e = tt
    high lo c undefined e = tt

    low :
        (o : Outcome (ℕ × Vm))
        → SameCpu vm.cpu o
        → SameCpu vm.cpu (elim o [
          | ok (lo, vm') ↦ (vm_read32 (add32 a 4) >>= λ hi. pure (bit_or lo (hi <<< 32))) vm'
          | exit p ↦ exit p
          | undefined ↦ undefined
        ])
    low (ok (lo, vm')) e =
        subst (λ c. SameCpu c ((vm_read32 (add32 a 4) >>= λ hi. pure (bit_or lo (hi <<< 32))) vm'))
          e (high lo vm'.cpu (vm_read32 (add32 a 4) vm') (vm_read32-SameCpu (add32 a 4) vm'))
    low (exit p) e = tt
    low undefined e = tt
