-- ===== src/Machine/Tests/Devices.antt =====
-- Calls, a shared counter, the clocks and the frame buffer at concrete machines.
use lamp_vm.Common.Tests.{◌+◌, ◌*◌, ◌^◌, ◌<◌, ◌≡◌, refl, [], ◌∷◌, arith}
use lamp_vm.Common.Word.{add32}
use lamp_vm.Machine.State.{Vm, ok, time_base, fb_legacy_base}
use lamp_vm.Machine.Devices.Frame.{fb_read32, fb_write32, fb_base}
use lamp_vm.Machine.Devices.Time.{Clock, time_read32, get_timer}
use lamp_vm.Machine.Mmio.{register_all}
use lamp_vm.Machine.Mmio.Cache.{forget}
use lamp_vm.Machine.Mmio.Registers.{windows_agree, clock_halves, boot_high-ram}
use lamp_vm.Machine.Memory.{load32, vm_read32}
use lamp_vm.Machine.Memory.Counter.{add_all, add_all-sum}
use lamp_vm.Machine.Exec.Branch.{exec_call, exec_ret}
use lamp_vm.Machine.Exec.Calls.{ret-call, HasCallStack}
use lamp_vm.Machine.Tests.{machine, bare, machine-CacheIsSound, ram_word, before_clock, jump_9000}

machine-HasCallStack : HasCallStack machine
machine-HasCallStack = record {
  inside = omega arith;
  addressable = omega arith;
  unclaimed = λ q lo hi. before_clock q (omega arith);
}

ret-call_example :
    (called : Vm) × (back : Vm) × (exec_call jump_9000 machine ≡ ok (tt, called))
    × (called.cpu.ip ≡ 9000)
    × (exec_ret jump_9000 called ≡ ok (tt, back))
    × (back.cpu.ip ≡ 8220)
    × (back.cpu.csp ≡ 256)
    × (back.cpu.regs ≡ machine.cpu.regs)
ret-call_example =
    ret-call jump_9000 jump_9000 machine machine-CacheIsSound machine-HasCallStack (omega arith)
      (omega arith) (omega arith)

zero_word : load32 machine.memory 9000 < 2 ^ 32
unfolding load32
zero_word = omega arith

add_all-sum_example :
    (after : Vm) × (add_all 9000 (1 ∷ 2 ∷ 3 ∷ []) machine ≡ ok (tt, after))
    × (load32 after.memory 9000 ≡ add32 (load32 machine.memory 9000) 6)
add_all-sum_example =
    add_all-sum 9000 (1 ∷ 2 ∷ 3 ∷ []) machine refl machine-CacheIsSound
      (ram_word 9000 (omega arith) (omega arith)) zero_word

windows_agree_example :
    ((fb_read32 (fb_base bare + 5 * 4) (fb_write32 (fb_legacy_base + 5 * 4) 77 bare)).0 ≡ 77)
    × ((fb_read32 (fb_legacy_base + 5 * 4) (fb_write32 (fb_base bare + 5 * 4) 77 bare)).0 ≡ 77)
    × ((fb_read32 (fb_base bare + 6 * 4) (fb_write32 (fb_legacy_base + 5 * 4) 77 bare)).0
        ≡ bare.fb 6)
windows_agree_example =
    windows_agree bare (omega arith, omega arith) 5 6 77 (omega arith) (omega arith)
      (λ e. omega arith)

-- A moment, and a later one with the latch of the first.
abbrev sooner : Vm
sooner = record machine { host_monotonic_ns = 5000000000 }

abbrev later : Vm
later = record machine { host_monotonic_ns = 9000000000; latched_monotonic = 5000000000 }

same_latch : 5000000000 ≡ (time_read32 (time_base + 12) sooner).1.latched_monotonic
unfolding time_read32 get_timer
same_latch = omega arith

clock_halves_example :
    (time_read32 (time_base + 12) sooner).0 + (time_read32 (time_base + 12 + 4) later).0 * 2 ^ 32
    ≡ 5000000000
clock_halves_example = clock_halves Clock.monotonic sooner later (omega arith) same_latch

boot_high-ram_example :
    vm_read32 (time_base + 0x18) (register_all bare)
    ≡ ok (load32 (register_all bare).memory (time_base + 0x18), forget (register_all bare))
boot_high-ram_example = boot_high-ram bare refl refl (omega arith, omega arith)
