-- ===== src/Machine/Mmio/Registers.antt =====
-- What a guest sees of the clocks and the frame buffer.
use lamp_vm.Common.Tests.{ℕ, ◌+◌, ◌-◌, ◌*◌, ◌%◌, ◌^◌, ◌<◌, ◌≡◌, ◌≢◌, sym, ap, ◌∙◌, none, [], arith}
use lamp_vm.Common.Arrays.{update, update_self, update_ne}
use lamp_vm.Machine.State.{Vm, ok, fb_width, fb_height, fb_legacy_base, time_base}
use lamp_vm.Machine.Devices.Frame.{fb_base, fb_pixel_index, fb_read32, fb_write32}
use lamp_vm.Machine.Devices.Time.{Clock, get_timer, time_read32}
use lamp_vm.Machine.Mmio.{
  scan, register_all, register_fb_mmio, register_time_mmio, register_sysinfo_mmio,
}
use lamp_vm.Machine.Devices.Sysinfo.{sysinfo_init_vendor}
use lamp_vm.Machine.Mmio.Cache.{forget, HasRegularSize, devices-register_all, no_cache-CacheIsSound}
use lamp_vm.Machine.Memory.{load32, vm_read32}
use lamp_vm.Machine.Memory.Access.{vm_read32-ram}

abbrev pub IsPixel : ℕ → Type 0
IsPixel p = p < fb_width * fb_height

module _ (vm : Vm) (size : HasRegularSize vm) where
  pixel_legacy : (p : ℕ) → IsPixel p → fb_pixel_index vm (fb_legacy_base + p * 4) ≡ p
  unfolding fb_pixel_index
  pixel_legacy p h = ground (arith, size)

  pixel_base : (p : ℕ) → IsPixel p → fb_pixel_index vm (fb_base vm + p * 4) ≡ p
  unfolding fb_pixel_index
  pixel_base p h = ground (arith, size)

module _ (vm : Vm) (size : HasRegularSize vm) where
  -- For a memory of regular size, a pixel written through the legacy window is read back through
  -- the window behind RAM, and the other way round, while a different pixel is as before.
  pub windows_agree :
      (p q v : ℕ)
      → IsPixel p
      → IsPixel q
      → q ≢ p
      → ((fb_read32 (fb_base vm + p * 4) (fb_write32 (fb_legacy_base + p * 4) v vm)).0 ≡ v)
        × ((fb_read32 (fb_legacy_base + p * 4) (fb_write32 (fb_base vm + p * 4) v vm)).0 ≡ v)
        × ((fb_read32 (fb_base vm + q * 4) (fb_write32 (fb_legacy_base + p * 4) v vm)).0 ≡ vm.fb q)
  unfolding fb_read32 fb_write32
  windows_agree p q v hp hq d =
      let by_legacy = fb_write32 (fb_legacy_base + p * 4) v vm in
      let by_base = fb_write32 (fb_base vm + p * 4) v vm in
      let at : (n : ℕ) → n ≡ p → update vm.fb n v p ≡ v =
        (λ n e. ap (λ (k : ℕ). update vm.fb k v p) e ∙ update_self vm.fb p v) in
      let other : (n : ℕ) → n ≡ p → update vm.fb n v q ≡ vm.fb q =
        (λ n e. ap (λ (k : ℕ). update vm.fb k v q) e ∙ update_ne vm.fb p q v (λ h. d (sym h))) in
      let legacy = pixel_legacy vm size p hp in
      let base = pixel_base vm size p hp in
      (
        ap by_legacy.fb (pixel_base by_legacy size p hp)
            ∙ at (fb_pixel_index vm (fb_legacy_base + p * 4)) legacy,
        ap by_base.fb (pixel_legacy by_base size p hp)
            ∙ at (fb_pixel_index vm (fb_base vm + p * 4)) base,
        ap by_legacy.fb (pixel_base by_legacy size q hq)
            ∙ other (fb_pixel_index vm (fb_legacy_base + p * 4)) legacy,
      )

-- The halves of a clock: the low register latches the clock, the high register shows the latch.
abbrev pub low_offset : Clock → ℕ
low_offset Clock.realtime = 0x04
low_offset Clock.monotonic = 0x0C
low_offset Clock.boot = 0x14

abbrev pub clock_now : Clock → Vm → ℕ
clock_now Clock.realtime vm = vm.host_realtime_ns
clock_now Clock.monotonic vm = vm.host_monotonic_ns
clock_now Clock.boot vm = (vm.host_monotonic_ns + 2 ^ 64 - vm.start_monotonic_ns) % 2 ^ 64

abbrev pub latched : Clock → Vm → ℕ
latched Clock.realtime vm = vm.latched_realtime
latched Clock.monotonic vm = vm.latched_monotonic
latched Clock.boot vm = vm.latched_boottime

-- The low register of a clock gives the low half of the time and latches the time; as long as the
-- latch is kept, whatever else happens, the high register then gives the high half of that same
-- time.
pub clock_halves :
    (c : Clock) (vm later : Vm)
    → clock_now c vm < 2 ^ 64
    → latched c later ≡ latched c (time_read32 (time_base + low_offset c) vm).1
    → (time_read32 (time_base + low_offset c) vm).0
        + (time_read32 (time_base + low_offset c + 4) later).0 * 2 ^ 32
      ≡ clock_now c vm
unfolding time_read32 get_timer
clock_halves Clock.realtime vm later h e = omega (arith, e)
clock_halves Clock.monotonic vm later h e = omega (arith, e)
clock_halves Clock.boot vm later h e = omega (arith, e)

same_size : (vm : Vm) → vm.mmio_devices ≡ [] → (register_all vm).memory_size ≡ vm.memory_size
unfolding register_all sysinfo_init_vendor
same_size vm fresh = ground arith

-- With the devices that `vm_create` registers, a read of the boot clock's high register returns the
-- four bytes of RAM at its address.
pub boot_high-ram :
    (vm : Vm)
    → vm.mmio_devices ≡ []
    → vm.mmio_cache_dev ≡ none
    → HasRegularSize vm
    → vm_read32 (time_base + 0x18) (register_all vm)
      ≡ ok (load32 (register_all vm).memory (time_base + 0x18), forget (register_all vm))
unfolding register_all register_fb_mmio register_time_mmio register_sysinfo_mmio sysinfo_init_vendor
    scan
boot_high-ram vm fresh empty size =
    let r = devices-register_all vm fresh in
    vm_read32-ram (time_base + 0x18) (register_all vm)
      (no_cache-CacheIsSound (register_all vm) (r.1 ∙ empty))
      (record {
        inside = omega (arith, same_size vm fresh, size.0);
        unclaimed = ap (λ ds. scan ds (time_base + 0x18)) (r.0) ∙ ground (arith, size);
      })
