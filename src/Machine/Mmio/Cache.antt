-- ===== src/Machine/Mmio/Cache.antt =====
-- The one-entry cache of `find_mmio` does not show in what it returns.
use lamp_vm.Common.Tests.{
  ℕ, ◌+◌, ◌-◌, ◌^◌, ◌≤◌, ◌≡◌, refl, sym, ◌∙◌, true, Option, some, none, List, [], ◌∷◌, arith,
  Bool-cases, inl, inr,
}
use lamp_vm.Machine.State.{
  Vm, MmioDevice, fb_size, fb_legacy_base, sysinfo_base, time_base, fb_handler, time_handler,
  sysinfo_handler,
}
use lamp_vm.Machine.Mmio.{covers, scan, cached, remember, find_mmio, register_all, device}
use lamp_vm.Machine.Devices.Sysinfo.{sysinfo_init_vendor}
use lamp_vm.Common.Word.{u32}

-- A device that is found at one address is found at every address of its range.
abbrev pub IsExclusive : List MmioDevice → Type 0
IsExclusive ds =
    (a b : ℕ) (d : MmioDevice) → scan ds a ≡ some d → covers d b ≡ true → scan ds b ≡ some d

-- What the cache answers is what a scan would.
abbrev pub CacheIsSound : Vm → Type 0
CacheIsSound vm = (a : ℕ) (d : MmioDevice) → cached vm a ≡ some d → scan vm.mmio_devices a ≡ some d

abbrev pub forget : Vm → Vm
forget vm = record vm { mmio_cache_dev = none }

scan-covers :
    (ds : List MmioDevice) (a : ℕ) (d : MmioDevice) → scan ds a ≡ some d → covers d a ≡ true
unfolding scan
scan-covers [] a d h = ground arith
scan-covers (e ∷ ds) a d h = elim (Bool-cases (covers e a)) [
  | inl t ↦ ground arith
  | inr t ↦ ground (arith, scan-covers ds a d)
]

remember-CacheIsSound :
    (a : ℕ) (vm : Vm) (o : Option MmioDevice)
    → IsExclusive vm.mmio_devices
    → scan vm.mmio_devices a ≡ o
    → CacheIsSound (remember o vm)
unfolding remember
remember-CacheIsSound a vm none exclusive found b d hit = cc
remember-CacheIsSound a vm (some e) exclusive found b d hit = elim (Bool-cases (covers e b)) [
  | inl t ↦ exclusive a b e found t ∙ (rw t at hit)
  | inr t ↦ absurd_hit (rw t at hit)
]
  where
    absurd_hit : none ≡ some d → scan vm.mmio_devices b ≡ some d
    absurd_hit h = cc

-- If no address is shared by two devices and the cache is sound, `find_mmio` returns the first
-- registered device that covers the address, or none if none does, and the cache stays sound.
pub find_mmio_transparent :
    (a : ℕ) (vm : Vm)
    → IsExclusive vm.mmio_devices
    → CacheIsSound vm
    → ((find_mmio a vm).0 ≡ scan vm.mmio_devices a) × CacheIsSound (find_mmio a vm).1
unfolding find_mmio
find_mmio_transparent a vm exclusive sound = by_cache (cached vm a) refl
  where
    by_cache :
        (o : Option MmioDevice)
        → cached vm a ≡ o
        → ((find_mmio a vm).0 ≡ scan vm.mmio_devices a) × CacheIsSound (find_mmio a vm).1
    by_cache none e = rw (e, find_mmio) (refl, remember-CacheIsSound a vm _ exclusive refl)
    by_cache (some d) e = rw (e, find_mmio) (sym (sound a d e), sound)

-- Outside the devices a lookup finds nothing, and changes no more than the cached device.
pub find_mmio-ram :
    (a : ℕ) (vm : Vm)
    → CacheIsSound vm
    → scan vm.mmio_devices a ≡ none
    → find_mmio a vm ≡ (none, forget vm)
unfolding find_mmio remember
find_mmio-ram a vm sound outside = by_cache (cached vm a) refl
  where
    by_cache : (o : Option MmioDevice) → cached vm a ≡ o → find_mmio a vm ≡ (none, forget vm)
    by_cache none e = rw (e, find_mmio) (rw (outside, remember))
    by_cache (some d) e = cc (sound a d e)

pub forget-CacheIsSound : (vm : Vm) → CacheIsSound (forget vm)
forget-CacheIsSound vm b d hit = cc

-- A memory between the end of the fixed devices and the last place where the frame buffer fits.
abbrev pub HasRegularSize : Vm → Type 0
HasRegularSize vm = (sysinfo_base + 0x5C ≤ vm.memory_size) × (vm.memory_size + fb_size ≤ 2 ^ 32)

abbrev pub devices_of : ℕ → List MmioDevice
devices_of size =
    device (u32 size) (u32 (size + fb_size - 1)) fb_handler
    ∷ device fb_legacy_base (fb_legacy_base + fb_size - 1) fb_handler
    ∷ device time_base (time_base + 23) time_handler
    ∷ device sysinfo_base (sysinfo_base + 0x5C - 1) sysinfo_handler
    ∷ []

pub devices-register_all :
    (vm : Vm)
    → vm.mmio_devices ≡ []
    → ((register_all vm).mmio_devices ≡ devices_of vm.memory_size)
      × ((register_all vm).mmio_cache_dev ≡ vm.mmio_cache_dev)
unfolding register_all sysinfo_init_vendor
devices-register_all vm fresh = ground arith

pub no_cache-CacheIsSound : (vm : Vm) → vm.mmio_cache_dev ≡ none → CacheIsSound vm
no_cache-CacheIsSound vm e b d hit = ground arith
