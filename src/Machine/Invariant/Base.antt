-- ===== src/Machine/Invariant/Base.antt =====
-- What a well-formed machine is, and calls that keep it.
use lamp_vm.Common.Tests.{ℕ, ◌^◌, ◌<◌, ◌≤◌, Bool, ◌==◌, if◌then◌else◌, if-both, ltb}
use lamp_vm.Common.Arrays.{update}
use lamp_vm.Machine.State.{
  Vm, Vcpu, M, Outcome, ok, exit, undefined, Panic, ◌>>=◌, pure, panic, gets, modify, set_cpu,
  call_stack_size, data_stack_size, isr_stack_size, reg_count,
}
use lamp_vm.Machine.Exec.Base.{reg, set_reg, set_logic}
use lamp_vm.Machine.Flags.{set_flags}

abbrev pub AreWords : (ℕ → ℕ) → Type 0
AreWords f = (i : ℕ) → f i < 2 ^ 32

abbrev pub AreBytes : (ℕ → ℕ) → Type 0
AreBytes f = (i : ℕ) → f i < 2 ^ 8

pub record IsCore (c : Vcpu) : Type 0 where
  pub regs_words : AreWords c.regs
  pub csp_inside : c.csp ≤ call_stack_size
  pub dsp_inside : c.dsp ≤ data_stack_size
  pub isp_inside : c.isp ≤ isr_stack_size
  pub id_word : c.core_id < 2 ^ 32

-- Of the executing core, the other cores, memory, frame buffer, ports, serial queue and vendor
-- words.
abbrev pub IsWellFormed : Vm → Type 0
IsWellFormed vm =
    IsCore vm.cpu
    × ((n : ℕ) → IsCore (vm.cpus n))
    × AreBytes vm.memory
    × AreWords vm.fb
    × AreWords vm.io
    × AreBytes vm.serial_rx_fifo
    × AreWords vm.sysinfo_vendor_words

abbrev pub Holds : {A : Type 0} → (A → Type 0) → Outcome (A × Vm) → Type 0
Holds Q (ok (a, vm)) = Q a × IsWellFormed vm
Holds Q (exit p) = Unit {0}
Holds Q undefined = Unit {0}

-- A call that returns a value in `Q` and a well-formed machine, from any well-formed machine, if it
-- returns.
pub record Keeps {A : Type 0} (Q : A → Type 0) (m : M A) : Type 0 where
  pub at : (vm : Vm) → IsWellFormed vm → Holds Q (m vm)

abbrev pub IsAny : {A : Type 0} → A → Type 0
IsAny a = Unit {0}

abbrev pub IsWord : ℕ → Type 0
IsWord n = n < 2 ^ 32

pub AreWords-update : (f : ℕ → ℕ) (i v : ℕ) → AreWords f → IsWord v → AreWords (update f i v)
AreWords-update f i v ws w j = if-both IsWord (i == j) w (ws j)

pub AreBytes-update : (f : ℕ → ℕ) (i v : ℕ) → AreBytes f → v < 2 ^ 8 → AreBytes (update f i v)
AreBytes-update f i v bs b j = if-both (λ x. x < 2 ^ 8) (i == j) b (bs j)

module _ {A B : Type 0} where
  bind-Holds :
      (Q : A → Type 0) (R : B → Type 0) (f : A → M B) (o : Outcome (A × Vm))
      → Holds Q o
      → ((a : A) → Q a → Keeps R (f a))
      → Holds R (elim o [ ok (a, vm') ↦ f a vm' | exit p ↦ exit p | undefined ↦ undefined ])
  bind-Holds Q R f (ok (a, vm)) h k = (k a h.0).at vm h.1
  bind-Holds Q R f (exit p) h k = tt
  bind-Holds Q R f undefined h k = tt

  pub Keeps->>= :
      {Q : A → Type 0} {R : B → Type 0} {m : M A} {f : A → M B}
      → Keeps Q m
      → ((a : A) → Q a → Keeps R (f a))
      → Keeps R (m >>= f)
  Keeps->>= {Q} {R} {m} {f} h k = record {
    at = λ vm good. bind-Holds Q R f (m vm) (h.at vm good) k;
  }

pub Keeps-pure : {A : Type 0} {Q : A → Type 0} (a : A) → Q a → Keeps Q (pure a)
Keeps-pure a q = record { at = λ vm good. (q, good) }

pub Keeps-panic : {A : Type 0} {Q : A → Type 0} (p : Panic) → Keeps Q (panic p)
Keeps-panic p = record { at = λ vm good. tt }

pub Keeps-gets :
    {A : Type 0} {Q : A → Type 0} (f : Vm → A)
    → ((vm : Vm) → IsWellFormed vm → Q (f vm))
    → Keeps Q (gets f)
Keeps-gets f h = record { at = λ vm good. (h vm good, good) }

pub Keeps-modify :
    (f : Vm → Vm) → ((vm : Vm) → IsWellFormed vm → IsWellFormed (f vm)) → Keeps IsAny (modify f)
Keeps-modify f h = record { at = λ vm good. (tt, h vm good) }

pub Keeps-set_cpu :
    (f : Vcpu → Vcpu) → ((c : Vcpu) → IsCore c → IsCore (f c)) → Keeps IsAny (set_cpu f)
Keeps-set_cpu f h = record {
  at = λ vm good. (tt, (h vm.cpu good.0, good.1, good.2, good.3, good.4, good.5, good.6));
}

pub Keeps-if :
    {A : Type 0} {Q : A → Type 0} (b : Bool) {m n : M A}
    → Keeps Q m
    → Keeps Q n
    → Keeps Q (if b then m else n)
Keeps-if {Q = Q} b h k = if-both (Keeps Q) b h k

-- Registers.
pub Keeps-reg : (r : ℕ) → Keeps IsWord (reg r)
unfolding reg
Keeps-reg r = record {
  at = λ vm good. if-both (Holds IsWord) (ltb r reg_count) (good.0.regs_words r, good) tt;
}

pub IsCore-update :
    (c : Vcpu) (r v : ℕ) → IsCore c → IsWord v → IsCore (record c { regs = update c.regs r v })
IsCore-update c r v h w = record {
  regs_words = AreWords-update c.regs r v h.regs_words w;
  csp_inside = h.csp_inside;
  dsp_inside = h.dsp_inside;
  isp_inside = h.isp_inside;
  id_word = h.id_word;
}

pub Keeps-set_reg : (r v : ℕ) → IsWord v → Keeps IsAny (set_reg r v)
unfolding set_reg
Keeps-set_reg r v w = record {
  at = λ vm good.
      if-both (Holds IsAny) (ltb r reg_count)
        (tt, (IsCore-update vm.cpu r v good.0 w, good.1, good.2, good.3, good.4, good.5, good.6))
        tt;
}

-- The flags, and a register with its flags.
pub Keeps-set_flags : (f : ℕ → ℕ) → Keeps IsAny (set_cpu (set_flags f))
Keeps-set_flags f = Keeps-set_cpu (set_flags f) λ c h. record {
  regs_words = h.regs_words;
  csp_inside = h.csp_inside;
  dsp_inside = h.dsp_inside;
  isp_inside = h.isp_inside;
  id_word = h.id_word;
}

pub Keeps-set_logic : (r v : ℕ) → IsWord v → Keeps IsAny (set_logic r v)
unfolding set_logic
Keeps-set_logic r v w = Keeps->>= (Keeps-set_reg r v w) λ t q. Keeps-set_flags _

-- A stack pointer moved inside its stack.
pub IsCore-csp : (c : Vcpu) (n : ℕ) → IsCore c → n ≤ call_stack_size → IsCore (record c { csp = n })
IsCore-csp c n h l = record {
  regs_words = h.regs_words;
  csp_inside = l;
  dsp_inside = h.dsp_inside;
  isp_inside = h.isp_inside;
  id_word = h.id_word;
}

pub IsCore-dsp : (c : Vcpu) (n : ℕ) → IsCore c → n ≤ data_stack_size → IsCore (record c { dsp = n })
IsCore-dsp c n h l = record {
  regs_words = h.regs_words;
  csp_inside = h.csp_inside;
  dsp_inside = l;
  isp_inside = h.isp_inside;
  id_word = h.id_word;
}

pub IsCore-isp : (c : Vcpu) (n : ℕ) → IsCore c → n ≤ isr_stack_size → IsCore (record c { isp = n })
IsCore-isp c n h l = record {
  regs_words = h.regs_words;
  csp_inside = h.csp_inside;
  dsp_inside = h.dsp_inside;
  isp_inside = l;
  id_word = h.id_word;
}
