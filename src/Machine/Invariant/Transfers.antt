-- ===== src/Machine/Invariant/Transfers.antt =====
-- The instructions that jump, move data, and touch devices, other cores and interrupts.
use lamp_vm.Common.Tests.{ℕ, zero, suc, ◌+◌, ◌%◌, Bool, ◌==◌, if◌then◌else◌, if-both, arith}
use lamp_vm.Common.Word.{u8, u32, add32}
use lamp_vm.Machine.State.{Vcpu, AtomicOp, ◌>>=◌, ◌>>◌, pure, gets, set_cpu}
use lamp_vm.Machine.Stack.{call_push}
use lamp_vm.Machine.Decode.{Inst}
use lamp_vm.Machine.Exec.Base.{reg}
use lamp_vm.Machine.Exec.Branch
use lamp_vm.Machine.Exec.Transfer
use lamp_vm.Machine.Exec.Atomic
use lamp_vm.Machine.Exec.Branch.{rel_target_from_last_ip}
use lamp_vm.Machine.Exec.Transfer.{memset_from, memcpy_from}
use lamp_vm.Machine.Exec.Atomic.{ensure_aligned}
use lamp_vm.Machine.Invariant.Base.{
  IsCore, Keeps, IsAny, IsWord, Keeps->>=, Keeps-pure, Keeps-panic, Keeps-gets, Keeps-set_cpu,
  Keeps-if, Keeps-reg, Keeps-set_reg, Keeps-set_logic, Keeps-set_flags,
}
use lamp_vm.Machine.Invariant.Store.{
  Keeps-vm_read8, Keeps-vm_write8, Keeps-vm_read32, Keeps-vm_write32,
}
use lamp_vm.Machine.Invariant.Frames.{
  Keeps-data_push, Keeps-data_pop, Keeps-call_push, Keeps-call_pop,
}
use lamp_vm.Machine.Invariant.Atomics.{
  Keeps-load, Keeps-store, Keeps-exchange, Keeps-fetch_add, Keeps-compare_exchange,
}
use lamp_vm.Machine.Invariant.Instructions.{with_one, with_two, Keeps-flagged}

-- A new instruction pointer, by a test or not.
IsCore-ip : (c : Vcpu) (ip : ℕ) → IsCore c → IsCore (record c { ip = ip })
IsCore-ip c ip h = record {
  regs_words = h.regs_words;
  csp_inside = h.csp_inside;
  dsp_inside = h.dsp_inside;
  isp_inside = h.isp_inside;
  id_word = h.id_word;
}

Keeps-set_ip : (f : Vcpu → ℕ) → Keeps IsAny (set_cpu (λ c. record c { ip = f c }))
Keeps-set_ip f = Keeps-set_cpu _ (λ c h. IsCore-ip c (f c) h)

Keeps-jump_if :
    (test : Vcpu → Bool) (f : Vcpu → ℕ)
    → Keeps IsAny (set_cpu (λ c. if test c then record c { ip = f c } else c))
Keeps-jump_if test f = Keeps-set_cpu _ (λ c h. if-both IsCore (test c) (IsCore-ip c (f c) h) h)

Keeps-jump_unless :
    (test : Vcpu → Bool) (f : Vcpu → ℕ)
    → Keeps IsAny (set_cpu (λ c. if test c then c else record c { ip = f c }))
Keeps-jump_unless test f = Keeps-set_cpu _ (λ c h. if-both IsCore (test c) h (IsCore-ip c (f c) h))

Keeps-push_return : Keeps IsAny (gets (λ vm. u32 vm.cpu.ip) >>= call_push)
Keeps-push_return = Keeps->>= {Q = IsAny} (Keeps-gets _ (λ vm good. tt)) λ ip q. Keeps-call_push ip

-- The loops.
Keeps-memset_from : (base v left i : ℕ) → Keeps IsAny (memset_from base v left i)
unfolding memset_from
Keeps-memset_from base v zero i = Keeps-pure tt tt
Keeps-memset_from base v (suc left) i =
    Keeps->>= (Keeps-vm_write8 (add32 base i) v) λ u q. Keeps-memset_from base v left (i + 1)

Keeps-memcpy_from : (dest src left i : ℕ) → Keeps IsAny (memcpy_from dest src left i)
unfolding memcpy_from
Keeps-memcpy_from dest src zero i = Keeps-pure tt tt
Keeps-memcpy_from dest src (suc left) i = Keeps->>= (Keeps-vm_read8 (add32 src i)) λ v q.
    Keeps->>= (Keeps-vm_write8 (add32 dest i) v) λ u q'. Keeps-memcpy_from dest src left (i + 1)

Keeps-address :
    (op : AtomicOp) (i : Inst)
    → Keeps IsAny
        (reg i.rs1 >>= λ base. ensure_aligned op (add32 base i.imm) >> pure (add32 base i.imm))
unfolding ensure_aligned
Keeps-address op i = Keeps->>= (Keeps-reg i.rs1) λ base p.
    Keeps->>= {Q = IsAny} (Keeps-if (add32 base i.imm % 4 == 0) (Keeps-pure tt tt) (Keeps-panic _))
      λ u q. Keeps-pure _ tt

module _ (i : Inst) (word : IsWord i.imm) where
  pub Keeps-exec_jmp : Keeps IsAny (Branch.exec_jmp i)
  unfolding Branch.exec_jmp
  Keeps-exec_jmp = Keeps-set_ip (λ c. i.imm)

  pub Keeps-exec_rjmp : Keeps IsAny (Branch.exec_rjmp i)
  unfolding Branch.exec_rjmp
  Keeps-exec_rjmp = Keeps-set_ip _

  pub Keeps-exec_call : Keeps IsAny (Branch.exec_call i)
  unfolding Branch.exec_call
  Keeps-exec_call = Keeps->>= Keeps-push_return λ u q. Keeps-set_ip (λ c. i.imm)

  pub Keeps-exec_rcall : Keeps IsAny (Branch.exec_rcall i)
  unfolding Branch.exec_rcall
  Keeps-exec_rcall = Keeps->>= Keeps-push_return λ u q. Keeps-set_ip _

  pub Keeps-exec_callr : Keeps IsAny (Branch.exec_callr i)
  unfolding Branch.exec_callr
  Keeps-exec_callr = Keeps->>= Keeps-push_return λ u q. with_one i.rd λ t p. Keeps-set_ip (λ c. t)

  pub Keeps-exec_ret : Keeps IsAny (Branch.exec_ret i)
  unfolding Branch.exec_ret
  Keeps-exec_ret = Keeps->>= Keeps-call_pop λ t q. Keeps-set_ip (λ c. u32 t)

  pub Keeps-exec_jz : Keeps IsAny (Branch.exec_jz i)
  unfolding Branch.exec_jz
  Keeps-exec_jz = Keeps-jump_if _ (λ c. i.imm)

  pub Keeps-exec_jnz : Keeps IsAny (Branch.exec_jnz i)
  unfolding Branch.exec_jnz
  Keeps-exec_jnz = Keeps-jump_if _ (λ c. i.imm)

  pub Keeps-exec_jg : Keeps IsAny (Branch.exec_jg i)
  unfolding Branch.exec_jg
  Keeps-exec_jg = Keeps-jump_if _ (λ c. i.imm)

  pub Keeps-exec_jge : Keeps IsAny (Branch.exec_jge i)
  unfolding Branch.exec_jge
  Keeps-exec_jge = Keeps-jump_if _ (λ c. i.imm)

  pub Keeps-exec_jl : Keeps IsAny (Branch.exec_jl i)
  unfolding Branch.exec_jl
  Keeps-exec_jl = Keeps-jump_if _ (λ c. i.imm)

  pub Keeps-exec_jle : Keeps IsAny (Branch.exec_jle i)
  unfolding Branch.exec_jle
  Keeps-exec_jle = Keeps-jump_if _ (λ c. i.imm)

  pub Keeps-exec_jc : Keeps IsAny (Branch.exec_jc i)
  unfolding Branch.exec_jc
  Keeps-exec_jc = Keeps-jump_if _ (λ c. i.imm)

  pub Keeps-exec_jnc : Keeps IsAny (Branch.exec_jnc i)
  unfolding Branch.exec_jnc
  Keeps-exec_jnc = Keeps-jump_if _ (λ c. i.imm)

  pub Keeps-exec_rjz : Keeps IsAny (Branch.exec_rjz i)
  unfolding Branch.exec_rjz
  Keeps-exec_rjz = Keeps-jump_if _ (λ c. rel_target_from_last_ip c i.imm)

  pub Keeps-exec_rjnz : Keeps IsAny (Branch.exec_rjnz i)
  unfolding Branch.exec_rjnz
  Keeps-exec_rjnz = Keeps-jump_unless _ (λ c. rel_target_from_last_ip c i.imm)

  pub Keeps-exec_push : Keeps IsAny (Transfer.exec_push i)
  unfolding Transfer.exec_push
  Keeps-exec_push = with_one i.rd λ v p. Keeps-data_push v p

  pub Keeps-exec_pop : Keeps IsAny (Transfer.exec_pop i)
  unfolding Transfer.exec_pop
  Keeps-exec_pop = Keeps->>= Keeps-data_pop λ v p. Keeps-set_logic i.rd v p

  pub Keeps-exec_load : Keeps IsAny (Transfer.exec_load i)
  unfolding Transfer.exec_load
  Keeps-exec_load = with_one i.rs1 λ base p.
      Keeps->>= (Keeps-vm_read8 (add32 base i.imm)) λ v q. Keeps-flagged i.rd v _ (omega arith)

  pub Keeps-exec_load32 : Keeps IsAny (Transfer.exec_load32 i)
  unfolding Transfer.exec_load32
  Keeps-exec_load32 =
      with_one i.rs1
        λ base p. Keeps->>= (Keeps-vm_read32 (add32 base i.imm)) λ v q. Keeps-set_logic i.rd v q

  pub Keeps-exec_loadx32 : Keeps IsAny (Transfer.exec_loadx32 i)
  unfolding Transfer.exec_loadx32
  Keeps-exec_loadx32 = with_two i.rs1 i.rs2 λ base index p q.
      Keeps->>= (Keeps-vm_read32 (add32 (add32 base index) i.imm)) λ v r. Keeps-set_logic i.rd v r

  pub Keeps-exec_store : Keeps IsAny (Transfer.exec_store i)
  unfolding Transfer.exec_store
  Keeps-exec_store = with_two i.rs1 i.rd λ base v p q. Keeps-vm_write8 (add32 base i.imm) (u8 v)

  pub Keeps-exec_store32 : Keeps IsAny (Transfer.exec_store32 i)
  unfolding Transfer.exec_store32
  Keeps-exec_store32 = with_two i.rs1 i.rd λ base v p q. Keeps-vm_write32 (add32 base i.imm) v q

  pub Keeps-exec_storex32 : Keeps IsAny (Transfer.exec_storex32 i)
  unfolding Transfer.exec_storex32
  Keeps-exec_storex32 =
      with_two i.rs1 i.rs2
        λ base index p q. with_one i.rd λ v r. Keeps-vm_write32 (add32 (add32 base index) i.imm) v r

  pub Keeps-exec_memset : Keeps IsAny (Transfer.exec_memset i)
  unfolding Transfer.exec_memset
  Keeps-exec_memset = with_two i.rd i.rs1 λ base v p q. Keeps-memset_from base (u8 v) i.imm 0

  pub Keeps-exec_memcpy : Keeps IsAny (Transfer.exec_memcpy i)
  unfolding Transfer.exec_memcpy
  Keeps-exec_memcpy = with_two i.rd i.rs1 λ dest src p q. Keeps-memcpy_from dest src i.imm 0

  pub Keeps-exec_cas : Keeps IsAny (Atomic.exec_cas i)
  unfolding Atomic.exec_cas
  Keeps-exec_cas = Keeps->>= (Keeps-address AtomicOp.cas i) λ a q. with_two i.rd i.rs2 λ e d p p'.
      Keeps->>= (Keeps-compare_exchange a e d)
        λ r w. Keeps->>= (Keeps-set_flags _) λ u q'. Keeps-set_reg i.rd r.0 w

  pub Keeps-exec_xadd : Keeps IsAny (Atomic.exec_xadd i)
  unfolding Atomic.exec_xadd
  Keeps-exec_xadd = Keeps->>= (Keeps-address AtomicOp.xadd i) λ a q.
      with_one i.rs2 λ v p. Keeps->>= (Keeps-fetch_add a v) λ old w. Keeps-flagged i.rd old _ w

  pub Keeps-exec_xchg : Keeps IsAny (Atomic.exec_xchg i)
  unfolding Atomic.exec_xchg
  Keeps-exec_xchg = Keeps->>= (Keeps-address AtomicOp.xchg i) λ a q.
      with_one i.rs2 λ v p. Keeps->>= (Keeps-exchange a v) λ old w. Keeps-set_logic i.rd old w

  pub Keeps-exec_ldar : Keeps IsAny (Atomic.exec_ldar i)
  unfolding Atomic.exec_ldar
  Keeps-exec_ldar =
      Keeps->>= (Keeps-address AtomicOp.ldar i)
        λ a q. Keeps->>= (Keeps-load a) λ v w. Keeps-set_logic i.rd v w

  pub Keeps-exec_stlr : Keeps IsAny (Atomic.exec_stlr i)
  unfolding Atomic.exec_stlr
  Keeps-exec_stlr =
      Keeps->>= (Keeps-address AtomicOp.stlr i) λ a q. with_one i.rd λ v p. Keeps-store a v
