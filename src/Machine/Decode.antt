-- ===== src/Machine/Decode.antt =====
-- The instruction word: `INST` and the opcodes of vm.h, and `FETCH64` of fetch.h.
pub mod Fetch
use lamp_vm.Common.Tests.{
  ℕ, ◌+◌, ◌-◌, ◌*◌, ◌/◌, ◌%◌, ◌^◌, ◌<◌, ◌≤◌, ◌≡◌, Option, some, none, ltb, leb, ◌==◌, if◌then◌else◌,
  List, [], ◌∷◌,
}
use lamp_vm.Common.Word.{u8, u32, ◌<<<◌, ◌>>>◌}
use lamp_vm.Common.Bits.Step.{bit_or}
use lamp_vm.Machine.State.{Vm, M, ok, exit, ip_out_of_bounds}
use lamp_vm.Machine.Memory.{load32}

pub data Opcode : Type 0 where
  add sub mul div halt jmp jz push pop call ret load load32_op loadx32 store store32_op : Opcode
  storex32 cmp cmpi mov movi memset memcpy in_op out_op int iret mod_op and or xor not_op : Opcode
  shl shr sar jnz jg jge jl jle jc jnc fadd fsub fmul fdiv fneg fabs fsqrt fcmp itof ftoi : Opcode
  fload32 fstore32 inc addi subi andi ori xori shli shri cas xadd xchg ldar stlr fence : Opcode
  pause startap ipi cpuid callr rjmp rcall rjz rjnz rol ror roli rori : Opcode

-- The opcodes in the order of their numbers, from 0x01 on.
abbrev opcodes : List Opcode
opcodes =
    add ∷ sub ∷ mul ∷ div ∷ halt ∷ jmp ∷ jz ∷ push ∷ pop ∷ call ∷ ret ∷ load ∷ load32_op ∷ loadx32
    ∷ store ∷ store32_op ∷ storex32 ∷ cmp ∷ cmpi ∷ mov ∷ movi ∷ memset ∷ memcpy ∷ in_op ∷ out_op
    ∷ int ∷ iret ∷ mod_op ∷ and ∷ or ∷ xor ∷ not_op ∷ shl ∷ shr ∷ sar ∷ jnz ∷ jg ∷ jge ∷ jl ∷ jle
    ∷ jc ∷ jnc ∷ fadd ∷ fsub ∷ fmul ∷ fdiv ∷ fneg ∷ fabs ∷ fsqrt ∷ fcmp ∷ itof ∷ ftoi ∷ fload32
    ∷ fstore32 ∷ inc ∷ addi ∷ subi ∷ andi ∷ ori ∷ xori ∷ shli ∷ shri ∷ cas ∷ xadd ∷ xchg ∷ ldar
    ∷ stlr ∷ fence ∷ pause ∷ startap ∷ ipi ∷ cpuid ∷ callr ∷ rjmp ∷ rcall ∷ rjz ∷ rjnz ∷ rol ∷ ror
    ∷ roli ∷ rori ∷ []

abbrev nth : List Opcode → ℕ → Option Opcode
nth [] n = none
nth (o ∷ os) n = if n == 0 then some o else nth os (n - 1)

-- The opcode of a number; none for a number that the switch does not know.
unfoldable pub opcode_of : ℕ → Option Opcode
opcode_of n = if n == 0 then none else nth opcodes (n - 1)

-- `imm` is the pattern of an `int32_t`.
pub record Inst : Type 0 where
  pub op : ℕ
  pub rd : ℕ
  pub rs1 : ℕ
  pub rs2 : ℕ
  pub imm : ℕ

unfoldable pub encode : Inst → ℕ
encode i =
    bit_or (bit_or (bit_or (bit_or (i.op <<< 56) (i.rd <<< 48)) (i.rs1 <<< 40)) (i.rs2 <<< 32))
      i.imm

unfoldable pub decode : ℕ → Inst
decode w = record {
  op = u8 (w >>> 56);
  rd = u8 (w >>> 48);
  rs1 = u8 (w >>> 40);
  rs2 = u8 (w >>> 32);
  imm = u32 w;
}

-- `memcpy` of eight bytes, low byte first.
unfoldable pub load64 : (ℕ → ℕ) → ℕ → ℕ
load64 mem addr = bit_or (load32 mem addr) (load32 mem (addr + 4) <<< 32)

-- The fetch is from RAM, never from a device.
unfoldable pub fetch64 : M Inst
fetch64 vm =
    let ip = u32 vm.cpu.ip in
    if leb (ip + 8) vm.memory_size
    then ok (
      decode (load64 vm.memory ip),
      record vm { cpu = record vm.cpu { last_ip = ip; ip = u32 (ip + 8) } },
    )
    else exit ip_out_of_bounds
