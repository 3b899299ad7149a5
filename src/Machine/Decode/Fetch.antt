-- ===== src/Machine/Decode/Fetch.antt =====
-- The instruction word as fields, and the fetch of a stored instruction.
use lamp_vm.Common.Tests.{
  ℕ, ◌+◌, ◌*◌, ◌^◌, ◌<◌, ◌≤◌, ◌≡◌, ap, ◌∙◌, leb, if◌then◌else◌, if-true, le→leb, arith,
}
use lamp_vm.Common.Word.{u32, ◌<<<◌}
use lamp_vm.Common.Bits.Step.{bit_or}
use lamp_vm.Common.Bits.Fields.{bit_or_fields}
use lamp_vm.Machine.State.{Vm, Outcome, ok, exit, ip_out_of_bounds}
use lamp_vm.Machine.Memory.Words.{store64, two_words, two_words-store64}
use lamp_vm.Machine.Memory.Access.{with_memory}
use lamp_vm.Machine.Decode.{Inst, encode, decode, load64, fetch64}

-- The fields that an instruction word has room for.
pub record IsInst (i : Inst) : Type 0 where
  pub op_byte : i.op < 2 ^ 8
  pub rd_byte : i.rd < 2 ^ 8
  pub rs1_byte : i.rs1 < 2 ^ 8
  pub rs2_byte : i.rs2 < 2 ^ 8
  pub imm_word : i.imm < 2 ^ 32

abbrev as_sum : Inst → ℕ
as_sum i = (((i.op * 256 + i.rd) * 256 + i.rs1) * 256 + i.rs2) * 2 ^ 32 + i.imm

encode-sum : (i : Inst) → IsInst i → encode i ≡ as_sum i
unfolding encode
encode-sum i h =
    let one : bit_or (i.op <<< 56) (i.rd <<< 48) ≡ (i.op * 256 + i.rd) <<< 48 =
      (bit_or_fields 56 i.op (i.rd <<< 48) (omega (arith, h.rd_byte)) ∙ omega arith) in
    let two : bit_or ((i.op * 256 + i.rd) <<< 48) (i.rs1 <<< 40)
        ≡ ((i.op * 256 + i.rd) * 256 + i.rs1) <<< 40 =
      (bit_or_fields 48 (i.op * 256 + i.rd) (i.rs1 <<< 40) (omega (arith, h.rs1_byte))
        ∙ omega arith) in
    let three : bit_or (((i.op * 256 + i.rd) * 256 + i.rs1) <<< 40) (i.rs2 <<< 32)
        ≡ (((i.op * 256 + i.rd) * 256 + i.rs1) * 256 + i.rs2) <<< 32 =
      (bit_or_fields 40 ((i.op * 256 + i.rd) * 256 + i.rs1) (i.rs2 <<< 32)
          (omega (arith, h.rs2_byte))
        ∙ omega arith) in
    ap (λ w. bit_or (bit_or (bit_or w (i.rs1 <<< 40)) (i.rs2 <<< 32)) i.imm) one
    ∙ ap (λ w. bit_or (bit_or w (i.rs2 <<< 32)) i.imm) two
    ∙ ap (λ w. bit_or w i.imm) three
    ∙ bit_or_fields 32 (((i.op * 256 + i.rd) * 256 + i.rs1) * 256 + i.rs2) i.imm h.imm_word

abbrev inst : ℕ → ℕ → ℕ → ℕ → ℕ → Inst
inst a b c d e = record { op = a; rd = b; rs1 = c; rs2 = d; imm = e }

inst-eq :
    {a a' b b' c c' d d' e e' : ℕ}
    → a ≡ a'
    → b ≡ b'
    → c ≡ c'
    → d ≡ d'
    → e ≡ e'
    → inst a b c d e ≡ inst a' b' c' d' e'
inst-eq p q r s t = λ k. inst (p k) (q k) (r k) (s k) (t k)

-- Decoding the word of an instruction gives the instruction back, when every field
-- fits its place.
pub decode-encode : (i : Inst) → IsInst i → decode (encode i) ≡ i
unfolding decode
decode-encode i h =
    ap decode (encode-sum i h)
    ∙ inst-eq (omega (arith, h.op_byte, h.rd_byte, h.rs1_byte, h.rs2_byte, h.imm_word))
        (omega (arith, h.op_byte, h.rd_byte, h.rs1_byte, h.rs2_byte, h.imm_word))
        (omega (arith, h.op_byte, h.rd_byte, h.rs1_byte, h.rs2_byte, h.imm_word))
        (omega (arith, h.op_byte, h.rd_byte, h.rs1_byte, h.rs2_byte, h.imm_word))
        (omega (arith, h.op_byte, h.rd_byte, h.rs1_byte, h.rs2_byte, h.imm_word))

encode-lt : (i : Inst) → IsInst i → encode i < 2 ^ 64
encode-lt i h =
    omega (arith, encode-sum i h, h.op_byte, h.rd_byte, h.rs1_byte, h.rs2_byte, h.imm_word)

abbrev pub fetched : Vm → Vm
fetched vm = record vm { cpu = record vm.cpu { last_ip = vm.cpu.ip; ip = u32 (vm.cpu.ip + 8) } }

abbrev fetch_at : Vm → ℕ → Outcome (Inst × Vm)
fetch_at vm ip =
    if leb (ip + 8) vm.memory_size
    then ok (
      decode (two_words vm.memory ip),
      record vm { cpu = record vm.cpu { last_ip = ip; ip = u32 (ip + 8) } },
    )
    else exit ip_out_of_bounds

-- An instruction stored at the instruction pointer, inside RAM, is what the fetch returns; the
-- pointer moves past it, its old value is kept as the last one, and nothing else changes.
pub fetch64-store64 :
    (i : Inst) (vm : Vm)
    → IsInst i
    → vm.cpu.ip < 2 ^ 32
    → vm.cpu.ip + 8 ≤ vm.memory_size
    → let stored = with_memory (store64 vm.memory vm.cpu.ip (encode i)) vm in
      fetch64 stored ≡ ok (i, fetched stored)
unfolding fetch64 load64
fetch64-store64 i vm h small inside =
    let mem = store64 vm.memory vm.cpu.ip (encode i) in
    let stored = with_memory mem vm in
    let at : u32 vm.cpu.ip ≡ vm.cpu.ip = omega arith in
    ap (fetch_at stored) at
    ∙ if-true _ _ (le→leb _ _ inside)
    ∙ ap (λ w. ok (decode w, fetched stored))
        (two_words-store64 vm.memory vm.cpu.ip (encode i) (encode-lt i h))
    ∙ ap (λ j. ok (j, fetched stored)) (decode-encode i h)
