-- ===== src/Trampoline/Tests.antt =====
-- A call of a routine with two parameters.
use service_call.Base.{
  ℕ, ◌+◌, ◌*◌, ◌-◌, ◌%◌, ◌≤◌, ◌≡◌, refl, inl, List, [], ◌∷◌, arith, ◌==◌, if◌then◌else◌,
}
use service_call.Trampoline.{
  Cpu, argument_at, before_call, after_call, stack_words, push_loop, prologue, load_registers,
}
use service_call.Parameter.{x86, x64, Blob}
use service_call.Worker.Defs.{argument, arguments}
use service_call.Trampoline.Arguments.{
  HoldsValues, argument_list, argument_at32, trampolines-arguments,
}
use service_call.Trampoline.X86.{Cpu32, before_call32, after_call32}
use service_call.Trampoline.X86.Call.{IsCall32, after_call32-restores}
use service_call.Trampoline.Long.{IsCall, after_call-restores}

-- Parameters 7 and 9 at 0x1000.
abbrev parameters_word : ℕ → ℕ
parameters_word a =
    if a == 0x1000 then 2 else if a == 0x1010 then 7 else if a == 0x1020 then 9 else 0

abbrev caller : Cpu
caller = record {
  rax = 0;
  rbx = 0x77;
  rcx = 0x4000;
  rdx = 0x1000;
  r8 = 0;
  r9 = 0;
  r10 = 0;
  rsp = 0x9008;
  memory = parameters_word;
}

caller-IsCall : IsCall caller 2
unfolding stack_words
caller-IsCall = record {
  count = refl;
  small = omega arith;
  based = omega arith;
  ends = omega arith;
  room = omega arith;
  aligned = refl;
  apart = inl (omega arith);
}

second_argument : (before_call caller).rdx ≡ 9
unfolding before_call prologue load_registers push_loop stack_words
second_argument = refl

-- A routine that returns 0xc0000004.
abbrev returned : Cpu
returned = record (before_call caller) { rax = 0xc0000004 }

after_call-restores_example :
    ((after_call returned).rsp ≡ caller.rsp)
    × ((after_call returned).rbx ≡ caller.rbx)
    × ((after_call returned).rax ≡ returned.rax)
after_call-restores_example = after_call-restores caller 2 caller-IsCall returned refl refl refl

-- The same call on the 32-bit build, from a stack at 0x9000.
abbrev caller32 : Cpu32
caller32 = record {
  eax = 0;
  ebx = 0x77;
  ecx = 0;
  edx = 0;
  esp = 0x9000;
  memory = λ a. if a == 0x9004 then 0x4000 else if a == 0x9008 then 0x1000 else parameters_word a;
}

caller32-IsCall32 : IsCall32 caller32 0x1000 2
caller32-IsCall32 = record {
  list = refl;
  count = refl;
  small = omega arith;
  based = omega arith;
  ends = omega arith;
  room = omega arith;
  apart = inl (omega arith);
}

-- The routine takes its two arguments off the stack.
abbrev returned32 : Cpu32
returned32 = record (before_call32 caller32) {
  eax = 0xc0000004;
  esp = (before_call32 caller32).esp + 8;
}

after_call32-restores_example :
    ((after_call32 returned32).esp ≡ caller32.esp)
    × ((after_call32 returned32).ebx ≡ caller32.ebx)
    × ((after_call32 returned32).eax ≡ returned32.eax)
after_call32-restores_example =
    after_call32-restores caller32 0x1000 2 caller32-IsCall32 returned32 refl refl

abbrev dword : ℕ → Blob
dword v = record {
  parameter_mask = 0b10000100;
  reserved1 = 0;
  max_buffer_size = 0;
  ul_parameter = v;
}

abbrev two_blobs : List Blob
two_blobs = dword 7 ∷ dword 9 ∷ []

two_blobs-held : HoldsValues x64 caller.memory 0x1010 two_blobs
unfolding argument
two_blobs-held = (refl, (refl, tt))

two_blobs-held32 : HoldsValues x86 caller32.memory 0x1010 two_blobs
unfolding argument
two_blobs-held32 = (refl, (refl, tt))

trampolines-arguments_example :
    (((before_call caller).r10 ≡ caller.rcx)
      × ((before_call caller).rsp % 16 ≡ 0)
      × ((before_call caller).rsp + 32 ≤ caller.rsp - 8)
      × (argument_list (argument_at (before_call caller)) 0 2 ≡ arguments x64 2 two_blobs))
    × (((before_call32 caller32).edx ≡ caller32.memory (caller32.esp + 4))
        × ((before_call32 caller32).esp ≡ caller32.esp - 4 - 2 * 4)
        × (argument_list (argument_at32 (before_call32 caller32)) 0 2 ≡ arguments x86 2 two_blobs))
trampolines-arguments_example =
    trampolines-arguments two_blobs 2 caller caller32 0x1000 refl caller-IsCall two_blobs-held
      caller32-IsCall32 two_blobs-held32
