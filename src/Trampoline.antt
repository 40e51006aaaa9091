-- ===== src/Trampoline.antt =====
-- The trampolines that call a service's routine: here __x64ServiceCall of ServiceCall/x64.asm, on the
-- registers it uses and a memory of words at the addresses where they start; X86 has the other one.
pub mod Loop
pub mod Long
pub mod X86
pub mod Arguments
mod Tests
use service_call.Base.{
  ℕ, zero, suc, ◌+◌, ◌-◌, ◌*◌, ◌%◌, ◌^◌, ◌≤◌, ◌⊎◌, Bool, true, false, not, ◌==◌, ltb, if◌then◌else◌,
}

pub record Cpu : Type 0 where
  pub rax : ℕ
  pub rbx : ℕ
  pub rcx : ℕ
  pub rdx : ℕ
  pub r8 : ℕ
  pub r9 : ℕ
  pub r10 : ℕ
  pub rsp : ℕ
  pub memory : ℕ → ℕ

abbrev pub store : (ℕ → ℕ) → ℕ → ℕ → ℕ → ℕ
store memory address word a = if a == address then word else memory a

-- `sub`, on registers of which `m` is the first number that does not fit.
abbrev pub subtract : (m a b : ℕ) → ℕ
subtract m a b = (a + (m - b)) % m

-- `push`, of a word of `width` bytes.
abbrev pub push : (width word : ℕ) → Cpu → Cpu
push width word c = record c { rsp = c.rsp - width; memory = store c.memory (c.rsp - width) word }

-- x64: a round of the loop: `push qword ptr[rdx + 8h]` and `sub rdx, 10h`.
abbrev pub push_parameter : Cpu → Cpu
push_parameter c = record (push 8 (c.memory (c.rdx + 8)) c) { rdx = subtract (2 ^ 64) c.rdx 16 }

-- x64: the loop from `_loop` to `_break`, with `n` in eax.
unfoldable pub push_loop : (n : ℕ) → Cpu → Cpu
push_loop zero c = record c { rax = 0 }
push_loop (suc n) c = push_loop n (push_parameter c)

-- x64: at least four words for the arguments, and an even number of them.
unfoldable pub stack_words : ℕ → ℕ
stack_words n = let words = if ltb n 4 then 4 else n in if words % 2 == 0 then words else words + 1

-- x64: from the start to `_loop`. `dwParameters` is the low half of the word at rdx.
unfoldable pub prologue : Cpu → Cpu
unfolding stack_words
prologue c =
    let saved = push 8 c.rbx c in
    let n = saved.memory c.rdx % 2 ^ 32 in
    let missing = subtract (2 ^ 32) (stack_words n) n in
    record saved {
      r10 = c.rcx;
      rbx = stack_words n * 8;
      rsp = if missing == 0 then saved.rsp else saved.rsp - missing * 8;
      rax = n;
      r8 = subtract (2 ^ 32) n 1 * 16;
      rdx = (c.rdx + 8 + subtract (2 ^ 32) n 1 * 16) % 2 ^ 64;
    }

-- x64: from `_break` to `call`.
unfoldable pub load_registers : Cpu → Cpu
load_registers c = record c {
  rcx = c.memory c.rsp;
  rdx = c.memory (c.rsp + 0x8);
  r8 = c.memory (c.rsp + 0x10);
  r9 = c.memory (c.rsp + 0x18);
}

-- x64: all that comes before `call r10`.
unfoldable pub before_call : Cpu → Cpu
unfolding prologue load_registers
before_call c = let p = prologue c in load_registers (push_loop p.rax p)

-- x64: all that follows the call up to `ret`.
unfoldable pub after_call : Cpu → Cpu
after_call c = record c { rbx = c.memory (c.rsp + c.rbx); rsp = c.rsp + c.rbx + 8 }

-- The argument `i` that a routine finds, by the calling convention, when it is called: in a register,
-- or behind the words that the caller keeps for the registers.
abbrev pub argument_at : Cpu → ℕ → ℕ
argument_at c zero = c.rcx
argument_at c (suc zero) = c.rdx
argument_at c (suc (suc zero)) = c.r8
argument_at c (suc (suc (suc zero))) = c.r9
argument_at c (suc (suc (suc (suc i)))) = c.memory (c.rsp + (i + 4) * 8)

-- The stack is written in the `size` bytes under `top`, and the list of `n` parameters lies elsewhere.
abbrev pub IsApart : (base n top size : ℕ) → Type 0
IsApart base n top size = (base + 8 + n * 16 ≤ top - size) ⊎ (top ≤ base)
