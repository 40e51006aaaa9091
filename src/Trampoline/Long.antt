-- ===== src/Trampoline/Long.antt =====
-- __x64ServiceCall: the arguments that the routine finds, and what its caller finds again.
use service_call.Base.{
  ℕ, zero, suc, ◌+◌, ◌-◌, ◌*◌, ◌%◌, ◌^◌, ◌<◌, ◌≤◌, ◌≡◌, refl, ap, ◌∙◌, inl, inr, arith, ◌==◌, false,
}
use service_call.Trampoline.{
  Cpu, push_loop, store, subtract, IsApart, prologue, before_call, after_call, stack_words,
  argument_at,
}
use service_call.Trampoline.Loop.{
  push_loop-rsp, push_loop-registers, push_loop-above, push_loop-words,
}

-- The caller's side: `n` parameters behind rdx, fewer than 2^28, on a stack with room for what is
-- pushed, aligned as a call leaves it, which the list of parameters does not overlap.
pub record IsCall (c : Cpu) (n : ℕ) : Type 0 where
  pub count : c.memory c.rdx % 2 ^ 32 ≡ n
  pub small : n < 2 ^ 28
  pub based : 8 ≤ c.rdx
  pub ends : c.rdx + 8 + n * 16 < 2 ^ 64
  pub room : stack_words n * 8 + 8 ≤ c.rsp
  pub aligned : c.rsp % 16 ≡ 8
  pub apart : IsApart c.rdx n c.rsp (stack_words n * 8 + 8)

stack_words-bounds :
    (n : ℕ)
    → (n ≤ stack_words n) × (4 ≤ stack_words n) × (stack_words n ≤ n + 4) × (stack_words n % 2 ≡ 0)
unfolding stack_words
stack_words-bounds n = (ground arith, ground arith, ground arith, ground arith)

missing_words : (n : ℕ) → n < 2 ^ 28 → subtract (2 ^ 32) (stack_words n) n ≡ stack_words n - n
missing_words n h = let b = stack_words-bounds n in omega arith

module _ (c : Cpu) (n : ℕ) (call : IsCall c n) where
  list_apart :
      (a : ℕ) → c.rdx ≤ a → a ≤ c.rdx + n * 16 → store c.memory (c.rsp - 8) c.rbx a ≡ c.memory a
  list_apart a l u =
      let room = call.room in
      elim (call.apart) [
        | inl p ↦ let k : (a == c.rsp - 8) ≡ false = ground arith in rw k refl
        | inr p ↦ let k : (a == c.rsp - 8) ≡ false = ground arith in rw k refl
      ]

  saved_count : store c.memory (c.rsp - 8) c.rbx c.rdx % 2 ^ 32 ≡ n
  saved_count = rw (list_apart c.rdx (omega arith) (omega arith)) call.count

  prologue-rsp : (prologue c).rsp ≡ c.rsp - 8 - (stack_words n - n) * 8
  unfolding prologue
  prologue-rsp = let m = missing_words n call.small in rw saved_count (rw m (ground arith))

  prologue-rest :
      ((prologue c).rax ≡ n)
      × ((prologue c).rbx ≡ stack_words n * 8)
      × ((prologue c).r10 ≡ c.rcx)
      × (0 < n → (prologue c).rdx + 8 ≡ c.rdx + n * 16)
      × ((prologue c).memory ≡ store c.memory (c.rsp - 8) c.rbx)
  unfolding prologue
  prologue-rest =
      let small = call.small in
      let ends = call.ends in rw saved_count (refl, refl, refl, λ h. omega arith, refl)

  before_call-rsp : (before_call c).rsp ≡ c.rsp - 8 - stack_words n * 8
  unfolding before_call
  before_call-rsp =
      let b = stack_words-bounds n in
      let room = call.room in
      push_loop-rsp (prologue c).rax (prologue c)
      ∙ rw prologue-rsp (rw (prologue-rest.0) (omega arith))

  prologue-IsApart : IsApart c.rdx n (prologue c).rsp (n * 8)
  prologue-IsApart =
      let b = stack_words-bounds n in
      let room = call.room in
      elim (call.apart) [
        | inl p ↦ rw prologue-rsp (inl (omega arith))
        | inr p ↦ rw prologue-rsp (inr (omega arith))
      ]

  -- The word `i` above the stack's top, when the routine is called.
  stack_argument :
      (i a : ℕ)
      → i < n
      → a ≡ (before_call c).rsp + i * 8
      → (before_call c).memory a ≡ c.memory (c.rdx + 16 + i * 16)
  unfolding before_call
  stack_argument i a l e =
      let b = stack_words-bounds n in
      let room = call.room in
      let ends = call.ends in
      let rest = prologue-rest in
      let top : n * 8 ≤ (prologue c).rsp = rw prologue-rsp (omega arith) in
      let address : a ≡ (prologue c).rsp - n * 8 + i * 8 =
        e ∙ rw before_call-rsp (rw prologue-rsp (omega arith)) in
      let pushed =
        push_loop-words n (prologue c) c.rdx i l top call.based (omega arith) (rest.3 (omega arith))
          prologue-IsApart in
      ap (λ k. (push_loop k (prologue c)).memory a) (rest.0)
      ∙ (ap (push_loop n (prologue c)).memory address
          ∙ (pushed
              ∙ (ap (λ m. m (c.rdx + 16 + i * 16)) (rest.4)
                  ∙ list_apart (c.rdx + 16 + i * 16) (omega arith) (omega arith))))

  before_call-argument :
      (i : ℕ) → i < n → argument_at (before_call c) i ≡ c.memory (c.rdx + 16 + i * 16)
  unfolding before_call
  before_call-argument zero l = stack_argument 0 (before_call c).rsp l (omega arith)
  before_call-argument (suc zero) l = stack_argument 1 ((before_call c).rsp + 8) l (omega arith)
  before_call-argument (suc (suc zero)) l =
      stack_argument 2 ((before_call c).rsp + 16) l (omega arith)
  before_call-argument (suc (suc (suc zero))) l =
      stack_argument 3 ((before_call c).rsp + 24) l (omega arith)
  before_call-argument (suc (suc (suc (suc i)))) l =
      stack_argument (i + 4) ((before_call c).rsp + (i + 4) * 8) (omega arith) refl
      ∙ ap c.memory (omega arith)

  saved_word : (before_call c).memory (c.rsp - 8) ≡ c.rbx
  unfolding before_call
  saved_word =
      let b = stack_words-bounds n in
      let room = call.room in
      let rest = prologue-rest in
      let top : n * 8 ≤ (prologue c).rsp = rw prologue-rsp (omega arith) in
      let under : (prologue c).rsp ≤ c.rsp - 8 = rw prologue-rsp (omega arith) in
      ap (λ k. (push_loop k (prologue c)).memory (c.rsp - 8)) (rest.0)
      ∙ (push_loop-above n (prologue c) (c.rsp - 8) top under
          ∙ (ap (λ m. m (c.rsp - 8)) (rest.4) ∙ ground arith))

  kept_registers : ((before_call c).rbx ≡ stack_words n * 8) × ((before_call c).r10 ≡ c.rcx)
  unfolding before_call
  kept_registers =
      let rest = prologue-rest in
      let loop = push_loop-registers (prologue c).rax (prologue c) in
      (loop.0 ∙ rest.1, loop.1 ∙ rest.2)

  -- At its call __x64ServiceCall calls the routine it was given, with a stack aligned to 16 bytes and at
  -- least the four words that the convention keeps for the register arguments, and the routine's
  -- argument `i` is the value of parameter `i`, in a register or on the stack.
  pub before_call-arguments :
      ((before_call c).r10 ≡ c.rcx)
      × ((before_call c).rsp % 16 ≡ 0)
      × ((before_call c).rsp + 32 ≤ c.rsp - 8)
      × ((i : ℕ) → i < n → argument_at (before_call c) i ≡ c.memory (c.rdx + 16 + i * 16))
  before_call-arguments =
      let b = stack_words-bounds n in
      let room = call.room in
      let aligned = call.aligned in
      (
        kept_registers.1,
        rw before_call-rsp (omega arith),
        rw before_call-rsp (omega arith),
        before_call-argument,
      )

  -- A routine that returns with rsp and rbx as they were and leaves the word in which rbx was saved
  -- alone, as the calling convention asks, gives the caller of __x64ServiceCall its rsp and rbx back,
  -- with the routine's result in rax.
  pub after_call-restores :
      (d : Cpu)
      → d.rsp ≡ (before_call c).rsp
      → d.rbx ≡ (before_call c).rbx
      → d.memory (c.rsp - 8) ≡ (before_call c).memory (c.rsp - 8)
      → ((after_call d).rsp ≡ c.rsp) × ((after_call d).rbx ≡ c.rbx) × ((after_call d).rax ≡ d.rax)
  unfolding after_call
  after_call-restores d s b m =
      let bounds = stack_words-bounds n in
      let room = call.room in
      let saved : d.rsp + d.rbx ≡ c.rsp - 8 =
        rw s (rw b (rw before_call-rsp (rw (kept_registers.0) (omega arith)))) in
      (omega arith, ap d.memory saved ∙ (m ∙ saved_word), refl)
