-- ===== src/Trampoline/X86/Call.antt =====
-- __x86ServiceCall: the arguments that the routine finds, and what its caller finds again.
use service_call.Base.{
  ℕ, ◌+◌, ◌-◌, ◌*◌, ◌^◌, ◌<◌, ◌≤◌, ◌≡◌, refl, ap, ◌∙◌, ◌⊎◌, inl, inr, arith, ◌==◌, false,
}
use service_call.Trampoline.{store}
use service_call.Trampoline.X86.{
  Cpu32, push_loop32, prologue32, before_call32, after_call32, IsApart32, push_loop32-esp,
  push_loop32-edx, push_loop32-above, push_loop32-words,
}

-- The caller's side: above the return address the routine and a list of `n` parameters, fewer than
-- 2^28, on a stack with room for what is pushed, which the list does not overlap.
pub record IsCall32 (c : Cpu32) (base n : ℕ) : Type 0 where
  pub list : c.memory (c.esp + 8) ≡ base
  pub count : c.memory base ≡ n
  pub small : n < 2 ^ 28
  pub based : 8 ≤ base
  pub ends : base + 8 + n * 16 < 2 ^ 32
  pub room : n * 4 + 4 ≤ c.esp
  pub apart : (base + 8 + n * 16 ≤ c.esp - 4 - n * 4) ⊎ (c.esp ≤ base)

module _ (c : Cpu32) (base n : ℕ) (call : IsCall32 c base n) where
  list_apart32 :
      (a : ℕ) → base ≤ a → a ≤ base + n * 16 → store c.memory (c.esp - 4) c.ebx a ≡ c.memory a
  list_apart32 a l u =
      let room = call.room in
      elim (call.apart) [
        | inl p ↦ let k : (a == c.esp - 4) ≡ false = ground arith in rw k refl
        | inr p ↦ let k : (a == c.esp - 4) ≡ false = ground arith in rw k refl
      ]

  saved_list : store c.memory (c.esp - 4) c.ebx (c.esp - 4 + 0xc) ≡ base
  saved_list =
      let room = call.room in
      let above : c.esp - 4 + 0xc ≡ c.esp + 8 = omega arith in
      let k : (c.esp + 8 == c.esp - 4) ≡ false = ground arith in rw above (rw k call.list)

  saved_count : store c.memory (c.esp - 4) c.ebx base ≡ n
  saved_count = list_apart32 base (omega arith) (omega arith) ∙ call.count

  prologue32-rest :
      ((prologue32 c).ecx ≡ n)
      × ((prologue32 c).edx ≡ c.memory (c.esp + 4))
      × (0 < n → (prologue32 c).eax + 8 ≡ base + n * 16)
  unfolding prologue32
  prologue32-rest =
      let small = call.small in
      let ends = call.ends in
      let room = call.room in
      let above : c.esp - 4 + 0x8 ≡ c.esp + 4 = omega arith in
      let k : (c.esp + 4 == c.esp - 4) ≡ false = ground arith in
      (
        rw saved_list saved_count,
        rw above (rw k refl),
        rw saved_list (rw saved_count (λ h. omega arith)),
      )

  prologue32-IsApart : IsApart32 base n (prologue32 c).esp
  unfolding prologue32
  prologue32-IsApart = elim (call.apart) [ inl p ↦ inl (omega arith) | inr p ↦ inr (omega arith) ]

  saved_word32 : (prologue32 c).memory (c.esp - 4) ≡ c.ebx
  unfolding prologue32
  saved_word32 = ground arith

  -- At its call __x86ServiceCall calls the routine it was given, and the routine's argument `i` on the
  -- stack is the low DWORD of the value of parameter `i`.
  pub before_call32-arguments :
      ((before_call32 c).edx ≡ c.memory (c.esp + 4))
      × ((before_call32 c).esp ≡ c.esp - 4 - n * 4)
      × ((i : ℕ)
          → i < n
          → (before_call32 c).memory ((before_call32 c).esp + i * 4)
            ≡ c.memory (base + 16 + i * 16))
  unfolding before_call32 prologue32
  before_call32-arguments =
      let rest = prologue32-rest in
      let room = call.room in
      let ends = call.ends in
      let p = prologue32 c in
      let moved : (before_call32 c).esp ≡ c.esp - 4 - n * 4 =
        push_loop32-esp p.ecx p ∙ ap (λ k. c.esp - 4 - k * 4) (rest.0) in
      (
        push_loop32-edx p.ecx p ∙ rest.1,
        moved,
        λ i l.
            let pushed =
              push_loop32-words n p base i l (omega arith) call.based (omega arith)
                (rest.2 (omega arith)) prologue32-IsApart in
            ap (before_call32 c).memory (ap (λ x. x + i * 4) moved)
            ∙ (ap (λ k. (push_loop32 k p).memory (c.esp - 4 - n * 4 + i * 4)) (rest.0)
                ∙ (pushed ∙ list_apart32 (base + 16 + i * 16) (omega arith) (omega arith))),
      )

  -- A routine that takes its `n` arguments off the stack and leaves the DWORD in which ebx was saved
  -- alone, as __stdcall asks, gives the caller of __x86ServiceCall its esp and ebx back, with the
  -- routine's result in eax.
  pub after_call32-restores :
      (d : Cpu32)
      → d.esp ≡ (before_call32 c).esp + n * 4
      → d.memory (c.esp - 4) ≡ (before_call32 c).memory (c.esp - 4)
      → ((after_call32 d).esp ≡ c.esp)
        × ((after_call32 d).ebx ≡ c.ebx)
        × ((after_call32 d).eax ≡ d.eax)
  unfolding after_call32 before_call32 prologue32
  after_call32-restores d s m =
      let rest = prologue32-rest in
      let room = call.room in
      let p = prologue32 c in
      let moved = before_call32-arguments.1 in
      let back : d.esp ≡ c.esp - 4 = omega (arith, moved) in
      let saved : (before_call32 c).memory (c.esp - 4) ≡ c.ebx =
        ap (λ k. (push_loop32 k p).memory (c.esp - 4)) (rest.0)
        ∙ (push_loop32-above n p (c.esp - 4) (omega arith) (omega arith) ∙ saved_word32) in
      (omega arith, ap d.memory back ∙ (m ∙ saved), refl)
