-- ===== src/Trampoline/Loop.antt =====
-- The loop of __x64ServiceCall: the words that it pushes.
use service_call.Base.{
  ℕ, zero, suc, ◌+◌, ◌-◌, ◌*◌, ◌^◌, ◌<◌, ◌≤◌, ◌≡◌, refl, ap, ◌∙◌, inl, inr, arith, ◌==◌, Bool-cases,
  ltb, false,
}
use service_call.Trampoline.{Cpu, push_loop, push_parameter, IsApart}

pub push_loop-rsp : (n : ℕ) (c : Cpu) → (push_loop n c).rsp ≡ c.rsp - n * 8
unfolding push_loop
push_loop-rsp zero c = omega arith
push_loop-rsp (suc n) c = ground (arith, push_loop-rsp n (push_parameter c))

pub push_loop-registers :
    (n : ℕ) (c : Cpu) → ((push_loop n c).rbx ≡ c.rbx) × ((push_loop n c).r10 ≡ c.r10)
unfolding push_loop
push_loop-registers zero c = (refl, refl)
push_loop-registers (suc n) c = push_loop-registers n (push_parameter c)

-- Nothing at or above the stack's top is written.
pub push_loop-above :
    (n : ℕ) (c : Cpu) (a : ℕ) → n * 8 ≤ c.rsp → c.rsp ≤ a → (push_loop n c).memory a ≡ c.memory a
unfolding push_loop
push_loop-above zero c a h k = refl
push_loop-above (suc n) c a h k =
    let later = push_loop-above n (push_parameter c) a (omega arith) (omega arith) in
    ground (arith, later)

IsApart-less :
    (base n top : ℕ)
    → IsApart base (suc n) top (suc n * 8)
    → 8 ≤ top
    → IsApart base n (top - 8) (n * 8)
IsApart-less base n top (inl q) h = inl (omega arith)
IsApart-less base n top (inr q) h = inr (omega arith)

elsewhere :
    (base n top i : ℕ)
    → IsApart base n top (n * 8)
    → i < n
    → n * 8 ≤ top
    → (base + 16 + i * 16 == top - 8) ≡ false
elsewhere base n top i (inl q) l h = ground arith
elsewhere base n top i (inr q) l h = ground arith

-- The words that it leaves on the stack are the values of the parameters, in their order.
pub push_loop-words :
    (n : ℕ) (c : Cpu) (base i : ℕ)
    → i < n
    → n * 8 ≤ c.rsp
    → 8 ≤ base
    → base + n * 16 < 2 ^ 64
    → c.rdx + 8 ≡ base + n * 16
    → IsApart base n c.rsp (n * 8)
    → (push_loop n c).memory (c.rsp - n * 8 + i * 8) ≡ c.memory (base + 16 + i * 16)
unfolding push_loop
push_loop-words zero c base i l h b s e p = absurd (omega arith)
push_loop-words (suc n) c base i l h b s e p = elim (Bool-cases (ltb i n)) [
  | inl k ↦
      let rest =
        push_loop-words n (push_parameter c) base i (ground arith) (omega arith) b (omega arith)
          (omega arith) (IsApart-less base n c.rsp p (omega arith)) in
      let away = elsewhere base (suc n) c.rsp i p l h in
      let address : c.rsp - suc n * 8 + i * 8 ≡ c.rsp - 8 - n * 8 + i * 8 = omega arith in
      ap (push_loop n (push_parameter c)).memory address ∙ (rest ∙ rw away refl)
  | inr k ↦
      let same : i ≡ n = ground arith in
      let later = push_loop-above n (push_parameter c) (c.rsp - 8) (omega arith) (omega arith) in
      let address : c.rsp - suc n * 8 + i * 8 ≡ c.rsp - 8 = omega arith in
      let value : c.rdx + 8 ≡ base + 16 + i * 16 = omega arith in
      ap (push_loop n (push_parameter c)).memory address
      ∙ (later ∙ ground (arith, ap c.memory value))
]
