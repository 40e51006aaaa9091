-- ===== src/Trampoline/X86.antt =====
-- __x86ServiceCall of ServiceCall/ServiceCall.cpp, on the registers it uses and a memory of DWORDs at
-- the addresses where they start.
pub mod Call
use service_call.Base.{
  ℕ, zero, suc, ◌+◌, ◌-◌, ◌*◌, ◌%◌, ◌^◌, ◌<◌, ◌≤◌, ◌≡◌, refl, ap, ◌∙◌, ◌⊎◌, inl, inr, arith, ◌==◌,
  Bool-cases, ltb, true, false,
}
use service_call.Trampoline.{store, subtract}

pub record Cpu32 : Type 0 where
  pub eax : ℕ
  pub ebx : ℕ
  pub ecx : ℕ
  pub edx : ℕ
  pub esp : ℕ
  pub memory : ℕ → ℕ

abbrev pub push32 : (word : ℕ) → Cpu32 → Cpu32
push32 word c = record c { esp = c.esp - 4; memory = store c.memory (c.esp - 4) word }

-- A round of the loop: `push dword ptr ds : [eax + 0x8]` and `sub eax, 0x10`.
abbrev pub push_parameter32 : Cpu32 → Cpu32
push_parameter32 c = record (push32 (c.memory (c.eax + 8)) c) { eax = subtract (2 ^ 32) c.eax 16 }

-- From `_loop` to `_break`, with `n` in ecx.
unfoldable pub push_loop32 : (n : ℕ) → Cpu32 → Cpu32
push_loop32 zero c = record c { ecx = 0 }
push_loop32 (suc n) c = push_loop32 n (push_parameter32 c)

-- From the start to `_loop`.
unfoldable pub prologue32 : Cpu32 → Cpu32
prologue32 c =
    let saved = push32 c.ebx c in
    let list = saved.memory (saved.esp + 0xc) in
    let n = saved.memory list in
    record saved {
      edx = saved.memory (saved.esp + 0x8);
      ecx = n;
      ebx = (list + 8) % 2 ^ 32;
      eax = (subtract (2 ^ 32) n 1 * 16 % 2 ^ 32 + (list + 8) % 2 ^ 32) % 2 ^ 32;
    }

-- All that comes before `call edx`.
unfoldable pub before_call32 : Cpu32 → Cpu32
unfolding prologue32
before_call32 c = let p = prologue32 c in push_loop32 p.ecx p

-- `pop ebx` and `ret`, which leaves esp behind the return address.
unfoldable pub after_call32 : Cpu32 → Cpu32
after_call32 c = record c { ebx = c.memory c.esp; esp = c.esp + 4 }

-- The `n` DWORDs under `top` do not overlap the list of `n` parameters at `base`.
abbrev pub IsApart32 : (base n top : ℕ) → Type 0
IsApart32 base n top = (base + 8 + n * 16 ≤ top - n * 4) ⊎ (top ≤ base)

pub push_loop32-esp : (n : ℕ) (c : Cpu32) → (push_loop32 n c).esp ≡ c.esp - n * 4
unfolding push_loop32
push_loop32-esp zero c = omega arith
push_loop32-esp (suc n) c = ground (arith, push_loop32-esp n (push_parameter32 c))

pub push_loop32-edx : (n : ℕ) (c : Cpu32) → (push_loop32 n c).edx ≡ c.edx
unfolding push_loop32
push_loop32-edx zero c = refl
push_loop32-edx (suc n) c = push_loop32-edx n (push_parameter32 c)

pub push_loop32-above :
    (n : ℕ) (c : Cpu32) (a : ℕ)
    → n * 4 ≤ c.esp
    → c.esp ≤ a
    → (push_loop32 n c).memory a ≡ c.memory a
unfolding push_loop32
push_loop32-above zero c a h k = refl
push_loop32-above (suc n) c a h k =
    let later = push_loop32-above n (push_parameter32 c) a (omega arith) (omega arith) in
    ground (arith, later)

IsApart32-less :
    (base n top : ℕ) → IsApart32 base (suc n) top → 4 ≤ top → IsApart32 base n (top - 4)
IsApart32-less base n top (inl q) h = inl (omega arith)
IsApart32-less base n top (inr q) h = inr (omega arith)

elsewhere32 :
    (base n top i : ℕ)
    → IsApart32 base n top
    → i < n
    → n * 4 ≤ top
    → (base + 16 + i * 16 == top - 4) ≡ false
elsewhere32 base n top i (inl q) l h = ground arith
elsewhere32 base n top i (inr q) l h = ground arith

-- The DWORDs that the loop leaves on the stack are the low halves of the values, in their order.
pub push_loop32-words :
    (n : ℕ) (c : Cpu32) (base i : ℕ)
    → i < n
    → n * 4 ≤ c.esp
    → 8 ≤ base
    → base + n * 16 < 2 ^ 32
    → c.eax + 8 ≡ base + n * 16
    → IsApart32 base n c.esp
    → (push_loop32 n c).memory (c.esp - n * 4 + i * 4) ≡ c.memory (base + 16 + i * 16)
unfolding push_loop32
push_loop32-words zero c base i l h b s e p = absurd (omega arith)
push_loop32-words (suc n) c base i l h b s e p = elim (Bool-cases (ltb i n)) [
  | inl k ↦
      let rest =
        push_loop32-words n (push_parameter32 c) base i (ground arith) (omega arith) b (omega arith)
          (omega arith) (IsApart32-less base n c.esp p (omega arith)) in
      let away = elsewhere32 base (suc n) c.esp i p l h in
      let address : c.esp - suc n * 4 + i * 4 ≡ c.esp - 4 - n * 4 + i * 4 = omega arith in
      ap (push_loop32 n (push_parameter32 c)).memory address ∙ (rest ∙ rw away refl)
  | inr k ↦
      let same : i ≡ n = ground arith in
      let later =
        push_loop32-above n (push_parameter32 c) (c.esp - 4) (omega arith) (omega arith) in
      let address : c.esp - suc n * 4 + i * 4 ≡ c.esp - 4 = omega arith in
      let value : c.eax + 8 ≡ base + 16 + i * 16 = omega arith in
      ap (push_loop32 n (push_parameter32 c)).memory address
      ∙ (later ∙ ground (arith, ap c.memory value))
]
