-- ===== src/Trampoline/Arguments.antt =====
-- The arguments that a routine finds behind __x64ServiceCall and __x86ServiceCall, for a list of parameters in
-- memory, and those of Worker's call.
use service_call.Base.{
  ◌-◌, ◌%◌, ◌≤◌, ℕ, zero, suc, ◌+◌, ◌*◌, ◌<◌, ◌≡◌, refl, ap, ◌∙◌, List, [], ◌∷◌, length, arith,
}
use service_call.Parameter.{Arch, x86, x64, Blob}
use service_call.Worker.Defs.{argument, arguments}
use service_call.Trampoline.{Cpu, before_call, argument_at}
use service_call.Trampoline.Long.{IsCall, before_call-arguments}
use service_call.Trampoline.X86.{Cpu32, before_call32}
use service_call.Trampoline.X86.Call.{IsCall32, before_call32-arguments}

-- From `a` on, memory has the values of blobs, 16 bytes apart, in words as a push reads them.
abbrev pub HoldsValues : Arch → (ℕ → ℕ) → ℕ → List Blob → Type 0
HoldsValues arch memory a [] = Unit {0}
HoldsValues arch memory a (b ∷ bs) =
    (memory a ≡ argument arch b) × HoldsValues arch memory (a + 16) bs

-- The first `n` arguments from argument `i` on.
unfoldable pub argument_list : (ℕ → ℕ) → (i n : ℕ) → List ℕ
argument_list find i zero = []
argument_list find i (suc n) = find i ∷ argument_list find (suc i) n

argument_list-arguments :
    (arch : Arch) (memory find : ℕ → ℕ) (bs : List Blob) (i a n : ℕ)
    → length bs ≡ n
    → ((k : ℕ) → k < n → find (i + k) ≡ memory (a + k * 16))
    → HoldsValues arch memory a bs
    → argument_list find i n ≡ arguments arch n bs
unfolding argument_list arguments
argument_list-arguments arch memory find [] i a zero l same h = refl
argument_list-arguments arch memory find [] i a (suc n) l same h = cc
argument_list-arguments arch memory find (b ∷ bs) i a zero l same h = cc
argument_list-arguments arch memory find (b ∷ bs) i a (suc n) l same h =
    let first : find i ≡ argument arch b =
      ap find (omega arith) ∙ (same 0 (omega arith) ∙ (ap memory (omega arith) ∙ h.0)) in
    let rest =
      argument_list-arguments arch memory find bs (suc i) (a + 16) n (omega arith)
        (λ k u. ap find (omega arith) ∙ (same (suc k) (omega arith) ∙ ap memory (omega arith)))
        h.1 in
    cc

-- The DWORD on the stack at argument `i` of a routine of the 32-bit build.
abbrev pub argument_at32 : Cpu32 → ℕ → ℕ
argument_at32 c i = c.memory (c.esp + i * 4)

-- On both builds, for a list of fewer than 2^28 blobs in memory, a stack with room for what is pushed, which the
-- list does not overlap: the trampoline calls the routine that it was given, and what the routine finds
-- by the calling convention are, in order, the arguments of the blobs with which WorkerThread's call of the
-- trampoline is modelled. On the 64-bit build the stack is aligned to 16 bytes and has the four words
-- that the convention keeps for the register arguments; on the 32-bit build it has one DWORD per
-- parameter below the saved ebx.
pub trampolines-arguments :
    (bs : List Blob) (n : ℕ) (c : Cpu) (c32 : Cpu32) (base : ℕ)
    → length bs ≡ n
    → IsCall c n
    → HoldsValues x64 c.memory (c.rdx + 16) bs
    → IsCall32 c32 base n
    → HoldsValues x86 c32.memory (base + 16) bs
    → (((before_call c).r10 ≡ c.rcx)
        × ((before_call c).rsp % 16 ≡ 0)
        × ((before_call c).rsp + 32 ≤ c.rsp - 8)
        × (argument_list (argument_at (before_call c)) 0 n ≡ arguments x64 n bs))
      × (((before_call32 c32).edx ≡ c32.memory (c32.esp + 4))
          × ((before_call32 c32).esp ≡ c32.esp - 4 - n * 4)
          × (argument_list (argument_at32 (before_call32 c32)) 0 n ≡ arguments x86 n bs))
trampolines-arguments bs n c c32 base l call held call32 held32 =
    let (routine, aligned, room, found) = before_call-arguments c n call in
    let (routine32, below, found32) = before_call32-arguments c32 base n call32 in
    (
      (
        routine,
        aligned,
        room,
        argument_list-arguments x64 c.memory (argument_at (before_call c)) bs 0 (c.rdx + 16) n l
            (λ k u. ap (argument_at (before_call c)) (omega arith) ∙ found k u) held,
      ),
      (
        routine32,
        below,
        argument_list-arguments x86 c32.memory (argument_at32 (before_call32 c32)) bs 0 (base + 16)
            n l (λ k u. ap (argument_at32 (before_call32 c32)) (omega arith) ∙ found32 k u) held32,
      ),
    )
