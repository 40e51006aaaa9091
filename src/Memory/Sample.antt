-- ===== src/Memory/Sample.antt =====
-- A small system on which the theorems are tried out: memory is a byte at each address, null cannot
-- be accessed, and `new` has six addresses to give.
use service_call.Base.{
  ap, ℕ, zero, suc, ◌+◌, ◌≤◌, ◌<◌, ◌≡◌, refl, ◌≢◌, true, List, [], ◌∷◌, arith, none, if◌then◌else◌,
  ◌==◌, is_some, has, ◌^◌, Bool-cases, inl, inr, length, ◌⊎◌,
}
use service_call.Status.{status_success, status_access_violation, nt_success}
use service_call.Memory.{IsMemory, Heap, Machine, System, PlacesFresh}

abbrev first_free : List ℕ → Heap → ℕ
first_free [] h = 0
first_free (a ∷ as') h = if is_some (h a) then first_free as' h else a

first_free-none : (as' : List ℕ) (h : Heap) → first_free as' h ≢ 0 → h (first_free as' h) ≡ none
first_free-none [] h ne = absurd (ne refl)
first_free-none (a ∷ as') h ne = ground (arith, first_free-none as' h)

first_free-small :
    (n : ℕ) (as' : List ℕ) (h : Heap)
    → ((k : ℕ) → has k as' ≡ true → k < n)
    → 0 < n
    → first_free as' h < n
first_free-small n [] h small z = z
first_free-small n (a ∷ as') h small z =
    let rest = first_free-small n as' h (λ k e. small k (ground arith)) z in
    let here = small a (ground arith) in ground arith

unfoldable pub read_bytes : (ℕ → ℕ) → (a n : ℕ) → List ℕ
read_bytes c a zero = []
read_bytes c a (suc n) = c a ∷ read_bytes c (a + 1) n

unfoldable pub put_bytes : (ℕ → ℕ) → (a n : ℕ) → List ℕ → ℕ → ℕ
put_bytes c a zero bs x = c x
put_bytes c a (suc n) [] x = c x
put_bytes c a (suc n) (b ∷ bs) x = if x == a then b else put_bytes c (a + 1) n bs x

put_bytes-outside :
    (c : ℕ → ℕ) (a n : ℕ) (bs : List ℕ) (x : ℕ) → (x < a) ⊎ (a + n ≤ x) → put_bytes c a n bs x ≡ c x
unfolding put_bytes
put_bytes-outside c a zero bs x h = refl
put_bytes-outside c a (suc n) [] x h = refl
put_bytes-outside c a (suc n) (b ∷ bs) x h = ground (arith, put_bytes-outside c (a + 1) n bs x)

read_bytes-ext :
    (c d : ℕ → ℕ) (a n : ℕ)
    → ((x : ℕ) → a ≤ x → x < a + n → c x ≡ d x)
    → read_bytes c a n ≡ read_bytes d a n
unfolding read_bytes
read_bytes-ext c d a zero h = refl
read_bytes-ext c d a (suc n) h =
    let e = h a (omega arith) (omega arith) in
    let ih = read_bytes-ext c d (a + 1) n (λ x lo hi. h x (omega arith) (omega arith)) in cc

read_bytes-put_bytes :
    (c : ℕ → ℕ) (a n : ℕ) (bs : List ℕ) → length bs ≡ n → read_bytes (put_bytes c a n bs) a n ≡ bs
unfolding read_bytes put_bytes
read_bytes-put_bytes c a zero [] e = refl
read_bytes-put_bytes c a zero (b ∷ bs) e = absurd (omega arith)
read_bytes-put_bytes c a (suc n) [] e = absurd (omega arith)
read_bytes-put_bytes c a (suc n) (b ∷ bs) e =
    let ih = read_bytes-put_bytes c (a + 1) n bs (omega arith) in
    let tail =
      read_bytes-ext (put_bytes c a (suc n) (b ∷ bs)) (put_bytes c (a + 1) n bs) (a + 1) n
        (λ x lo hi. ground arith) in
    let head : put_bytes c a (suc n) (b ∷ bs) a ≡ b = ground arith in cc

abbrev pub sample : System (ℕ → ℕ)
sample = record {
  place = λ h n. first_free (100 ∷ 200 ∷ 300 ∷ 400 ∷ 500 ∷ 600 ∷ []) h;
  stale = λ i. record { parameter_mask = 0; reserved1 = 0; max_buffer_size = 0; ul_parameter = 0 };
  read_virtual = λ c process a n.
      if a == 0 then (status_access_violation, []) else (status_success, read_bytes c a n);
  write_virtual = λ c process a bs n.
      if a == 0 then (status_access_violation, c) else (status_success, put_bytes c a n bs);
}

-- All addresses fit in 32 bits.
pub sample_place-small : (h : Heap) (n : ℕ) → sample.place h n < 2 ^ 32
sample_place-small h n =
    first_free-small (2 ^ 32) (100 ∷ 200 ∷ 300 ∷ 400 ∷ 500 ∷ 600 ∷ []) h (λ k e. ground arith)
      (omega arith)

pub sample-PlacesFresh : PlacesFresh sample
sample-PlacesFresh h n ne = first_free-none (100 ∷ 200 ∷ 300 ∷ 400 ∷ 500 ∷ 600 ∷ []) h ne

sample-read-write :
    (c : ℕ → ℕ) (process a : ℕ) (bs : List ℕ) (n : ℕ)
    → length bs ≡ n
    → nt_success (sample.write_virtual c process a bs n).0 ≡ true
    → (sample.read_virtual (sample.write_virtual c process a bs n).1 process a n).1 ≡ bs
sample-read-write c process a bs n e h = elim (Bool-cases (a == 0)) [
  | inl z ↦ absurd (ground arith)
  | inr nz ↦ rw nz (read_bytes-put_bytes c a n bs e)
]

sample-read_elsewhere :
    (c : ℕ → ℕ) (process a : ℕ) (bs : List ℕ) (n a' n' : ℕ)
    → (a' + n' ≤ a) ⊎ (a + n ≤ a')
    → sample.read_virtual (sample.write_virtual c process a bs n).1 process a' n'
      ≡ sample.read_virtual c process a' n'
sample-read_elsewhere c process a bs n a' n' apart = elim (Bool-cases (a == 0)) [
  | inl z ↦ rw z refl
  | inr nz ↦
      let same =
        read_bytes-ext (put_bytes c a n bs) c a' n'
          (λ x lo hi. put_bytes-outside c a n bs x (grind arith)) in
      rw (nz, same) refl
]

length-read_bytes : (c : ℕ → ℕ) (a n : ℕ) → length (read_bytes c a n) ≡ n
unfolding read_bytes
length-read_bytes c a zero = refl
length-read_bytes c a (suc n) = ap suc (length-read_bytes c (a + 1) n)

sample_fills :
    (c : ℕ → ℕ) (process a n : ℕ)
    → nt_success (sample.read_virtual c process a n).0 ≡ true
    → length (sample.read_virtual c process a n).1 ≡ n
sample_fills c process a n h = elim (Bool-cases (a == 0)) [
  | inl z ↦ absurd (ground arith)
  | inr nz ↦ rw nz (length-read_bytes c a n)
]

pub sample-IsMemory : IsMemory sample
sample-IsMemory = record {
  read-write = sample-read-write;
  read_elsewhere = sample-read_elsewhere;
  fills = sample_fills;
}

-- An empty heap, and a process with the byte a at each low address a.
abbrev pub start : Machine (ℕ → ℕ)
start = record { heap = λ a. none; client = λ a. a }
