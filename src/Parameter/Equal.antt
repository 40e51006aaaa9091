-- ===== src/Parameter/Equal.antt =====
-- RtlEqualParameterType, and what it says of a later capture.
use service_call.Base.{
  length-map, ℕ, zero, suc, ◌<◌, ◌≡◌, ◌↔◌, ◌^◌, refl, ap, true, List, [], ◌∷◌, arith, length, some,
  map, ◌==◌, ==_iff, Bool-cases, inl, inr,
}
use service_call.Parameter.{
  Arch, Blob, RoutineParameter, copied, equal_loop, equal_type, capture, IsWhole,
}
use service_call.Parameter.Capture.{all_accepted, capture-all_accepted}

-- The masks, which are all that the comparison looks at.
abbrev pub masks : List Blob → List ℕ
masks = map λ b. b.parameter_mask

equal_loop-masks :
    (n : ℕ) (xs ys : List Blob)
    → length xs ≡ n
    → length ys ≡ n
    → (equal_loop n xs ys ≡ some true) ↔ (masks xs ≡ masks ys)
unfolding equal_loop
equal_loop-masks zero [] [] e f = (λ _. refl, λ _. refl)
equal_loop-masks zero [] (y ∷ ys) e f = absurd (omega arith)
equal_loop-masks zero (x ∷ xs) ys e f = absurd (omega arith)
equal_loop-masks (suc n) [] ys e f = absurd (omega arith)
equal_loop-masks (suc n) (x ∷ xs) [] e f = absurd (omega arith)
equal_loop-masks (suc n) (x ∷ xs) (y ∷ ys) e f =
    let ih = equal_loop-masks n xs ys (omega arith) (omega arith) in
    (λ h. ground (arith, ih.0), λ h. ground (arith, ih.1))

-- Two parameter lists with as many blobs as declared have equal types exactly when their masks are
-- the same, one by one.
pub equal_type-masks :
    (p q : RoutineParameter)
    → IsWhole p
    → IsWhole q
    → (equal_type p q ≡ some true) ↔ (masks p.parameters ≡ masks q.parameters)
unfolding equal_type
equal_type-masks p q v w = elim (Bool-cases (p.parameter_count == q.parameter_count)) [
  | inl e ↦
      let n = (==_iff p.parameter_count q.parameter_count).0 e in
      rw e (equal_loop-masks p.parameter_count p.parameters q.parameters v (omega arith))
  | inr e ↦ (
    λ h. ground arith,
    λ h. absurd (
        ground (
          arith,
          ap length h,
          length-map (λ b. b.parameter_mask) p.parameters,
          length-map (λ b. b.parameter_mask) q.parameters,
        )),
  )
]

all_accepted-masks : (xs ys : List Blob) → masks xs ≡ masks ys → all_accepted xs ≡ all_accepted ys
all_accepted-masks [] [] h = refl
all_accepted-masks [] (y ∷ ys) h = cc
all_accepted-masks (x ∷ xs) [] h = cc
all_accepted-masks (x ∷ xs) (y ∷ ys) h = ground (arith, all_accepted-masks xs ys)

-- A client whose parameters have the type of the registered ones, which were captured, is captured
-- too: both lists with as many blobs as declared, fewer than 2^28.
pub equal_type-capture :
    (arch : Arch) (p q : RoutineParameter) (bs : List Blob)
    → IsWhole p
    → IsWhole q
    → q.parameter_count < 2 ^ 28
    → capture arch p ≡ copied bs
    → equal_type p q ≡ some true
    → capture arch q ≡ copied q.parameters
unfolding equal_type
equal_type-capture arch p q bs v w small c e =
    let m = (equal_type-masks p q v w).0 e in
    let same = all_accepted-masks p.parameters q.parameters m in
    let n : p.parameter_count ≡ q.parameter_count = ground arith in
    let cp = capture-all_accepted arch p v (omega arith) in
    ground (arith, capture-all_accepted arch q w small)
