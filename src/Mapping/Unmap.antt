-- ===== src/Mapping/Unmap.antt =====
-- What RtlUnmapPtrParameters gives back.
use mathlib.Core.Path.{fun_ext}
use service_call.Base.{
  Distinct, ℕ, zero, suc, ◌≡◌, refl, ◌≢◌, true, List, [], ◌∷◌, ◌++◌, arith, length, has, is_some,
  none, some, if◌then◌else◌, Bool-cases, inl, inr, ap, ◌∙◌,
}
use service_call.Parameter.{Blob, RoutineParameter, IsWhole}
use service_call.Memory.{Heap, Machine, ok, write, parameters, delete_array, load_parameters}
use service_call.Memory.Owned.{Owned, Owned-nil, Owned-tail, Owned-used}
use service_call.Mapping.Defs.{is_buffer, unmap_loop, unmap}

-- The addresses that RtlUnmapPtrParameters deletes.
abbrev pub buffers : List Blob → List ℕ
buffers [] = []
buffers (b ∷ bs) = if is_buffer b then b.ul_parameter ∷ buffers bs else buffers bs

pub buffers-append : (xs ys : List Blob) → buffers (xs ++ ys) ≡ buffers xs ++ buffers ys
buffers-append [] ys = refl
buffers-append (x ∷ xs) ys = elim (Bool-cases (is_buffer x)) [
  | inl t ↦ rw (t, buffers-append xs ys)
  | inr f ↦ rw (f, buffers-append xs ys)
]

module _ {C : Type 0} where
  delete_array-live :
      (m : Machine C) (p : ℕ)
      → p ≢ 0
      → is_some (m.heap p) ≡ true
      → delete_array p m ≡ ok tt (record m { heap = write m.heap p none })
  unfolding delete_array
  delete_array-live m p ne live = ground arith

  pub load_parameters-some :
      (m : Machine C) (p : ℕ) (q : RoutineParameter)
      → m.heap p ≡ some (parameters q)
      → load_parameters p m ≡ ok q m
  unfolding load_parameters
  load_parameters-some m p q h = ground arith

  unmap_loop-Owned :
      (n : ℕ) (bs : List Blob) (base : Heap) (m : Machine C)
      → length bs ≡ n
      → Owned base (buffers bs) m.heap
      → unmap_loop n bs m ≡ ok tt (record m { heap = base })
  unfolding unmap_loop
  unmap_loop-Owned zero [] base m e o =
      ap (λ (h : Heap). ok tt (record m { heap = h })) (Owned-nil o)
  unmap_loop-Owned zero (b ∷ bs) base m e o = absurd (omega arith)
  unmap_loop-Owned (suc n) [] base m e o = absurd (omega arith)
  unmap_loop-Owned (suc n) (b ∷ bs) base m e o = elim (Bool-cases (is_buffer b)) [
    | inl t ↦
        let o' : Owned base (b.ul_parameter ∷ buffers bs) m.heap = rw t at o in
        rw
          (
            t,
            delete_array-live m b.ul_parameter (ground arith)
                (o'.live b.ul_parameter (ground arith)),
          )
          (unmap_loop-Owned n bs base (record m { heap = write m.heap b.ul_parameter none })
            (omega arith) (Owned-tail o'))
    | inr f ↦ rw f (unmap_loop-Owned n bs base m (omega arith) (rw f at o))
  ]

  -- Over a heap `base` with the list at `p`, whose buffers are owned, it leaves `base` less `p`.
  pub unmap-Owned :
      (p : ℕ) (q : RoutineParameter) (base : Heap) (m : Machine C)
      → p ≢ 0
      → IsWhole q
      → base p ≡ some (parameters q)
      → Owned base (buffers q.parameters) m.heap
      → unmap p m ≡ ok tt (record m { heap = write base p none })
  unfolding unmap
  unmap-Owned p q base m ne w e o =
      let h : m.heap p ≡ some (parameters q) = o.same p (Owned-used p o (rw e refl)) ∙ e in
      rw (load_parameters-some m p q h, unmap_loop-Owned q.parameter_count q.parameters base m w o)
        (delete_array-live (record m { heap = base }) p ne (rw e refl))

abbrev pub AllLive : Heap → List ℕ → Type 0
AllLive h xs = (a : ℕ) → has a xs ≡ true → is_some (h a) ≡ true

-- `h` without the blocks at `xs`.
abbrev pub without : List ℕ → Heap → Heap
without xs h a = if has a xs then none else h a

without-Owned : (xs : List ℕ) (h : Heap) → Distinct xs → AllLive h xs → Owned (without xs h) xs h
without-Owned xs h d live = record {
  distinct = d;
  fresh = λ a i. rw i refl;
  live = live;
  same = λ a o. rw o refl;
}

-- RtlUnmapPtrParameters on a list at `p` with as many blobs as declared, whose buffers are distinct
-- blocks in use, deletes exactly the list and those buffers: no block else, and none twice.
pub unmap-without :
    {C : Type 0} (p : ℕ) (q : RoutineParameter) (m : Machine C)
    → p ≢ 0
    → IsWhole q
    → m.heap p ≡ some (parameters q)
    → Distinct (p ∷ buffers q.parameters)
    → AllLive m.heap (buffers q.parameters)
    → unmap p m ≡ ok tt (record m { heap = without (p ∷ buffers q.parameters) m.heap })
unmap-without p q m ne w e d live =
    unmap-Owned p q (without (buffers q.parameters) m.heap) m ne w (rw d.0 e)
      (without-Owned (buffers q.parameters) m.heap d.1 live)
    ∙ ap (λ (h : Heap). ok tt (record m { heap = h })) (fun_ext λ a. unfold write in ground arith)
