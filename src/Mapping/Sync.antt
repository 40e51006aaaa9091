-- ===== src/Mapping/Sync.antt =====
-- RtlSyncMappedPtrParameters: what it copies out to the client.
use service_call.Base.{
  ℕ, zero, suc, ◌≡◌, refl, true, Bool, not, ◌&&◌, List, [], ◌∷◌, arith, some, Bool-cases, inl, inr,
  ◌==◌, length, ◌∙◌, ap, sym,
}
use service_call.Status.{nt_success}
use service_call.Parameter.{Blob, RoutineParameter, IsWhole, is_set, pt_bit}
use service_call.Memory.{
  Apart, IsMemory, Heap, Machine, System, ok, bytes, parameters, load_bytes, write_memory,
}
use service_call.Memory.Ensures
use service_call.Memory.Ensures.{Ensures, ensured}
use service_call.Mapping.Defs.{sync_loop, sync}
use service_call.Mapping.Unmap.{load_parameters-some}

-- Whether a client's blob is written back.
abbrev pub is_shared : Blob → Bool
is_shared c = is_set c.parameter_mask pt_bit && not (c.ul_parameter == 0)

abbrev pub ApartFrom : (a n : ℕ) → List Blob → Type 0
ApartFrom a n [] = Unit {0}
ApartFrom a n (c ∷ cs) =
    (is_shared c ≡ true → Apart a n c.ul_parameter c.max_buffer_size) × ApartFrom a n cs

-- No two of the client's buffers overlap.
abbrev pub AllApart : List Blob → Type 0
AllApart [] = Unit {0}
AllApart (c ∷ cs) =
    (is_shared c ≡ true → ApartFrom c.ul_parameter c.max_buffer_size cs) × AllApart cs

module _ {C : Type 0} (sys : System C) (process : ℕ) where
  -- Each mapped blob that is written back has a buffer of the size that the client's blob states.
  abbrev pub AllFilled : Heap → List Blob → List Blob → Type 0
  AllFilled h [] [] = Unit {0}
  AllFilled h [] (d ∷ ds) = ⊥
  AllFilled h (c ∷ cs) [] = ⊥
  AllFilled h (c ∷ cs) (d ∷ ds) =
      (is_shared c ≡ true
        → (bs : List ℕ) × (h d.ul_parameter ≡ some (bytes bs)) × (length bs ≡ c.max_buffer_size))
      × AllFilled h cs ds

  -- The client reads in each buffer what the mapped one holds.
  abbrev pub AllWritten : C → Heap → List Blob → List Blob → Type 0
  AllWritten client h [] [] = Unit {0}
  AllWritten client h [] (d ∷ ds) = ⊥
  AllWritten client h (c ∷ cs) [] = ⊥
  AllWritten client h (c ∷ cs) (d ∷ ds) =
      (is_shared c ≡ true
        → h d.ul_parameter
          ≡ some (bytes (sys.read_virtual client process c.ul_parameter c.max_buffer_size).1))
      × AllWritten client h cs ds

  pub record Synced (m : Machine C) (cs ds : List Blob) (fine : Bool) (m' : Machine C)
      : Type 0 where
    pub heap : m'.heap ≡ m.heap
    pub elsewhere :
        (a n : ℕ)
        → ApartFrom a n cs
        → sys.read_virtual m'.client process a n ≡ sys.read_virtual m.client process a n
    pub written : fine ≡ true → AllWritten m'.client m'.heap cs ds

  load_bytes-some :
      (m : Machine C) (p size : ℕ) (bs : List ℕ)
      → m.heap p ≡ some (bytes bs)
      → length bs ≡ size
      → load_bytes p size m ≡ ok bs m
  unfolding load_bytes
  load_bytes-some m p size bs e l = ground arith

  module _ (laws : IsMemory sys) where
    sync_loop-Synced :
        (n : ℕ) (cs ds : List Blob) (m : Machine C)
        → length cs ≡ n
        → AllFilled m.heap cs ds
        → AllApart cs
        → Ensures (Synced m cs ds) (sync_loop sys process n cs ds m)
    unfolding sync_loop write_memory
    sync_loop-Synced zero [] [] m e f ap_ =
        ensured (record { heap = refl; elsewhere = λ a n h. refl; written = λ _. tt })
    sync_loop-Synced zero [] (d ∷ ds) m e f ap_ = absurd f
    sync_loop-Synced zero (c ∷ cs) ds m e f ap_ = absurd (omega arith)
    sync_loop-Synced (suc n) [] ds m e f ap_ = absurd (omega arith)
    sync_loop-Synced (suc n) (c ∷ cs) [] m e f ap_ = absurd f
    sync_loop-Synced (suc n) (c ∷ cs) (d ∷ ds) m e f ap_ = elim (Bool-cases (is_shared c)) [
      | inl t ↦
          let (bs, held, sized) = f.0 t in
          let answer = sys.write_virtual m.client process c.ul_parameter bs c.max_buffer_size in
          rw (t, load_bytes-some m d.ul_parameter c.max_buffer_size bs held sized)
            (elim (Bool-cases (nt_success answer.0)) [
              | inl done ↦ rw done (
                  Ensures.weaken
                    (sync_loop-Synced n cs ds (record { heap = m.heap; client = answer.1 })
                      (omega arith) f.1 ap_.1)
                    λ fine m' s. record {
                      heap = s.heap;
                      elsewhere = λ a k apart.
                          s.elsewhere a k apart.1
                          ∙ laws.read_elsewhere m.client process c.ul_parameter bs c.max_buffer_size
                              a k (apart.0 t);
                      written = λ all.
                          let back : (sys.read_virtual m'.client process c.ul_parameter
                                c.max_buffer_size).1
                              ≡ bs =
                            ap (λ (r : ℕ × List ℕ). r.1)
                              (s.elsewhere c.ul_parameter c.max_buffer_size (ap_.0 t))
                            ∙ laws.read-write m.client process c.ul_parameter bs c.max_buffer_size
                                sized done in
                          (
                            λ _.
                                ap (λ (h : Heap). h d.ul_parameter) s.heap
                                ∙ held
                                ∙ ap (λ (x : List ℕ). some (bytes x)) (sym back),
                            s.written all,
                          );
                    })
              | inr failed ↦ rw failed (
                  ensured (record {
                    heap = refl;
                    elsewhere = λ a k apart.
                        laws.read_elsewhere m.client process c.ul_parameter bs c.max_buffer_size a k
                          (apart.0 t);
                    written = λ all. cc;
                  }))
            ])
      | inr x ↦ rw x (
          Ensures.weaken (sync_loop-Synced n cs ds m (omega arith) f.1 ap_.1) λ fine m' s. record {
            heap = s.heap;
            elsewhere = λ a k apart. s.elsewhere a k apart.1;
            written = λ all. (λ t. absurd (ground arith), s.written all);
          })
    ]

    -- On memory as IsMemory states, with client's buffers that do not overlap and a mapped list
    -- whose buffers have the sizes that the client's blobs state, RtlSyncMappedPtrParameters returns
    -- without a fault and leaves its own heap alone; it changes no byte outside the client's buffers;
    -- and if it returns true, the client reads in each of its buffers what the mapped one holds.
    pub sync-Synced :
        (p q : RoutineParameter) (mapped : ℕ) (m : Machine C)
        → IsWhole p
        → m.heap mapped ≡ some (parameters q)
        → AllFilled m.heap p.parameters q.parameters
        → AllApart p.parameters
        → Ensures (Synced m p.parameters q.parameters) (sync sys process p mapped m)
    unfolding sync
    sync-Synced p q mapped m w e f a =
        rw (load_parameters-some m mapped q e)
          (sync_loop-Synced p.parameter_count p.parameters q.parameters m w f a)
