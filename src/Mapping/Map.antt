-- ===== src/Mapping/Map.antt =====
-- RtlMapPtrParameters: what it copies in, and what it leaves behind.
use service_call.Base.{
  ℕ, zero, suc, ◌+◌, ◌<◌, ◌^◌, ◌≡◌, refl, ◌≢◌, false, List, [], ◌∷◌, ◌++◌, arith, none, some,
  Bool-cases, ◌⊎◌, inl, inr, ◌==◌, length, length-append, ◌∙◌, sym, ap, subst,
}
use mathlib.Core.List.{append-nil, append_assoc}
use service_call.Parameter.{Arch, Blob, RoutineParameter, IsWhole, buffer_size}
use service_call.Memory.{
  Heap, Machine, System, PlacesFresh, ok, write, bytes, raw, parameters, new_array, bad_alloc,
}
use service_call.Memory.Ensures
use service_call.Memory.Ensures.{Ensures, ensured}
use service_call.Memory.Write.{write_self, write-write, write_back}
use service_call.Memory.Owned.{Owned, Owned-none, Owned-used, Owned-write}
use service_call.Mapping.Defs.{is_buffer, stale_from, map_loop, map_parameters, unmap}
use service_call.Mapping.Room.{is_room_small}
use service_call.Mapping.Unmap.{buffers, buffers-append, unmap-Owned}
use service_call.Mapping.Copy.{is_transferred, IsSized, Copied, map_blob-Round}

module _ {C : Type 0} (sys : System C) where
  -- What `new` leaves in a fresh block does not look like a buffer.
  abbrev pub IsBenign : Type 0
  IsBenign = (i : ℕ) → is_buffer (sys.stale i) ≡ false

  stale_from-buffers : IsBenign → (i n : ℕ) → buffers (stale_from sys i n) ≡ []
  unfolding stale_from
  stale_from-buffers benign i zero = refl
  stale_from-buffers benign i (suc n) = rw (benign i) (stale_from-buffers benign (i + 1) n)

  length-stale_from : (i n : ℕ) → length (stale_from sys i n) ≡ n
  unfolding stale_from
  length-stale_from i zero = refl
  length-stale_from i (suc n) = ap suc (length-stale_from (i + 1) n)

module _ {C : Type 0} (sys : System C) (process : ℕ) where
  -- Every blob is copied.
  abbrev pub AllCopied : C → Heap → List Blob → List Blob → Type 0
  AllCopied client h [] [] = Unit {0}
  AllCopied client h [] (d ∷ ds) = ⊥
  AllCopied client h (s ∷ ss) [] = ⊥
  AllCopied client h (s ∷ ss) (d ∷ ds) = Copied sys process client h s d × AllCopied client h ss ds

  Copied-frame :
      (client : C) (h h' : Heap) (s d : Blob)
      → ((a : ℕ) (bs : List ℕ) → h a ≡ some (bytes bs) → h' a ≡ some (bytes bs))
      → Copied sys process client h s d
      → Copied sys process client h' s d
  Copied-frame client h h' s d same c = elim (Bool-cases (is_transferred s)) [
    | inl t ↦ let c' = rw t at c in rw t (c'.0, c'.1, c'.2, c'.3, same _ _ c'.4)
    | inr f ↦ rw f (rw f at c)
  ]

  AllCopied-frame :
      (client : C) (h h' : Heap) (ss ds : List Blob)
      → ((a : ℕ) (bs : List ℕ) → h a ≡ some (bytes bs) → h' a ≡ some (bytes bs))
      → AllCopied client h ss ds
      → AllCopied client h' ss ds
  AllCopied-frame client h h' [] [] same c = tt
  AllCopied-frame client h h' [] (d ∷ ds) same c = c
  AllCopied-frame client h h' (s ∷ ss) [] same c = c
  AllCopied-frame client h h' (s ∷ ss) (d ∷ ds) same c =
      (Copied-frame client h h' s d same c.0, AllCopied-frame client h h' ss ds same c.1)

  AllCopied-snoc :
      (client : C) (h : Heap) (ss ds : List Blob) (s d : Blob)
      → AllCopied client h ss ds
      → Copied sys process client h s d
      → AllCopied client h (ss ++ s ∷ []) (ds ++ d ∷ [])
  AllCopied-snoc client h [] [] s d c x = (x, tt)
  AllCopied-snoc client h [] (e ∷ ds) s d c x = absurd c
  AllCopied-snoc client h (r ∷ ss) [] s d c x = absurd c
  AllCopied-snoc client h (r ∷ ss) (e ∷ ds) s d c x = (c.0, AllCopied-snoc client h ss ds s d c.1 x)

  -- Either the null pointer, with the heap as `before`; or `tmp`, where a
  -- list of `count` blobs stands, whose buffers are owned and hold the client's bytes.
  abbrev pub Outcome :
      (before base : Heap) → (tmp count : ℕ) → C → List Blob → ℕ → Machine C → Type 0
  Outcome before base tmp count client src p m' =
      (m'.client ≡ client)
      × (((p ≡ 0) × (m'.heap ≡ before))
          ⊎ ((p ≡ tmp)
              × (ds : List Blob) × (length ds ≡ count)
              × Owned
                  (write base tmp
                    (some (parameters (record { parameter_count = count; parameters = ds }))))
                  (buffers ds) m'.heap
              × AllCopied client m'.heap src ds))

  module _ (client : C) (all : List Blob) (fresh : PlacesFresh sys) (benign : IsBenign sys)
      (base : Heap) (tmp k count : ℕ) (ne : tmp ≢ 0) (at_tmp : base tmp ≡ some (raw k)) where
    -- A list in the making is given up: `unmap` deletes what is owned, and the list.
    give_up :
        (bs : List Blob) (m : Machine C)
        → length bs ≡ count
        → Owned base (buffers bs) m.heap
        → let q : RoutineParameter = record { parameter_count = count; parameters = bs } in
          unmap tmp (record m { heap = write m.heap tmp (some (parameters q)) })
          ≡ ok tt (record m { heap = write base tmp none })
    give_up bs m e o =
        unmap-Owned tmp _ (write base tmp (some (parameters _))) _ ne e (write_self base tmp _)
          (Owned-write tmp _ o (Owned-used tmp o (rw at_tmp refl)))
        ∙ ap (λ (h : Heap). ok tt (record { heap = h; client = m.client }))
            (write-write base tmp _ none)

    map_loop-Outcome :
        (n : ℕ) (pre src done : List Blob) (m : Machine C)
        → m.client ≡ client
        → pre ++ src ≡ all
        → length src ≡ n
        → length done + n ≡ count
        → IsSized src
        → Owned base (buffers done) m.heap
        → AllCopied client m.heap pre done
        → Ensures
            (Outcome (write base tmp none) base tmp count client all)
            (map_loop sys process tmp count n src done m)
    unfolding map_loop write
    map_loop-Outcome zero pre [] done m ec ea e f sized o c = ensured (
      ec,
      inr (
        refl,
        done,
        omega arith,
        Owned-write tmp _ o (Owned-used tmp o (rw at_tmp refl)),
        subst
            (λ ss.
              AllCopied client
                (write m.heap tmp
                  (some (parameters (record { parameter_count = count; parameters = done }))))
                ss done)
            (sym (append-nil pre) ∙ ea)
            (AllCopied-frame client m.heap _ pre done
              (λ a bs h. ground (arith, o.same a, Owned-used tmp o (rw at_tmp refl), o.same tmp))
              c),
      ),
    )
    map_loop-Outcome zero pre (b ∷ src) done m ec ea e f sized o c = absurd (omega arith)
    map_loop-Outcome (suc n) pre [] done m ec ea e f sized o c = absurd (omega arith)
    map_loop-Outcome (suc n) pre (b ∷ src) done m ec ea e f sized o c =
        Ensures.chain (map_blob-Round sys process b base (buffers done) m fresh sized.0 o)
          λ (fine, b') m' r.
            let o' : Owned base (buffers (done ++ b' ∷ [])) m'.heap =
              rw (buffers-append done (b' ∷ [])) r.owned in
            elim (Bool-cases fine) [
              | inl t ↦ rw t (
                  map_loop-Outcome n (pre ++ b ∷ []) src (done ++ b' ∷ []) m' (r.client ∙ ec)
                    (append_assoc pre (b ∷ []) src ∙ ea) (omega arith)
                    (omega (arith, length-append done (b' ∷ []))) sized.1 o'
                    (AllCopied-snoc client m'.heap pre done b b'
                      (AllCopied-frame client m.heap m'.heap pre done
                        (λ a bs h. r.kept a (λ e. cc) ∙ h) c)
                      (subst (λ x. Copied sys process x m'.heap b b') ec (r.copied t))))
              | inr t ↦
                  let rest = stale_from sys (length done + 1) n in
                  let still : buffers (done ++ b' ∷ rest) ≡ buffers (done ++ b' ∷ []) = rw (
                    buffers-append done (b' ∷ rest),
                    buffers-append done (b' ∷ []),
                    stale_from-buffers sys benign (length done + 1) n,
                  ) in
                  let gone =
                    give_up (done ++ b' ∷ rest) m'
                      (omega (
                        arith,
                        length-append done (b' ∷ rest),
                        length-stale_from sys (length done + 1) n,
                      ))
                      (rw still o') in
                  rw (t, gone) (ensured (r.client ∙ ec, inl (refl, refl)))
            ]

  -- If `new` gives unused addresses, what it leaves in a block does not look like a buffer, no copied
  -- buffer has size 0 and there are as many blobs as declared, fewer than 2^28, then it either
  -- throws `bad_alloc`, or returns null with the heap as it was, or returns a new list: a copy of
  -- the client's in which each pointer is the address of a buffer of its own that holds the bytes
  -- that were read. The other blocks and the client stay as they were.
  pub map_parameters-Outcome :
      (arch : Arch) (p : RoutineParameter) (m : Machine C)
      → PlacesFresh sys
      → IsBenign sys
      → IsWhole p
      → p.parameter_count < 2 ^ 28
      → IsSized p.parameters
      → let tmp = sys.place m.heap (buffer_size arch p.parameter_count) in
        ((tmp ≡ 0) × (map_parameters sys arch process p m ≡ bad_alloc))
        ⊎ ((tmp ≢ 0)
            × Ensures
                (Outcome m.heap m.heap tmp p.parameter_count m.client p.parameters)
                (map_parameters sys arch process p m))
  unfolding map_parameters new_array write
  map_parameters-Outcome arch p m fresh benign w small sized =
      let room = is_room_small arch p.parameter_count small in
      let size = buffer_size arch p.parameter_count in
      let tmp = sys.place m.heap size in
      elim (Bool-cases (tmp == 0)) [
        | inl z ↦ inl (ground arith, rw z refl)
        | inr nz ↦
            let ne : tmp ≢ 0 = ground arith in
            let base = write m.heap tmp (some (raw size)) in
            let free : m.heap tmp ≡ none = fresh m.heap size ne in
            inr (
              ne,
              rw (nz, room)
                  (Ensures.weaken
                    (map_loop-Outcome m.client p.parameters fresh benign base tmp size
                      p.parameter_count ne (ground arith) p.parameter_count [] p.parameters []
                      (record m { heap = base }) refl refl w (omega arith) sized (Owned-none base)
                      tt)
                    λ a m' (c, o). (
                      c,
                      elim o [
                        | inl (z, h) ↦ inl (z, h ∙ write_back m.heap tmp (some (raw size)) free)
                        | inr (e, ds, l, own, all) ↦ inr (
                          e,
                          ds,
                          l,
                          subst (λ (h : Heap). Owned h (buffers ds) m'.heap)
                              (write-write m.heap tmp (some (raw size)) _) own,
                          all,
                        )
                      ],
                    )),
            )
      ]
