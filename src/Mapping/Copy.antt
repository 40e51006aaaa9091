-- ===== src/Mapping/Copy.antt =====
-- One round of RtlMapPtrParameters.
use service_call.Base.{
  has-append, ◌||◌, ℕ, ◌≡◌, refl, ◌≢◌, true, false, Bool, not, ◌&&◌, List, [], ◌∷◌, ◌++◌, arith,
  none, some, if◌then◌else◌, Bool-cases, inl, inr, ◌==◌,
}
use mathlib.Core.List.{append-nil}
use service_call.Status.{nt_success}
use service_call.Parameter.{Blob, is_set, pt_bit, nl_bit}
use service_call.Memory.{
  Heap, Machine, System, PlacesFresh, ok, write, bytes, raw, new_nothrow, read_memory,
}
use service_call.Memory.Ensures.{Ensures, ensured}
use service_call.Memory.Owned.{Owned, Owned-snoc, Owned-rewrite}
use service_call.Mapping.Defs.{is_buffer, transfer, map_blob}
use service_call.Mapping.Unmap.{buffers}

-- Whether the client's bytes are copied: for each pointer but one that may be null and is.
unfoldable pub is_transferred : Blob → Bool
is_transferred b =
    is_set b.parameter_mask pt_bit
    && (not (is_set b.parameter_mask nl_bit) || not (b.ul_parameter == 0))

-- No buffer that is copied has size 0.
abbrev pub IsSized : List Blob → Type 0
IsSized [] = Unit {0}
IsSized (b ∷ bs) = (is_transferred b ≡ true → b.max_buffer_size ≢ 0) × IsSized bs

module _ {C : Type 0} (sys : System C) (process : ℕ) where
  -- `d` is what the routine is given for the client's blob `s`: the blob itself, or the blob with
  -- the address of a buffer, which `new` gave, that holds the client's bytes.
  abbrev pub Copied : C → Heap → Blob → Blob → Type 0
  Copied client h s d =
      if is_transferred s
      then (d ≡ record s { ul_parameter = d.ul_parameter })
        × (d.ul_parameter ≢ 0)
        × ((h' : Heap) × (n : ℕ) × (d.ul_parameter ≡ sys.place h' n))
        × (nt_success (sys.read_virtual client process s.ul_parameter s.max_buffer_size).0 ≡ true)
        × (h d.ul_parameter
            ≡ some (bytes (sys.read_virtual client process s.ul_parameter s.max_buffer_size).1))
      else (d ≡ s)

  -- After a round: the new buffers are owned, no block is changed, the client is as it was, and the
  -- blob is copied if the round went well.
  pub record Round (base : Heap) (xs : List ℕ) (m : Machine C) (b : Blob) (r : Bool × Blob)
      (m' : Machine C) : Type 0 where
    pub owned : Owned base (xs ++ buffers (r.1 ∷ [])) m'.heap
    pub kept : (a : ℕ) → m.heap a ≢ none → m'.heap a ≡ m.heap a
    pub client : m'.client ≡ m.client
    pub copied : r.0 ≡ true → Copied m.client m'.heap b r.1

  transfer-Round :
      (b : Blob) (base : Heap) (xs : List ℕ) (m : Machine C)
      → PlacesFresh sys
      → is_transferred b ≡ true
      → b.max_buffer_size ≢ 0
      → Owned base xs m.heap
      → Ensures (Round base xs m b) (transfer sys process b m)
  unfolding transfer new_nothrow read_memory is_transferred write
  transfer-Round b base xs m fresh t sized o =
      let q = sys.place m.heap b.max_buffer_size in
      elim (Bool-cases (q == 0)) [
        | inl z ↦
            let off : is_buffer (record b { ul_parameter = 0 }) ≡ false = ground arith in
            rw z (
              ensured (record {
                owned = rw (off, append-nil) o;
                kept = λ a ne. refl;
                client = refl;
                copied = λ e. cc;
              }))
        | inr nz ↦
            let free : m.heap q ≡ none = fresh m.heap b.max_buffer_size (ground arith) in
            let on : is_buffer (record b { ul_parameter = q }) ≡ true = ground arith in
            rw (nz, nz)
              (ensured (record {
                owned = rw on (
                    Owned-rewrite q _ (Owned-snoc q (raw b.max_buffer_size) o free)
                      (rw (has-append q xs (q ∷ [])) (ground arith)));
                kept = λ a ne. ground arith;
                client = refl;
                copied = λ e.
                    rw t (refl, ground arith, (m.heap, b.max_buffer_size, refl), e, ground arith);
              }))
      ]

  -- A round goes on without a fault, whatever the client's call and the allocation come to.
  pub map_blob-Round :
      (b : Blob) (base : Heap) (xs : List ℕ) (m : Machine C)
      → PlacesFresh sys
      → (is_transferred b ≡ true → b.max_buffer_size ≢ 0)
      → Owned base xs m.heap
      → Ensures (Round base xs m b) (map_blob sys process b m)
  unfolding is_transferred map_blob
  map_blob-Round b base xs m fresh sized o = elim (Bool-cases (is_transferred b)) [
    | inl t ↦
        let e : map_blob sys process b m ≡ transfer sys process b m = ground arith in
        rw e (transfer-Round b base xs m fresh t (sized t) o)
    | inr f ↦
        let e : map_blob sys process b m ≡ ok (true, b) m = ground arith in
        let off : is_buffer b ≡ false = ground arith in
        rw e (
          ensured (record {
            owned = rw (off, append-nil) o;
            kept = λ a ne. refl;
            client = refl;
            copied = λ _. rw f refl;
          }))
  ]
