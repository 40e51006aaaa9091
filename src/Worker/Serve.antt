-- ===== src/Worker/Serve.antt =====
-- One call of a service routine: what the routine finds, what the client gets back, and what is left.
use service_call.Base.{
  ℕ, ◌<◌, ◌^◌, ◌≡◌, refl, ◌≢◌, true, false, Bool, not, List, [], ◌∷◌, arith, Option, none, some,
  is_some, if◌then◌else◌, ◌⊎◌, inl, inr, ◌==◌, length, ◌∙◌, ap, subst, Distinct,
}
use service_call.Status.{status_invalid_parameter, status_access_denied}
use service_call.Parameter.{Arch, Blob, RoutineParameter, IsWhole, buffer_size}
use service_call.Memory.{
  IsMemory, Heap, Machine, System, PlacesFresh, ok, bad_alloc, Block, bytes, parameters, write,
}
use service_call.Memory.Ensures
use service_call.Memory.Ensures.{Ensures, ensured}
use service_call.Memory.Owned.{Owned, Owned-used}
use service_call.Memory.Write.{write_self}
use service_call.Mapping.Unmap.{buffers, unmap-without, without, load_parameters-some}
use service_call.Mapping.Copy.{is_transferred, IsSized}
use service_call.Mapping.Map.{IsBenign, AllCopied, map_parameters-Outcome}
use service_call.Mapping.Sync.{AllApart, AllFilled, AllWritten, sync-Synced}
use service_call.Worker.Defs.{Routine, arguments, serve, serve_mapped}

-- A block of the same kind: a parameter list is the same, a buffer has as many bytes.
abbrev pub SameKind : Option Block → Option Block → Type 0
SameKind b c =
    (is_some c ≡ is_some b)
    × ((q : RoutineParameter) → b ≡ some (parameters q) → c ≡ some (parameters q))
    × ((bs : List ℕ)
        → b ≡ some (bytes bs)
        → (cs : List ℕ) × (c ≡ some (bytes cs)) × (length cs ≡ length bs))

module _ {C : Type 0} where
  -- What the library asks of a routine: it returns, and it may write into buffers, but neither frees
  -- nor resizes the blocks that it finds, nor leaves new ones behind, nor touches parameter lists.
  pub record IsTidy (routine : Routine C) : Type 0 where
    pub returns :
        (args : List ℕ) (m : Machine C)
        → Ensures (λ _ m'. (a : ℕ) → SameKind (m.heap a) (m'.heap a)) (routine args m)

-- Less the blocks that it owns and the list at `tmp`, a heap is in use where `base` is.
shape-without :
    (base h g : Heap) (tmp : ℕ) (b : Block) (xs : List ℕ)
    → base tmp ≡ none
    → Owned (write base tmp (some b)) xs h
    → ((a : ℕ) → is_some (g a) ≡ is_some (h a))
    → (a : ℕ) → is_some (without (tmp ∷ xs) g a) ≡ is_some (base a)
unfolding write
shape-without base h g tmp b xs free own shape a = ground (arith, own.fresh a, own.same a, shape a)

-- The status that is sent, by the result of the copies back.
answer :
    (fine : Bool) (r : ℕ) {X : Type 0}
    → (fine ≡ true → X)
    → (((if not fine then status_access_denied else r) ≡ r) × X)
      ⊎ ((if not fine then status_access_denied else r) ≡ status_access_denied)
answer true r x = inl (refl, x refl)
answer false r x = inr refl

module _ {C : Type 0} (sys : System C) (process : ℕ) where
  copied-AllFilled :
      (client : C) (h g : Heap) (ss ds : List Blob)
      → IsMemory sys
      → ((a : ℕ) → SameKind (h a) (g a))
      → AllCopied sys process client h ss ds
      → AllFilled sys process g ss ds
  unfolding is_transferred
  copied-AllFilled client h g [] [] laws same c = tt
  copied-AllFilled client h g [] (d ∷ ds) laws same c = c
  copied-AllFilled client h g (s ∷ ss) [] laws same c = c
  copied-AllFilled client h g (s ∷ ss) (d ∷ ds) laws same c = (
    λ t.
        let t' : is_transferred s ≡ true = ground arith in
        let (_, _, _, fine, held) = rw t' at c.0 in
        let (cs, e, l) = (same d.ul_parameter).2 _ held in
        (cs, e, l ∙ laws.fills client process s.ul_parameter s.max_buffer_size fine),
    copied-AllFilled client h g ss ds laws same c.1,
  )

  -- One call: the routine is called once, on distinct copies of the client's buffers; it returns `result`; and
  -- the client either gets that status and finds in its buffers what the routine left in the copies,
  -- or gets STATUS_ACCESS_DENIED.
  pub record Served (arch : Arch) (routine : Routine C) (p : RoutineParameter) (m : Machine C)
      (status : ℕ) (m' : Machine C) : Type 0 where
    pub mapped : List Blob
    pub before : Machine C
    pub result : ℕ
    pub after : Machine C
    pub copied : AllCopied sys process m.client before.heap p.parameters mapped
    pub distinct : Distinct (buffers mapped)
    pub arrived : before.client ≡ m.client
    pub called : routine (arguments arch p.parameter_count mapped) before ≡ ok result after
    pub answered :
        ((status ≡ result) × AllWritten sys process m'.client after.heap p.parameters mapped)
        ⊎ (status ≡ status_access_denied)

  -- What a call comes to. In each case the heap has blocks at the addresses where it had some.
  abbrev pub Call : Arch → Routine C → RoutineParameter → Machine C → ℕ → Machine C → Type 0
  Call arch routine p m status m' =
      ((a : ℕ) → is_some (m'.heap a) ≡ is_some (m.heap a))
      × (((status ≡ status_invalid_parameter) × (m'.client ≡ m.client))
          ⊎ Served arch routine p m status m')

  module _ (fresh : PlacesFresh sys) (benign : IsBenign sys) (laws : IsMemory sys) (arch : Arch)
      (routine : Routine C) (tidy : IsTidy routine) (p : RoutineParameter) where
    served :
        (m m1 : Machine C) (tmp : ℕ) (ds : List Blob)
        → let q : RoutineParameter = record {
          parameter_count = p.parameter_count;
          parameters = ds;
        } in
          IsWhole p
          → AllApart p.parameters
          → tmp ≢ 0
          → m.heap tmp ≡ none
          → m1.client ≡ m.client
          → length ds ≡ p.parameter_count
          → Owned (write m.heap tmp (some (parameters q))) (buffers ds) m1.heap
          → AllCopied sys process m.client m1.heap p.parameters ds
          → Ensures (Call arch routine p m) (serve_mapped sys arch process routine p tmp m1)
    unfolding serve_mapped
    served m m1 tmp ds w apart ne free ec l own cp =
        let q : RoutineParameter = record {
          parameter_count = p.parameter_count;
          parameters = ds;
        } in
        let base = write m.heap tmp (some (parameters q)) in
        let at_tmp = write_self m.heap tmp (some (parameters q)) in
        let out = Owned-used tmp own (rw at_tmp refl) in
        let here : m1.heap tmp ≡ some (parameters q) = own.same tmp out ∙ at_tmp in
        let args = arguments arch p.parameter_count ds in
        let (r, m2, called, same) = Ensures.invert (tidy.returns args m1) in
        let there = (same tmp).1 q here in
        let (fine, m3, synced, s) = Ensures.invert (
          sync-Synced sys process laws p q tmp m2 w there
            (copied-AllFilled m.client m1.heap m2.heap p.parameters ds laws same cp) apart) in
        let heap : m3.heap ≡ m2.heap = s.heap in
        let freed =
          unmap-without tmp q m3 ne l (ap (λ (h : Heap). h tmp) heap ∙ there) (out, own.distinct)
            (λ a i. ap (λ (h : Heap). is_some (h a)) heap ∙ (same a).0 ∙ own.live a i) in
        rw (load_parameters-some m1 tmp q here, called, synced, freed)
          (ensured (
            shape-without m.heap m1.heap m3.heap tmp (parameters q) (buffers ds) free own
                (λ a. ap (λ (h : Heap). is_some (h a)) heap ∙ (same a).0),
            inr (record {
              mapped = ds;
              before = m1;
              result = r;
              after = m2;
              copied = cp;
              distinct = own.distinct;
              arrived = ec;
              called = called;
              answered = answer fine r (λ t.
                  subst (λ (h : Heap). AllWritten sys process m3.client h p.parameters ds) heap
                    (s.written t));
            }),
          ))

    -- If `new` gives unused addresses and leaves nothing in them that looks like a buffer, reads and
    -- writes of the client's memory behave as memory does, and the routine is tidy, then for
    -- parameters with as many blobs as declared, fewer than 2^28, whose copied buffers are not empty and do not
    -- overlap, a call either throws `bad_alloc` before anything is done, or returns. Then the heap
    -- has blocks at the addresses where it had some, and either the client gets
    -- STATUS_INVALID_PARAMETER and keeps its memory, or the routine was called once, on copies of
    -- the client's buffers, and the client gets its status and finds in its buffers what the
    -- routine left in the copies, or gets STATUS_ACCESS_DENIED.
    pub serve-Call :
        (m : Machine C)
        → IsWhole p
        → p.parameter_count < 2 ^ 28
        → IsSized p.parameters
        → AllApart p.parameters
        → ((sys.place m.heap (buffer_size arch p.parameter_count) ≡ 0)
            × (serve sys arch process routine p m ≡ bad_alloc))
          ⊎ Ensures (Call arch routine p m) (serve sys arch process routine p m)
    unfolding serve
    serve-Call m w small sized apart =
        let tmp = sys.place m.heap (buffer_size arch p.parameter_count) in
        elim (map_parameters-Outcome sys process arch p m fresh benign w small sized) [
          | inl (z, e) ↦ inl (z, rw e refl)
          | inr (ne, o) ↦ inr (
              Ensures.chain o λ mapped m1 (ec, c). elim c [
                | inl (z, h) ↦
                    rw z (ensured ((λ a. ap (λ (g : Heap). is_some (g a)) h), inl (refl, ec)))
                | inr (e, ds, l, own, cp) ↦
                    let nonzero : (tmp == 0) ≡ false = ground arith in
                    rw (e, nonzero) (served m m1 tmp ds w apart ne (fresh m.heap _ ne) ec l own cp)
              ])
        ]
