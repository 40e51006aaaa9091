-- ===== src/Worker/Rpc.antt =====
-- A service call of WorkerThread, for a routine that computes a function of values and buffers.
use service_call.Base.{
  ℕ, ◌^◌, ◌<◌, ◌≡◌, subst, sym, ◌∙◌, ◌⊎◌, inl, inr, true, List, ◌∷◌, is_some, Distinct, length,
}
use service_call.Status.{status_invalid_parameter, status_access_denied}
use service_call.Parameter.{Arch, RoutineParameter, IsWhole, buffer_size}
use service_call.Memory.{IsMemory, Machine, System, PlacesFresh, ok, bad_alloc}
use service_call.Memory.Ensures
use service_call.Memory.Ensures.{Ensures, ensured}
use service_call.Mapping.Copy.{IsSized}
use service_call.Mapping.Map.{IsBenign}
use service_call.Mapping.Sync.{AllApart, AllWritten}
use service_call.Client.Status.{none_missing}
use service_call.Worker.Defs.{Routine, arguments, serve}
use service_call.Worker.Serve.{IsTidy, Served, Call, serve-Call}
use service_call.Worker.Items.{
  Item, AllRead, addresses, Computes, client_items, PlacesFit, copied-AllRead, length-AllCopied,
  addresses-buffers, client_items-written, buffers-null,
}

module _ {C : Type 0} (sys : System C) (process : ℕ) (arch : Arch) where
  -- What comes of a call of `f`: the client keeps its memory with STATUS_INVALID_PARAMETER, it gets
  -- STATUS_ACCESS_DENIED, or it gets the status that `f` gives, and its buffers are as `f` gives them.
  abbrev pub Applied :
      (List Item → ℕ × List Item) → RoutineParameter → Machine C → ℕ → Machine C → Type 0
  Applied f p m status m' =
      ((a : ℕ) → is_some (m'.heap a) ≡ is_some (m.heap a))
      × (((status ≡ status_invalid_parameter) × (m'.client ≡ m.client))
          ⊎ ((status ≡ status_access_denied)
              ⊎ ((status ≡ (f (client_items sys process arch m.client p.parameters)).0)
                  × (client_items sys process arch m'.client p.parameters
                      ≡ (f (client_items sys process arch m.client p.parameters)).1))))

  module _ (fresh : PlacesFresh sys) (fit : PlacesFit sys process arch) (benign : IsBenign sys)
      (laws : IsMemory sys) (routine : Routine C) (tidy : IsTidy routine)
      (domain : List Item → Type 0) (f : List Item → ℕ × List Item)
      (computes : Computes routine domain f) where
    Served-Applied :
        (p : RoutineParameter) (m : Machine C) (status : ℕ) (m' : Machine C)
        → IsWhole p
        → IsSized p.parameters
        → none_missing p.parameters ≡ true
        → domain (client_items sys process arch m.client p.parameters)
        → (s : Served sys process arch routine p m status m') → status ≡ s.result
        → AllWritten sys process m'.client s.after.heap p.parameters s.mapped
        → (status ≡ (f (client_items sys process arch m.client p.parameters)).0)
          × (client_items sys process arch m'.client p.parameters
              ≡ (f (client_items sys process arch m.client p.parameters)).1)
    Served-Applied p m status m' w sized nm fits s same written =
        let items = client_items sys process arch m.client p.parameters in
        let long : length s.mapped ≡ p.parameter_count =
          length-AllCopied sys process arch m.client s.before.heap p.parameters s.mapped s.copied
          ∙ w in
        let args = arguments arch (length s.mapped) s.mapped in
        let read =
          copied-AllRead sys process arch m.client s.before.heap p.parameters s.mapped fit
            s.copied in
        let apart : Distinct (0 ∷ addresses args items) =
          rw
            (addresses-buffers sys process arch m.client s.before.heap p.parameters s.mapped fit
              sized s.copied)
            (buffers-null s.mapped, s.distinct) in
        let (after, ran, left) = computes.runs args items s.before fits read apart in
        let called : routine args s.before ≡ ok s.result s.after =
          subst (λ n. routine (arguments arch n s.mapped) s.before ≡ ok s.result s.after) (sym long)
            s.called in
        let found : s.result ≡ (f items).0 = cc in
        let where_ : s.after ≡ after = cc in
        (
          same ∙ found,
          client_items-written sys process arch m.client m'.client s.before.heap s.after.heap
              p.parameters s.mapped (f items).1 fit nm s.copied (computes.shape items fits)
              (subst (λ (x : Machine C). AllRead x.heap args (f items).1) (sym where_) left)
              written,
        )

    pub Call-Applied :
        (p : RoutineParameter) (m : Machine C) (status : ℕ) (m' : Machine C)
        → IsWhole p
        → IsSized p.parameters
        → none_missing p.parameters ≡ true
        → domain (client_items sys process arch m.client p.parameters)
        → Call sys process arch routine p m status m'
        → Applied f p m status m'
    Call-Applied p m status m' w sized nm fits (shape, out) = (
      shape,
      elim out [
        | inl refused ↦ inl refused
        | inr s ↦ inr (elim s.answered [
          | inr denied ↦ inl denied
          | inl (same, written) ↦ inr (Served-Applied p m status m' w sized nm fits s same written)
        ])
      ],
    )

    -- With as many blobs as declared, fewer than 2^28, sized, disjoint buffers and no null pointer that may not be
    -- null, on memory and a `new` that behave, of which the addresses fit in a pointer, and with a tidy
    -- routine that computes `f`: a call throws `bad_alloc` before anything is done, or applies `f` to
    -- the client's values and buffers in place.
    pub serve-Applied :
        (p : RoutineParameter) (m : Machine C)
        → IsWhole p
        → p.parameter_count < 2 ^ 28
        → IsSized p.parameters
        → AllApart p.parameters
        → none_missing p.parameters ≡ true
        → domain (client_items sys process arch m.client p.parameters)
        → ((sys.place m.heap (buffer_size arch p.parameter_count) ≡ 0)
            × (serve sys arch process routine p m ≡ bad_alloc))
          ⊎ Ensures (Applied f p m) (serve sys arch process routine p m)
    serve-Applied p m w small sized apart nm fits =
        elim (serve-Call sys process fresh benign laws arch routine tidy p m w small sized apart) [
          | inl none_left ↦ inl none_left
          | inr c ↦ inr (Ensures.weaken c λ status m'. Call-Applied p m status m' w sized nm fits)
        ]
