-- ===== src/Worker/Items.antt =====
-- What a routine is given and leaves behind, as values and bytes, and the client's view of it.
use service_call.Base.{
  has, ℕ, suc, ◌<◌, ◌≡◌, refl, ◌≢◌, ap, ◌∙◌, inl, inr, true, false, List, [], ◌∷◌, some, arith,
  Distinct, if◌then◌else◌, length, Bool-cases,
}
use service_call.Parameter.{Arch, x86, x64, Blob, size_mod}
use service_call.Memory.{Heap, Machine, System, ok, bytes}
use service_call.Mapping.Defs.{is_buffer}
use service_call.Mapping.Unmap.{buffers}
use service_call.Mapping.Copy.{is_transferred, IsSized}
use service_call.Mapping.Map.{AllCopied}
use service_call.Mapping.Sync.{AllWritten, is_shared}
use service_call.Client.Defs.{is_missing}
use service_call.Client.Status.{none_missing}
use service_call.Worker.Defs.{Routine, argument, arguments}

-- What a routine is given for a parameter: a value, or the bytes of a buffer.
pub data Item : Type 0 where
  plain : ℕ → Item
  buffer : List ℕ → Item

-- Results have the values of the arguments, and buffers of the same sizes.
abbrev pub SameShape : List Item → List Item → Type 0
SameShape [] [] = Unit {0}
SameShape (plain v ∷ is) (plain w ∷ js) = (v ≡ w) × SameShape is js
SameShape (buffer bs ∷ is) (buffer cs ∷ js) = (length cs ≡ length bs) × SameShape is js
SameShape _ _ = ⊥

-- The arguments of a routine stand for the items: a value for itself, an address for what is there.
abbrev pub AllRead : Heap → List ℕ → List Item → Type 0
AllRead h [] [] = Unit {0}
AllRead h (a ∷ args) (plain v ∷ is) = (a ≡ v) × AllRead h args is
AllRead h (a ∷ args) (buffer bs ∷ is) = (h a ≡ some (bytes bs)) × AllRead h args is
AllRead h _ _ = ⊥

-- The arguments that are addresses.
abbrev pub addresses : List ℕ → List Item → List ℕ
addresses [] is = []
addresses (a ∷ args) [] = []
addresses (a ∷ args) (plain v ∷ is) = addresses args is
addresses (a ∷ args) (buffer bs ∷ is) = a ∷ addresses args is

-- On arguments that it is made for, with buffers that are distinct and not at null, a routine returns what
-- `f` gives, and leaves in its buffers what `f` gives.
pub record Computes {C : Type 0} (routine : Routine C) (domain : List Item → Type 0)
    (f : List Item → ℕ × List Item) : Type 0 where
  pub shape : (is : List Item) → domain is → SameShape is (f is).1
  pub runs :
      (args : List ℕ) (is : List Item) (m : Machine C)
      → domain is
      → AllRead m.heap args is
      → Distinct (0 ∷ addresses args is)
      → (after : Machine C) × (routine args m ≡ ok (f is).0 after)
        × AllRead after.heap args (f is).1

argument-small :
    (arch : Arch) (d : Blob) → d.ul_parameter < size_mod arch → argument arch d ≡ d.ul_parameter
unfolding argument
argument-small x86 d h = omega arith
argument-small x64 d h = omega arith

copy-is_buffer :
    (s d : Blob)
    → is_transferred s ≡ true
    → d ≡ record s { ul_parameter = d.ul_parameter }
    → d.ul_parameter ≢ 0
    → s.max_buffer_size ≢ 0
    → is_buffer d ≡ true
unfolding is_transferred
copy-is_buffer s d t same ne sized =
    let mask : d.parameter_mask ≡ s.parameter_mask = ap (λ (b : Blob). b.parameter_mask) same in
    let size : d.max_buffer_size ≡ s.max_buffer_size = ap (λ (b : Blob). b.max_buffer_size) same in
    ground arith

kept-is_buffer : (s d : Blob) → is_transferred s ≡ false → d ≡ s → is_buffer d ≡ false
unfolding is_transferred
kept-is_buffer s d f same = rw same (ground arith)

transferred_shared :
    (s : Blob) → is_transferred s ≡ true → is_missing s ≡ false → is_shared s ≡ true
unfolding is_transferred
transferred_shared s t m = ground arith

-- An item that came back, and the items behind it.
buffer_back :
    (g : Heap) (a : ℕ) (bs new : List ℕ) (args : List ℕ) (xs ys items : List Item)
    → g a ≡ some (bytes new)
    → SameShape (buffer bs ∷ xs) items
    → AllRead g (a ∷ args) items
    → ((js : List Item) → SameShape xs js → AllRead g args js → ys ≡ js)
    → buffer new ∷ ys ≡ items
buffer_back g a bs new args xs ys [] e sh r next = absurd sh
buffer_back g a bs new args xs ys (plain v ∷ js) e sh r next = absurd sh
buffer_back g a bs new args xs ys (buffer cs ∷ js) e sh r next =
    let rest = next js sh.1 r.1 in let here = r.0 in let same : new ≡ cs = cc in cc

plain_back :
    (g : Heap) (a v : ℕ) (args : List ℕ) (xs ys items : List Item)
    → SameShape (plain v ∷ xs) items
    → AllRead g (a ∷ args) items
    → ((js : List Item) → SameShape xs js → AllRead g args js → ys ≡ js)
    → plain v ∷ ys ≡ items
plain_back g a v args xs ys [] sh r next = absurd sh
plain_back g a v args xs ys (plain w ∷ js) sh r next =
    let rest = next js sh.1 r.1 in let same = sh.0 in cc
plain_back g a v args xs ys (buffer cs ∷ js) sh r next = absurd sh

-- No buffer is at null.
pub buffers-null : (bs : List Blob) → has 0 (buffers bs) ≡ false
buffers-null [] = refl
buffers-null (b ∷ bs) = let rest = buffers-null bs in ground arith

module _ {C : Type 0} (sys : System C) (process : ℕ) (arch : Arch) where
  -- What a client hands over: its values, and the bytes of the buffers that are copied.
  abbrev pub client_items : C → List Blob → List Item
  client_items client [] = []
  client_items client (b ∷ bs) =
      (if is_transferred b
        then buffer (sys.read_virtual client process b.ul_parameter b.max_buffer_size).1
        else plain (argument arch b))
      ∷ client_items client bs

  -- The addresses that `new` gives are pointers of the build.
  abbrev pub PlacesFit : Type 0
  PlacesFit = (h : Heap) (n : ℕ) → sys.place h n < size_mod arch

  argument-placed :
      PlacesFit
      → (d : Blob) (h : Heap) (n : ℕ) → d.ul_parameter ≡ sys.place h n
      → argument arch d ≡ d.ul_parameter
  argument-placed fit d h n e = argument-small arch d (omega (arith, fit h n))

  pub copied-AllRead :
      (client : C) (h : Heap) (ss ds : List Blob)
      → PlacesFit
      → AllCopied sys process client h ss ds
      → AllRead h (arguments arch (length ds) ds) (client_items client ss)
  unfolding arguments
  copied-AllRead client h [] [] fit c = tt
  copied-AllRead client h [] (d ∷ ds) fit c = absurd c
  copied-AllRead client h (s ∷ ss) [] fit c = absurd c
  copied-AllRead client h (s ∷ ss) (d ∷ ds) fit c = elim (Bool-cases (is_transferred s)) [
    | inl t ↦
        let (_, _, (h', n, e), _, held) = rw t at c.0 in
        rw (t, argument-placed fit d h' n e) (held, copied-AllRead client h ss ds fit c.1)
    | inr f ↦ rw f (ap (argument arch) (rw f at c.0), copied-AllRead client h ss ds fit c.1)
  ]

  pub length-AllCopied :
      (client : C) (h : Heap) (ss ds : List Blob)
      → AllCopied sys process client h ss ds
      → length ds ≡ length ss
  length-AllCopied client h [] [] c = refl
  length-AllCopied client h [] (d ∷ ds) c = absurd c
  length-AllCopied client h (s ∷ ss) [] c = absurd c
  length-AllCopied client h (s ∷ ss) (d ∷ ds) c = ap suc (length-AllCopied client h ss ds c.1)

  -- The addresses among the arguments are those of the copies.
  pub addresses-buffers :
      (client : C) (h : Heap) (ss ds : List Blob)
      → PlacesFit
      → IsSized ss
      → AllCopied sys process client h ss ds
      → addresses (arguments arch (length ds) ds) (client_items client ss) ≡ buffers ds
  unfolding arguments
  addresses-buffers client h [] [] fit z c = refl
  addresses-buffers client h [] (d ∷ ds) fit z c = absurd c
  addresses-buffers client h (s ∷ ss) [] fit z c = absurd c
  addresses-buffers client h (s ∷ ss) (d ∷ ds) fit z c =
      let rest = addresses-buffers client h ss ds fit z.1 c.1 in
      elim (Bool-cases (is_transferred s)) [
        | inl t ↦
            let (same, ne, (h', n, e), _, _) = rw t at c.0 in
            let on = copy-is_buffer s d t same ne (z.0 t) in
            rw (t, on, argument-placed fit d h' n e) (ap (λ xs. d.ul_parameter ∷ xs) rest)
        | inr f ↦ let off = kept-is_buffer s d f (rw f at c.0) in rw (f, off) rest
      ]

  -- What the client reads after the copies back is what the routine left.
  pub client_items-written :
      (before after : C) (h g : Heap) (ss ds : List Blob) (items : List Item)
      → PlacesFit
      → none_missing ss ≡ true
      → AllCopied sys process before h ss ds
      → SameShape (client_items before ss) items
      → AllRead g (arguments arch (length ds) ds) items
      → AllWritten sys process after g ss ds
      → client_items after ss ≡ items
  unfolding arguments
  client_items-written before after h g [] [] [] fit nm c sh r w = refl
  client_items-written before after h g [] [] (i ∷ is) fit nm c sh r w = absurd sh
  client_items-written before after h g [] (d ∷ ds) is fit nm c sh r w = absurd c
  client_items-written before after h g (s ∷ ss) [] is fit nm c sh r w = absurd c
  client_items-written before after h g (s ∷ ss) (d ∷ ds) is fit nm c sh r w =
      let next : (js : List Item)
          → SameShape (client_items before ss) js
          → AllRead g (arguments arch (length ds) ds) js
          → client_items after ss ≡ js =
        λ js sh' r'.
          client_items-written before after h g ss ds js fit (ground arith) c.1 sh' r' w.1 in
      elim (Bool-cases (is_transferred s)) [
        | inl t ↦
            let (_, _, (h', n, e), _, _) = rw t at c.0 in
            let shared = transferred_shared s t (ground arith) in
            rw t (
              buffer_back g (argument arch d) _ _ (arguments arch (length ds) ds)
                (client_items before ss) (client_items after ss) is
                (ap g (argument-placed fit d h' n e) ∙ w.0 shared) (rw t at sh) r next)
        | inr f ↦ rw f (
            plain_back g (argument arch d) (argument arch s) (arguments arch (length ds) ds)
              (client_items before ss) (client_items after ss) is (rw f at sh) r next)
      ]
