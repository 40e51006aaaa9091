-- ===== src/Examples/Blobs.antt =====
-- The blobs of a query, and what the worker makes of them.
use service_call.Base.{
  ap, ◌∙◌, ℕ, ◌%◌, ◌^◌, ◌<◌, ◌≡◌, ◌≢◌, refl, ◌∙◌, true, List, [], ◌∷◌, arith, if◌then◌else◌, ◌==◌,
  bit_and,
}
use service_call.Base.Bits.{bit_and-mask}
use service_call.Status.{nt_success}
use service_call.Parameter.{RoutineParameter, IsWhole, Arch, x86, x64, Blob, size_mod}
use service_call.Memory.{Apart, System}
use service_call.Mapping.Copy.{is_transferred, IsSized}
use service_call.Mapping.Sync.{AllApart}
use service_call.Worker.Defs.{argument, truncate_blob, truncate_loop, truncate_parameters}
use service_call.Worker.Items.{Item, plain, buffer, client_items}
use service_call.Enums.SystemInformation.{SystemInformationClass}
use service_call.Enums.SystemInformationValue.{system_information_class_value}
use service_call.Examples.Macros.{initialize_parameter_blob, initialize_parameter_blob_ptr}
use service_call.Examples.Client.{Query}
use service_call.Examples.Query.{query_blobs, queried}

class_value-small : (c : SystemInformationClass) → system_information_class_value c < 2 ^ 32
class_value-small c = ground arith

truncate_small : (v : ℕ) → v < 2 ^ 32 → bit_and (v % 2 ^ 64) 0xffffffff ≡ v % 2 ^ 64
truncate_small v h = bit_and-mask 32 (v % 2 ^ 64) ∙ omega arith

-- A query whose pointers and size fit in the build's pointers and in a DWORD.
pub record Fits (arch : Arch) (q : Query) : Type 0 where
  pub buffer_fits : q.buffer < size_mod arch
  pub return_length_fits : q.return_length < size_mod arch
  pub size_fits : q.buffer_size < 2 ^ 32

-- The 32-bit build truncates nothing then.
truncate-queried :
    (arch : Arch) (q : Query) → Fits arch q → truncate_parameters arch (queried q) ≡ queried q
unfolding truncate_parameters truncate_loop truncate_blob initialize_parameter_blob
    initialize_parameter_blob_ptr
truncate-queried x64 q h = refl
truncate-queried x86 q h =
    let a =
      truncate_small (system_information_class_value q.information_class)
        (class_value-small q.information_class) in
    let b = truncate_small q.buffer h.buffer_fits in
    let c = truncate_small q.buffer_size h.size_fits in
    let d = truncate_small q.return_length h.return_length_fits in rw (a, b, c, d) refl

-- The bytes of a client at a pointer that is not null.
abbrev pub pointed : {C : Type 0} → System C → (process : ℕ) → C → (a n : ℕ) → Item
pointed sys process client a n =
    if a == 0 then plain 0 else buffer (sys.read_virtual client process a n).1

-- What a query hands over.
abbrev pub query_items : {C : Type 0} → System C → (process : ℕ) → C → Query → List Item
query_items sys process client q =
    plain (system_information_class_value q.information_class)
    ∷ pointed sys process client q.buffer q.buffer_size
    ∷ plain q.buffer_size
    ∷ pointed sys process client q.return_length 4
    ∷ []

-- The client's buffers are not empty, do not overlap, and can be read.
pub record IsSound {C : Type 0} (sys : System C) (process : ℕ) (client : C) (q : Query)
    : Type 0 where
  pub sized : q.buffer ≢ 0 → q.buffer_size ≢ 0
  pub apart : q.buffer ≢ 0 → q.return_length ≢ 0 → Apart q.buffer q.buffer_size q.return_length 4
  pub buffer_read :
      q.buffer ≢ 0 → nt_success (sys.read_virtual client process q.buffer q.buffer_size).0 ≡ true
  pub length_read :
      q.return_length ≢ 0 → nt_success (sys.read_virtual client process q.return_length 4).0 ≡ true

-- The blobs of a query of which everything fits.
abbrev value_blob : ℕ → Blob
value_blob v = record {
  parameter_mask = 0b10000100;
  reserved1 = 0;
  max_buffer_size = 0;
  ul_parameter = v;
}

abbrev pointer_blob : (a n : ℕ) → Blob
pointer_blob a n = record {
  parameter_mask = 0b01100000;
  reserved1 = 0;
  max_buffer_size = n;
  ul_parameter = a;
}

abbrev length_size : Query → ℕ
length_size q = if q.return_length == 0 then 0 else 4

abbrev plain_blobs : Query → List Blob
plain_blobs q =
    value_blob (system_information_class_value q.information_class)
    ∷ pointer_blob q.buffer q.buffer_size
    ∷ value_blob q.buffer_size
    ∷ pointer_blob q.return_length (length_size q)
    ∷ []

value_blob-small : (v : ℕ) → v < 2 ^ 32 → initialize_parameter_blob 0b10000100 v ≡ value_blob v
unfolding initialize_parameter_blob
value_blob-small v h = let e : v % 2 ^ 64 ≡ v = omega arith in rw e refl

pointer_blob-small :
    (a n : ℕ)
    → a < 2 ^ 64
    → n < 2 ^ 32
    → initialize_parameter_blob_ptr 0b01100000 a n ≡ pointer_blob a n
unfolding initialize_parameter_blob_ptr
pointer_blob-small a n h k =
    let e : a % 2 ^ 64 ≡ a = omega arith in let f : n % 2 ^ 32 ≡ n = omega arith in rw (e, f) refl

size_mod-small : (arch : Arch) (a : ℕ) → a < size_mod arch → a < 2 ^ 64
size_mod-small x86 a h = omega arith
size_mod-small x64 a h = h

length_size-small : (q : Query) → length_size q < 2 ^ 32
length_size-small q = ground arith

query_blobs-plain : (arch : Arch) (q : Query) → Fits arch q → query_blobs q ≡ plain_blobs q
query_blobs-plain arch q h =
    rw
      (
        value_blob-small (system_information_class_value q.information_class)
            (class_value-small q.information_class),
        pointer_blob-small q.buffer q.buffer_size (size_mod-small arch q.buffer h.buffer_fits)
            h.size_fits,
        value_blob-small q.buffer_size h.size_fits,
        pointer_blob-small q.return_length (length_size q)
            (size_mod-small arch q.return_length h.return_length_fits) (length_size-small q),
      )
      refl

abbrev plain_parameters : Query → RoutineParameter
plain_parameters q = record { parameter_count = 4; parameters = plain_blobs q }

truncate-plain :
    (arch : Arch) (q : Query)
    → Fits arch q
    → truncate_parameters arch (queried q) ≡ plain_parameters q
truncate-plain arch q fits =
    truncate-queried arch q fits
    ∙ ap (λ bs. record { parameter_count = 4; parameters = bs }) (query_blobs-plain arch q fits)

argument-fits :
    (arch : Arch) (b : Blob) (v : ℕ) → b.ul_parameter ≡ v → v < size_mod arch → argument arch b ≡ v
unfolding argument
argument-fits x86 b v e h = omega arith
argument-fits x64 b v e h = omega arith

size_mod-dword : (arch : Arch) (v : ℕ) → v < 2 ^ 32 → v < size_mod arch
size_mod-dword x86 v h = h
size_mod-dword x64 v h = omega arith

module _ {C : Type 0} (sys : System C) (process : ℕ) where
  client_items-query_items :
      (arch : Arch) (client : C) (q : Query)
      → Fits arch q
      → client_items sys process arch client (plain_blobs q) ≡ query_items sys process client q
  unfolding is_transferred
  client_items-query_items arch client q h =
      let c = system_information_class_value q.information_class in
      let one =
        argument-fits arch (value_blob c) c refl
          (size_mod-dword arch c (class_value-small q.information_class)) in
      let two =
        argument-fits arch (pointer_blob q.buffer q.buffer_size) q.buffer refl h.buffer_fits in
      let three =
        argument-fits arch (value_blob q.buffer_size) q.buffer_size refl
          (size_mod-dword arch q.buffer_size h.size_fits) in
      let four =
        argument-fits arch (pointer_blob q.return_length (length_size q)) q.return_length refl
          h.return_length_fits in
      rw (one, two, three, four) (ground arith)

  query_blobs-IsSized :
      (client : C) (q : Query) → IsSound sys process client q → IsSized (plain_blobs q)
  unfolding is_transferred
  query_blobs-IsSized client q s =
      (λ e. cc, (λ e z. s.sized (ground arith) z, (λ e. cc, (λ e z. ground arith, tt))))

  query_blobs-AllApart :
      (client : C) (q : Query) → IsSound sys process client q → AllApart (plain_blobs q)
  query_blobs-AllApart client q s = (
    λ e. cc,
    (
      λ e. (
        λ f. cc,
        (
          λ f.
              let k : length_size q ≡ 4 = ground arith in
              rw k (s.apart (ground arith) (ground arith)),
          tt,
        ),
      ),
      (λ e. cc, (λ e. tt, tt)),
    ),
  )

  -- Of a query of client/main.cpp of which the pointers and the size fit, with buffers that are not empty and do
  -- not overlap and can be read: what WorkerThread maps after it has cut the values, on either build, is as
  -- many blobs as declared, with sized buffers that are apart; and the arguments that the client hands over
  -- by them are the class, the bytes at the buffer, its size, and the four bytes at the return length,
  -- where a null pointer is handed over as zero.
  queried-items :
      (arch : Arch) (client : C) (q : Query)
      → Fits arch q
      → IsSound sys process client q
      → let cut = truncate_parameters arch (queried q) in
        IsWhole cut
        × IsSized cut.parameters
        × AllApart cut.parameters
        × (client_items sys process arch client cut.parameters ≡ query_items sys process client q)
  queried-items arch client q fits sound = rw (truncate-plain arch q fits) (
    refl,
    query_blobs-IsSized client q sound,
    query_blobs-AllApart client q sound,
    client_items-query_items arch client q fits,
  )
