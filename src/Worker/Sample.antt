-- ===== src/Worker/Sample.antt =====
-- A routine that adds one to each byte of its buffer and returns its first argument.
use service_call.Base.{
  ℕ, suc, ◌%◌, ◌^◌, ◌<◌, ◌≡◌, refl, ap, List, [], ◌∷◌, arith, Option, none, some, map, length-map,
  if◌then◌else◌, ◌==◌, inl, inr, Bool-cases,
}
use service_call.Status.{status_invalid_parameter}
use service_call.Memory.{Machine, ok, bytes, raw, parameters, Block}
use service_call.Memory.Ensures.{Ensures, ensured}
use service_call.Worker.Defs.{Routine}
use service_call.Worker.Serve.{IsTidy, SameKind}
use service_call.Parameter.{x64}
use service_call.Memory.Sample.{sample, sample_place-small}
use service_call.Worker.Items.{PlacesFit, Item, plain, buffer, AllRead, Computes}

unfoldable pub bump_block : Option Block → Option Block
bump_block none = none
bump_block (some (raw n)) = some (raw n)
bump_block (some (bytes bs)) = some (bytes (map suc bs))
bump_block (some (parameters p)) = some (parameters p)

unfoldable pub bump_routine : Routine (ℕ → ℕ)
unfolding bump_block
bump_routine [] m = ok status_invalid_parameter m
bump_routine (a ∷ []) m = ok status_invalid_parameter m
bump_routine (a ∷ p ∷ rest) m =
    ok (a % 2 ^ 32) (record m { heap = λ x. if x == p then bump_block (m.heap x) else m.heap x })

pub same_kind : (b : Option Block) → SameKind b b
same_kind b = (refl, (λ q e. e), λ bs e. (bs, e, refl))

pub bump_block-SameKind : (b : Option Block) → SameKind b (bump_block b)
unfolding bump_block
bump_block-SameKind none = (refl, (λ q e. e), λ bs e. cc)
bump_block-SameKind (some (raw n)) = (refl, (λ q e. e), λ bs e. cc)
bump_block-SameKind (some (bytes bs)) =
    (refl, (λ q e. cc), λ cs e. (map suc bs, refl, ground (arith, length-map suc bs)))
bump_block-SameKind (some (parameters p)) = (refl, (λ q e. e), λ bs e. cc)

pub bump_routine-IsTidy : IsTidy bump_routine
unfolding bump_routine
bump_routine-IsTidy = record { returns = returns }
  where
    returns :
        (args : List ℕ) (m : Machine (ℕ → ℕ))
        → Ensures (λ _ m'. (a : ℕ) → SameKind (m.heap a) (m'.heap a)) (bump_routine args m)
    returns [] m = ensured (λ a. same_kind (m.heap a))
    returns (a ∷ []) m = ensured (λ a. same_kind (m.heap a))
    returns (a ∷ p ∷ rest) m = ensured λ x. elim (Bool-cases (x == p)) [
      | inl t ↦ rw t (bump_block-SameKind (m.heap x))
      | inr f ↦ rw f (same_kind (m.heap x))
    ]

pub bump_routine-small :
    (args : List ℕ) (m : Machine (ℕ → ℕ)) (r : ℕ) (m' : Machine (ℕ → ℕ))
    → bump_routine args m ≡ ok r m'
    → r < 2 ^ 32
unfolding bump_routine
bump_routine-small [] m r m' e = ground arith
bump_routine-small (a ∷ []) m r m' e = ground arith
bump_routine-small (a ∷ p ∷ rest) m r m' e = ground arith

-- What the routine computes of a number and a buffer.
abbrev pub BumpDomain : List Item → Type 0
BumpDomain is = (a : ℕ) × (bs : List ℕ) × (is ≡ plain a ∷ buffer bs ∷ [])

abbrev pub bump_function : List Item → ℕ × List Item
bump_function (plain a ∷ buffer bs ∷ []) = (a % 2 ^ 32, plain a ∷ buffer (map suc bs) ∷ [])
bump_function is = (0, is)

bump_routine-runs :
    (a : ℕ) (bs : List ℕ) (args : List ℕ) (m : Machine (ℕ → ℕ))
    → AllRead m.heap args (plain a ∷ buffer bs ∷ [])
    → (after : Machine (ℕ → ℕ)) × (bump_routine args m ≡ ok (a % 2 ^ 32) after)
      × AllRead after.heap args (plain a ∷ buffer (map suc bs) ∷ [])
unfolding bump_routine bump_block
bump_routine-runs a bs [] m r = absurd r
bump_routine-runs a bs (x ∷ []) m r = absurd r.1
bump_routine-runs a bs (x ∷ p ∷ []) m r =
    let held : m.heap p ≡ some (bytes bs) = r.1.0 in
    (
      record m { heap = λ y. if y == p then bump_block (m.heap y) else m.heap y },
      ap
          (λ n.
            ok (n % 2 ^ 32)
              (record m { heap = λ y. if y == p then bump_block (m.heap y) else m.heap y }))
          (r.0),
      (r.0, (ground arith, tt)),
    )
bump_routine-runs a bs (x ∷ p ∷ y ∷ args) m r = absurd r.1.1

pub bump_routine-Computes : Computes bump_routine BumpDomain bump_function
bump_routine-Computes = record {
  shape = λ is (a, bs, e). rw e (refl, (length-map suc bs, tt));
  runs = λ args is m (a, bs, e) r apart. rw e (bump_routine-runs a bs args m (rw e at r));
}

-- The addresses of the sample system fit in a pointer.
pub sample-PlacesFit : PlacesFit sample 1 x64
sample-PlacesFit h n = omega (arith, sample_place-small h n)
