-- ===== src/Enums/Values.antt =====
-- The constants of an enumeration and their values: each constant stands at the position of its value.
use service_call.Base.{
  ℕ, zero, suc, ◌+◌, ◌≡◌, refl, ◌↔◌, subst, List, [], ◌∷◌, map, some, get_elem?, arith,
}
use service_call.Enums.SystemInformation.{
  SystemInformationClass, system_information_class_constants,
}
use service_call.Enums.SystemInformationValue.{system_information_class_value}
use service_call.Enums.ProcessInformation.{
  ProcessInfoClass, process_info_class_constants, process_info_class_value,
}
use service_call.Enums.SystemPosition.{system_position}
use service_call.Enums.ProcessPosition.{process_position}

-- `n` numbers from `i` on.
abbrev numbers : (n i : ℕ) → List ℕ
numbers zero i = []
numbers (suc n) i = i ∷ numbers n (i + 1)

get_elem?-numbers : (n i k x : ℕ) → get_elem? (numbers n i) k ≡ some x → x ≡ i + k
get_elem?-numbers zero i k x e = absurd (ground arith)
get_elem?-numbers (suc n) i zero x e = ground arith
get_elem?-numbers (suc n) i (suc k) x e = omega (arith, get_elem?-numbers n (i + 1) k x e)

get_elem?-map :
    {A : Type 0} (f : A → ℕ) (xs : List A) (n : ℕ) (a : A)
    → get_elem? xs n ≡ some a
    → get_elem? (map f xs) n ≡ some (f a)
get_elem?-map f [] n a e = cc
get_elem?-map f (x ∷ xs) zero a e = cc
get_elem?-map f (x ∷ xs) (suc n) a e = get_elem?-map f xs n a e

system_information_class_value-constants :
    map system_information_class_value system_information_class_constants ≡ numbers 150 0
system_information_class_value-constants = refl

process_info_class_value-constants :
    map process_info_class_value process_info_class_constants ≡ numbers 99 0
process_info_class_value-constants = refl

-- A constant stands at position `n` exactly if it has the value `n`, when the list of constants is numbered and
-- each constant stands at its value.
is_position :
    {A : Type 0} (value : A → ℕ) (constants : List A) (count : ℕ)
    → map value constants ≡ numbers count 0
    → ((k : A) → get_elem? constants (value k) ≡ some k)
    → (n : ℕ) (k : A) → (get_elem? constants n ≡ some k) ↔ (value k ≡ n)
is_position value constants count e at n k = (
  λ f. omega (
    arith,
    get_elem?-numbers count 0 n (value k)
        (subst (λ xs. get_elem? xs n ≡ some (value k)) e (get_elem?-map value constants n k f)),
  ),
  λ f. subst (λ m. get_elem? constants m ≡ some k) f (at k),
)

-- The values of SYSTEM_INFORMATION_CLASS, written out from 0 to 0x95, and those of PROCESSINFOCLASS number
-- their constants without a gap: a constant has the value `n` exactly if it is the constant number `n`, so
-- that a value and its constant determine each other.
pub class_value-position :
    (n : ℕ)
    → ((k : SystemInformationClass)
        → (get_elem? system_information_class_constants n ≡ some k)
          ↔ (system_information_class_value k ≡ n))
      × ((k : ProcessInfoClass)
          → (get_elem? process_info_class_constants n ≡ some k) ↔ (process_info_class_value k ≡ n))
class_value-position n = (
  λ k.
      is_position system_information_class_value system_information_class_constants 150
        system_information_class_value-constants system_position n k,
  λ k.
      is_position process_info_class_value process_info_class_constants 99
        process_info_class_value-constants process_position n k,
)
