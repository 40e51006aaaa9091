-- ===== src/Layout/Attributes.antt =====
-- The attributes of an object: the flags and the macro InitializeObjectAttributes of ServiceCall/Native.h.
use service_call.Base.{ℕ, ◌+◌, ◌≡◌, refl, List, [], ◌∷◌}
use service_call.Parameter.{Arch, x86, x64}
use service_call.Layout.{size_of}
use service_call.Layout.Basic.{object_attributes}

-- OBJECT_ATTRIBUTES; an address of 0 is NULL.
pub record ObjectAttributes : Type 0 where
  pub length : ℕ
  pub root_directory : ℕ
  pub object_name : ℕ
  pub attributes : ℕ
  pub security_descriptor : ℕ
  pub security_quality_of_service : ℕ

-- InitializeObjectAttributes: all fields are written.
unfoldable pub initialize_object_attributes :
    Arch → (name attributes root descriptor : ℕ) → ObjectAttributes
initialize_object_attributes arch n a r s = record {
  length = size_of arch object_attributes;
  root_directory = r;
  object_name = n;
  attributes = a;
  security_descriptor = s;
  security_quality_of_service = 0;
}

-- The object attributes with which ScRegisterServiceRoutineW makes its port, of a name at `name`.
abbrev pub port_attributes : Arch → (name : ℕ) → ObjectAttributes
port_attributes arch name = initialize_object_attributes arch name 0 0 0

abbrev pub obj_inherit : ℕ
obj_inherit = 0x00000002

abbrev pub obj_permanent : ℕ
obj_permanent = 0x00000010

abbrev pub obj_exclusive : ℕ
obj_exclusive = 0x00000020

abbrev pub obj_case_insensitive : ℕ
obj_case_insensitive = 0x00000040

abbrev pub obj_openif : ℕ
obj_openif = 0x00000080

abbrev pub obj_openlink : ℕ
obj_openlink = 0x00000100

abbrev pub obj_kernel_handle : ℕ
obj_kernel_handle = 0x00000200

abbrev pub obj_force_access_check : ℕ
obj_force_access_check = 0x00000400

abbrev pub obj_valid_attributes : ℕ
obj_valid_attributes = 0x000007f2

abbrev flags : List ℕ
flags =
    obj_inherit ∷ obj_permanent ∷ obj_exclusive ∷ obj_case_insensitive ∷ obj_openif ∷ obj_openlink
    ∷ obj_kernel_handle ∷ obj_force_access_check ∷ []

abbrev sum : List ℕ → ℕ
sum [] = 0
sum (x ∷ xs) = x + sum xs

-- The valid attributes are the flags together.
flags-valid : sum flags ≡ obj_valid_attributes
flags-valid = refl

-- The length that the port's attributes state on each build.
length_runs : ((port_attributes x86 0x10).length ≡ 24) × ((port_attributes x64 0x10).length ≡ 48)
unfolding initialize_object_attributes size_of
length_runs = (refl, refl)
