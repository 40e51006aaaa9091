-- ===== src/Server/Resources.antt =====
-- What the functions acquire and give back, as events in order.
use service_call.Base.{
  ℕ, suc, ◌+◌, Bool, true, false, List, [], ◌∷◌, ◌++◌, arith, if◌then◌else◌, ◌≡◌,
}

-- A UNICODE_STRING, a captured parameter list, a SERVICE_ROUTINE, a port of the service, a handle of a
-- client's process, the server's end of a connection, the copy of a message for a worker, and the
-- handle that CreateThread returns.
pub data Resource : Type 0 where
  name_string parameter_list service_record service_port client_process server_port message_copy
        thread_handle :
      Resource

pub data Event : Type 0 where
  acquire : Resource → Event
  release : Resource → Event

abbrev pub same_resource : Resource → Resource → Bool
same_resource name_string name_string = true
same_resource parameter_list parameter_list = true
same_resource service_record service_record = true
same_resource service_port service_port = true
same_resource client_process client_process = true
same_resource server_port server_port = true
same_resource message_copy message_copy = true
same_resource thread_handle thread_handle = true
same_resource _ _ = false

abbrev pub acquired : Resource → List Event → ℕ
acquired r [] = 0
acquired r (acquire s ∷ es) = if same_resource r s then suc (acquired r es) else acquired r es
acquired r (release s ∷ es) = acquired r es

abbrev pub released : Resource → List Event → ℕ
released r [] = 0
released r (acquire s ∷ es) = released r es
released r (release s ∷ es) = if same_resource r s then suc (released r es) else released r es

-- As many of `r` are left over as `n` says.
abbrev pub Leaves : Resource → ℕ → List Event → Type 0
Leaves r n es = acquired r es ≡ released r es + n

pub acquired-append :
    (r : Resource) (xs ys : List Event) → acquired r (xs ++ ys) ≡ acquired r xs + acquired r ys
acquired-append r [] ys = omega arith
acquired-append r (acquire s ∷ xs) ys = ground (arith, acquired-append r xs ys)
acquired-append r (release s ∷ xs) ys = acquired-append r xs ys

pub released-append :
    (r : Resource) (xs ys : List Event) → released r (xs ++ ys) ≡ released r xs + released r ys
released-append r [] ys = omega arith
released-append r (acquire s ∷ xs) ys = released-append r xs ys
released-append r (release s ∷ xs) ys = ground (arith, released-append r xs ys)
