-- ===== src/Mapping/Room.antt =====
-- The room of the new list of RtlMapPtrParameters.
use service_call.Base.{ℕ, ◌<◌, ◌^◌, ◌≡◌, true, arith}
use service_call.Parameter.{Arch}
use service_call.Parameter.Capture.{buffer_size-exact}
use service_call.Mapping.Defs.{is_room}

pub is_room_small : (arch : Arch) (n : ℕ) → n < 2 ^ 28 → is_room arch n ≡ true
unfolding is_room
is_room_small arch n small = ground (arith, buffer_size-exact arch n small)
