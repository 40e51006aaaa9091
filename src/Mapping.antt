-- ===== src/Mapping.antt =====
-- RtlMapPtrParameters, RtlUnmapPtrParameters and RtlSyncMappedPtrParameters of
-- ServiceCall/ServiceCall.cpp: the client's buffers are copied in, freed, and copied out.
pub mod Defs
pub mod Room
pub mod Unmap
pub mod Copy
pub mod Map
pub mod Leak
pub mod Wild
pub mod Sync
mod Tests
