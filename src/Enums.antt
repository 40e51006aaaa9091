-- ===== src/Enums.antt =====
-- The enumerations of ServiceCall/Native.h and ServiceCall/NtPort.h, with the values of their constants.
pub mod SystemInformation
pub mod SystemInformationValue
pub mod ProcessInformation
pub mod Kernel
pub mod SystemPosition
pub mod ProcessPosition
pub mod Values
