-- ===== src/Lib.antt =====
-- The service calls of ServiceCall: a client calls, by name, a routine that another process has
-- registered, over a port of the system, and the server's threads copy the client's buffers in and out.
--
-- The parts, the files that model them, and the code they model:
-- - Status: the status codes of ServiceCall/ntstatus.h that are used, NT_SUCCESS of
--   ServiceCall/Native.h, and (Facility, Fields) the layout, severities and facilities of a code.
-- - Parameter: SERVICE_PARAMETER_BLOB and its mask bits (ServiceCall/ServiceCall.h),
--   RtlCaptureParameters and RtlEqualParameterType (ServiceCall/ServiceCall.cpp). `capture` and
--   `equal_type` are these two functions; Masks, Capture and Equal hold what is proved of them.
-- - Memory: the heap of the service process as a map from addresses to blocks, the client's memory and
--   `new` as parameters (a record System), and commands that fault, throw `bad_alloc` or return.
-- - Mapping: RtlMapPtrParameters, RtlUnmapPtrParameters and RtlSyncMappedPtrParameters as the commands
--   `map_parameters`, `unmap` and `sync` of Mapping/Defs.
-- - ClientIds: the list of clients, RtlSafeThreadServiceClientId and RtlClientId; ClientIds/Threads has
--   the worker threads as a relation of steps, each of them a critical section or a call of the system.
-- - Worker: WorkerThread from the cut of the values to the status that it sends back (Defs), and as a
--   whole (Thread). Items has what a routine computes as a function of values and buffers; Rpc, a call
--   as an application of it.
-- - Trampoline: __x64ServiceCall (ServiceCall/x64.asm) and, in Trampoline/X86, __x86ServiceCall
--   (ServiceCall/ServiceCall.cpp), on registers and a memory of words; Arguments is about both, and
--   Worker's arguments.
-- - Layout: the compiler's layout of structures, the structures of ServiceCall/NtPort.h and
--   ServiceCall/ServiceCall.h, and the sizes LPCP_MAX_MESSAGE_SIZE and those of a registered port.
--   Basic, Processes, Environment, Threads and Objects have the structures of ServiceCall/Native.h,
--   over a record WinTypes of the types of winnt.h; Attributes, InitializeObjectAttributes.
-- - Enums: the enumerations of ServiceCall/Native.h and ServiceCall/NtPort.h with their values.
-- - Ntdll: the wrappers of ServiceCall/NtPort.cpp and ServiceCall/Native.cpp, each as the call that it
--   makes, over a loader; Exports has the module in which each looks; PortPrototypes and NativePrototypes have the types of their declarations.
-- - Client: ScServiceCallW, with what the system answers as a record, and a log of its calls.
-- - Server: ScInitializeService and ScRegisterServiceRoutineW (Register), ScUnregisterServiceRoutine
--   (Unregister) and WaitThread (Wait), with a log of what is acquired and released (Resources);
--   Lifetime has WaitThread, its workers and any number of calls of ScUnregisterServiceRoutine as one
--   relation of steps, some of which are faults, with which the program stops; Progress has runs to the
--   end of the service, and to a fault.
-- - Reply: the message in bytes, from the status that WorkerThread writes to the one that ScServiceCallW
--   stores; Call composes a client's call, a turn of WaitThread and WorkerThread. Wire has the client's
--   list as bytes, and a turn by what its message buffer holds.
-- - Api: the statuses that the comments of ServiceCall/ServiceCall.h list for each function.
-- - Strings: CharToWchar and WCharToChar (ServiceCall/str.cpp), over what lies in a new buffer, and the A
--   variants that use them.
-- - Examples: the macros of ServiceCall/ServiceCall.h that fill a parameter list, and with them the
--   programs: BsQuerySystemInformation of client/main.cpp (Client), BsRegisterService (Server) and the
--   routine BsQuerySystemInformation (Routine) of server/main.cpp, and `main` of both (Main). Served
--   has the client's parameters at the server's service, and Blobs what a query hands over.
-- - Base: the names, tests on numbers, lemmas on lists and bits, and runs of a relation of steps, that the
--   others share.
--
-- How they interact: a registration captures the parameters' types and starts WaitThread; it compares
-- them with those of each client, captures the client's list and starts a worker; the worker enters its
-- client in the list, maps the list, calls the routine through a trampoline, writes the copies back,
-- replies, and leaves the list. A client's call is Client.
--
-- Numbers are natural numbers; sizes wrap around as size_t or ULONG do, written with `%`. The loops
-- recur on the count that the list declares, so none needs fuel; WaitThread recurs on the list of turns
-- that the system makes, each with its answers. Lists are at most 2^28 long where a theorem says so:
-- from there on the size of a block wraps around on the 32-bit build.
--
-- Not modelled: what ntdll, Windows and the loader do, which are parameters here (their answers are
-- arguments of the definitions), how a message gets through a port among it; the status codes of
-- ntstatus.h that no code uses; and the code of both programs that is commented out. An exception of
-- `new` is modelled for the mapped list and for the buffer of the client's `main` only.
pub mod Base
pub mod Status
pub mod Parameter
pub mod Memory
pub mod Mapping
pub mod Api
pub mod Client
pub mod ClientIds
pub mod Enums
pub mod Examples
pub mod Layout
pub mod Ntdll
pub mod Reply
pub mod Server
pub mod Strings
pub mod Trampoline
pub mod Worker
