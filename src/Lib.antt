-- ===== src/Lib.antt =====
-- A verification library for the core of dtmc_base, a C library for embedded devices that talk
-- to each other in messages of a topic and a payload.
--
-- Parts of the program and where they are modelled:
--   * Framer (dtmc_base_library/src/dtframer_simple.c): turns a message into bytes and bytes that
--     arrive in any pieces back into messages. `Framer` has the types, `Framer/Config` create,
--     init, configure, the callback and dispose, `Framer/Encode` encode, `Framer/Decode` decode.
--     Proofs: `Framer/Progress` (rounds of the loop), `Framer/Chunks` and `Framer/Pieces`
--     (streams cut into calls), `Framer/RoundTrip`, `Framer/Safety` (writes to the
--     arrays), `Framer/Limits` and `Framer/Settings` (configuration and header checks),
--     `Framer/Gaps` (noise, long payloads).
--   * Manifold (dtmc_base_library/src/dtmanifold.c): routes a message on a subject to the
--     callbacks of its subscribers in the same process. `Manifold/Table` has the searches in the
--     two tables, `Manifold/Api` the public functions, `Manifold/Publish` publish. Proofs:
--     `Manifold/Update` and `Manifold/Lookup` (the tables as a map), `Manifold/Subscriptions` and
--     `Manifold/Subscribe` (subscribe on that map), `Manifold/Distinct`, `Manifold/Unsubscribe` and
--     `Manifold/Runs` (unsubscribe, and runs of both), `Manifold/Room` (when subscribe succeeds),
--     `Manifold/EmptyName`, `Manifold/Fanout` and `Manifold/Single` (whom publish calls), `Manifold/Locking` (the
--     semaphore).
--   * Debouncer (dtmc_base_library/src/dtdebouncer.c): `Debouncer` has init and update, with
--     proofs in `Debouncer/Reports` and `Debouncer/Pulses`.
--   * Mcp4728 (dtmc_base_library/src/dtmcp4728_dummy.c): a test double of a DAC. `Mcp4728/Checks`
--     has the validations, `Mcp4728/Device` the operations, `Mcp4728/Captures` and
--     `Mcp4728/Calls` the proofs.
--   * GpioPin (dtmc_base_library/src/dtgpiopin_dummy.c): a test double of a pin. `GpioPin/Device` has
--     the operations, `GpioPin/Edges` the proofs.
--   * IoxDummy (dtmc_base_library/src/dtiox_dummy.c): a test double of a byte stream, over the ring
--     buffer of dtcore, which is the interface `Ringfifo` with its laws. `IoxDummy/Device` has the
--     operations, `IoxDummy/Streams` the proofs.
--   * NetPortal (dtmc_base_library/src/dtnetportal_iox.c and dtnetportal_shm.c): portals, which send
--     messages and hand those that arrive to subscribers. The portal of dtnetportal_iox.c stands on a
--     byte stream, a framer and a router; the stream is the interface `Iox`, which `NetPortal/Double`
--     fills with the test double. `NetPortal/Stream` has publish, subscribe and the drain,
--     `NetPortal/Life` create, init, configure, activate and dispose, `NetPortal/Task` the task that
--     waits for bytes, `NetPortal/Shm` the portal in shared memory. Proofs: `NetPortal/Drain` and
--     `NetPortal/Publishing` (what arrives), `NetPortal/Writing` and `NetPortal/Sending` (what is sent),
--     `NetPortal/Echo` (both, beside the router alone), `NetPortal/Opening` (setting up),
--     `NetPortal/Bursts` (the task), `NetPortal/Alike` (the two portals). `NetPortal/Samples` has the
--     data of the tests.
--   * NetBridge (dtmc_base_library/src/dtnetbridge.c): passes the messages of one portal on to another.
--     The portals are the interface `Netportal`, which `NetBridge/Relay` fills with the portal in shared
--     memory, and in which it puts the bridge behind the router of its north portal.
--   * Packing: the calls of dtpackx of dtcore, with which the packable records write and read their
--     fields, as the interface `Packx` with its laws. `Packing/Steps` has what a chain of calls does,
--     `Packing/Samples` an instance for the tests.
--   * NetProfile (dtmc_base_library/src/dtnetprofile.c): what a node tells of itself, as lists of names.
--     `NetProfile` and `NetProfile/Text` have the operations, `NetProfile/Entries`, `NetProfile/Wire` and
--     `NetProfile/Report` the proofs.
--   * RadioConfig (dtmc_base_library/src/dtradioconfig.c): settings that are kept in a blob of memory.
--     `RadioConfig` has the operations, `RadioConfig/Stored` the proofs.
--   * Scans (dtmc_base_library/src/dtadc_scan.c and dtadc_scanlist.c): analogue readings. `Scans` has the
--     types and the allocation, `Scans/Single` and `Scans/Lists` packing and unpacking, `Scans/RoundTrip`,
--     `Scans/Size` and `Scans/Whole` the proofs.
--   * Distributors (dtmc_base_library/src/dtnetprofile_distributor.c, dtbuffer_distributor.c and
--     dtpackable_object_distributor.c): send packed objects, or buffers in chunks, through a portal, and
--     collect those that arrive from a queue. `Distributors` has the queue, an interface with its laws,
--     `Distributors/Profiles`, `Distributors/Buffers` and `Distributors/Objects` the operations,
--     `Distributors/Listening` a distributor behind the router of a portal. Proofs:
--     `Distributors/Received` (profiles), `Distributors/Chunks` (buffers), `Distributors/Exchange`
--     (objects). `Distributors/Samples` has a chunker for the tests.
--   * TaskerRegistry (dtmc_base_library/src/dttasker_registry.c): the tasks of a program, in a pool behind
--     a lock. `TaskerRegistry` has the operations, `TaskerRegistry/Registered` the proofs.
--   * Interval (dtmc_base_library/src/dtinterval_scheduled.c): calls a function periodically.
--     `Interval` has the operations, `Interval/Phase` and `Interval/Pauses` the proofs.
-- `Common` has lists, Boolean tests, machine words and errors. Each `Tests` module applies the
-- theorems at concrete inputs.
--
-- How the code is modelled: a struct is a record and an operation takes and returns it. An error
-- is its code, as the chain of causes behind it is only printed. The state of the rest of the
-- program, which callbacks and semaphores change, is a type `W` that is passed along. `malloc`,
-- `dtbuffer_wrap`, `dtvtable_set`, semaphores, queues, packing functions and callbacks are parameters. A `uint32_t` or
-- `int32_t` is its bit pattern, with the wrap-around written out; a counter of type `int32_t` is
-- taken to wrap around too. Object pointers and the buffers that are read are never NULL. A C
-- string is the list of its bytes before the NUL. A byte is a number.
--
-- Bounds and fuel: the loop of decode runs on 2 * n + 2 rounds for n bytes. A round that
-- takes no byte delivers an empty payload, and the round behind it takes one, so this is enough.
-- Inputs are of less than 2 ^ 31 bytes, the range of the length argument. A drain of a portal has one
-- unit of fuel for each read: one more than bytes wait is enough, as each read but the last takes some.
-- The write loop of a publish has one for each write: as many as there are bytes to send is enough
-- where each write takes some. The loop of the periodic caller runs for as many rounds as there is
-- fuel; a start that is asked to pause at its nth call needs n + 1. The loops of the distributor of
-- buffers have one unit for each chunk: one more than there are chunks is enough. The text of a list has as
-- much fuel as the list has bytes, as each of its entries takes some.
--
-- Tasks: an operation of a portal runs to its end before another begins, and recipients do not call the
-- portal back. What others do while the task of a portal waits is given by the sequence of its wakes;
-- what they do while the periodic caller sleeps or its callback runs is a part of these.
--
-- Not modelled: log output, the texts of errors, `to_string` but that of profiles, `concat_format`, the comparison and the
-- class names of portals, the vtable facades, and the parts of the library that only call the operating
-- system or compute in floating point. The other portals
-- and the other test doubles are not modelled either.
pub mod Common
pub mod Framer
pub mod Manifold
pub mod Debouncer
pub mod GpioPin
pub mod Interval
pub mod IoxDummy
pub mod Mcp4728
pub mod Packing
pub mod NetProfile
pub mod RadioConfig
pub mod Scans
pub mod NetBridge
pub mod NetPortal
pub mod Distributors
pub mod TaskerRegistry
