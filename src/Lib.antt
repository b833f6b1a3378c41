-- ===== src/Lib.antt =====
-- OpenForge AIO: models of the core of the trainer, and what is proved of them.
--
-- The trainer is a desktop application that injects a DLL into a game and talks to it over a named
-- pipe. The DLL reads and writes the game's memory, patches its code, keeps values frozen and scans
-- for byte patterns; the host frames requests and answers. The parts that are modelled:
--
--   Pattern       crates/core/src/pattern.rs: AOB patterns, parsed, sent and scanned for.
--   Value         crates/runtime/src/value.rs: typed values and their bytes. Value.HexBits is its
--                 module `hex_bits`, integer literals that are bit patterns.
--   Memory        crates/dll-common/src/local_reader.rs: memory reads and writes. ReadProcessMemory,
--                 WriteProcessMemory, VirtualProtect and FlushInstructionCache are the record `Os`,
--                 with the laws `OsLaws`; Memory.Flat is an instance.
--   CodePatch     crates/glacier-007-dll/src/code_patch.rs, over Memory.
--   GlacierValue  crates/glacier-protocol/src/lib.rs: the values of the protocol.
--   Freeze        crates/glacier-007-dll/src/freeze.rs, over Memory and GlacierValue.
--   Pe            crates/dll-common/src/pe.rs: the search for the code section of an image.
--   Frame         crates/glacier-protocol/src/lib.rs: the length prefix of a frame.
--   Transport     crates/host-common/src/transport.rs, over Frame. ReadFile and WriteFile are the
--                 record `Win32`, with the laws `Win32Laws`; Transport.Examples has an instance.
--   Worker        crates/glacier-007-dll/src/worker.rs, over Memory, CodePatch, Freeze, LogRing and
--                 Frame: the session of a client.
--   Synthesis     crates/discover/src/aob.rs: patterns made of captured instructions, read by Pattern.
--                 The x86 decoder is a parameter.
--   Ctx           crates/core/src/ctx.rs, error.rs and resolve.rs. The methods that reach the process
--                 are the record `Ctx`, with the laws `CtxLaws` and `Frame`; Ctx.Local, which is
--                 crates/glacier-007-dll/src/local_ctx.rs, has them by the laws of `Os`.
--   Scan          crates/discover/src/predicate.rs and scan.rs, over Ctx. f64 is the record `Double`.
--   PointerScan   crates/discover/src/pointer_scan.rs and pages.rs, over Memory's `Os`.
--   Manifest      crates/runtime/src/manifest.rs and format.rs.
--   Signature     crates/runtime/src/signature.rs, over Manifest.
--   Registry      crates/runtime/src/registry.rs: the games and features that are submitted.
--   HeapSweep     crates/glacier-007-dll/src/scan.rs: the scan of the heap, over Memory's `Os`.
--   RegionSweep   crates/batman-lod-dll/src/ops/heap_scan.rs, over Memory's `Os`; its regions and
--                 the length of its buffer are parameters.
--   Feature       crates/runtime/src/feature.rs, over Ctx, Signature and Value.
--   LuaWorkers    crates/ue5-lua/src/workers.rs, runtime.rs and bindings.rs: the threads around the Lua
--                 VM. A step is a command, a pass of the timer, a round of the key poll or a drain.
--   FreezeLoop    crates/app/src-tauri/src/freeze.rs: the events of the freeze tasks.
--   Keybinds      crates/app/src-tauri/src/keybinds.rs: the two indices of the hotkeys.
--   LogRing       crates/batman-lod-dll/src/log_ring.rs and its copy in crates/glacier-007-dll.
--   LuaOutput     crates/ue5-lua/src/output.rs: the bounded buffer of the Lua console.
--
-- Prelude holds what they share: lists, texts as lists of code points, dictionaries, results, bytes,
-- two's complement, and f32 as its bit pattern.
--
-- A method becomes a function of the same name, a struct a record, and an object that is mutated is
-- passed through. `Result` becomes `Result`, `Option` becomes `Option`, and a panic is the value
-- `panic` of `Run`. Numbers are the native naturals, a wrap-around is written out as a remainder, and
-- `usize` has 64 bits. A mutex or an atomic makes each of its methods one step, and a pass of the
-- freeze thread is one step.
--
-- Loops are structural, but for those of Transport and PointerScan, which run on fuel. In Transport
-- there are as many rounds as there are bytes to move, which is enough since a call that moves no byte
-- ends the loop: more rounds change nothing. In PointerScan a loop that spends its fuel is `none`; a
-- region and a chunk get a round for each byte, since a step is never 0, and the enumeration of the
-- pages gets 2^64 rounds, since the address only grows. In HeapSweep a range gets a round for each byte
-- too; the cap of 50,000,000 rounds on its regions is the code's own.
--
-- Not modelled: the Win32 calls themselves, serde and postcard, the x86 decoder, the Lua VM, the
-- desktop shell with its user interface, and the command line tools. Files are not read or written:
-- Keybinds starts behind the parse of its file. Of pe.rs the enumeration of the loaded modules is left
-- out, of transport.rs the opening of the pipe, of value.rs what computes with floats.
pub mod Prelude
pub mod Pattern
pub mod Value
pub mod Memory
pub mod CodePatch
pub mod GlacierValue
pub mod Freeze
pub mod Pe
pub mod Frame
pub mod Transport
pub mod Worker
pub mod Synthesis
pub mod Ctx
pub mod Scan
pub mod PointerScan
pub mod Manifest
pub mod Signature
pub mod Registry
pub mod HeapSweep
pub mod RegionSweep
pub mod Feature
pub mod LuaWorkers
pub mod FreezeLoop
pub mod Keybinds
pub mod LogRing
pub mod LuaOutput
