-- ===== src/Lib.antt =====
-- The save-state stack of the spikes: determinism helpers, tracked regions, saving and loading,
-- migration between layouts, and the hot-reload diagnostic. All paths are under spikes/.
--
-- A console saves by walking a registry of tracked regions. Each region has a struct and callbacks
-- that describe, save and load it; the description of all regions is hashed, and a buffer loads
-- only where the hash agrees. When a cart has been edited the hash differs, and a second load
-- walks the old bytes field by field into the new structs.
--
-- Det: spike-d/cart_runtime. Nan is canonicalize_nanf, Pcg32 the generator, FrameState and
--   digest.c the packed frame state and its digest, Fnv the hash shared with save_state.c, Canon
--   the row of canonicalised f32 fields that the digest and the regions' saves perform.
-- Tracked: spike-k/cart_runtime/runtime_tracked.c, the string sink and the registry.
-- SaveState: spike-k/cart_runtime/save_state.c. save_state_save and save_state_load take the buffer
--   and the runtime (the registry with its storages, the cached hash) and return what they leave.
-- SaveIo: spike-k/cart_runtime/save_io.c, its system calls in ReadFile as parameters, and
--   save_state_emit_hex.
-- Regions: the region_*.c and cart_state_*.c files of spike-k, spike-m and spike-n; Copy holds the
--   loops that their callbacks share, Contracts what they owe the save state.
-- Migrate: spike-n/cart_runtime/migrate.c; MigrateLoad: save_state_n.c beside it.
-- HotReload: spike-n/cart_runtime/hot_reload_diagnostic.c.
-- Sha256: the hash of spike-n/harness/stub_packer.c.
-- Flatten: spike-m/lib/lua_table_flatten.c. Keys is the sort of the keys, Emit lua_table_flatten,
--   Unflatten lua_table_unflatten with Lua's stack, Wire the format of the header's comment. Lua is
--   a record of raw access to tables with the pairs of lua_next; Laws holds what it documents of
--   integer and string keys. Where a sum of 32-bit values wraps, a string's bound test lets a read
--   beyond the blob through: that is an outcome of its own, wild_read, behind which nothing is
--   modelled.
-- Gdb: spike-j/host/gdb_stub.c. Text is its hexadecimal digits and the C strings, Packet read_pkt and
--   send_pkt on the bytes of the socket (malloc, and whether one recv gives two bytes, are
--   parameters), Handlers the handlers with the callbacks of the emulator as
--   parameters, Dispatch handle_packet and a round of the loop over a client's packets; Keeps
--   what no handler changes.
-- Mixer: spike-k/lib/synthetic_mixer.c, which feeds the voice end queue.
-- InputMap: spike-l/host/input_map.c, the button mask. AudioPush: spike-l/host/audio_push.c and the
--   counters of retro_run in retro_core.c.
-- Prelude: bytes, little-endian numbers, arrays and bits; Tests: the theorems at concrete inputs.
--
-- Memory is a list of bytes with offsets for pointers; a struct is its packed image, or a record
-- where its operations read single fields. Machine words are natural numbers with their wrap
-- written out; a float is its bit pattern, and float arithmetic is a parameter where the source
-- computes with it. A PANIC, which is an endless loop, is `none`.
--
-- Fuel: the decimal conversions have 24 rounds, as many as their arrays have places and more than
-- a 64-bit number has digits; save_io_read_file has as many rounds as the buffer has bytes, since
-- a round that goes on stores one; detect_array has the rounds after which its counter overflows;
-- the hex emitter has as many rounds as there are bytes, since each round emits one at least.
--
-- Not modelled: system calls and printf; the diagnostics that the migration prints; the Lua
-- bindings, the DAP server of spike-j and the sockets and threads of its GDB stub, the rest of the
-- libretro adapter of spike-l and the sandbox launchers.
mod Prelude
mod Tests
pub mod Det
pub mod Tracked
pub mod SaveState
pub mod Regions
pub mod SaveIo
pub mod Migrate
pub mod MigrateLoad
pub mod HotReload
pub mod Sha256
pub mod Gdb
pub mod InputMap
pub mod AudioPush
pub mod Mixer
pub mod Flatten
