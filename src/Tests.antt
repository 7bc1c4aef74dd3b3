-- ===== src/Tests.antt =====
-- The theorems at concrete inputs, over a codec, a shell and a repository that are small functions.
mod Codec
mod Keys
mod Stores
mod Commands
mod Syncs
mod Runs
mod Removals
mod HookCodec
mod Hooking
mod Schedules
mod Adding
mod Listing
mod Syncing
mod Globals
mod Moving
mod Discovery
