-- ===== src/Lib.antt =====
-- The llama stack: leases of host ports, their HTTP surface, the configuration and the agent tools.
--
-- The program runs local language models with their services. Its daemon leases host ports to
-- workspaces: internal/resource keeps the leases in a database and forwards each leased port by a
-- proxy; internal/resourceapi puts it behind HTTP, where an administrator issues capabilities and
-- the holders of capabilities allocate, renew and release leases. internal/config reads the
-- configuration that all programs share. cmd/llama-stack-agent-tools lets a model run commands in
-- a container for each workspace. internal/render writes the units and settings that the services
-- run by, internal/doctor inspects the host, and cmd/llama-stack is the command that installs,
-- renders, imports models and asks the daemon; cmd/llama-stackd is the daemon.
--
-- The files:
--   Base: what the modules share: tests on numbers, lists and their weights, error results,
--     64-bit integers (Int), texts as in Go's strings and strconv (Text), state passing with
--     errors (Actions).
--   Resource/Types, Resource/Store, Resource/Proxy, Resource/Manager: internal/resource. `Manager`
--     is the state behind the mutex of the Go type; an operation is a function from that state to
--     a result and a state, named as in the source. Manager/Allocation is `Allocate` with
--     `allocateOnce`, `reserveListeners` and `checkLimits`; Manager/Operations has the other
--     exported operations; Manager/History is any sequence of them.
--     Proxy/Connections interleaves the goroutines of a proxy.
--   ResourceApi: internal/resourceapi/api.go, one function for each handler; Client is its client,
--     and Served puts the client before the handlers.
--   Config: internal/config/config.go, its types, Validation, and Loading with the defaults.
--   AgentTools: cmd/llama-stack-agent-tools/main.go: Output (limitedBuffer), Workspace (the
--     workspace of a request), Service (the handlers), Access (who reaches them).
--   ModelProfile: internal/modelprofile/modelprofile.go, the catalog, the choice of a profile and
--     the presets (Rendering).
--   Privilege: internal/privilege/privilege.go.
--   System: the files and processes of the host, with one function for each call of `os` and
--     `os/exec` that the programs make. System/View is what a reader sees of the files,
--     System/Holding and System/Kept follow the calls.
--   Render: internal/render/render.go: Units and Quadlets (the texts), Json, Writing (`Write`), and
--     Plan, the list of steps that `Write` is to make, which Refinement follows; Kept is what `Write`
--     does not touch.
--   Doctor: internal/doctor/doctor.go; Doctor/Required is what a configuration asks of a host.
--   Command: cmd/llama-stack/main.go: Options, State (`install`), Models, Resources, Server, Run.
--   Mcp: cmd/llama-stack-resource-mcp/main.go and cmd/llama-stack-search-mcp/main.go.
--   Daemon: cmd/llama-stackd/main.go, its start and its end.
--
-- Conventions. An operation holds the mutex of the manager from its start to its end, so it is one
-- step, and concurrent calls are a list of calls; `Allocate`, which lets go of the mutex while it
-- waits, takes a list of turns, each with what the others did in between. Its loop has no bound in
-- the code; the turns are its fuel, and an answer `none` says that they ran out while it waits.
-- The loop over the pool counts the host ports that are left. Times are nanoseconds since the zero
-- time; the readings of the clock are arguments, as are random bytes, the hash function, the
-- parser of IP addresses and whether a host port can be bound. An `int` of Go is an integer, and
-- the products of seconds wrap around at 64 bits.
--
-- The host of the command is a state: its files by path, and the answers of the calls to come, any
-- of which may fail; a failing write leaves a part of its data. Links, the umask and the order of
-- writes on the disk are left out, and what the programs print for the eye.
--
-- Errors that the code tells apart have a constructor; of all others the text or the format stands
-- for what the source builds, without the quoting of `%q` and, in places, the names quoted.
--
-- The database is gosqlite's: a record of operations (Store) with the laws that its documentation
-- promises (Store/Laws), among them the cascade of the foreign key. Store/Memory is one that meets
-- them. A statement may fail at any time.
--
-- Not modelled: the copying of bytes by the proxies, podman, SearXNG, the decoders of TOML and
-- JSON, the printer of JSON, the parser of command lines, the MCP library, the loops of the HTTP
-- servers with the health and OpenAPI endpoints, and the job scheduler, which is gasket's.
mod Base
pub mod Resource
pub mod Config
pub mod AgentTools
pub mod ResourceApi
pub mod ModelProfile
pub mod Privilege
pub mod System
pub mod Doctor
pub mod Render
pub mod Command
pub mod Mcp
pub mod Daemon
