-- ===== src/Lib.antt =====
-- Verification library of xira, a Go runtime for agents that work in channels beside people.
--
-- Parts of the program. apps/xira/internal/humanrequest keeps the questions that an agent asks a
-- person: a request is created, delivered to a channel, resolved by a response, and the run that
-- waited for it is resumed. apps/xira/internal/flow is a state machine over the steps of a business
-- case, which pauses on such requests. apps/xira/internal/channelrunner takes in the messages of a
-- transport: a repeated one is dropped, its entrypoint (entrypoints) is chosen, it is let through,
-- observed or rejected (ingest), and it starts a turn of its conversation or steers the one that runs
-- (progress). apps/xira/internal/runtime keeps the states of turns and the owners of entrypoints.
--
-- HumanRequest models humanrequest: Types is types.go; Validate the checks of store.go; Disk the
-- files under the store's root and their reads and writes; Store, Operations and Queries the methods
-- of store.go and interaction_store.go, one function per method; Transitions the decisions that
-- these methods take on a loaded request (`applyDeliveryAttempt`, `applyResumeClaim` and the rest).
-- A method holds the store's mutex from its first read to its last write, so it is one function from
-- a disk to a result and a disk. A request's file is keyed by the pair of workspace key and file
-- name. What a call meets outside is its `Env`: whether its context is canceled, the clock, the
-- fresh ids and tokens, which files cannot be read or written, and `strings.ToLower`, whose tables
-- are not under the repository.
--
-- The proofs about it: Edits, Inversion and Calls say what a call reads and writes; Lifecycle,
-- Evolution, Decisions and Histories that every call takes a request along its life; Resolving,
-- Answering, Claiming, Creation, Creating, Asking, Listing, Finding, Held and Recovery are about
-- single operations, Sample and Tests have runs on concrete data. HumanRequest.Text is
-- text_protocol.go, whose `uuid.Parse`, `ToUpper` and `EqualFold` are parameters; Typing is about the
-- answers it offers, and TextTests runs it.
--
-- Flow models flow: Flow.Types is the definition's part of types.go and Flow.Run the run's, with the
-- inbound context of apps/xira/internal/channel/types.go; Flow.Definition is definition.go;
-- Flow.Store the run files of store.go; Flow.Parsing and Flow.Expressions the conditions of branches
-- and Flow.Kernel `Advance` of kernel.go; Flow.Start is `Start` of kernel.go with `CreateRun` of
-- store.go, and Flow.Resume kernel_resume.go. A call of the kernel is one function from
-- a system, the run files with the saved definitions and the registry, to a result and a system,
-- since it holds the run's lock. The executor of steps, the resolver of human requests, the source
-- of definitions, the policy, the status of an agent's run, `ToLower`, `EqualFold`, `Sprint` and the
-- operations on floats are parameters, fields of `World`. The World also says which accesses of the
-- store fail: an access is numbered by its place in the call. Targets and Lookups are about
-- definitions that pass the checks; Keeping, Serving, Stepping, Advancing, Following, Creation,
-- Recording, Starting and Resuming about whole calls; Sample, Tests and StartTests have runs on a
-- concrete flow.
--
-- Channel models channelrunner: Channel.Dedupe is dedupe/dedupe.go; Channel.Steering, Channel.Spawn,
-- Channel.Children and Channel.Router are the files of progress of these names, with chatkey in
-- Channel.ChatKey; Channel.Session is the turn of chatkey_session.go; Channel.Events is
-- runtime/message_bus.go, Channel.Render render_event.go and Channel.ChatContext chatcontext.go. But
-- for the router, each holds its mutex through an operation, so an operation is a function of the
-- state, and goroutines that share it are sequences of steps: Channel.ChatContext has those of the
-- deliveries and the send loop. `Handle`, `Route` and `markComplete` of the router take its mutex and
-- an entry's one after another: Channel.Router has them as calls that nothing comes between, and
-- Channel.Router.Turns has a step for each of their sections, with the entries on a heap and any
-- number of threads. The loop of a turn repeats a steered run, and has fuel; its end is a theorem.
-- Promise, Restart, Placement, Mapping, Locking, Exclusion, Ending, Messages, Termination, Queueing
-- and Sending are the proofs.
--
-- Runtime models parts of runtime: Runtime.AgentTurn is agent_turn.go, Runtime.OwnerBind and
-- Runtime.BindCommand owner_bind.go. Entry models how a message comes in: Entry.Inbound is
-- channel/types.go, Entry.Definition and Entry.Registry are entrypoints/registry.go with
-- routing/policy.go, Entry.Gate the decisions of channelrunner/ingest/ingest.go. `ToLower`, `EqualFold`
-- and `path.Match` are parameters, fields of `Texts`, and the agent's runs are those of a `World`.
--
-- Times are natural numbers with 0 for Go's zero time, and a call reads the clock as one time;
-- optional times are options. The `strings` functions are on lists of code points. An `int64` is
-- parsed within its 64 bits; counts of attempts are natural numbers without a bound, as no run
-- comes near the bound of Go's `int`. But for the loop of a
-- turn, loops are structural recursion, without fuel.
--
-- Not modelled: event logs, error texts (an error is its kind,
-- and where a run records its text that is a parameter), JSON and YAML encoding, file permissions,
-- the goroutines around the stores, `Observe` and the session manager, im_renderer.go, and the other
-- packages: transport, HTTP handlers, sessions, tools and the service that calls the stores.
pub mod Shared
pub mod HumanRequest
pub mod Flow
pub mod Channel
pub mod Runtime
pub mod Entry
