-- ===== src/Lib.antt =====
-- Models and theorems for atomr-accel, an actor runtime for GPU work.
--
-- The program. Each CUDA device has a DeviceActor, which owns a ContextActor and hands work to it
-- while a context is ready, keeps a bounded queue while there is none, and survives the loss of
-- the context. The state that outlives a context (DeviceState) carries a generation, against which
-- every GpuRef checks itself. Errors travel as panic texts to the supervisor, which reads its
-- decision from them. A topology of peers says which devices reach one another. Beside the devices
-- stand the pool of pinned host buffers and the PlacementActor, which picks a device by the loads
-- that the devices report. The FlashAttention crate turns a request into a dispatch key, validates
-- it and names a kernel. The CUTLASS crate renders source for a request and keeps it in a cache of
-- plans, under a key that is hashed from the request. The patterns crate serves many clients: it
-- collects requests into batches, routes them to replicas, runs cascades and mixtures of models,
-- swaps them, shares the device among tenants, and decodes speculatively. A parameter server
-- applies the gradients of its workers unless they are too old. The agents crate has an embedding
-- cache, an index of vectors, a pipeline that asks both and a language model, a coordinator that
-- gives out write tokens, and a graph of nodes that run in topological order.
--
-- The files, and the sources that they model:
--
--   Common            tests, lists, association lists, texts and decimal numerals, for all parts
--   Gpu.Error         crates/atomr-accel-cuda/src/error.rs: GpuError, panic_message, decider
--                     (decide_str), the typed supervisor (decide)
--   Gpu.State         device/state.rs: DeviceState and its methods
--   Gpu.Ref           gpu_ref.rs: GpuRef and its methods
--   Gpu.Device        device/device_actor.rs: Messages has the messages and effects, Handler has
--                     new, pre_start, enqueue_pending, drain_pending, handle (translate, forward
--                     and react are its parts) and post_stop
--   Gpu.Pinned        host/pinned.rs: the pool, its handles and buffers; Accounts adds the slots
--                     that clients hold. A restart makes a new pool (new_pool)
--   Gpu.Placement     placement/mod.rs: RoundRobinPolicy, LeastLoadedPolicy, PlacementActor
--   Gpu.Context       device/context_actor.rs: ContextActor with its copies (and run_kernel of
--                     kernel/envelope.rs, and the panic of stream/per_actor.rs); Supervised has it
--                     under the strategy of error.rs
--   Gpu.P2p           p2p/mod.rs: P2pGraph; Topology has P2pTopology, where probe and
--                     enable_rows are the two passes of EnableAll
--   Flash.Key         crates/atomr-accel-flashattn/src/dispatch.rs and lib.rs: keys, validations,
--                     kernel names, errors
--   Flash.Table       dispatch.rs: DispatchTable
--   Flash.Request     fa2.rs and fa3.rs: the requests and their constructors (new is new_fa2_fwd,
--                     new_fa2_bwd, new_fa3_fwd, new_fa3_fwd_fp8)
--   Flash.Layout      varlen.rs, prefill.rs and paged.rs: layouts and requests
--   Cutlass.Key       crates/atomr-accel-cutlass/src/plan_cache.rs: PlanKey and its Hasher; Dtype, Gemm and
--                     Requests have dtype.rs, gemm.rs, grouped_gemm.rs and conv.rs, Render kernels/mod.rs
--   Cutlass.Actor     plan_cache.rs: PlanCache; actor.rs: CutlassActor
--   Patterns.Batching crates/atomr-accel-patterns/src/batching.rs: DynamicBatchingServer
--   Patterns.Cascade  cascade.rs: InferenceCascade
--   Patterns.HotSwap  hot_swap.rs: ModelHotSwapServer
--   Patterns.Moe      moe.rs: MoeRouter
--   Patterns.Replicas  replica_pool.rs: ModelReplicaPool
--   Patterns.Scheduler  scheduler.rs: FairShareScheduler
--   Patterns.Speculative  speculative.rs: SpeculativeDecoder
--   Train.Parameters  crates/atomr-accel-train/src/parameter_server.rs: AsyncParameterServer, and optimizer.rs
--   Agents.Embedding  crates/atomr-accel-agents/src/embedding_cache.rs; Lru is the plain list that
--                     the cache is compared with
--   Agents.VectorIndex  vector_index.rs: CpuVectorIndex
--   Agents.Rag        rag.rs: RagPipeline, which asks the embedding cache and the vector index
--   Agents.Graph      langgraph_nodes.rs: NodeGraph and the Run message
--   Agents.Coordinator  shared_state.rs: SharedGpuStateCoordinator
--
-- Each part has its proofs in child modules named for what they prove, and its examples in a
-- module Examples.
--
-- Conventions. A handler takes the state and a message and gives the next state and what is sent.
-- Mailboxes, reply channels, contexts and device pointers are numbers. A closure that is boxed as
-- work is the message that it sends. Where the source panics the result is `none`. Machine
-- integers are natural numbers, with the wrap-around written out where the source can wrap: 64
-- bits for generations and the round-robin cursors, 32 bits for the products in Flash.Layout, the
-- queue depth and the counters of the replicas. Counters of hits, misses and tokens, and byte
-- counts of the pinned pool, are taken to stay within their types. Loops are structural
-- recursions, but for four: the search for an island runs for as many rounds as there are pairs of
-- devices and some more, since each device is expanded once; the topological search runs for as
-- many rounds as there are ready nodes and edges, and one to leave; the dispatch loop of the
-- scheduler runs for as many rounds as there is room in flight, and speculative decoding for one
-- round per token of the budget and one to leave, which is enough since every round that goes on
-- adds a token.
--
-- Parameters. What the driver and the actor runtime answer to a context actor is a record of
-- answers (Driver), and to the peer topology another (Peers); a supervisor restarts an actor by
-- making a new one from its props. The watch channel of tokio is a record of its operations
-- (Watch); the driver's allocator is the address, if any, that a request is answered with; the
-- standard hasher, of the embedding cache and of the plan keys, is a function; the lru crate's
-- cache is a record of its operations (LruCache), with the laws IsLru; floating-point scalars are
-- any type, with a zero where the code writes one; the virtual times of the scheduler are a record
-- of their operations (VirtualTime); the batch function, the stages of a cascade, the gate and the
-- experts of a mixture, the draft model and the verifier, and the embedding and the language model
-- of the retrieval pipeline are functions. An answer that a pipeline waits for may come too late,
-- which an argument says (Late).
--
-- Not modelled: the kernel actors (calls of the CUDA libraries), streams, events, graphs, memory
-- advice and the run-time compilation cache (driver and file system), the epilogue trees of the
-- CUTLASS crate, the crates for CUB, TensorRT, telemetry and real-time kernels, the training loops
-- (source text builders and bindings), the Python bridge and the build tasks. Timers are not
-- modelled; their messages are.
pub mod Agents
pub mod Common
pub mod Cutlass
pub mod Flash
pub mod Gpu
pub mod Patterns
pub mod Train
