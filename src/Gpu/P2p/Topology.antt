-- ===== src/Gpu/P2p/Topology.antt =====
-- p2p/mod.rs: P2pTopology. Contexts are numbers; the answers of the driver and of the devices come with
-- the messages.
use atomr_accel.Common.{
  ℕ, zero, suc, ◌+◌, Bool, true, false, not, ◌&&◌, ◌||◌, leb, ◌==◌, Option, none, some, is_some,
  List, [], ◌∷◌, ◌++◌, length, get_elem?, set, if◌then◌else◌, Text, text, decimal,
}
use atomr_accel.Gpu.Error.{GpuError, unrecoverable, Result, ok, err}
use atomr_accel.Gpu.State.{Watch}
use atomr_accel.Gpu.Ref.{Slice, access}
use atomr_accel.Gpu.Context.{Buffers, try_unwrap}
use atomr_accel.Gpu.P2p.{P2pGraph, new_graph, can_pair}

-- `loadable`: the driver's library is there, so that calling it does not panic. `enable`: access was
-- enabled, now or before.
pub record Peers : Type 0 where
  pub loadable : Bool
  pub can_access : ℕ → ℕ → Bool
  pub enable : ℕ → ℕ → Bool

-- With the contexts that the devices answer with, and with what the driver makes of the copy.
pub data P2pMsg : Type 0 where
  enable_all : (peers : Peers) (contexts : List (Option ℕ)) (reply : ℕ) → P2pMsg
  can_access : (from to reply : ℕ) → P2pMsg
  copy_f32 : (src src_device dst dst_device : ℕ) (copied : Option GpuError) (reply : ℕ) → P2pMsg
  topology : (reply : ℕ) → P2pMsg
  refresh_device : (device_idx : ℕ) (context : Option ℕ) → P2pMsg

pub data Effect : Type 0 where
  reply_graph : ℕ → Result P2pGraph → Effect
  reply_access : ℕ → Bool → Effect
  reply_error : ℕ → GpuError → Effect
  reply_topology : ℕ → P2pGraph → Effect
  copied : ℕ → Effect

pub record P2pTopology : Type 0 where
  pub devices : List ℕ
  pub contexts : List (Option ℕ)
  pub graph : P2pGraph
  pub enabled : Bool

unfoldable pub no_contexts : List ℕ → List (Option ℕ)
no_contexts [] = []
no_contexts (d ∷ ds) = none ∷ no_contexts ds

unfoldable pub new : List ℕ → P2pTopology
unfolding no_contexts
new devices = record {
  devices = devices;
  contexts = no_contexts devices;
  graph = new_graph (length devices);
  enabled = false;
}

abbrev pub has_context : List (Option ℕ) → ℕ → Bool
has_context [] i = false
has_context (c ∷ cs) zero = is_some c
has_context (c ∷ cs) (suc i) = has_context cs i

-- An edge as the first pass leaves it.
unfoldable pub probe : Peers → List (Option ℕ) → ℕ → ℕ → Bool
probe p contexts i j =
    has_context contexts i && (i == j || has_context contexts j && p.can_access i j)

-- The second pass keeps an edge that it can enable, and leaves all else as it is.
unfoldable pub enable_edge : Peers → List (Option ℕ) → ℕ → ℕ → Bool → Bool
enable_edge p contexts i j found =
    if has_context contexts i && (not (i == j) && found) then p.enable i j else found

unfoldable pub enable_row : Peers → List (Option ℕ) → ℕ → ℕ → List Bool → List Bool
unfolding enable_edge
enable_row p contexts i j [] = []
enable_row p contexts i j (found ∷ row) =
    enable_edge p contexts i j found ∷ enable_row p contexts i (j + 1) row

unfoldable pub enable_rows : Peers → List (Option ℕ) → ℕ → List (List Bool) → List (List Bool)
unfolding enable_row
enable_rows p contexts i [] = []
enable_rows p contexts i (row ∷ rows) =
    enable_row p contexts i 0 row ∷ enable_rows p contexts (i + 1) rows

unfoldable pub row : (ℕ → Bool) → ℕ → ℕ → List Bool
row f j zero = []
row f j (suc m) = f j ∷ row f (j + 1) m

unfoldable pub table : (ℕ → ℕ → Bool) → ℕ → ℕ → ℕ → List (List Bool)
unfolding row
table f n i zero = []
table f n i (suc m) = row (f i) 0 n ∷ table f n (i + 1) m

abbrev pub ready_count : List (Option ℕ) → ℕ
ready_count [] = 0
ready_count (none ∷ cs) = ready_count cs
ready_count (some c ∷ cs) = suc (ready_count cs)

-- `min` of the two writes: the slots that the actor has are filled in order.
unfoldable pub store : List (Option ℕ) → List (Option ℕ) → List (Option ℕ)
store [] answers = []
store (slot ∷ slots) [] = slot ∷ slots
store (slot ∷ slots) (a ∷ answers) = a ∷ store slots answers

unfoldable pub driver_missing : Text
driver_missing = text "P2pTopology::EnableAll: CUDA driver not loadable"

unfoldable pub enable_first : Text
enable_first = text "P2pTopology: call EnableAll first"

unfoldable pub no_peer : ℕ → ℕ → Text
no_peer a b =
    text "P2pTopology: device " ++ (decimal a ++ (text " cannot peer-access " ++ decimal b))

unfoldable pub no_side : Text → ℕ → Text
no_side side d =
    text "P2pTopology: "
    ++ (side ++ (text " device " ++ (decimal d ++ text " context not available")))

unfoldable pub many_references : Text
many_references = text "P2pCopy: dst has multiple live references"

-- The driver is called for a pair of devices that have contexts, and only then can be missing.
unfoldable pub handle_enable_all :
    P2pTopology → Peers → List (Option ℕ) → ℕ → P2pTopology × List Effect
unfolding probe table enable_rows store
handle_enable_all t p contexts reply =
    let n = length t.devices in
    let stored = record t { contexts = store t.contexts contexts } in
    let probed = table (probe p contexts) n 0 n in
    let graph : P2pGraph = record { edges = enable_rows p contexts 0 probed; device_count = n } in
    if not p.loadable && leb 2 (ready_count contexts)
    then (stored, reply_graph reply (err (unrecoverable driver_missing)) ∷ [])
    else (record stored { graph = graph; enabled = true }, reply_graph reply (ok graph) ∷ [])

unfoldable pub handle_can_access : P2pTopology → ℕ → ℕ → Bool
handle_can_access t from to =
    if from == to then true else elim (can_pair t.graph from to) [ none ↦ false | some b ↦ b ]

-- `ctxs.get(d).and_then(|c| c.as_ref())`.
unfoldable pub context_of : List (Option ℕ) → ℕ → Option ℕ
context_of contexts d = elim (get_elem? contexts d) [ none ↦ none | some c ↦ c ]

unfoldable pub handle_refresh : P2pTopology → ℕ → Option ℕ → P2pTopology
handle_refresh t idx context = elim (get_elem? t.devices idx) [
  | none ↦ t
  | some device ↦ record t { contexts = set t.contexts idx context; enabled = false }
]

module _ (w : Watch) where
  -- From `Arc::try_unwrap` on, with one more reference than there were.
  unfoldable pub copy_into : Buffers w → ℕ → Option GpuError → ℕ → Result Slice → Effect
  unfolding try_unwrap
  copy_into b dst outcome reply (err e) = reply_error reply e
  copy_into b dst outcome reply (ok slice) =
      if not (try_unwrap (b.strong_count dst + 1))
      then reply_error reply (unrecoverable many_references)
      else elim outcome [ none ↦ copied reply | some e ↦ reply_error reply e ]

  unfoldable pub copy_from : Buffers w → ℕ → Option GpuError → ℕ → Result Slice → Effect
  unfolding copy_into access
  copy_from b dst outcome reply (err e) = reply_error reply e
  copy_from b dst outcome reply (ok slice) =
      copy_into b dst outcome reply (access w (b.owner dst) (b.device_ref dst))

  unfoldable pub with_contexts :
      P2pTopology → Buffers w → ℕ → ℕ → ℕ → ℕ → Option GpuError → ℕ → Effect
  unfolding context_of copy_from access
  with_contexts t b src src_device dst dst_device outcome reply =
      elim (context_of t.contexts src_device) [
        | none ↦ reply_error reply (unrecoverable (no_side (text "src") src_device))
        | some src_ctx ↦ elim (context_of t.contexts dst_device) [
          | none ↦ reply_error reply (unrecoverable (no_side (text "dst") dst_device))
          | some dst_ctx ↦ copy_from b dst outcome reply (access w (b.owner src) (b.device_ref src))
        ]
      ]

  -- `none` where the graph is indexed out of range.
  unfoldable pub handle_copy :
      P2pTopology → Buffers w → ℕ → ℕ → ℕ → ℕ → Option GpuError → ℕ → Option Effect
  unfolding can_pair with_contexts
  handle_copy t b src src_device dst dst_device outcome reply =
      if not t.enabled
      then some (reply_error reply (unrecoverable enable_first))
      else elim (can_pair t.graph src_device dst_device) [
        | none ↦ none
        | some paired ↦ some (
            if paired
            then with_contexts t b src src_device dst dst_device outcome reply
            else reply_error reply (unrecoverable (no_peer src_device dst_device)))
      ]

  unfoldable pub handle : P2pTopology → Buffers w → P2pMsg → Option (P2pTopology × List Effect)
  unfolding handle_enable_all handle_can_access handle_copy handle_refresh
  handle t b (enable_all peers contexts reply) = some (handle_enable_all t peers contexts reply)
  handle t b (can_access from to reply) =
      some (t, reply_access reply (handle_can_access t from to) ∷ [])
  handle t b (copy_f32 src src_device dst dst_device outcome reply) =
      elim (handle_copy t b src src_device dst dst_device outcome reply) [
        | none ↦ none
        | some e ↦ some (t, e ∷ [])
      ]
  handle t b (topology reply) = some (t, reply_topology reply t.graph ∷ [])
  handle t b (refresh_device idx context) = some (handle_refresh t idx context, [])

  unfoldable pub and_then :
      List Effect → Option (P2pTopology × List Effect) → Option (P2pTopology × List Effect)
  and_then out none = none
  and_then out (some (t, rest)) = some (t, out ++ rest)

  unfoldable pub run : P2pTopology → List (Buffers w × P2pMsg) → Option (P2pTopology × List Effect)
  unfolding handle and_then
  run t [] = some (t, [])
  run t ((b, m) ∷ ms) = elim (handle t b m) [ none ↦ none | some r ↦ and_then (r.1) (run (r.0) ms) ]
