-- ===== src/Gpu/Context/Examples.antt =====
-- Runs of the context actor on small inputs.
use atomr_accel.Common.{
  ℕ, ◌≡◌, refl, ◌⊎◌, inl, inr, false, none, some, List, [], ◌∷◌, ◌++◌, arith, text, length,
}
use atomr_accel.Gpu.Error.{GpuError, gpu_ref_stale, err}
use atomr_accel.Gpu.State
use atomr_accel.Gpu.State.{Watch, DeviceState, clear_context}
use atomr_accel.Gpu.Ref.{GpuRef, access, context_rebuilt}
use atomr_accel.Gpu.Device.Messages.{f32, CopyReq, KernelChildren, ContextMsg}
use atomr_accel.Gpu.Device.Handler.{DeviceConfig}
use atomr_accel.Gpu.Context.{
  Driver, Buffers, Input, init, generic, context_ready, context_lost, reply_error, ContextActor,
  new, done, panicked, expect_ready, handle, post_restart,
}
use atomr_accel.Gpu.Context.Copies.{copy_from_host-refuses}
use atomr_accel.Gpu.Context.Supervised.{up, stopped, escalated, run}
use atomr_accel.Gpu.Context.Life.{Stands, run-new}
use atomr_accel.Gpu.Context.Recovery.{
  Fails, Works, inits, restarts, recovers, gives_up, to_host, lost_copy-escalates,
}

abbrev quiet_watch : Watch
quiet_watch = record { Sender = ℕ; channel = λ n. n; send = λ s n. n }

abbrev config : DeviceConfig
config = record {
  device_id = 2;
  mock_mode = false;
  pending_queue_capacity = 8;
  enabled_libraries = 1;
}

abbrev kernels : KernelChildren
kernels = record { blas = 40; others = 41 }

abbrev working : Driver
working = record {
  new_context = inr 7;
  new_stream = inr 9;
  acquire = none;
  spawn = inr kernels;
  alloc_zeros = λ n. inr (record { ptr = 4096; elements = n });
  memcpy = none;
}

abbrev broken : Driver
broken = record working { new_context = inl (text "ecc error") }

abbrev state : DeviceState quiet_watch
state = State.new quiet_watch 2

abbrev fresh : ContextActor quiet_watch
fresh = new quiet_watch config state

abbrev ready : ContextActor quiet_watch
ready = record fresh { stream = some 9; allocator = some 7; children = some kernels }

abbrev old_ref : GpuRef
old_ref = record {
  slice = record { ptr = 4096; elements = 16 };
  generation = 0;
  last_write_stream = none;
}

-- Reference 1 and buffer 5, of 16 elements each.
abbrev buffers : Buffers quiet_watch
buffers = record {
  device_ref = λ _. old_ref;
  owner = λ _. some state;
  strong_count = λ _. 1;
  host_len = λ _. 16;
}

abbrev request : CopyReq
request = record { dtype = f32; src = 1; dst = 5; reply = 100 }

copy_from_host-refuses_example :
    ((ready.stream ≡ none)
      × (handle quiet_watch ready buffers working (generic (ContextMsg.copy_from_host request))
          ≡ panicked ready expect_ready))
    ⊎ ((stream : ℕ) × ((ready.stream ≡ some stream)
          × ((e : GpuError) × (handle quiet_watch ready buffers working
                  (generic (ContextMsg.copy_from_host request))
                ≡ done ready (reply_error 100 e ∷ [])))))
copy_from_host-refuses_example =
    copy_from_host-refuses quiet_watch ready buffers working request (omega arith)

abbrev inputs : List (Buffers quiet_watch × Driver × Input)
inputs =
    (buffers, working, init)
    ∷ (buffers, working, generic (ContextMsg.copy_to_host request))
    ∷ (buffers, broken, init)
    ∷ (buffers, working, init)
    ∷ []

run-new_example : Stands quiet_watch false 0 inputs (run quiet_watch (up 3 fresh) inputs)
run-new_example = run-new quiet_watch config 3 inputs

abbrev ready_again : Works working
ready_again = record {
  context = 7;
  makes = refl;
  stream = 9;
  streams = refl;
  acquires = refl;
  children = kernels;
  spawns = refl;
}

abbrev failing : Fails broken
failing = record { reason = text "ecc error"; fails = refl }

abbrev losses : List (Buffers quiet_watch × Driver)
losses = (buffers, broken) ∷ (buffers, broken) ∷ []

recovers_example :
    (c' : ContextActor quiet_watch) × ((run quiet_watch
          (up 3 ready)
          (inits quiet_watch losses ++ (buffers, working, init) ∷ [])
        ≡ (up 1 c', restarts quiet_watch (length losses) ++ context_ready kernels ∷ []))
      × ((c'.stream ≡ some 9)
          × ((c'.children ≡ some kernels)
              × ((c'.state.current_ctx ≡ some 7)
                  × ((ref : GpuRef)
                      → ref.generation ≡ 0
                      → access quiet_watch (some c'.state) ref
                        ≡ err (gpu_ref_stale context_rebuilt))))))
unfolding new State.new
recovers_example =
    recovers quiet_watch losses 3 1 ready buffers working ready_again (failing, (failing, tt))
      (omega arith) refl (omega arith) refl

gives_up_example :
    run quiet_watch (up 1 ready) (inits quiet_watch losses)
    ≡ (stopped (clear_context quiet_watch state), restarts quiet_watch 1 ++ context_lost ∷ [])
unfolding new
gives_up_example = gives_up quiet_watch losses 1 ready (failing, (failing, tt)) refl refl

lost_copy-escalates_example :
    run quiet_watch
      (up 3 ready)
      ((buffers, broken, init) ∷ (buffers, working, generic (ContextMsg.copy_to_host request)) ∷ [])
    ≡ (escalated fresh, post_restart quiet_watch)
unfolding new
lost_copy-escalates_example =
    lost_copy-escalates quiet_watch 2 ready buffers buffers broken working [] failing refl
      (to_host request)
