-- ===== src/Pipeline.antt =====
-- The bounded queues of crates/orbit-transport and the tasks that drain them: one for each relay in
-- `SenderSession::connect` of src/session.rs, one for a direct link in `spawn_writer` and
-- `QuicChannel::into_pipeline` of src/direct.rs.
--
-- Whether a write succeeds is told to the task. After a failed write the task stores the flag and then
-- returns, which drops the queue: two steps, since a message may be queued between them.
pub mod Order
use orbit_transfer.Prelude.{
  ℕ, Bool, true, false, ◌&&◌, List, [], ◌∷◌, ◌++◌, ltb, if◌then◌else◌, length,
}
use orbit_transfer.Wire.{OrbitMessage}
use orbit_transfer.Direct.{DirectWriter}

-- `PATH_QUEUE_DEPTH` and `DIRECT_QUEUE_DEPTH`.
abbrev pub queue_depth : ℕ
queue_depth = 1024

pub data Task : Type 0 where
  draining : Task
  leaving : Task
  returned : Task

pub record Pipeline : Type 0 where
  pub queue : List OrbitMessage
  pub written : List OrbitMessage
  pub is_alive : Bool
  pub task : Task

abbrev pub idle : Pipeline
idle = record { queue = []; written = []; is_alive = true; task = draining }

-- The task still has its end of the queue.
unfoldable pub is_open : Task → Bool
is_open draining = true
is_open leaving = true
is_open returned = false

-- Whether `tx.try_send` takes a message.
unfoldable pub has_room : Pipeline → Bool
unfolding is_open
has_room q = is_open q.task && ltb (length q.queue) queue_depth

unfoldable pub push : OrbitMessage → Pipeline → Bool × Pipeline
unfolding has_room
push m q = if has_room q then (true, record q { queue = q.queue ++ m ∷ [] }) else (false, q)

-- One turn of `while let Some(msg) = rx.recv().await`; the task waits on an empty queue.
unfoldable pub drain : Bool → Pipeline → Pipeline
drain sent q = elim q.task [
  | draining ↦ elim q.queue [
    | [] ↦ q
    | m ∷ ms ↦
        if sent
        then record q { queue = ms; written = q.written ++ m ∷ [] }
        else record q { queue = ms; is_alive = false; task = leaving }
  ]
  | leaving ↦ q
  | returned ↦ q
]

-- The same for a direct link, which writes a frame and flushes it.
unfoldable pub drain_direct : Bool → Bool → Pipeline → Pipeline
unfolding drain
drain_direct sent flushed q = drain (sent && flushed) q

-- The task returns, and the receiving end is dropped with what is queued.
unfoldable pub leave : Pipeline → Pipeline
leave q = elim q.task [
  | draining ↦ q
  | leaving ↦ record q { queue = []; task = returned }
  | returned ↦ q
]

-- What a caller of `DirectWriter` observes of its pipeline.
unfoldable pub observed : Pipeline → DirectWriter
unfolding has_room
observed q = record { is_alive = q.is_alive; has_room = has_room q }

-- What happens to a pipeline, in any order.
pub data Action : Type 0 where
  pushes : OrbitMessage → Action
  drains : Bool → Action
  leaves : Action

-- The messages that were taken, in order, and the pipeline afterwards.
unfoldable pub run : List Action → Pipeline → List OrbitMessage × Pipeline
unfolding push drain leave
run [] q = ([], q)
run (pushes m ∷ actions) q =
    let (accepted, q') = push m q in
    let (ms, end) = run actions q' in (if accepted then m ∷ ms else ms, end)
run (drains sent ∷ actions) q = run actions (drain sent q)
run (leaves ∷ actions) q = run actions (leave q)
