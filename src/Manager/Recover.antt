-- ===== src/Manager/Recover.antt =====
-- manager/Manager.cpp: `recover` behind its files, and `checkPodsOnAllWorker`.
use tiny_swarm.Prelude.{
  ℕ, ◌+◌, Bool, true, false, List, [], ◌∷◌, ◌++◌, map, Option, none, some, ltb, if◌then◌else◌,
}
use tiny_swarm.Text.{Str}
use tiny_swarm.Manager.Pod.{WorkerDescriptor}
use tiny_swarm.Manager.Core.{
  Node, Manager, Outcome, done, undefined, after, CreateResult, created, failed, update_pod,
}
use tiny_swarm.Manager.Calls.{create_service}
use tiny_swarm.Manager.Log.{replay_log}
use tiny_swarm.Manager.SnapshotFile.{write_snapshot, read_snapshot}
use tiny_swarm.Manager.Checks.{CheckReply, check_services, reconnect}

-- A pod that is not started again counts as down.
abbrev pub note_start : ℕ → Manager → CreateResult → Manager
note_start p m (created a) = m
note_start p m (failed reason) = record (update_pod p (λ pod. record pod { alive = false }) m) {
  down_services = m.down_services ++ (p ∷ []);
}

-- The loop of `recover` over the pods.
unfoldable pub start_all : List ℕ → Manager → Outcome {0} Unit
unfolding create_service update_pod
start_all [] m = done m tt
start_all (p ∷ ps) m =
    after (create_service p m) (λ m' result. start_all ps (note_start p m' result))

abbrev with_connection : (WorkerDescriptor → Bool) → WorkerDescriptor → WorkerDescriptor
with_connection connected wd = record wd { alive = connected wd }

-- `connectToWorker(worker)` for each worker: whether its session is connected is not ours.
unfoldable pub connect_all : (WorkerDescriptor → Bool) → Manager → Manager
connect_all connected m = record m { workers = map (with_connection connected) m.workers }

abbrev pub node_address : Node → ℕ
node_address n = n.address

-- The log is removed once the snapshot is written; the queue goes on counting.
abbrev pub remove_log : Manager → Option (List Str) → Outcome (List Str)
remove_log m none = undefined
remove_log m (some file) = done (record m { log = []; cur_line = 0 }) file

-- Behind the loops `snapshot` writes the state as it is then, with its `cur_line`. The result is the
-- file; a pod without a worker has no line.
unfoldable pub forget_log : (WorkerDescriptor → Str) → Manager → Unit {0} → Outcome (List Str)
unfolding write_snapshot
forget_log time m u = remove_log m (write_snapshot time m)

abbrev pub start_from :
    (WorkerDescriptor → Bool) → (WorkerDescriptor → Str) → Option Manager → Outcome (List Str)
start_from connected time none = undefined
start_from connected time (some m) =
    let m' = connect_all connected m in
    after (start_all (map node_address m'.pods) m') (forget_log time)

abbrev pub logged_from : List Str → Option Manager → Option Manager
logged_from log none = none
logged_from log (some m) = replay_log log m

abbrev pub snapshot_from : Option (List Str) → Manager → Option Manager
snapshot_from none m = some m
snapshot_from (some file) m = read_snapshot file m

-- `recover`, from the files that are there; the result is the snapshot that it leaves.
unfoldable pub recover :
    (WorkerDescriptor → Bool)
    → (WorkerDescriptor → Str)
    → Option (List Str)
    → List Str
    → Manager
    → Outcome (List Str)
unfolding start_all connect_all forget_log replay_log read_snapshot
recover connected time file log m =
    start_from connected time (logged_from log (snapshot_from file m))

abbrev pub then_check : Option Manager → (Manager → Option Manager) → Option Manager
then_check none f = none
then_check (some m) f = f m

-- One worker of `checkPodsOnAllWorker`: it is checked, or connected again.
abbrev pub check_worker : ℕ → Bool → CheckReply → Bool → Manager → Option Manager
check_worker w true reply connected m = check_services w reply m
check_worker w false reply connected m = some (reconnect w connected m)

-- The loop of `checkPodsOnAllWorker`, with the answers of the workers from an index on.
unfoldable pub check_from :
    ℕ → List WorkerDescriptor → (ℕ → CheckReply) → (ℕ → Bool) → Manager → Option Manager
unfolding check_services reconnect
check_from w [] replies connected m = some m
check_from w (wd ∷ rest) replies connected m =
    then_check (check_worker w wd.alive (replies w) (connected w) m)
      (λ m'. check_from (w + 1) rest replies connected m')

abbrev timed : ℕ → Option Manager → Option (ℕ × Manager)
timed time none = none
timed time (some m) = some (time, m)

-- `checkPodsOnAllWorker`, at a time, with the next time that it checks at.
unfoldable pub check_pods_on_all_worker :
    ℕ → ℕ → (ℕ → CheckReply) → (ℕ → Bool) → Manager → Option (ℕ × Manager)
unfolding check_from
check_pods_on_all_worker now check_time replies connected m =
    if ltb now check_time
    then some (check_time, m)
    else timed (now + 5) (check_from 0 m.workers replies connected m)
