-- ===== src/Manager/Transfers.antt =====
-- manager/Manager.cpp: `transferPod` and `transferDownPod`.
use tiny_swarm.Prelude.{
  ℕ, zero, suc, ◌+◌, Bool, true, false, List, [], ◌∷◌, Option, none, some, ◌==◌, if◌then◌else◌,
  get_elem?, length,
}
use tiny_swarm.Text.{codes}
use tiny_swarm.Manager.Pod.{PodDescriptor, WorkerDescriptor}
use tiny_swarm.Manager.Core.{
  Node, Manager, Outcome, done, undefined, waiting, after, CreateResult, created, failed, find_node,
  update_pod, bind_worker, detach,
}
use tiny_swarm.Manager.Calls.{create_service}
use tiny_swarm.Manager.Stops.{StopResult, kept, shutdown_pod, put_back, remove_down_service}

abbrev pub old_shutdown : ℕ → PodDescriptor → Manager → Outcome StopResult
old_shutdown w old m =
    if old.alive
    then shutdown_pod w old.alias m
    else done m (kept (codes "To shutdown a dead service"))

-- `info.wd_->pods.emplace_back(&info)`: the pod is in the list twice, since `bindWorker` has put it there.
abbrev pub keep_moved : ℕ → Option ℕ → Manager → Outcome Bool
keep_moved address none m = undefined
keep_moved address (some w) m = done (put_back w address m) true

abbrev pub leave_old : ℕ → Option ℕ → Option ℕ → PodDescriptor → Manager → Outcome Bool
leave_old address new_wd none old m = undefined
leave_old address new_wd (some w) old m =
    after (old_shutdown w old (detach address (some w) m)) (λ m' r. keep_moved address new_wd m')

-- `info = old_info` takes the pod back, but not the address in the list of the new worker.
abbrev pub moved : ℕ → Option ℕ → PodDescriptor → Manager → CreateResult → Outcome Bool
moved address new_wd old m (failed reason) = done (update_pod address (λ pod. old) m) false
moved address new_wd old m (created a) =
    let left = leave_old address new_wd old.worker old m in
    if old.alive then left else keep_moved address new_wd m

abbrev pub transfer_at : ℕ → Option Node → Option ℕ → Manager → Outcome Bool
transfer_at address none new_wd m = undefined
transfer_at address (some n) new_wd m =
    after (create_service address (bind_worker address new_wd m)) (moved address new_wd n.pod)

-- `transferPod`, of the pod at an address
unfoldable pub transfer_pod : ℕ → Option ℕ → Manager → Outcome Bool
unfolding find_node bind_worker create_service update_pod detach shutdown_pod
transfer_pod address new_wd m = transfer_at address (find_node address m.pods) new_wd m

abbrev pub is_created : Manager → CreateResult → Outcome Bool
is_created m (created a) = done m true
is_created m (failed reason) = done m false

abbrev pub worker_alive : Option ℕ → Manager → Option Bool
worker_alive none m = none
worker_alive (some w) m = elim (get_elem? m.workers w) [ none ↦ none | some wd ↦ some wd.alive ]

-- One pod on the list: it is started where it is, or moved, if its worker is lost.
abbrev pub retry_on :
    (List WorkerDescriptor → PodDescriptor → Option ℕ)
    → ℕ
    → Node
    → Option Bool
    → Manager
    → Outcome Bool
retry_on choose address n none m = undefined
retry_on choose address n (some true) m = after (create_service address m) is_created
retry_on choose address n (some false) m = transfer_pod address (choose m.workers n.pod) m

abbrev pub retry_at :
    (List WorkerDescriptor → PodDescriptor → Option ℕ) → ℕ → Option Node → Manager → Outcome Bool
retry_at choose address none m = undefined
retry_at choose address (some n) m = retry_on choose address n (worker_alive n.pod.worker m) m

-- The place of a pointer in a list.
unfoldable pub first_place : ℕ → List ℕ → ℕ
first_place p [] = 0
first_place p (q ∷ qs) = let rest = first_place p qs in if q == p then 0 else suc rest

-- Behind a pod at a place of the list: `removeDownService` takes out the first pointer to the pod, and if
-- that is where the loop stands, then the loop goes on from an element that is freed.
abbrev pub go_on : ℕ → ℕ → (ℕ → Manager → Outcome {0} Unit) → Manager → Bool → Outcome {0} Unit
go_on i p rounds m true =
    if first_place p m.down_services == i then undefined else rounds i (remove_down_service p m)
go_on i p rounds m false = rounds (i + 1) m

abbrev pub round_at :
    (List WorkerDescriptor → PodDescriptor → Option ℕ)
    → ℕ
    → Option ℕ
    → (ℕ → Manager → Outcome {0} Unit)
    → Manager
    → Outcome {0} Unit
round_at choose i none rounds m = done m tt
round_at choose i (some p) rounds m =
    after (retry_at choose p (find_node p m.pods) m) (go_on i p rounds)

-- The loop of `transferDownPod` from a place on. A round takes one answer at least, so that the fuel is
-- not used up before the answers.
unfoldable pub transfer_from :
    (List WorkerDescriptor → PodDescriptor → Option ℕ) → ℕ → ℕ → Manager → Outcome {0} Unit
unfolding first_place create_service transfer_pod find_node remove_down_service
transfer_from choose zero i m = waiting
transfer_from choose (suc fuel) i m =
    round_at choose i (get_elem? m.down_services i) (λ j m'. transfer_from choose fuel j m') m

unfoldable pub transfer_down_pod :
    (List WorkerDescriptor → PodDescriptor → Option ℕ) → Manager → Outcome {0} Unit
unfolding transfer_from
transfer_down_pod choose m = transfer_from choose (length m.replies + 1) 0 m
