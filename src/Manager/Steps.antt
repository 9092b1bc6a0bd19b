-- ===== src/Manager/Steps.antt =====
-- manager/Manager.cpp: the runs of a manager that creates pods, one after the other.
use tiny_swarm.Prelude.{ℕ, ◌≡◌, false, List, ◌∷◌, Option, none, some}
use tiny_swarm.Text.{codes, ◌==s◌}
use tiny_swarm.Manager.Pod.{PodDescriptor, WorkerDescriptor, find_worker}
use tiny_swarm.Manager.Pod.Snapshot.{IsPrintable}
use tiny_swarm.Manager.Core.{Reply, Manager, done, CreateResult, find_alias}
use tiny_swarm.Manager.Calls.{select_worker_to_create_pod}
use tiny_swarm.Manager.Asking.{IsNew}
use tiny_swarm.Manager.Creation.{IsFinal}

-- A new pod that can be printed, whose name is not the word of a failure, and whose worker is the first
-- one at its address.
pub record IsOrdinary (pod : PodDescriptor) (w : ℕ) (wd : WorkerDescriptor) (m : Manager)
    : Type 0 where
  pub new : IsNew pod w wd m
  pub printable : IsPrintable wd pod
  pub other : (pod.alias ==s codes "Fail") ≡ false
  pub known : find_worker wd.ip wd.port m.workers ≡ some w

-- One call of `selectWorkerToCreatePod`, which the scheduler finds a worker for or not.
pub data Step (choose : List WorkerDescriptor → PodDescriptor → Option ℕ) (m : Manager)
    : Manager → Type 0 where
  with_worker :
      (pod : PodDescriptor) (w : ℕ) (wd : WorkerDescriptor) (reply : Reply) (replies : List Reply)
      (result : CreateResult) {m' : Manager}
      → IsOrdinary pod w wd m
      → choose m.workers pod ≡ some w
      → m.replies ≡ reply ∷ replies
      → IsFinal reply
      → select_worker_to_create_pod choose pod m ≡ done m' result
      → Step choose m m'
  without_worker :
      (pod : PodDescriptor) (result : CreateResult) {m' : Manager}
      → find_alias pod.alias m.pods ≡ none
      → choose m.workers pod ≡ none
      → select_worker_to_create_pod choose pod m ≡ done m' result
      → Step choose m m'

pub data Reach (choose : List WorkerDescriptor → PodDescriptor → Option ℕ) (m : Manager)
    : Manager → Type 0 where
  here : Reach choose m m
  next : {m' n : Manager} → Reach choose m m' → Step choose m' n → Reach choose m n
