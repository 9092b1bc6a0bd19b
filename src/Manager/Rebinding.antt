-- ===== src/Manager/Rebinding.antt =====
-- manager/Manager.cpp: a pod of the map that is bound to another worker and asked for again.
use tiny_swarm.Prelude.{ℕ, ◌+◌, ◌≡◌, ap, [], ◌∷◌, ◌++◌, some, get_elem?, set, arith}
use tiny_swarm.Text.{codes}
use tiny_swarm.Manager.Pod.{PodDescriptor, WorkerDescriptor}
use tiny_swarm.Manager.Core.{
  Node, Manager, find_node, update_node, append_line, update_pod, bind_worker,
}
use tiny_swarm.Manager.Calls.{create_rounds, create_at, create_service}
use tiny_swarm.Manager.Loss.{find_node-updated}

module _ (n : Node) (m : Manager) (w : ℕ) (wd : WorkerDescriptor) where
  abbrev pub rebound : PodDescriptor → PodDescriptor
  rebound p = record p { worker = some w; ip = wd.ip }

  abbrev pub more_wd : WorkerDescriptor
  more_wd = record wd { pods = wd.pods ++ (n.address ∷ []) }

  abbrev pub bound_again : Manager
  bound_again = record m {
    pods = update_node n.address rebound m.pods;
    workers = set m.workers w more_wd;
  }

  abbrev pub asking_again : Manager
  asking_again = record bound_again {
    log = m.log ++ ((codes "CSS " ++ n.pod.alias) ∷ []);
    log_count = m.log_count + 1;
    cur_line = m.log_count + 1;
  }

  pub bind_worker_stored :
      get_elem? m.workers w ≡ some wd → bind_worker n.address (some w) m ≡ bound_again
  unfolding bind_worker update_pod
  bind_worker_stored there = ground (arith, there)

  pub create_service_stored :
      find_node n.address m.pods ≡ some n
      → create_service n.address bound_again
        ≡ create_rounds m.replies n.address w n.pod.alias asking_again
  unfolding create_service append_line
  create_service_stored stored =
      ap (λ o. create_at n.address o bound_again)
        (find_node-updated n.address rebound m.pods n stored)
