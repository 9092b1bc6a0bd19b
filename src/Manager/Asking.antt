-- ===== src/Manager/Asking.antt =====
-- manager/Manager.cpp, `selectWorkerToCreatePod` of a new pod, up to the worker's answer.
use tiny_swarm.Prelude.{
  ℕ, zero, suc, ◌+◌, ◌≡◌, ◌≢◌, refl, sym, ap, ap₂, ◌∙◌, true, List, [], ◌∷◌, ◌++◌, Option, none,
  some, ◌==◌, get_elem?, set, All, arith, if_true, some-injective,
}
use tiny_swarm.Text.{Str, codes, ==s-refl}
use tiny_swarm.Manager.Pod.{PodDescriptor, WorkerDescriptor}
use tiny_swarm.Manager.Core.{
  Reply, Manager, done, after, failed, find_alias, find_node, update_node, erase_node, erase_pod,
  append_line, update_pod, bind_worker, detach, remove_pointer, leave_worker, erase_found,
}
use tiny_swarm.Manager.Calls.{
  create_rounds, create_service, emplace_pod, create_on, select_worker_to_create_pod, erase_failed,
  node_pod,
}

-- A pointer that is added at the end and taken out again, where it was not before.
remove_pointer-append :
    (p : ℕ) (ps : List ℕ) → All (λ q. q ≢ p) ps → remove_pointer p (ps ++ (p ∷ [])) ≡ ps
unfolding remove_pointer
remove_pointer-append p [] h = ground arith
remove_pointer-append p (q ∷ ps) h = ground (arith, h.0, remove_pointer-append p ps h.1)

pub set-get_elem? :
    (workers : List WorkerDescriptor) (w : ℕ) (wd : WorkerDescriptor)
    → get_elem? workers w ≡ some wd
    → (d : WorkerDescriptor)
    → (get_elem? (set workers w d) w ≡ some d) × (set (set workers w d) w wd ≡ workers)
set-get_elem? [] w wd h d = cc
set-get_elem? (x ∷ workers) zero wd h d = (refl, ap (λ y. y ∷ workers) (sym (some-injective _ _ h)))
set-get_elem? (x ∷ workers) (suc w) wd h d =
    let rest = set-get_elem? workers w wd h d in (rest.0, ap (λ ws. x ∷ ws) rest.1)

-- A pod under a name that is not taken yet, on a worker that does not know its address.
pub record IsNew (pod : PodDescriptor) (w : ℕ) (wd : WorkerDescriptor) (m : Manager) : Type 0 where
  pub new_alias : find_alias pod.alias m.pods ≡ none
  pub chosen : get_elem? m.workers w ≡ some wd
  pub unknown : All (λ q. q ≢ m.next_address) wd.pods

module _ (pod : PodDescriptor) (m : Manager) where
  -- The manager with the node of a new pod.
  abbrev placed : Manager
  placed = record m {
    pods = record { address = m.next_address; pod = pod } ∷ m.pods;
    next_address = m.next_address + 1;
  }

  emplace_pod_new :
      find_alias pod.alias m.pods ≡ none → emplace_pod pod m ≡ (placed, m.next_address)
  unfolding emplace_pod
  emplace_pod_new h = ground (arith, h)

  node_pod_new : node_pod (find_node m.next_address placed.pods) pod ≡ pod
  unfolding find_node
  node_pod_new = ground arith

  erase_pod-placed :
      erase_pod pod.alias (bind_worker m.next_address none placed)
      ≡ record m { next_address = m.next_address + 1 }
  unfolding erase_pod find_alias erase_node detach bind_worker update_pod update_node
  erase_pod-placed = ground (arith, ==s-refl pod.alias)

  -- A new pod for which there is no worker.
  pub unplaced :
      (choose : List WorkerDescriptor → PodDescriptor → Option ℕ)
      → find_alias pod.alias m.pods ≡ none
      → choose m.workers pod ≡ none
      → select_worker_to_create_pod choose pod m
        ≡ done
            (record m { next_address = m.next_address + 1 })
            (failed (codes "Available Worker Not Found"))
  unfolding select_worker_to_create_pod create_on
  unplaced choose new h =
      ap
        (λ e.
          create_on (choose e.0.workers (node_pod (find_node e.1 e.0.pods) pod)) e.1 pod.alias e.0)
        (emplace_pod_new new)
      ∙ ap (λ o. create_on o m.next_address pod.alias placed)
          (ap (choose m.workers) node_pod_new ∙ h)
      ∙ ap (λ n. done n (failed (codes "Available Worker Not Found"))) erase_pod-placed

module _ (pod : PodDescriptor) (w : ℕ) (wd : WorkerDescriptor) (m : Manager) where
  -- The manager with the pod bound to the worker, and while it waits for the worker's answer about it.
  abbrev pub bound_pod : PodDescriptor
  bound_pod = record pod { worker = some w; ip = wd.ip }

  abbrev pub bound_wd : WorkerDescriptor
  bound_wd = record wd { pods = wd.pods ++ (m.next_address ∷ []) }

  abbrev bound : Manager
  bound = record m {
    workers = set m.workers w bound_wd;
    pods = record { address = m.next_address; pod = bound_pod } ∷ m.pods;
    next_address = m.next_address + 1;
  }

  abbrev pub asking : Manager
  asking = record m {
    workers = set m.workers w bound_wd;
    pods = record { address = m.next_address; pod = bound_pod } ∷ m.pods;
    next_address = m.next_address + 1;
    log = m.log ++ ((codes "CSS " ++ pod.alias) ∷ []);
    log_count = m.log_count + 1;
    cur_line = m.log_count + 1;
  }

  bind_worker_new :
      get_elem? m.workers w ≡ some wd → bind_worker m.next_address (some w) (placed pod m) ≡ bound
  unfolding bind_worker update_pod update_node
  bind_worker_new h = ground (arith, h)

  create_service_new :
      create_service m.next_address bound
      ≡ create_rounds m.replies m.next_address w pod.alias asking
  unfolding create_service find_node append_line
  create_service_new = ground arith

  pub asks :
      (choose : List WorkerDescriptor → PodDescriptor → Option ℕ)
      → IsNew pod w wd m
      → choose m.workers pod ≡ some w
      → select_worker_to_create_pod choose pod m
        ≡ after (create_rounds m.replies m.next_address w pod.alias asking) (erase_failed pod.alias)
  unfolding select_worker_to_create_pod create_on
  asks choose new h =
      ap
        (λ e.
          create_on (choose e.0.workers (node_pod (find_node e.1 e.0.pods) pod)) e.1 pod.alias e.0)
        (emplace_pod_new pod m new.new_alias)
      ∙ ap (λ o. create_on o m.next_address pod.alias (placed pod m))
          (ap (choose m.workers) (node_pod_new pod m) ∙ h)
      ∙ ap (λ n. after (create_service m.next_address n) (erase_failed pod.alias))
          (bind_worker_new new.chosen)
      ∙ ap (λ o. after o (erase_failed pod.alias)) create_service_new

  leave_worker_new :
      IsNew pod w wd m → leave_worker m.next_address (some w) asking.workers ≡ m.workers
  leave_worker_new new =
      let there = set-get_elem? m.workers w wd new.chosen bound_wd in
      let left = remove_pointer-append m.next_address wd.pods new.unknown in
      ground (arith, there.0)
      ∙ ap (λ ps. set asking.workers w (record wd { pods = ps })) left
      ∙ there.1

  erase_node_new : erase_node m.next_address asking.pods ≡ m.pods
  unfolding erase_node
  erase_node_new = ground arith

  -- Erasing the new pod again.
  pub erase_pod_new :
      (log : List Str) (line : ℕ) (replies : List Reply)
      → IsNew pod w wd m
      → erase_pod pod.alias
          (record asking { log = log; log_count = line; cur_line = line; replies = replies })
        ≡ record m {
          next_address = m.next_address + 1;
          log = log;
          log_count = line;
          cur_line = line;
          replies = replies;
        }
  unfolding erase_pod find_alias erase_node detach
  erase_pod_new log line replies new =
      ap
        (λ o.
          erase_found o
            (record asking { log = log; log_count = line; cur_line = line; replies = replies }))
        (if_true _ (find_alias pod.alias m.pods) (==s-refl pod.alias))
      ∙ ap₂
          (λ nodes workers. record m {
            workers = workers;
            pods = nodes;
            next_address = m.next_address + 1;
            log = log;
            log_count = line;
            cur_line = line;
            replies = replies;
          })
          erase_node_new (leave_worker_new new)

pub ==_self : (n : ℕ) → (n == n) ≡ true
==_self n = ground arith
