-- ===== src/Manager/Calls.antt =====
-- manager/Manager.cpp: the calls of workers, and the operations of the manager on pods.
use tiny_swarm.Prelude.{
  ℕ, ◌+◌, Bool, true, List, [], ◌∷◌, ◌++◌, Option, none, some, if◌then◌else◌, get_elem?,
}
use tiny_swarm.Text.{Str, codes, ◌==s◌}
use tiny_swarm.Manager.Pod.{PodDescriptor, WorkerDescriptor, to_snapshot_message, to_gossip_message}
use tiny_swarm.Manager.Core.{
  Node, Reply, lost, refused, agreed, Manager, Outcome, done, undefined, waiting, after,
  CreateResult, created, failed, find_alias, find_node, erase_pod, append_line, update_pod,
  bind_worker, manager_down,
}

abbrev pub is_manager_down : Str → Bool
is_manager_down text = text ==s codes "Manager Down"

-- `createService` behind an answer that agrees: the log, the other managers, and the pod itself.
unfoldable pub start_pod : ℕ → WorkerDescriptor → PodDescriptor → Manager → Manager
unfolding append_line update_pod to_snapshot_message to_gossip_message
start_pod address wd pod m =
    update_pod address (λ p. record p { alive = true })
      (record (append_line (codes "CSE " ++ to_snapshot_message wd pod) m) {
        published = m.published ++ ((m.usr_info ++ (b' ' ∷ to_gossip_message wd pod)) ∷ []);
      })

abbrev pub fail_line : Str → Str
fail_line alias = codes "CSE " ++ (alias ++ codes " Fail")

abbrev pub started : ℕ → Option WorkerDescriptor → Option Node → Manager → Outcome CreateResult
started address (some wd) (some n) m = done (start_pod address wd n.pod m) (created address)
started address _ _ m = undefined

abbrev pub tried_again : Option Manager → (Manager → Outcome CreateResult) → Outcome CreateResult
tried_again none retry = undefined
tried_again (some m) retry = retry m

-- The loop of `createService` over the answers: a lost or refused call fails, unless the worker says
-- that it has given the manager up: then the call is tried again. The log line of success and the
-- message are printed from the pod as it is in the map.
unfoldable pub create_rounds : List Reply → ℕ → ℕ → Str → Manager → Outcome CreateResult
unfolding append_line manager_down find_node start_pod ◌==s◌
create_rounds [] address w alias m = waiting
create_rounds (lost reason ∷ replies) address w alias m =
    done (append_line (fail_line alias) (record m { replies = replies })) (failed reason)
create_rounds (agreed ∷ replies) address w alias m =
    started address (get_elem? m.workers w) (find_node address m.pods)
      (record m { replies = replies })
create_rounds (refused text ∷ replies) address w alias m =
    let again =
      tried_again (manager_down w (record m { replies = replies }))
        (λ m'. create_rounds replies address w alias m') in
    if is_manager_down text
    then again
    else done (append_line (fail_line alias) (record m { replies = replies })) (failed text)

abbrev pub create_at : ℕ → Option Node → Manager → Outcome CreateResult
create_at address none m = undefined
create_at address (some n) m = elim n.pod.worker [
  | none ↦ undefined
  | some w ↦
      let m' = append_line (codes "CSS " ++ n.pod.alias) m in
      create_rounds m'.replies address w n.pod.alias m'
]

-- `createService`, of the pod at an address
unfoldable pub create_service : ℕ → Manager → Outcome CreateResult
unfolding find_node append_line create_rounds
create_service address m = create_at address (find_node address m.pods) m

abbrev pub emplaced : PodDescriptor → Manager → Option Node → Manager × ℕ
emplaced pod m (some n) = (m, n.address)
emplaced pod m none = (
  record m {
    pods = record { address = m.next_address; pod = pod } ∷ m.pods;
    next_address = m.next_address + 1;
  },
  m.next_address,
)

-- `pods.emplace(alias, …)`: the node of a pod that is there is kept.
unfoldable pub emplace_pod : PodDescriptor → Manager → Manager × ℕ
unfolding find_alias
emplace_pod pod m = emplaced pod m (find_alias pod.alias m.pods)

abbrev pub erase_failed : Str → Manager → CreateResult → Outcome CreateResult
erase_failed alias m (created address) = done m (created address)
erase_failed alias m (failed reason) = done (erase_pod alias m) (failed reason)

-- `selectWorkerToCreatePod` behind the scheduler's choice.
unfoldable pub create_on : Option ℕ → ℕ → Str → Manager → Outcome CreateResult
unfolding bind_worker create_service erase_pod
create_on none address alias m =
    done (erase_pod alias (bind_worker address none m))
      (failed (codes "Available Worker Not Found"))
create_on (some w) address alias m =
    after (create_service address (bind_worker address (some w) m)) (erase_failed alias)

abbrev pub node_pod : Option Node → PodDescriptor → PodDescriptor
node_pod none pod = pod
node_pod (some n) pod = n.pod

-- `selectWorkerToCreatePod`; `choose` is the scheduler, which an implementation of its class provides.
unfoldable pub select_worker_to_create_pod :
    (List WorkerDescriptor → PodDescriptor → Option ℕ)
    → PodDescriptor
    → Manager
    → Outcome CreateResult
unfolding emplace_pod create_on find_node
select_worker_to_create_pod choose pod m =
    let (m', address) = emplace_pod pod m in
    create_on (choose m'.workers (node_pod (find_node address m'.pods) pod)) address pod.alias m'
