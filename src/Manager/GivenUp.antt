-- ===== src/Manager/GivenUp.antt =====
-- manager/Manager.cpp, `createService`: the answer "Manager Down" to the call for a new pod.
use tiny_swarm.Prelude.{
  ℕ, ◌+◌, ◌≡◌, refl, ap, ◌∙◌, true, false, List, [], ◌∷◌, ◌++◌, Option, some, get_elem?, set,
  All-append, arith, if_false,
}
use tiny_swarm.Text.{Str, codes, ◌==s◌}
use tiny_swarm.Manager.Pod.{PodDescriptor, WorkerDescriptor}
use tiny_swarm.Manager.Core.{
  Node, Reply, refused, agreed, Manager, done, after, created, failed, find_node, erase_pod,
  append_line, update_pod, manager_down, emptied, lose_worker,
}
use tiny_swarm.Manager.Calls.{
  start_pod, create_rounds, select_worker_to_create_pod, is_manager_down, fail_line, erase_failed,
  started, tried_again,
}
use tiny_swarm.Manager.Asking.{set-get_elem?, IsNew, asking, bound_pod, bound_wd, asks}
use tiny_swarm.Manager.Loss.{
  has_node, ArePods, lost_nodes, find_node-some, find_node-updated, lose_pods_lem,
  has_node-lost_nodes, has_node-new, ArePods-more, lost_head, erase_pod-head,
}

-- The manager behind the answer "Manager Down" about a new pod, before it tries again.
module _ (pod : PodDescriptor) (w : ℕ) (wd : WorkerDescriptor) (m : Manager)
    (replies : List Reply) where
  abbrev asked : Manager
  asked = record (asking pod w wd m) { replies = replies }

  abbrev pub lost_pods : List ℕ
  lost_pods = wd.pods ++ (m.next_address ∷ [])

  abbrev pub given_up : Manager
  given_up = record asked {
    workers = set asked.workers w (record wd { pods = [] });
    pods = lost_nodes lost_pods asked.pods;
    down_services = m.down_services ++ lost_pods;
  }

  manager_down-asked :
      IsNew pod w wd m → ArePods asked.pods lost_pods → manager_down w asked ≡ some given_up
  unfolding manager_down
  manager_down-asked new valid =
      let there = (set-get_elem? m.workers w wd new.chosen (bound_wd pod w wd m)).0 in
      ap (λ o. lose_worker w o asked) there
      ∙ ap (emptied w) (lose_pods_lem lost_pods asked valid)
      ∙ ground (arith, there)

  asked-valid : ArePods m.pods wd.pods → ArePods asked.pods lost_pods
  asked-valid valid =
      All-append _ wd.pods (m.next_address ∷ []) (ArePods-more _ m.pods wd.pods valid)
        (has_node-new _ m.pods, tt)

  -- The call, up to its second round.
  asks_again :
      (choose : List WorkerDescriptor → PodDescriptor → Option ℕ)
      → IsNew pod w wd m
      → choose m.workers pod ≡ some w
      → m.replies ≡ refused (codes "Manager Down") ∷ replies
      → ArePods m.pods wd.pods
      → select_worker_to_create_pod choose pod m
        ≡ after (create_rounds replies m.next_address w pod.alias given_up) (erase_failed pod.alias)
  unfolding create_rounds ◌==s◌
  asks_again choose new h r valid =
      asks pod w wd m choose new h
      ∙ ap
          (λ rs.
            after (create_rounds rs m.next_address w pod.alias (asking pod w wd m))
              (erase_failed pod.alias))
          r
      ∙ ap
          (λ o.
            after (tried_again o (λ m'. create_rounds replies m.next_address w pod.alias m'))
              (erase_failed pod.alias))
          (manager_down-asked new (asked-valid valid))

-- If a worker answers "Manager Down" about a new pod and then agrees, the pod is created, but it is
-- lost to the worker: it is alive and nevertheless on the list of pods that are down, behind the other
-- pods of the worker, and the worker's own list is empty.
pub given_up_agreed :
    (choose : List WorkerDescriptor → PodDescriptor → Option ℕ) (pod : PodDescriptor) (w : ℕ)
    (wd : WorkerDescriptor) (m : Manager) (replies : List Reply)
    → IsNew pod w wd m
    → choose m.workers pod ≡ some w
    → m.replies ≡ refused (codes "Manager Down") ∷ agreed ∷ replies
    → ArePods m.pods wd.pods
    → (m' : Manager) × (n : Node) × (select_worker_to_create_pod choose pod m
        ≡ done m' (created m.next_address))
      × (find_node m.next_address m'.pods ≡ some n)
      × (n.pod.alive ≡ true)
      × (m'.down_services ≡ m.down_services ++ (wd.pods ++ (m.next_address ∷ [])))
      × (get_elem? m'.workers w ≡ some (record wd { pods = [] }))
unfolding create_rounds start_pod append_line update_pod
given_up_agreed choose pod w wd m replies new h r valid =
    let g = given_up pod w wd m (agreed ∷ replies) in
    let told : Manager = record g { replies = replies } in
    let emptied_wd = record wd { pods = [] } in
    let asked_there = (set-get_elem? m.workers w wd new.chosen (bound_wd pod w wd m)).0 in
    let there =
      (set-get_elem? (set m.workers w (bound_wd pod w wd m)) w (bound_wd pod w wd m) asked_there
        emptied_wd).0 in
    let known = find_node-some m.next_address g.pods (
      has_node-lost_nodes m.next_address (lost_pods pod w wd m (agreed ∷ replies))
        (asking pod w wd m).pods
      ∙ has_node-new _ m.pods) in
    (
      start_pod m.next_address emptied_wd known.0.pod told,
      record known.0 { pod = record known.0.pod { alive = true } },
      asks_again pod w wd m (agreed ∷ replies) choose new h r valid
          ∙ ap
              (λ o.
                after (started m.next_address o (find_node m.next_address g.pods) told)
                  (erase_failed pod.alias))
              there
          ∙ ap
              (λ o.
                after (started m.next_address (some emptied_wd) o told) (erase_failed pod.alias))
              known.1,
      find_node-updated m.next_address _ g.pods known.0 known.1,
      refl,
      refl,
      there,
    )

-- If a worker answers "Manager Down" about a new pod and then refuses it, the pod is erased from the map,
-- but its address stays on the list of pods that are down: a pointer to nowhere.
pub given_up_refused :
    (choose : List WorkerDescriptor → PodDescriptor → Option ℕ) (pod : PodDescriptor) (w : ℕ)
    (wd : WorkerDescriptor) (m : Manager) (text : Str) (replies : List Reply)
    → IsNew pod w wd m
    → choose m.workers pod ≡ some w
    → m.replies ≡ refused (codes "Manager Down") ∷ refused text ∷ replies
    → is_manager_down text ≡ false
    → ArePods m.pods wd.pods
    → has_node m.next_address m.pods ≡ false
    → (m' : Manager) × (select_worker_to_create_pod choose pod m ≡ done m' (failed text))
      × (has_node m.next_address m'.pods ≡ false)
      × (m'.down_services ≡ m.down_services ++ (wd.pods ++ (m.next_address ∷ [])))
unfolding create_rounds append_line
given_up_refused choose pod w wd m text replies new h r other valid fresh =
    let g = given_up pod w wd m (refused text ∷ replies) in
    let told : Manager = record g {
      replies = replies;
      log = g.log ++ (fail_line pod.alias ∷ []);
      log_count = g.log_count + 1;
      cur_line = g.log_count + 1;
    } in
    let (n, nodes, e, address, alias, same) =
      lost_head (lost_pods pod w wd m (refused text ∷ replies))
        (record { address = m.next_address; pod = bound_pod pod w wd m }) m.pods in
    let (erased, kept) = erase_pod-head pod.alias told n nodes e alias in
    (
      erase_pod pod.alias told,
      asks_again pod w wd m (refused text ∷ replies) choose new h r valid
          ∙ ap (λ o. after o (erase_failed pod.alias)) (if_false _ _ other),
      ap (has_node m.next_address) erased ∙ same m.next_address ∙ fresh,
      kept,
    )
