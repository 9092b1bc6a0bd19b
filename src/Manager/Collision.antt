-- ===== src/Manager/Collision.antt =====
-- manager/ServiceDescriptor.h, `restartFailedPods`, with manager/Manager.cpp, `selectWorkerToCreatePod`: the
-- name of a pod that is started again.
use tiny_swarm.Prelude.{
  ℕ, zero, suc, ◌+◌, ◌≡◌, refl, ap, ◌∙◌, true, false, List, ◌∷◌, Option, some, ltb, ◌==◌, get_elem?,
  length, length-append, arith, if_true, if_false, [], ◌++◌, sym,
}
use tiny_swarm.Text.{Str}
use tiny_swarm.Text.Digits.{to_string}
use tiny_swarm.Manager.Pod.{PodDescriptor, WorkerDescriptor}
use tiny_swarm.Manager.Core.{
  Node, Reply, Manager, Outcome, done, after, CreateResult, failed, find_alias, find_node,
  erase_node,
}
use tiny_swarm.Manager.Calls.{select_worker_to_create_pod}
use tiny_swarm.Manager.Creation.{reason_of}
use tiny_swarm.Manager.TakenName.{taken_refused}
use tiny_swarm.Manager.Registry.{alias_of}
use tiny_swarm.Manager.Service.{
  ServiceDescriptor, ready, missing, previous, restart_alias, pod_of, add_pod, restart_from,
  restart_failed_pods, now_ready,
}

module _ (create : PodDescriptor → Manager → Outcome CreateResult) where
  no_round :
      (fuel : ℕ) (sd : ServiceDescriptor) (m : Manager)
      → ltb 1 (missing sd.num (length sd.pods)) ≡ false
      → restart_from create fuel 1 sd m ≡ done m sd
  unfolding restart_from
  no_round zero sd m h = refl
  no_round (suc fuel) sd m h = if_false _ _ h

  -- One pod is missing, and is not made.
  restart_one :
      (fuel : ℕ) (sd : ServiceDescriptor) (m m' : Manager) (reason : Str)
      → length sd.pods + 1 ≡ sd.num
      → create (pod_of sd (restart_alias sd)) m ≡ done m' (failed reason)
      → restart_from create (suc fuel) 0 sd m ≡ done m' sd
  unfolding restart_from
  restart_one fuel sd m m' reason one h =
      let first : ltb 0 (missing sd.num (length sd.pods)) ≡ true = ground (arith, one) in
      let last : ltb 1 (missing sd.num (length sd.pods)) ≡ false = ground (arith, one) in
      if_true _ _ first
      ∙ ap (λ o. after o (λ n result. restart_from create fuel 1 (add_pod result sd) n)) h
      ∙ no_round fuel sd m' last

  restart_failed_one :
      (sd : ServiceDescriptor) (m m' : Manager) (reason : Str)
      → length sd.pods + 1 ≡ sd.num
      → create (pod_of sd (restart_alias sd)) m ≡ done m' (failed reason)
      → restart_failed_pods create sd m ≡ done m' sd
  unfolding restart_failed_pods
  restart_failed_one sd m m' reason one h =
      let not_full : (length sd.pods == sd.num) ≡ false = ground (arith, one) in
      let not_full' : (sd.num == length sd.pods) ≡ false = ground (arith, one) in
      let more : sd.num ≡ suc (length sd.pods) = omega (arith, one) in
      if_false _ _ not_full
      ∙ ap (λ k. after (restart_from create k 0 sd m) (now_ready create)) more
      ∙ ap (λ o. after o (now_ready create)) (restart_one (length sd.pods) sd m m' reason one h)
      ∙ ap (done m') (if_false (record sd { status = ready }) sd not_full')

-- The name that is asked for is that of the last pod, as `createService` has given it.
last_alias :
    (sd : ServiceDescriptor) (ps : List ℕ) (p : ℕ)
    → length sd.pods + 1 ≡ sd.num
    → sd.pods ≡ ps ++ (p ∷ [])
    → alias_of sd.token sd.num (length ps) ≡ restart_alias sd
last_alias sd ps p one last =
    let size : length sd.pods ≡ length ps + 1 =
      ap length last ∙ length-append ps (p ∷ []) ∙ omega arith in
    let many : ltb 1 sd.num ≡ true = ground (arith, one, size) in
    let number : length ps ≡ previous (length sd.pods) = ground (arith, size) in
    if_true _ _ many ∙ ap (λ n. sd.token ++ (b'_' ∷ to_string 10 n)) number

-- If the last pod of a service that lacks one pod has the name that `createService` gives to the pod
-- with that number, and the chosen worker is lost or refuses the pod that `restartFailedPods` asks for,
-- but not because it has given the manager up, then the call erases this last pod from the manager,
-- and the service has the pointers that it had.
pub restart_erases :
    (choose : List WorkerDescriptor → PodDescriptor → Option ℕ) (sd : ServiceDescriptor)
    (ps : List ℕ) (n : Node) (m : Manager) (w : ℕ) (wd : WorkerDescriptor) (reply : Reply)
    (reason : Str) (replies : List Reply)
    → length sd.pods + 1 ≡ sd.num
    → sd.pods ≡ ps ++ (n.address ∷ [])
    → n.pod.alias ≡ alias_of sd.token sd.num (length ps)
    → find_alias n.pod.alias m.pods ≡ some n
    → find_node n.address m.pods ≡ some n
    → get_elem? m.workers w ≡ some wd
    → choose m.workers n.pod ≡ some w
    → m.replies ≡ reply ∷ replies
    → reason_of reply ≡ some reason
    → (m' : Manager) × (restart_failed_pods (select_worker_to_create_pod choose) sd m ≡ done m' sd)
      × (m'.pods ≡ erase_node n.address m.pods)
restart_erases choose sd ps n m w wd reply reason replies one last called named stored there h r
      fails =
    let alias = restart_alias sd in
    let asked : n.pod.alias ≡ alias = called ∙ last_alias sd ps n.address one last in
    let named' : find_alias alias m.pods ≡ some n =
      ap (λ a. find_alias a m.pods) (sym asked) ∙ named in
    (
      _,
      restart_failed_one (select_worker_to_create_pod choose) sd m _ reason one (
          taken_refused choose (pod_of sd alias) n m named' stored w wd there reply reason replies h
            r fails),
      refl,
    )
