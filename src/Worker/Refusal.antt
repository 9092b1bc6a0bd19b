-- ===== src/Worker/Refusal.antt =====
-- worker/RPCInterface.cpp, `fork`, with manager/Manager.cpp, `selectWorkerToCreatePod`: a new pod on a worker.
use tiny_swarm.Prelude.{
  ℕ, ◌+◌, ◌≡◌, refl, ap, ◌∙◌, List, [], ◌∷◌, ◌++◌, Option, none, some, Bool-cases, inl, inr,
  if_true, if_false,
}
use tiny_swarm.Text.{Str, codes, ◌==s◌}
use tiny_swarm.Manager.Pod.{PodDescriptor, WorkerDescriptor}
use tiny_swarm.Manager.Core.{Reply, refused, agreed, Manager, done, failed}
use tiny_swarm.Manager.Calls.{fail_line, select_worker_to_create_pod}
use tiny_swarm.Manager.Asking.{IsNew}
use tiny_swarm.Manager.Creation.{reason_of, refused_lem}
use tiny_swarm.Worker.Fork.{
  WorkerNode, Machine, ForkEcho, forked, fork_failed, check_if_alias_ok, fork, fork_named,
}

-- The worker's answer, as the manager reads it.
abbrev pub reply_of : ForkEcho → Reply
reply_of (forked text) = agreed
reply_of (fork_failed text) = refused text

-- A name that no pod of the worker has.
fork_free :
    (machine : Machine) (owner alias : Str) (n : WorkerNode)
    → check_if_alias_ok owner alias n.pods ≡ none
    → (reason : Str) × (fork machine owner alias n ≡ (n, fork_failed reason))
      × (reason_of (refused reason) ≡ some reason)
unfolding fork ◌==s◌
fork_free machine owner alias n free = elim (Bool-cases machine.service_exists) [
  | inl there ↦ ([], if_true _ _ there ∙ ap (λ o. fork_named machine owner alias o n) free, refl)
  | inr missing ↦ (codes "SERV NOT FOUND", if_false _ _ missing, refl)
]

-- If no pod of the chosen worker has the name of a new pod, then the worker refuses the pod and stays as
-- it is, whatever its services, its ports and its processes: so `selectWorkerToCreatePod` fails, and
-- leaves no trace but two lines in the log.
pub new_pod_refused :
    (choose : List WorkerDescriptor → PodDescriptor → Option ℕ) (pod : PodDescriptor) (w : ℕ)
    (wd : WorkerDescriptor) (m : Manager) (machine : Machine) (n : WorkerNode)
    (replies : List Reply)
    → IsNew pod w wd m
    → choose m.workers pod ≡ some w
    → check_if_alias_ok m.usr_info pod.alias n.pods ≡ none
    → m.replies ≡ reply_of (fork machine m.usr_info pod.alias n).1 ∷ replies
    → (reason : Str) × (fork machine m.usr_info pod.alias n ≡ (n, fork_failed reason))
      × (select_worker_to_create_pod choose pod m
          ≡ done
              (record m {
                next_address = m.next_address + 1;
                log = m.log ++ ((codes "CSS " ++ pod.alias) ∷ fail_line pod.alias ∷ []);
                log_count = m.log_count + 1 + 1;
                cur_line = m.log_count + 1 + 1;
                replies = replies;
              })
              (failed reason))
new_pod_refused choose pod w wd m machine n replies new h free r =
    let (reason, refuses, why) = fork_free machine m.usr_info pod.alias n free in
    (
      reason,
      refuses,
      refused_lem choose pod w wd m (refused reason) reason replies new h
          (r ∙ ap (λ f. reply_of f.1 ∷ replies) refuses) why,
    )
