-- ===== src/Manager/Creation.antt =====
-- manager/Manager.cpp, `selectWorkerToCreatePod`: what it leaves when it fails and when it succeeds.
use tiny_swarm.Prelude.{
  ℕ, ◌+◌, ◌≡◌, sym, ap, ap₂, ◌∙◌, true, false, List, [], ◌∷◌, ◌++◌, append_assoc, Option, none,
  some, if◌then◌else◌, set, arith, if_true, if_false, Bool-cases, inl, inr, some-injective,
}
use tiny_swarm.Text.{Str, codes}
use tiny_swarm.Manager.Pod.{
  PodDescriptor, WorkerDescriptor, to_snapshot_message, snapshot_fields, to_gossip_message,
}
use tiny_swarm.Manager.Core.{
  Node, Reply, lost, refused, agreed, Manager, done, after, created, failed, find_node, update_node,
  append_line, update_pod,
}
use tiny_swarm.Manager.Calls.{
  start_pod, create_rounds, select_worker_to_create_pod, is_manager_down, fail_line, erase_failed,
  started,
}
use tiny_swarm.Manager.Asking.{
  IsNew, asking, bound_pod, bound_wd, asks, erase_pod_new, set-get_elem?, ==_self,
}

-- Why an answer makes `createService` fail, unless it agrees or has the call tried again.
abbrev pub reason_of : Reply → Option Str
reason_of (lost reason) = some reason
reason_of (refused text) = if is_manager_down text then none else some text
reason_of agreed = none

-- An answer behind which the call is not tried again.
abbrev pub IsFinal : Reply → Type 0
IsFinal (lost reason) = Unit
IsFinal (refused text) = is_manager_down text ≡ false
IsFinal agreed = Unit

pub create_rounds_failed :
    (reply : Reply) (replies : List Reply) (address w : ℕ) (alias : Str) (m : Manager)
    (reason : Str)
    → reason_of reply ≡ some reason
    → create_rounds (reply ∷ replies) address w alias m
      ≡ done (append_line (fail_line alias) (record m { replies = replies })) (failed reason)
unfolding create_rounds append_line
create_rounds_failed (lost text) replies address w alias m reason h =
    ap (λ t. done (append_line (fail_line alias) (record m { replies = replies })) (failed t))
      (some-injective _ _ h)
create_rounds_failed (refused text) replies address w alias m reason h =
    elim (Bool-cases (is_manager_down text)) [
      | inl down ↦ ground (arith, h, down)
      | inr other ↦
          if_false _ _ other
          ∙ ap
              (λ t.
                done (append_line (fail_line alias) (record m { replies = replies })) (failed t))
              (some-injective _ _ (sym (if_false _ _ other) ∙ h))
    ]
create_rounds_failed agreed replies address w alias m reason h = cc

-- If the worker of a new pod is lost or refuses the pod, but not because it has given the manager up,
-- then `selectWorkerToCreatePod` fails with the reason and leaves no trace but two lines in the log: the
-- pods, the workers and the list of pods that are down are as before.
pub refused_lem :
    (choose : List WorkerDescriptor → PodDescriptor → Option ℕ) (pod : PodDescriptor) (w : ℕ)
    (wd : WorkerDescriptor) (m : Manager) (reply : Reply) (reason : Str) (replies : List Reply)
    → IsNew pod w wd m
    → choose m.workers pod ≡ some w
    → m.replies ≡ reply ∷ replies
    → reason_of reply ≡ some reason
    → select_worker_to_create_pod choose pod m
      ≡ done
          (record m {
            next_address = m.next_address + 1;
            log = m.log ++ ((codes "CSS " ++ pod.alias) ∷ fail_line pod.alias ∷ []);
            log_count = m.log_count + 1 + 1;
            cur_line = m.log_count + 1 + 1;
            replies = replies;
          })
          (failed reason)
unfolding append_line
refused_lem choose pod w wd m reply reason replies new h r fails =
    asks pod w wd m choose new h
    ∙ ap
        (λ rs.
          after (create_rounds rs m.next_address w pod.alias (asking pod w wd m))
            (erase_failed pod.alias))
        r
    ∙ ap (λ o. after o (erase_failed pod.alias))
        (create_rounds_failed reply replies m.next_address w pod.alias _ reason fails)
    ∙ ap (λ n. done n (failed reason)) (erase_pod_new pod w wd m _ _ replies new)
    ∙ ap
        (λ log.
          done
            (record m {
              next_address = m.next_address + 1;
              log = log;
              log_count = m.log_count + 1 + 1;
              cur_line = m.log_count + 1 + 1;
              replies = replies;
            })
            (failed reason))
        (append_assoc m.log ((codes "CSS " ++ pod.alias) ∷ []) (fail_line pod.alias ∷ []))

-- The manager with a new pod that its worker has agreed to.
unfoldable pub with_pod : PodDescriptor → ℕ → WorkerDescriptor → List Reply → Manager → Manager
with_pod pod w wd replies m =
    let bound = record pod { worker = some w; ip = wd.ip } in
    record m {
      workers = set m.workers w (record wd { pods = wd.pods ++ (m.next_address ∷ []) });
      pods = record { address = m.next_address; pod = record bound { alive = true } } ∷ m.pods;
      next_address = m.next_address + 1;
      log =
          m.log
          ++ ((codes "CSS " ++ pod.alias) ∷ (codes "CSE " ++ to_snapshot_message wd bound) ∷ []);
      log_count = m.log_count + 1 + 1;
      cur_line = m.log_count + 1 + 1;
      published = m.published ++ ((m.usr_info ++ (b' ' ∷ to_gossip_message wd bound)) ∷ []);
      replies = replies;
    }

start_pod_new :
    (pod : PodDescriptor) (w : ℕ) (wd : WorkerDescriptor) (m : Manager) (replies : List Reply)
    → start_pod m.next_address
        (bound_wd pod w wd m)
        (bound_pod pod w wd m)
        (record (asking pod w wd m) { replies = replies })
      ≡ with_pod pod w wd replies m
unfolding start_pod append_line update_pod update_node to_snapshot_message snapshot_fields
    to_gossip_message with_pod
start_pod_new pod w wd m replies =
    ap₂ (λ nodes log. record (with_pod pod w wd replies m) { pods = nodes; log = log })
      (if_true _ _ (==_self m.next_address)) (append_assoc m.log _ _)

-- If the worker of a new pod agrees, then `selectWorkerToCreatePod` answers the pod's address. The map
-- has the pod, bound to the worker and alive; the worker has it behind its other pods; the log has two
-- lines more, of which the second ends with the pod's line for the snapshot; one message has been
-- published; and the list of pods that are down is as before.
pub agreed_lem :
    (choose : List WorkerDescriptor → PodDescriptor → Option ℕ) (pod : PodDescriptor) (w : ℕ)
    (wd : WorkerDescriptor) (m : Manager) (replies : List Reply)
    → IsNew pod w wd m
    → choose m.workers pod ≡ some w
    → m.replies ≡ agreed ∷ replies
    → select_worker_to_create_pod choose pod m
      ≡ done (with_pod pod w wd replies m) (created m.next_address)
unfolding create_rounds find_node
agreed_lem choose pod w wd m replies new h r =
    let node : Node = record { address = m.next_address; pod = bound_pod pod w wd m } in
    let told = record (asking pod w wd m) { replies = replies } in
    asks pod w wd m choose new h
    ∙ ap
        (λ rs.
          after (create_rounds rs m.next_address w pod.alias (asking pod w wd m))
            (erase_failed pod.alias))
        r
    ∙ ap
        (λ o.
          after (started m.next_address o (find_node m.next_address told.pods) told)
            (erase_failed pod.alias))
        (set-get_elem? m.workers w wd new.chosen (bound_wd pod w wd m)).0
    ∙ ap
        (λ o.
          after (started m.next_address (some (bound_wd pod w wd m)) o told)
            (erase_failed pod.alias))
        (if_true (some node) (find_node m.next_address m.pods) (==_self m.next_address))
    ∙ ap (λ n. done n (created m.next_address)) (start_pod_new pod w wd m replies)
