-- ===== src/Manager/Moving.antt =====
-- manager/Manager.cpp: `transferPod` when the new worker does not take the pod, and `transferDownPod` when
-- the worker of the first pod on the list does.
use tiny_swarm.Prelude.{
  ℕ, suc, ◌+◌, ◌≡◌, refl, sym, ap, ap₂, ◌∙◌, true, false, List, [], ◌∷◌, ◌++◌, append_assoc, Option,
  some, ◌==◌, get_elem?, set, length, arith, if_true, if_false, Bool-cases, inl, inr,
  some-injective,
}
use tiny_swarm.Text.{Str, codes}
use tiny_swarm.Manager.Pod.{PodDescriptor, WorkerDescriptor}
use tiny_swarm.Manager.Core.{
  Node, Reply, agreed, Manager, Outcome, done, undefined, after, find_node, update_node, update_pod,
  append_line,
}
use tiny_swarm.Manager.Calls.{create_service, create_rounds, fail_line, start_pod}
use tiny_swarm.Manager.Creation.{reason_of, create_rounds_failed}
use tiny_swarm.Manager.Rebinding.{asking_again, bind_worker_stored, create_service_stored}
use tiny_swarm.Manager.Starting.{create_service_agreed}
use tiny_swarm.Manager.Transfers.{
  transfer_pod, transfer_at, moved, first_place, transfer_from, transfer_down_pod, retry_at,
  retry_on, worker_alive, go_on, round_at, is_created,
}

update_node-back :
    (nodes : List Node) (n : Node) (f : PodDescriptor → PodDescriptor)
    → find_node n.address nodes ≡ some n
    → update_node n.address (λ p. n.pod) (update_node n.address f nodes) ≡ nodes
unfolding find_node update_node
update_node-back [] n f h = refl
update_node-back (x ∷ nodes) n f h = elim (Bool-cases (x.address == n.address)) [
  | inl here ↦
      ap (update_node n.address (λ p. n.pod)) (if_true _ _ here)
      ∙ if_true _ _ here
      ∙ ap (λ y. y ∷ nodes)
          (ap (λ y. record x { pod = y.pod })
            (sym (some-injective _ _ (sym (if_true _ _ here) ∙ h))))
  | inr away ↦
      ap (update_node n.address (λ p. n.pod)) (if_false _ _ away)
      ∙ if_false _ _ away
      ∙ ap (λ ns. x ∷ ns) (update_node-back nodes n f (sym (if_false _ _ away) ∙ h))
]

-- If the new worker of a pod is lost or refuses it, but not because it has given the manager up, then
-- `transferPod` fails and the pods are as before; but the new worker has the pod in its list, and the
-- log has two lines more.
pub transfer_failed :
    (n : Node) (m : Manager) (w : ℕ) (wd : WorkerDescriptor) (reply : Reply) (reason : Str)
    (replies : List Reply)
    → find_node n.address m.pods ≡ some n
    → get_elem? m.workers w ≡ some wd
    → m.replies ≡ reply ∷ replies
    → reason_of reply ≡ some reason
    → transfer_pod n.address (some w) m
      ≡ done
          (record m {
            workers = set m.workers w (record wd { pods = wd.pods ++ (n.address ∷ []) });
            log = m.log ++ ((codes "CSS " ++ n.pod.alias) ∷ fail_line n.pod.alias ∷ []);
            log_count = m.log_count + 1 + 1;
            cur_line = m.log_count + 1 + 1;
            replies = replies;
          })
          false
unfolding transfer_pod append_line update_pod
transfer_failed n m w wd reply reason replies stored there r fails =
    let bound = set m.workers w (record wd { pods = wd.pods ++ (n.address ∷ []) }) in
    ap (λ o. transfer_at n.address o (some w) m) stored
    ∙ ap (λ b. after (create_service n.address b) (moved n.address (some w) n.pod))
        (bind_worker_stored n m w wd there)
    ∙ ap (λ o. after o (moved n.address (some w) n.pod)) (create_service_stored n m w wd stored)
    ∙ ap
        (λ rs.
          after (create_rounds rs n.address w n.pod.alias (asking_again n m w wd))
            (moved n.address (some w) n.pod))
        r
    ∙ ap (λ o. after o (moved n.address (some w) n.pod))
        (create_rounds_failed reply replies n.address w n.pod.alias (asking_again n m w wd) reason
          fails)
    ∙ ap₂
        (λ nodes log.
          done
            (record m {
              workers = bound;
              pods = nodes;
              log = log;
              log_count = m.log_count + 1 + 1;
              cur_line = m.log_count + 1 + 1;
              replies = replies;
            })
            false)
        (update_node-back m.pods n _ stored)
        (append_assoc m.log ((codes "CSS " ++ n.pod.alias) ∷ []) (fail_line n.pod.alias ∷ []))

-- If the first pod on the list of pods that are down is stored at a worker that counts as alive, and the
-- worker agrees to start it, then `transferDownPod` goes on from an element of the list that is freed.
pub transfer_first :
    (choose : List WorkerDescriptor → PodDescriptor → Option ℕ) (n : Node) (m : Manager) (w : ℕ)
    (wd : WorkerDescriptor) (ps : List ℕ) (replies : List Reply)
    → find_node n.address m.pods ≡ some n
    → n.pod.worker ≡ some w
    → get_elem? m.workers w ≡ some wd
    → wd.alive ≡ true
    → m.down_services ≡ n.address ∷ ps
    → m.replies ≡ agreed ∷ replies
    → transfer_down_pod choose m ≡ undefined
unfolding transfer_down_pod transfer_from start_pod append_line update_pod first_place
transfer_first choose n m w wd ps replies stored bound there alive first r =
    let rounds : ℕ → Manager → Outcome {0} Unit =
      λ j m'. transfer_from choose (length m.replies) j m' in
    let at_front : (first_place n.address (n.address ∷ ps) == 0) ≡ true = ground arith in
    let at_worker : worker_alive (some w) m ≡ some true = ground (arith, there, alive) in
    let more : length m.replies + 1 ≡ suc (length m.replies) = omega arith in
    ap (λ k. transfer_from choose k 0 m) more
    ∙ ap (λ ds. round_at choose 0 (get_elem? ds 0) rounds m) first
    ∙ ap (λ o. after (retry_at choose n.address o m) (go_on 0 n.address rounds)) stored
    ∙ ap (λ o. after (retry_on choose n.address n o m) (go_on 0 n.address rounds))
        (ap (λ v. worker_alive v m) bound ∙ at_worker)
    ∙ ap (λ o. after (after o is_created) (go_on 0 n.address rounds))
        (create_service_agreed n.address n m w wd replies stored bound there r)
    ∙ if_true _ _ (ap (λ ds. first_place n.address ds == 0) first ∙ at_front)
