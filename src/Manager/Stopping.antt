-- ===== src/Manager/Stopping.antt =====
-- manager/Manager.cpp, `stopPod`: what it leaves when the worker does not stop the pod, and when it does.
use tiny_swarm.Prelude.{
  ℕ, ◌+◌, ◌≡◌, refl, ap, ◌∙◌, true, false, List, [], ◌∷◌, ◌++◌, append_assoc, some, set, if_true,
  if_false,
}
use tiny_swarm.Text.{Str, codes}
use tiny_swarm.Manager.Pod.{PodDescriptor, WorkerDescriptor}
use tiny_swarm.Manager.Core.{
  Node, Reply, agreed, Manager, done, undefined, after, remove_pointer, append_line, update_node,
  update_pod,
}
use tiny_swarm.Manager.Asking.{set-get_elem?, ==_self}
use tiny_swarm.Manager.Creation.{reason_of}
use tiny_swarm.Manager.Loss.{find_node-updated}
use tiny_swarm.Manager.Nodes.{find_alias-updated}
use tiny_swarm.Manager.Stops.{
  kept, stop_line, shutdown_answer, stop_answered, stop_pod, mark, shutdown_info,
}
use tiny_swarm.Manager.Telling.{
  IsStored, shutdown_answer_failed, back_wd, telling, asks_info, tells, put_back-left,
}

-- A stored pod that does not count as alive is never stopped: no worker is asked, and the worker has the
-- pod at the end of its list.
pub stop_dead :
    (info : Node) (w : ℕ) (wd : WorkerDescriptor) (m : Manager)
    → IsStored info w wd m
    → info.pod.alive ≡ false
    → stop_pod info.address m
      ≡ done
          (record m { workers = set m.workers w (back_wd info w wd m) })
          (kept (codes "To shutdown a dead service"))
unfolding shutdown_info
stop_dead info w wd m h dead =
    asks_info info w wd m h
    ∙ ap (λ o. after o (stop_answered info info w)) (if_false _ _ dead)
    ∙ ap (λ n. done n (kept (codes "To shutdown a dead service")))
        (put_back-left info w wd m h.there m.pods m.log m.log_count m.cur_line m.replies)

abbrev pub down : PodDescriptor → PodDescriptor
down pod = record pod { alive = false }

-- The manager behind a pod that its worker has not stopped.
unfoldable pub with_kept : Node → ℕ → WorkerDescriptor → List Reply → Manager → Manager
unfolding update_node remove_pointer
with_kept info w wd replies m = record m {
  workers =
      set m.workers w
        (record wd { pods = remove_pointer info.address wd.pods ++ (info.address ∷ []) });
  pods = update_node info.address (λ pod. record pod { alive = false }) m.pods;
  log = m.log ++ ((codes "DSS " ++ info.pod.alias) ∷ stop_line info.pod.alias (codes " Fail") ∷ []);
  log_count = m.log_count + 1 + 1;
  cur_line = m.log_count + 1 + 1;
  replies = replies;
}

pub stop_refused_once :
    (info : Node) (w : ℕ) (wd : WorkerDescriptor) (m : Manager) (reply : Reply)
    (replies : List Reply) (reason : Str)
    → IsStored info w wd m
    → info.pod.alive ≡ true
    → m.replies ≡ reply ∷ replies
    → reason_of reply ≡ some reason
    → stop_pod info.address m ≡ done (with_kept info w wd replies m) (kept reason)
unfolding append_line update_pod with_kept
stop_refused_once info w wd m reply replies reason h alive r fails =
    tells info w wd m h alive
    ∙ ap
        (λ rs.
          after
            (after (shutdown_answer rs w info.pod.alias (telling info w wd m)) (mark info.address))
            (stop_answered info info w))
        r
    ∙ ap (λ o. after (after o (mark info.address)) (stop_answered info info w))
        (shutdown_answer_failed reply replies w info.pod.alias _ reason fails)
    ∙ ap (λ n. done n (kept reason)) (put_back-left info w wd m h.there _ _ _ _ replies)
    ∙ ap (λ log. done (record (with_kept info w wd replies m) { log = log }) (kept reason))
        (append_assoc m.log ((codes "DSS " ++ info.pod.alias) ∷ [])
          (stop_line info.pod.alias (codes " Fail") ∷ []))

-- The pod that is left, which does not count as alive.
pub with_kept-IsStored :
    (info : Node) (w : ℕ) (wd : WorkerDescriptor) (m : Manager) (replies : List Reply)
    → IsStored info w wd m
    → IsStored
        (record info { pod = down info.pod })
        w
        (back_wd info w wd m)
        (with_kept info w wd replies m)
unfolding with_kept
with_kept-IsStored info w wd m replies h = record {
  by_address = find_node-updated info.address down m.pods info h.by_address;
  by_alias = find_alias-updated info.pod.alias down m.pods info (λ p. refl) h.by_alias h.by_address;
  bound = h.bound;
  there = (set-get_elem? m.workers w wd h.there (back_wd info w wd m)).0;
}

-- If the worker of a stored pod that is alive is lost or refuses to stop it, but not because it has given
-- the manager up, then `stopPod` answers the reason, the log has two lines more, the worker has the pod
-- at the end of its list, and the pod does not count as alive any more. So the next `stopPod` of it does
-- not ask the worker again, and answers that the pod is dead.
pub stop_refused :
    (info : Node) (w : ℕ) (wd : WorkerDescriptor) (m : Manager) (reply : Reply)
    (replies : List Reply) (reason : Str)
    → IsStored info w wd m
    → info.pod.alive ≡ true
    → m.replies ≡ reply ∷ replies
    → reason_of reply ≡ some reason
    → (m' : Manager) × (stop_pod info.address m
        ≡ done (with_kept info w wd replies m) (kept reason))
      × (stop_pod info.address (with_kept info w wd replies m)
          ≡ done m' (kept (codes "To shutdown a dead service")))
      × (m'.replies ≡ replies)
unfolding with_kept
stop_refused info w wd m reply replies reason h alive r fails =
    let info' : Node = record info { pod = down info.pod } in
    let back = back_wd info w wd m in
    let m₁ = with_kept info w wd replies m in
    let stored = with_kept-IsStored info w wd m replies h in
    (
      record m₁ { workers = set m₁.workers w (back_wd info' w back m₁) },
      stop_refused_once info w wd m reply replies reason h alive r fails,
      stop_dead info' w back m₁ stored refl,
      refl,
    )

-- If the worker of a stored pod that is alive stops it, then `stopPod` reads the pod after it has been
-- erased from the map.
pub stop_agreed :
    (info : Node) (w : ℕ) (wd : WorkerDescriptor) (m : Manager) (replies : List Reply)
    → IsStored info w wd m
    → info.pod.alive ≡ true
    → m.replies ≡ agreed ∷ replies
    → stop_pod info.address m ≡ undefined
unfolding shutdown_answer append_line
stop_agreed info w wd m replies h alive r =
    tells info w wd m h alive
    ∙ ap
        (λ rs.
          after
            (after (shutdown_answer rs w info.pod.alias (telling info w wd m)) (mark info.address))
            (stop_answered info info w))
        r
    ∙ if_true _ _ (==_self info.address)
