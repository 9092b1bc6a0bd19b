-- ===== src/Manager/Starting.antt =====
-- manager/Manager.cpp, `createService`, of a pod that is in the map.
use tiny_swarm.Prelude.{ℕ, ◌+◌, ◌≡◌, ap, ap₂, ◌∙◌, List, [], ◌∷◌, ◌++◌, Option, some, get_elem?}
use tiny_swarm.Text.{Str, codes}
use tiny_swarm.Manager.Pod.{WorkerDescriptor}
use tiny_swarm.Manager.Core.{
  Node, Reply, agreed, Manager, done, created, failed, find_node, append_line,
}
use tiny_swarm.Manager.Calls.{
  create_service, create_rounds, fail_line, start_pod, create_at, started,
}
use tiny_swarm.Manager.Creation.{reason_of, create_rounds_failed}

abbrev at_worker : Node → Option ℕ → Node
at_worker n v = record n { pod = record n.pod { worker = v } }

module _ (p : ℕ) (n : Node) (m : Manager) (w : ℕ) where
  abbrev asked : Manager
  asked = record m {
    log = m.log ++ ((codes "CSS " ++ n.pod.alias) ∷ []);
    log_count = m.log_count + 1;
    cur_line = m.log_count + 1;
  }

  create_service_asks :
      find_node p m.pods ≡ some n
      → n.pod.worker ≡ some w
      → create_service p m ≡ create_rounds m.replies p w n.pod.alias asked
  unfolding create_service append_line
  create_service_asks stored bound =
      ap (λ o. create_at p o m) stored ∙ ap (λ v. create_at p (some (at_worker n v)) m) bound

  pub create_service_agreed :
      (wd : WorkerDescriptor) (replies : List Reply)
      → find_node p m.pods ≡ some n
      → n.pod.worker ≡ some w
      → get_elem? m.workers w ≡ some wd
      → m.replies ≡ agreed ∷ replies
      → create_service p m
        ≡ done
            (start_pod p wd n.pod (record m {
              log = m.log ++ ((codes "CSS " ++ n.pod.alias) ∷ []);
              log_count = m.log_count + 1;
              cur_line = m.log_count + 1;
              replies = replies;
            }))
            (created p)
  unfolding create_rounds
  create_service_agreed wd replies stored bound there r =
      create_service_asks stored bound
      ∙ ap (λ rs. create_rounds rs p w n.pod.alias asked) r
      ∙ ap₂ (λ d o. started p d o (record asked { replies = replies })) there stored

  pub create_service_failed :
      (reply : Reply) (replies : List Reply) (reason : Str)
      → find_node p m.pods ≡ some n
      → n.pod.worker ≡ some w
      → m.replies ≡ reply ∷ replies
      → reason_of reply ≡ some reason
      → create_service p m
        ≡ done
            (append_line (fail_line n.pod.alias) (record m {
              log = m.log ++ ((codes "CSS " ++ n.pod.alias) ∷ []);
              log_count = m.log_count + 1;
              cur_line = m.log_count + 1;
              replies = replies;
            }))
            (failed reason)
  create_service_failed reply replies reason stored bound r fails =
      create_service_asks stored bound
      ∙ ap (λ rs. create_rounds rs p w n.pod.alias asked) r
      ∙ create_rounds_failed reply replies p w n.pod.alias asked reason fails
