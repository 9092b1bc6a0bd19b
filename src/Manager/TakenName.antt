-- ===== src/Manager/TakenName.antt =====
-- manager/Manager.cpp, `selectWorkerToCreatePod`, under a name that a pod has already.
use tiny_swarm.Prelude.{
  ℕ, ◌+◌, ◌≡◌, refl, ap, ap₂, ◌∙◌, List, [], ◌∷◌, ◌++◌, append_assoc, Option, none, some, get_elem?,
  set, set-set, arith,
}
use tiny_swarm.Text.{Str, codes}
use tiny_swarm.Manager.Pod.{PodDescriptor, WorkerDescriptor}
use tiny_swarm.Manager.Core.{
  Node, Reply, Manager, done, after, failed, find_alias, find_node, update_node, erase_node,
  erase_found, erase_pod, append_line, update_pod, bind_worker, detach, remove_pointer,
  change_worker,
}
use tiny_swarm.Manager.Calls.{
  create_rounds, create_service, emplace_pod, erase_failed, create_on, node_pod, fail_line,
  select_worker_to_create_pod,
}
use tiny_swarm.Manager.Asking.{set-get_elem?}
use tiny_swarm.Manager.Creation.{reason_of, create_rounds_failed}
use tiny_swarm.Manager.Nodes.{find_alias-updated, erase_node-updated}
use tiny_swarm.Manager.Rebinding.{
  rebound, more_wd, bound_again, asking_again, bind_worker_stored, create_service_stored,
}

module _ (choose : List WorkerDescriptor → PodDescriptor → Option ℕ) (pod : PodDescriptor)
    (n : Node) (m : Manager) (named : find_alias pod.alias m.pods ≡ some n)
    (stored : find_node n.address m.pods ≡ some n) where
  emplace_pod_taken : emplace_pod pod m ≡ (m, n.address)
  unfolding emplace_pod
  emplace_pod_taken = ground (arith, named)

  create_on_taken :
      select_worker_to_create_pod choose pod m
      ≡ create_on (choose m.workers n.pod) n.address pod.alias m
  unfolding select_worker_to_create_pod
  create_on_taken =
      ap
        (λ e.
          create_on (choose e.0.workers (node_pod (find_node e.1 e.0.pods) pod)) e.1 pod.alias e.0)
        emplace_pod_taken
      ∙ ap (λ o. create_on (choose m.workers (node_pod o pod)) n.address pod.alias m) stored

  -- If there is no worker for a pod under a name that is taken, then the pod that has the name is erased,
  -- and its address stays in the list of its worker.
  pub taken_unplaced :
      choose m.workers n.pod ≡ none
      → select_worker_to_create_pod choose pod m
        ≡ done
            (record m { pods = erase_node n.address m.pods })
            (failed (codes "Available Worker Not Found"))
  unfolding create_on bind_worker update_pod erase_pod detach
  taken_unplaced h =
      create_on_taken
      ∙ ap (λ o. create_on o n.address pod.alias m) h
      ∙ ap
          (λ o.
            done
              (erase_found o (record m {
                pods = update_node n.address (λ p. record p { worker = none }) m.pods;
              }))
              (failed (codes "Available Worker Not Found")))
          (find_alias-updated pod.alias _ m.pods n (λ p. refl) named stored)
      ∙ ap (λ nodes. done (record m { pods = nodes }) (failed (codes "Available Worker Not Found")))
          (erase_node-updated n.address _ m.pods)

  module _ (w : ℕ) (wd : WorkerDescriptor) (there : get_elem? m.workers w ≡ some wd) where
    leave_taken :
        change_worker w
          (λ d. record d { pods = remove_pointer n.address d.pods })
          (bound_again n m w wd).workers
        ≡ set m.workers w
            (record wd { pods = remove_pointer n.address (wd.pods ++ (n.address ∷ [])) })
    leave_taken =
        ground (arith, (set-get_elem? m.workers w wd there (more_wd n m w wd)).0)
        ∙ set-set m.workers w (more_wd n m w wd) _

    erase_pod_taken :
        (log : List Str) (line : ℕ) (replies : List Reply)
        → erase_pod pod.alias (record (bound_again n m w wd) {
          log = log;
          log_count = line;
          cur_line = line;
          replies = replies;
        })
          ≡ record m {
            pods = erase_node n.address m.pods;
            workers =
                set m.workers w
                  (record wd { pods = remove_pointer n.address (wd.pods ++ (n.address ∷ [])) });
            log = log;
            log_count = line;
            cur_line = line;
            replies = replies;
          }
    unfolding erase_pod detach
    erase_pod_taken log line replies =
        ap
          (λ o. erase_found o (record (bound_again n m w wd) {
            log = log;
            log_count = line;
            cur_line = line;
            replies = replies;
          }))
          (find_alias-updated pod.alias (rebound n m w wd) m.pods n (λ p. refl) named stored)
        ∙ ap₂
            (λ nodes workers. record m {
              pods = nodes;
              workers = workers;
              log = log;
              log_count = line;
              cur_line = line;
              replies = replies;
            })
            (erase_node-updated n.address (rebound n m w wd) m.pods) leave_taken

    -- If the worker that is chosen for a pod under a name that is taken is lost or refuses it, but not
    -- because it has given the manager up, then the pod that has the name is erased: the log does not say
    -- so, and no worker but the chosen one has a pod less or more in its list.
    pub taken_refused :
        (reply : Reply) (reason : Str) (replies : List Reply)
        → choose m.workers n.pod ≡ some w
        → m.replies ≡ reply ∷ replies
        → reason_of reply ≡ some reason
        → select_worker_to_create_pod choose pod m
          ≡ done
              (record m {
                pods = erase_node n.address m.pods;
                workers =
                    set m.workers w
                      (record wd { pods = remove_pointer n.address (wd.pods ++ (n.address ∷ [])) });
                log = m.log ++ ((codes "CSS " ++ n.pod.alias) ∷ fail_line n.pod.alias ∷ []);
                log_count = m.log_count + 1 + 1;
                cur_line = m.log_count + 1 + 1;
                replies = replies;
              })
              (failed reason)
    unfolding create_on append_line
    taken_refused reply reason replies h r fails =
        create_on_taken
        ∙ ap (λ o. create_on o n.address pod.alias m) h
        ∙ ap (λ b. after (create_service n.address b) (erase_failed pod.alias))
            (bind_worker_stored n m w wd there)
        ∙ ap (λ o. after o (erase_failed pod.alias)) (create_service_stored n m w wd stored)
        ∙ ap
            (λ rs.
              after (create_rounds rs n.address w n.pod.alias (asking_again n m w wd))
                (erase_failed pod.alias))
            r
        ∙ ap (λ o. after o (erase_failed pod.alias))
            (create_rounds_failed reply replies n.address w n.pod.alias (asking_again n m w wd)
              reason fails)
        ∙ ap (λ b. done b (failed reason)) (erase_pod_taken _ _ replies)
        ∙ ap
            (λ log.
              done
                (record m {
                  pods = erase_node n.address m.pods;
                  workers =
                      set m.workers w (record wd {
                        pods = remove_pointer n.address (wd.pods ++ (n.address ∷ []));
                      });
                  log = log;
                  log_count = m.log_count + 1 + 1;
                  cur_line = m.log_count + 1 + 1;
                  replies = replies;
                })
                (failed reason))
            (append_assoc m.log ((codes "CSS " ++ n.pod.alias) ∷ []) (fail_line n.pod.alias ∷ []))
