-- ===== src/Manager/Telling.antt =====
-- manager/Manager.cpp, `stopPod`, up to the worker's answer.
use tiny_swarm.Prelude.{
  ℕ, ◌+◌, ◌≡◌, sym, ap, ◌∙◌, true, List, [], ◌∷◌, ◌++◌, some, get_elem?, set, set-set, arith,
  if_true, if_false, Bool-cases, inl, inr, some-injective,
}
use tiny_swarm.Text.{Str, codes}
use tiny_swarm.Manager.Pod.{WorkerDescriptor}
use tiny_swarm.Manager.Core.{
  Node, Reply, lost, refused, agreed, Manager, done, after, find_alias, find_node, remove_pointer,
  detach, append_line,
}
use tiny_swarm.Manager.Calls.{is_manager_down}
use tiny_swarm.Manager.Asking.{set-get_elem?}
use tiny_swarm.Manager.Creation.{reason_of}
use tiny_swarm.Manager.Stops.{
  kept, stop_line, shutdown_answer, shutdown_pod, put_back, stop_answered, stop_on, stop_found,
  stop_at, stop_pod, mark, shutdown_info,
}

-- A pod in the map, found by its address and by its name, and its worker.
pub record IsStored (info : Node) (w : ℕ) (wd : WorkerDescriptor) (m : Manager) : Type 0 where
  pub by_address : find_node info.address m.pods ≡ some info
  pub by_alias : find_alias info.pod.alias m.pods ≡ some info
  pub bound : info.pod.worker ≡ some w
  pub there : get_elem? m.workers w ≡ some wd

pub shutdown_answer_failed :
    (reply : Reply) (replies : List Reply) (w : ℕ) (alias : Str) (m : Manager) (reason : Str)
    → reason_of reply ≡ some reason
    → shutdown_answer (reply ∷ replies) w alias m
      ≡ done
          (append_line (stop_line alias (codes " Fail")) (record m { replies = replies }))
          (kept reason)
unfolding shutdown_answer append_line
shutdown_answer_failed (lost text) replies w alias m reason h =
    ap
      (λ t.
        done (append_line (stop_line alias (codes " Fail")) (record m { replies = replies }))
          (kept t))
      (some-injective _ _ h)
shutdown_answer_failed (refused text) replies w alias m reason h =
    elim (Bool-cases (is_manager_down text)) [
      | inl down ↦ ground (arith, h, down)
      | inr other ↦
          if_false _ _ other
          ∙ ap
              (λ t.
                done
                  (append_line (stop_line alias (codes " Fail")) (record m { replies = replies }))
                  (kept t))
              (some-injective _ _ (sym (if_false _ _ other) ∙ h))
    ]
shutdown_answer_failed agreed replies w alias m reason h = cc

module _ (info : Node) (w : ℕ) (wd : WorkerDescriptor) (m : Manager) where
  abbrev pub left_wd : WorkerDescriptor
  left_wd = record wd { pods = remove_pointer info.address wd.pods }

  -- The worker with the pod at the end of its list.
  abbrev pub back_wd : WorkerDescriptor
  back_wd = record wd { pods = remove_pointer info.address wd.pods ++ (info.address ∷ []) }

  abbrev pub left : Manager
  left = record m { workers = set m.workers w left_wd }

  -- The manager while it waits for the worker's answer.
  abbrev pub telling : Manager
  telling = record left {
    log = m.log ++ ((codes "DSS " ++ info.pod.alias) ∷ []);
    log_count = m.log_count + 1;
    cur_line = m.log_count + 1;
  }

  detach-there : get_elem? m.workers w ≡ some wd → detach info.address (some w) m ≡ left
  unfolding detach
  detach-there h = ground (arith, h)

  pub asks_info :
      IsStored info w wd m
      → stop_pod info.address m ≡ after (shutdown_info info w left) (stop_answered info info w)
  unfolding stop_pod
  asks_info h =
      ap (λ o. stop_at o m) h.by_address
      ∙ ap (λ o. stop_found o info m) h.by_alias
      ∙ ap (λ o. stop_on o info info m) h.bound
      ∙ ap (λ n. after (shutdown_info info w n) (stop_answered info info w)) (detach-there h.there)

  pub tells :
      IsStored info w wd m
      → info.pod.alive ≡ true
      → stop_pod info.address m
        ≡ after
            (after (shutdown_answer m.replies w info.pod.alias telling) (mark info.address))
            (stop_answered info info w)
  unfolding shutdown_info shutdown_pod append_line
  tells h alive = asks_info h ∙ ap (λ o. after o (stop_answered info info w)) (if_true _ _ alive)

  pub put_back-left :
      get_elem? m.workers w ≡ some wd
      → (pods : List Node) (log : List Str) (count line : ℕ) (replies : List Reply)
      → put_back w info.address (record left {
        pods = pods;
        log = log;
        log_count = count;
        cur_line = line;
        replies = replies;
      })
        ≡ record m {
          workers = set m.workers w back_wd;
          pods = pods;
          log = log;
          log_count = count;
          cur_line = line;
          replies = replies;
        }
  put_back-left h pods log count line replies =
      ap
        (λ ws. record m {
          workers = ws;
          pods = pods;
          log = log;
          log_count = count;
          cur_line = line;
          replies = replies;
        })
        (ground (arith, (set-get_elem? m.workers w wd h left_wd).0)
          ∙ set-set m.workers w left_wd back_wd)
