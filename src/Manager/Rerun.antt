-- ===== src/Manager/Rerun.antt =====
-- manager/Manager.cpp: one call of `selectWorkerToCreatePod`, against what its lines in the log lead to.
use tiny_swarm.Prelude.{
  ℕ, ◌+◌, ◌≡◌, sym, ap, ap₂, ◌∙◌, true, false, List, [], ◌∷◌, ◌++◌, map, append_assoc, none, some,
  arith,
}
use tiny_swarm.Prelude.Int.{ℤ}
use tiny_swarm.Text.{Str, codes}
use tiny_swarm.Manager.Pod.{
  PodDescriptor, WorkerDescriptor, find_worker, to_snapshot_message, snapshot_fields,
}
use tiny_swarm.Manager.Pod.Snapshot.{IsPrintable, restored}
use tiny_swarm.Manager.Core.{Reply, Manager, find_alias}
use tiny_swarm.Manager.Calls.{emplace_pod, fail_line}
use tiny_swarm.Manager.Creation.{with_pod}
use tiny_swarm.Manager.Log.{blank_pod, parse_log_line, and_then, replay}
use tiny_swarm.Manager.Replay.{replay-append, parse-start, parse-fail, parse-success}
use tiny_swarm.Manager.Steps.{IsOrdinary}
use tiny_swarm.Manager.Logged.{logged, is_taken, is_taken-none, none-is_taken, find_worker_from-set}

-- What holds of a manager `m` that has run since `m₀`: the lines since then lead from a manager `b` to one
-- with the pods of `m`.
pub record Recovers (b m₀ m : Manager) : Type 0 where
  pub lines : List Str
  pub recovered : Manager
  pub log : m.log ≡ m₀.log ++ lines
  pub replayed : replay lines b ≡ some recovered
  pub pods : map logged recovered.pods ≡ map logged m.pods
  pub workers : recovered.workers ≡ b.workers
  pub found : (ip : Str) (port : ℤ) → find_worker ip port m.workers ≡ find_worker ip port b.workers

replay_more :
    (b m₀ m : Manager) (r : Recovers b m₀ m) (x y : Str) (o o' : Manager)
    → parse_log_line x r.recovered ≡ some o
    → parse_log_line y o ≡ some o'
    → replay (r.lines ++ (x ∷ y ∷ [])) b ≡ some o'
unfolding replay
replay_more b m₀ m r x y o o' hx hy =
    replay-append r.lines (x ∷ y ∷ []) b
    ∙ ap (λ p. and_then p (λ m'. replay (x ∷ y ∷ []) m')) r.replayed
    ∙ ap (λ p. and_then p (λ m'. replay (y ∷ []) m')) hx
    ∙ ap (λ p. and_then p (λ m'. some m')) hy

-- A call that fails.
pub Recovers-failed :
    (b m₀ m : Manager) (pod : PodDescriptor) (w : ℕ) (wd : WorkerDescriptor) (replies : List Reply)
    → Recovers b m₀ m
    → IsOrdinary pod w wd m
    → Recovers b m₀ (record m {
      next_address = m.next_address + 1;
      log = m.log ++ ((codes "CSS " ++ pod.alias) ∷ fail_line pod.alias ∷ []);
      log_count = m.log_count + 1 + 1;
      cur_line = m.log_count + 1 + 1;
      replies = replies;
    })
Recovers-failed b m₀ m pod w wd replies r o = record {
  lines = r.lines ++ ((codes "CSS " ++ pod.alias) ∷ fail_line pod.alias ∷ []);
  recovered = r.recovered;
  log =
      ap (λ l. l ++ ((codes "CSS " ++ pod.alias) ∷ fail_line pod.alias ∷ [])) r.log
      ∙ append_assoc m₀.log r.lines _;
  replayed =
      replay_more b m₀ m r _ _ r.recovered r.recovered (parse-start pod.alias r.recovered)
        (parse-fail pod.alias r.recovered o.printable.alias_word);
  pods = r.pods;
  workers = r.workers;
  found = r.found;
}

-- The pod that is read from the log is the pod that the worker has agreed to.
logged-restored :
    (b m₀ m : Manager) (pod : PodDescriptor) (w : ℕ) (wd : WorkerDescriptor) (r : Recovers b m₀ m)
    (x y : ℕ)
    → IsOrdinary pod w wd m
    → let bound = record pod { worker = some w; ip = wd.ip } in
      logged (record { address = x; pod = restored r.recovered.workers wd bound blank_pod })
      ≡ logged (record { address = y; pod = record bound { alive = true } })
logged-restored b m₀ m pod w wd r x y o =
    ap (λ v. record pod { worker = v; alive = false; ip = []; docker_params = [] })
      (ap (find_worker wd.ip wd.port) r.workers ∙ sym (r.found wd.ip wd.port) ∙ o.known)

emplace_pod-none :
    (pod : PodDescriptor) (m : Manager)
    → find_alias pod.alias m.pods ≡ none
    → (((emplace_pod pod m).0).pods ≡ record { address = m.next_address; pod = pod } ∷ m.pods)
      × (((emplace_pod pod m).0).workers ≡ m.workers)
unfolding emplace_pod
emplace_pod-none pod m h = ground (arith, h)

-- A call that succeeds.
pub Recovers-agreed :
    (b m₀ m : Manager) (pod : PodDescriptor) (w : ℕ) (wd : WorkerDescriptor) (replies : List Reply)
    → Recovers b m₀ m
    → IsOrdinary pod w wd m
    → Recovers b m₀ (with_pod pod w wd replies m)
unfolding with_pod find_worker to_snapshot_message snapshot_fields
Recovers-agreed b m₀ m pod w wd replies r o =
    let bound = record pod { worker = some w; ip = wd.ip } in
    let printable : IsPrintable wd bound = record {
      service_word = o.printable.service_word;
      alias_word = o.printable.alias_word;
      ip_word = o.printable.ip_word;
      port_int = o.printable.port_int;
      worker_port_int = o.printable.worker_port_int;
      restart_int = o.printable.restart_int;
      params = o.printable.params;
    } in
    let read = restored r.recovered.workers wd bound blank_pod in
    let free =
      none-is_taken pod.alias r.recovered.pods
        (ap (is_taken pod.alias) r.pods ∙ is_taken-none pod.alias m.pods o.new.new_alias) in
    let (more, same) = emplace_pod-none read r.recovered free in
    let line = codes "CSE " ++ to_snapshot_message wd bound in
    record {
      lines = r.lines ++ ((codes "CSS " ++ pod.alias) ∷ line ∷ []);
      recovered = (emplace_pod read r.recovered).0;
      log =
          ap (λ l. l ++ ((codes "CSS " ++ pod.alias) ∷ line ∷ [])) r.log
          ∙ append_assoc m₀.log r.lines _;
      replayed =
          replay_more b m₀ m r _ _ r.recovered _ (parse-start pod.alias r.recovered)
            (parse-success wd bound r.recovered printable o.other);
      pods =
          ap (map logged) more
          ∙ ap₂ (λ p ps. p ∷ ps) (logged-restored b m₀ m pod w wd r 0 m.next_address o) r.pods;
      workers = same ∙ r.workers;
      found =
          λ ip port. find_worker_from-set 0 ip port m.workers w wd _ o.new.chosen ∙ r.found ip port;
    }
