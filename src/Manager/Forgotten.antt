-- ===== src/Manager/Forgotten.antt =====
-- manager/Manager.cpp: what `recover` does with the snapshot that the last `recover` has left.
use tiny_swarm.Prelude.{◌≤◌, ◌≡◌, ap, ◌∙◌, Bool, List, [], map, Option, some, drop, All}
use tiny_swarm.Text.{Str}
use tiny_swarm.Manager.Pod.{WorkerDescriptor}
use tiny_swarm.Manager.Core.{Manager, done, after}
use tiny_swarm.Manager.Log.{replay, replay_log}
use tiny_swarm.Manager.SnapshotFile.{read_snapshot}
use tiny_swarm.Text.Stream.{max_int}
use tiny_swarm.Manager.Saved.{IsAddress}
use tiny_swarm.Manager.Restored.{IsSaved}
use tiny_swarm.Manager.Reading.{read_snapshot-write_snapshot}
use tiny_swarm.Manager.Recover.{
  start_all, connect_all, node_address, remove_log, forget_log, start_from, logged_from,
  snapshot_from, recover,
}

-- If `recover` gets through its loops, into a state of which a snapshot can be printed and read, then it
-- ends there, with an empty log and its number of lines at 0, and leaves a snapshot with the number
-- that it had counted to. So when a manager without workers and pods recovers from this snapshot and a
-- new log, the loop over the log leaves out as many of the first new lines, and replays the others.
pub new_lines_skipped :
    (connected : WorkerDescriptor → Bool) (time : WorkerDescriptor → Str) (file : Option (List Str))
    (log new_log : List Str) (m₀ m₁ m e : Manager)
    → logged_from log (snapshot_from file m₀) ≡ some m₁
    → start_all (map node_address (connect_all connected m₁).pods) (connect_all connected m₁)
      ≡ done m tt
    → m.cur_line ≤ max_int
    → All IsAddress m.workers
    → All (IsSaved m.workers) m.pods
    → e.workers ≡ []
    → e.pods ≡ []
    → (left : List Str) × (r : Manager) × (recover connected time file log m₀
        ≡ done (record m { log = []; cur_line = 0 }) left)
      × (read_snapshot left e ≡ some r)
      × (r.cur_line ≡ m.cur_line)
      × (logged_from new_log (snapshot_from (some left) e) ≡ replay (drop m.cur_line new_log) r)
unfolding recover forget_log replay_log
new_lines_skipped connected time file log new_log m₀ m₁ m e loaded started small addresses saved
      no_workers no_pods =
    let (left, r, written, read, number, workers, pods) =
      read_snapshot-write_snapshot time m e [] small addresses saved no_workers no_pods in
    (
      left,
      r,
      ap (start_from connected time) loaded
          ∙ ap (λ o. after o (forget_log time)) started
          ∙ ap (remove_log m) written,
      read,
      number,
      ap (logged_from new_log) read ∙ ap (λ n. replay (drop n new_log) r) number,
    )
