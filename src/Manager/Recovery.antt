-- ===== src/Manager/Recovery.antt =====
-- manager/Manager.cpp: the log that creating pods writes, against what `parseLogLine` reads from it.
use tiny_swarm.Prelude.{
  ℕ, ◌+◌, ◌≡◌, refl, sym, ap, subst, ◌∙◌, List, [], ◌∷◌, ◌++◌, map, append-nil, Option, some,
  if_false,
}
use tiny_swarm.Prelude.Int.{ℤ}
use tiny_swarm.Text.{Str}
use tiny_swarm.Manager.Pod.{PodDescriptor, WorkerDescriptor, find_worker}
use tiny_swarm.Manager.Core.{
  Reply, lost, refused, agreed, Manager, Outcome, done, undefined, waiting, CreateResult,
}
use tiny_swarm.Manager.Calls.{select_worker_to_create_pod}
use tiny_swarm.Manager.Asking.{unplaced}
use tiny_swarm.Manager.Creation.{IsFinal, refused_lem, agreed_lem}
use tiny_swarm.Manager.Log.{replay}
use tiny_swarm.Manager.Steps.{IsOrdinary, Step, with_worker, without_worker, Reach, here, next}
use tiny_swarm.Manager.Logged.{logged}
use tiny_swarm.Manager.Rerun.{Recovers, Recovers-failed, Recovers-agreed}

abbrev state_of {ℓ} : {A : Type ℓ} → Manager → Outcome A → Manager
state_of m (done m' a) = m'
state_of m undefined = m
state_of m waiting = m

Recovers-done {ℓ} :
    {A : Type ℓ} (b m₀ m m' : Manager) (o : Outcome A) (x y : A)
    → Recovers b m₀ m
    → o ≡ done m x
    → o ≡ done m' y
    → Recovers b m₀ m'
Recovers-done b m₀ m m' o x y r e e' = subst (λ n. Recovers b m₀ n) (ap (state_of m) (sym e ∙ e')) r

-- A call behind an answer, whatever it is.
Recovers-answer :
    (choose : List WorkerDescriptor → PodDescriptor → Option ℕ) (b m₀ m m' : Manager)
    (pod : PodDescriptor) (w : ℕ) (wd : WorkerDescriptor) (reply : Reply) (replies : List Reply)
    (result : CreateResult)
    → Recovers b m₀ m
    → IsOrdinary pod w wd m
    → choose m.workers pod ≡ some w
    → m.replies ≡ reply ∷ replies
    → IsFinal reply
    → select_worker_to_create_pod choose pod m ≡ done m' result
    → Recovers b m₀ m'
Recovers-answer choose b m₀ m m' pod w wd (lost text) replies result r o h e final run =
    Recovers-done b m₀ _ m' _ _ result (Recovers-failed b m₀ m pod w wd replies r o)
      (refused_lem choose pod w wd m (lost text) text replies o.new h e refl) run
Recovers-answer choose b m₀ m m' pod w wd (refused text) replies result r o h e final run =
    Recovers-done b m₀ _ m' _ _ result (Recovers-failed b m₀ m pod w wd replies r o)
      (refused_lem choose pod w wd m (refused text) text replies o.new h e (if_false _ _ final)) run
Recovers-answer choose b m₀ m m' pod w wd agreed replies result r o h e final run =
    Recovers-done b m₀ _ m' _ _ result (Recovers-agreed b m₀ m pod w wd replies r o)
      (agreed_lem choose pod w wd m replies o.new h e) run

Recovers-Step :
    (choose : List WorkerDescriptor → PodDescriptor → Option ℕ) (b m₀ : Manager) {m m' : Manager}
    → Recovers b m₀ m
    → Step choose m m'
    → Recovers b m₀ m'
Recovers-Step choose b m₀ {m} {m'} r (with_worker pod w wd reply replies result o h e final run) =
    Recovers-answer choose b m₀ m m' pod w wd reply replies result r o h e final run
Recovers-Step choose b m₀ {m} {m'} r (without_worker pod result new h run) =
    Recovers-done b m₀ (record m { next_address = m.next_address + 1 }) m' _ _ result
      (record {
        lines = r.lines;
        recovered = r.recovered;
        log = r.log;
        replayed = r.replayed;
        pods = r.pods;
        workers = r.workers;
        found = r.found;
      })
      (unplaced pod m choose new h) run

Recovers-Reach :
    (choose : List WorkerDescriptor → PodDescriptor → Option ℕ) (b m₀ : Manager) {m : Manager}
    → map logged b.pods ≡ map logged m₀.pods
    → ((ip : Str) (port : ℤ) → find_worker ip port m₀.workers ≡ find_worker ip port b.workers)
    → Reach choose m₀ m
    → Recovers b m₀ m
unfolding replay
Recovers-Reach choose b m₀ pods known here = record {
  lines = [];
  recovered = b;
  log = sym (append-nil m₀.log);
  replayed = refl;
  pods = pods;
  workers = refl;
  found = known;
}
Recovers-Reach choose b m₀ pods known (next run step) =
    Recovers-Step choose b m₀ (Recovers-Reach choose b m₀ pods known run) step

-- Whatever calls of `selectWorkerToCreatePod` for ordinary new pods have come since a state, with whatever
-- final answers: the lines that they have added to the log, read by `parseLogLine` one after the other,
-- lead from any manager with the same pods, and with workers at the same addresses, to the pods that
-- the manager has, in their order, each with its worker, port, type, restarts and exe params.
pub log_replays :
    (choose : List WorkerDescriptor → PodDescriptor → Option ℕ) (b m₀ m : Manager)
    → Reach choose m₀ m
    → map logged b.pods ≡ map logged m₀.pods
    → ((ip : Str) (port : ℤ) → find_worker ip port m₀.workers ≡ find_worker ip port b.workers)
    → (lines : List Str) × (r : Manager) × (m.log ≡ m₀.log ++ lines)
      × (replay lines b ≡ some r)
      × (map logged r.pods ≡ map logged m.pods)
      × (r.workers ≡ b.workers)
log_replays choose b m₀ m run pods known =
    let r = Recovers-Reach choose b m₀ pods known run in
    (r.lines, r.recovered, r.log, r.replayed, r.pods, r.workers)
