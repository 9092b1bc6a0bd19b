-- ===== src/Manager/Starts.antt =====
-- manager/Manager.cpp, `recover`: which pods are down behind the loop that starts them again.
use tiny_swarm.Prelude.{
  ℕ, ◌+◌, ◌≡◌, refl, sym, ap, subst, ◌∙◌, Bool, true, false, List, [], ◌∷◌, ◌++◌, append_assoc,
  append-nil, Option, none, some, if_false, All,
}
use tiny_swarm.Text.{Str, codes}
use tiny_swarm.Manager.Core.{
  Reply, lost, refused, agreed, Manager, done, after, failed, update_node, append_line, update_pod,
}
use tiny_swarm.Manager.Calls.{start_pod, fail_line}
use tiny_swarm.Manager.Creation.{reason_of, IsFinal}
use tiny_swarm.Manager.Starting.{create_service_agreed, create_service_failed}
use tiny_swarm.Manager.Recover.{note_start, start_all}
use tiny_swarm.Manager.Startable.{IsStartable, with_alive, AreStartable-update_node}

abbrev failed_start : ℕ → Option Str → List ℕ
failed_start p none = []
failed_start p (some reason) = p ∷ []

-- The pods whose workers do not agree, by the answers to their calls.
unfoldable pub failed_starts : List ℕ → List Reply → List ℕ
failed_starts [] replies = []
failed_starts (p ∷ ps) [] = []
failed_starts (p ∷ ps) (reply ∷ replies) =
    failed_start p (reason_of reply) ++ failed_starts ps replies

-- One answer for each pod, behind which no call is tried again.
abbrev pub AreAnswers : List ℕ → List Reply → Type 0
AreAnswers [] [] = Unit
AreAnswers [] (reply ∷ replies) = ⊥
AreAnswers (p ∷ ps) [] = ⊥
AreAnswers (p ∷ ps) (reply ∷ replies) = IsFinal reply × AreAnswers ps replies

-- One pod that is started again.
record Restarted (p : ℕ) (reply : Reply) (rest : List Reply) (m : Manager) : Type 0 where
  next : Manager
  alive : Bool
  goes_on : (ps : List ℕ) → start_all (p ∷ ps) m ≡ start_all ps next
  pods : next.pods ≡ update_node p (with_alive alive) m.pods
  workers : next.workers ≡ m.workers
  down : next.down_services ≡ m.down_services ++ failed_start p (reason_of reply)
  replies : next.replies ≡ rest

restart_failed :
    (p : ℕ) (reply : Reply) (rest : List Reply) (m : Manager) (reason : Str)
    → IsStartable m.pods m.workers p
    → m.replies ≡ reply ∷ rest
    → reason_of reply ≡ some reason
    → Restarted p reply rest m
unfolding start_all append_line update_pod
restart_failed p reply rest m reason h r fails = record {
  next =
      note_start p
        (append_line (fail_line h.node.pod.alias) (record m {
          log = m.log ++ ((codes "CSS " ++ h.node.pod.alias) ∷ []);
          log_count = m.log_count + 1;
          cur_line = m.log_count + 1;
          replies = rest;
        }))
        (failed reason);
  alive = false;
  goes_on = λ ps.
      ap (λ o. after o (λ m' result. start_all ps (note_start p m' result)))
        (create_service_failed p h.node m h.w reply rest reason h.stored h.bound r fails);
  pods = refl;
  workers = refl;
  down = ap (λ o. m.down_services ++ failed_start p o) (sym fails);
  replies = refl;
}

restart_agreed :
    (p : ℕ) (rest : List Reply) (m : Manager)
    → IsStartable m.pods m.workers p
    → m.replies ≡ agreed ∷ rest
    → Restarted p agreed rest m
unfolding start_all append_line update_pod start_pod
restart_agreed p rest m h r = record {
  next = start_pod p h.wd h.node.pod (record m {
    log = m.log ++ ((codes "CSS " ++ h.node.pod.alias) ∷ []);
    log_count = m.log_count + 1;
    cur_line = m.log_count + 1;
    replies = rest;
  });
  alive = true;
  goes_on = λ ps.
      ap (λ o. after o (λ m' result. start_all ps (note_start p m' result)))
        (create_service_agreed p h.node m h.w h.wd rest h.stored h.bound h.there r);
  pods = refl;
  workers = refl;
  down = sym (append-nil m.down_services);
  replies = refl;
}

restart_any :
    (p : ℕ) (reply : Reply) (rest : List Reply) (m : Manager)
    → IsStartable m.pods m.workers p
    → m.replies ≡ reply ∷ rest
    → IsFinal reply
    → Restarted p reply rest m
restart_any p (lost text) rest m h r final = restart_failed p (lost text) rest m text h r refl
restart_any p (refused text) rest m h r final =
    restart_failed p (refused text) rest m text h r (if_false _ _ final)
restart_any p agreed rest m h r final = restart_agreed p rest m h r

-- When `recover` starts pods of the map again, with one final answer for each, then exactly those that
-- the workers do not agree to join the list of pods that are down, in their order, and the workers, with
-- their lists of pods, are as before.
pub start_all_lem :
    (ps : List ℕ) (answers rest : List Reply) (m : Manager)
    → All (IsStartable m.pods m.workers) ps
    → AreAnswers ps answers
    → m.replies ≡ answers ++ rest
    → (m' : Manager) × (start_all ps m ≡ done m' tt)
      × (m'.down_services ≡ m.down_services ++ failed_starts ps answers)
      × (m'.workers ≡ m.workers)
      × (m'.replies ≡ rest)
unfolding start_all failed_starts
start_all_lem [] [] rest m h a r = (m, refl, sym (append-nil m.down_services), refl, r)
start_all_lem [] (reply ∷ answers) rest m h a r = absurd a
start_all_lem (p ∷ ps) [] rest m h a r = absurd a
start_all_lem (p ∷ ps) (reply ∷ answers) rest m h a r =
    let one = restart_any p reply (answers ++ rest) m h.0 r a.0 in
    let startable =
      subst (λ nodes. All (IsStartable nodes one.next.workers) ps) (sym one.pods)
        (subst (λ ws. All (IsStartable (update_node p (with_alive one.alive) m.pods) ws) ps)
          (sym one.workers) (AreStartable-update_node p one.alive m.pods m.workers ps h.1)) in
    let (m', run, down, workers, replies) =
      start_all_lem ps answers rest one.next startable a.1 one.replies in
    (
      m',
      one.goes_on ps ∙ run,
      down
          ∙ ap (λ ds. ds ++ failed_starts ps answers) one.down
          ∙ append_assoc m.down_services (failed_start p (reason_of reply))
              (failed_starts ps answers),
      workers ∙ one.workers,
      replies,
    )
