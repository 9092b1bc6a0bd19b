-- ===== src/Manager/Checking.antt =====
-- manager/Manager.cpp, `checkServices`: a worker that does not answer, and pods that have ended.
use tiny_swarm.Prelude.{
  ℕ, ◌≡◌, refl, ap, ◌∙◌, true, false, List, [], ◌∷◌, ◌++◌, append_assoc, some, get_elem?, set,
  arith, if_true,
}
use tiny_swarm.Manager.Pod.{WorkerDescriptor}
use tiny_swarm.Manager.Core.{Node, Manager, lose_pods}
use tiny_swarm.Manager.Asking.{set-get_elem?}
use tiny_swarm.Manager.Loss.{ArePods, lost_nodes, lose_pods_lem, has_node-lost_nodes}
use tiny_swarm.Manager.Checks.{CheckReply, no_answer, check_found, check_services, reconnect}

-- The manager behind the loss of a worker.
abbrev lost_at : ℕ → WorkerDescriptor → Manager → Manager
lost_at w wd m = record m {
  workers = set m.workers w (record wd { alive = false });
  pods = lost_nodes wd.pods m.pods;
  down_services = m.down_services ++ wd.pods;
}

-- If a worker that counts as alive does not answer a check, it counts as lost: all its pods are down and
-- behind the others on the list of pods that are down. The next check leaves them alone.
pub check_lost :
    (w : ℕ) (wd : WorkerDescriptor) (m : Manager) (reply : CheckReply)
    → get_elem? m.workers w ≡ some wd
    → wd.alive ≡ true
    → ArePods m.pods wd.pods
    → (check_services w no_answer m
        ≡ some (record m {
          workers = set m.workers w (record wd { alive = false });
          pods = lost_nodes wd.pods m.pods;
          down_services = m.down_services ++ wd.pods;
        }))
      × (check_services w reply (lost_at w wd m) ≡ some (lost_at w wd m))
unfolding check_services
check_lost w wd m reply there alive valid =
    let gone = record wd { alive = false } in
    (
      ap (λ o. check_found w o no_answer m) there
          ∙ if_true _ _ alive
          ∙ ap (λ ws. lose_pods wd.pods (record m { workers = ws })) (ground (arith, there))
          ∙ lose_pods_lem wd.pods (record m { workers = set m.workers w gone }) valid,
      ap (λ o. check_found w o reply (lost_at w wd m)) (set-get_elem? m.workers w wd there gone).0,
    )

ArePods-lost :
    (nodes : List Node) (qs ps : List ℕ) → ArePods nodes ps → ArePods (lost_nodes qs nodes) ps
ArePods-lost nodes qs [] h = tt
ArePods-lost nodes qs (p ∷ ps) h =
    (has_node-lost_nodes p qs nodes ∙ h.0, ArePods-lost nodes qs ps h.1)

-- If a worker is lost, connected again and lost again, with no pod started between, then each of its
-- pods is on the list of pods that are down twice.
pub check_lost_twice :
    (w : ℕ) (wd : WorkerDescriptor) (m : Manager)
    → get_elem? m.workers w ≡ some wd
    → wd.alive ≡ true
    → ArePods m.pods wd.pods
    → (m₁ m₂ : Manager) × (check_services w no_answer m ≡ some m₁)
      × (check_services w no_answer (reconnect w true m₁) ≡ some m₂)
      × (m₂.down_services ≡ m.down_services ++ (wd.pods ++ wd.pods))
unfolding reconnect
check_lost_twice w wd m there alive valid =
    let m₁ = lost_at w wd m in
    let gone = record wd { alive = false } in
    let back = record wd { alive = true } in
    let there₁ = (set-get_elem? m.workers w wd there gone).0 in
    let there₂ : get_elem? (reconnect w true m₁).workers w ≡ some back =
      ground (arith, there₁, (set-get_elem? m₁.workers w gone there₁ back).0) in
    (
      m₁,
      lost_at w back (reconnect w true m₁),
      (check_lost w wd m no_answer there alive valid).0,
      (check_lost w back (reconnect w true m₁) no_answer there₂ refl
          (ArePods-lost m.pods wd.pods wd.pods valid)).0,
      append_assoc m.down_services wd.pods wd.pods,
    )
