-- ===== src/Manager/Exits.antt =====
-- manager/Manager.cpp, `checkServices`: the pods that a worker says have ended.
use tiny_swarm.Prelude.{
  ℕ, ◌≡◌, refl, sym, ap, ap₂, ◌∙◌, true, false, List, [], ◌∷◌, ◌++◌, append_assoc, append-nil,
  Option, none, some, if◌then◌else◌, get_elem?, arith, if_true, if_false, Bool-cases, inl, inr,
}
use tiny_swarm.Prelude.Int.{pos, ◌==ℤ◌}
use tiny_swarm.Text.{Str, codes, ◌==s◌}
use tiny_swarm.Manager.Pod.{PodDescriptor, WorkerDescriptor}
use tiny_swarm.Manager.Core.{Node, Manager, find_alias, update_node, update_pod}
use tiny_swarm.Manager.Checks.{Exit, exits, note_found, note_exits, check_found, check_services}

abbrev address_of : Option Node → Option ℕ
address_of none = none
address_of (some n) = some n.address

-- The address under a name.
unfoldable pub address_under : Str → List Node → Option ℕ
unfolding find_alias
address_under alias nodes = address_of (find_alias alias nodes)

abbrev pub failed_one : Exit → Option ℕ → List ℕ
failed_one e none = []
failed_one e (some p) = if e.exit_num ==ℤ pos 0 then [] else p ∷ []

-- The addresses of the pods that are known and have not ended with 0, in the order of the answer.
unfoldable pub failed_pods : List Exit → List Node → List ℕ
unfolding address_under
failed_pods [] nodes = []
failed_pods (e ∷ es) nodes = failed_one e (address_under e.alias nodes) ++ failed_pods es nodes

abbrev down : PodDescriptor → PodDescriptor
down pod = record pod { alive = false }

address_under-down :
    (alias : Str) (p : ℕ) (nodes : List Node)
    → address_under alias (update_node p down nodes) ≡ address_under alias nodes
unfolding address_under find_alias update_node
address_under-down alias p [] = refl
address_under-down alias p (n ∷ nodes) = ground (arith, address_under-down alias p nodes)

failed_pods-down :
    (es : List Exit) (p : ℕ) (nodes : List Node)
    → failed_pods es (update_node p down nodes) ≡ failed_pods es nodes
unfolding failed_pods
failed_pods-down [] p nodes = refl
failed_pods-down (e ∷ es) p nodes =
    ap₂ (λ a rest. failed_one e a ++ rest) (address_under-down e.alias p nodes)
      (failed_pods-down es p nodes)

-- What a name that is noted does to the pods, the list of pods that are down, and the workers.
note_found_lem :
    (e : Exit) (o : Option Node) (es : List Exit) (m : Manager)
    → let m' = note_found o e m in
      (m'.down_services ≡ m.down_services ++ failed_one e (address_of o))
      × (failed_pods es m'.pods ≡ failed_pods es m.pods)
      × (m'.workers ≡ m.workers)
unfolding update_pod
note_found_lem e none es m = (sym (append-nil m.down_services), refl, refl)
note_found_lem e (some n) es m = elim (Bool-cases (e.exit_num ==ℤ pos 0)) [
  | inl zero_exit ↦
      ground (arith, zero_exit, append-nil m.down_services, failed_pods-down es n.address m.pods)
  | inr failed ↦ ground (arith, failed, failed_pods-down es n.address m.pods)
]

note_exits_lem :
    (es : List Exit) (m : Manager)
    → ((note_exits es m).down_services ≡ m.down_services ++ failed_pods es m.pods)
      × ((note_exits es m).workers ≡ m.workers)
unfolding note_exits failed_pods address_under
note_exits_lem [] m = (sym (append-nil m.down_services), refl)
note_exits_lem (e ∷ es) m =
    let found = find_alias e.alias m.pods in
    let (noted, same, workers) = note_found_lem e found es m in
    let (more, workers') = note_exits_lem es (note_found found e m) in
    (
      more
          ∙ ap₂ (λ ds fs. ds ++ fs) noted same
          ∙ append_assoc m.down_services (failed_one e (address_of found)) (failed_pods es m.pods),
      workers' ∙ workers,
    )

-- If a worker that counts as alive answers a check with pods that have ended, and not with "*", then
-- exactly those that the manager knows and that have not ended with 0 join the list of pods that are
-- down, in the order of the answer, and the workers are as before.
pub check_exits :
    (w : ℕ) (wd : WorkerDescriptor) (m : Manager) (e : Exit) (es : List Exit)
    → get_elem? m.workers w ≡ some wd
    → wd.alive ≡ true
    → (e.alias ==s codes "*") ≡ false
    → (m' : Manager) × (check_services w (exits (e ∷ es)) m ≡ some m')
      × (m'.down_services ≡ m.down_services ++ failed_pods (e ∷ es) m.pods)
      × (m'.workers ≡ m.workers)
unfolding check_services
check_exits w wd m e es there alive other =
    let (down, workers) = note_exits_lem (e ∷ es) m in
    (
      note_exits (e ∷ es) m,
      ap (λ o. check_found w o (exits (e ∷ es)) m) there ∙ if_true _ _ alive ∙ if_false _ _ other,
      down,
      workers,
    )
