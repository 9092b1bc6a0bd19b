-- ===== src/Worker/Tests.antt =====
-- Runs of the queue of the worker.
use tiny_swarm.Prelude.{ℕ, ◌≡◌, refl, List, [], ◌∷◌, ◌++◌, map, Option, none, some}
use tiny_swarm.Worker.LockFreeQueue.{Queue, new_queue, Event, push, push_step, pop, pop_step, run}
use tiny_swarm.Worker.Order.{run_lem}

-- A value is popped while the next one is pushed.
abbrev mixed : List (Event ℕ)
mixed =
    push 7
    ∷ push_step
    ∷ push_step
    ∷ push_step
    ∷ push_step
    ∷ push 8
    ∷ pop
    ∷ push_step
    ∷ pop_step
    ∷ pop_step
    ∷ push_step
    ∷ pop_step
    ∷ push_step
    ∷ pop_step
    ∷ push_step
    ∷ []

abbrev popped_of : Option (Queue ℕ) → List (Option ℕ)
popped_of none = []
popped_of (some s) = s.popped

mixed_pops : popped_of (run mixed new_queue) ≡ some 7 ∷ []
unfolding run
mixed_pops = refl

run_lem_example :
    (s : Queue ℕ) × (rest : List ℕ) × (run mixed new_queue ≡ some s)
    × (map some s.pushed ≡ s.popped ++ map some rest)
run_lem_example = run_lem mixed
