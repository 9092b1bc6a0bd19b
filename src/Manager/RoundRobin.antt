-- ===== src/Manager/RoundRobin.antt =====
-- manager/Scheduler/Scheduler.h, `RoundRobin`: which calls return.
use native.Mathlib.Nat.{zero-mod}
use tiny_swarm.Prelude.{
  ℕ, zero, suc, ◌≡◌, ap, ◌∙◌, Bool, false, ◌&&◌, List, ◌∷◌, ◌==◌, if◌then◌else◌, length, arith,
}
use tiny_swarm.Prelude.Int.{ℤ, pos, negsuc, ◌+ℤ◌, ◌-ℤ◌}
use tiny_swarm.Manager.Scheduler.{
  Worker, Call, returned, running, remainder, is_zero, is_usable, scan, get_best_worker,
}

abbrev pub is_one : ℤ → Bool
is_one (pos n) = n == 1
is_one (negsuc n) = false

back : (i : ℤ) → i -ℤ pos 1 +ℤ pos 1 ≡ i
unfolding ◌+ℤ◌ ◌-ℤ◌
back i = ground arith

zero_one : (i : ℤ) → is_zero (i -ℤ pos 1) ≡ is_one i
unfolding ◌-ℤ◌
zero_one i = ground arith

if_twice : (b : Bool) (x y : Call) → (if b then x else (if b then x else y)) ≡ (if b then x else y)
if_twice b x y = ground arith

scan_lem :
    (rounds : ℕ) (i : ℤ) (w : Worker) (it : List Worker) (port : ℕ)
    → scan (suc rounds) i (w ∷ it) port
      ≡ (if is_one i && is_usable port w then returned w else running i)
unfolding scan ◌+ℤ◌ ◌-ℤ◌
scan_lem zero i w it port = ground arith
scan_lem (suc rounds) i w it port =
    ap
      (λ b.
        if b && is_usable port w
        then returned w
        else scan (suc rounds) (i -ℤ pos 1 +ℤ pos 1) (w ∷ it) port)
      (zero_one i)
    ∙ ap
        (λ j.
          if is_one i && is_usable port w then returned w else scan (suc rounds) j (w ∷ it) port)
        (back i)
    ∙ ap (λ c. if is_one i && is_usable port w then returned w else c) (scan_lem rounds i w it port)
    ∙ if_twice (is_one i && is_usable port w) (returned w) (running i)

-- After any number of rounds but none, a call has returned the first worker if the counter leaves the
-- remainder 1 and that worker can take the pod; else it still runs, at the remainder with which it
-- began.
pub get_best_worker_lem :
    (rounds : ℕ) (last : ℤ) (w : Worker) (workers : List Worker) (port : ℕ)
    → let i = remainder last (length (w ∷ workers)) in
      get_best_worker (suc rounds) last (w ∷ workers) port
      ≡ (if is_one i && is_usable port w then returned w else running i)
unfolding get_best_worker
get_best_worker_lem rounds last w workers port =
    scan_lem rounds (remainder last (length (w ∷ workers))) w workers port

-- The first call of a scheduler, whose counter is 0, never returns, whatever the workers are.
pub first_call_runs :
    (rounds : ℕ) (w : Worker) (workers : List Worker) (port : ℕ)
    → get_best_worker rounds (pos 0) (w ∷ workers) port ≡ running (pos 0)
unfolding get_best_worker remainder scan
first_call_runs zero w workers port = ap (λ i. running (pos i)) (zero-mod (suc (length workers)))
first_call_runs (suc rounds) w workers port =
    get_best_worker_lem rounds (pos 0) w workers port
    ∙ ap (λ i. if is_one (pos i) && is_usable port w then returned w else running (pos i))
        (zero-mod (suc (length workers)))
