-- ===== src/Manager/Scheduler.antt =====
-- manager/Scheduler/Scheduler.h, `RoundRobin`, and `portAvailable` of manager/WorkerDescriptor.h.
-- The workers do not change during a call. A port is a number.
use tiny_swarm.Prelude.{
  ℕ, zero, suc, ◌+◌, ◌%◌, Bool, true, false, ◌&&◌, List, [], ◌∷◌, ◌==◌, if◌then◌else◌, length,
}
use tiny_swarm.Prelude.Int.{ℤ, pos, negsuc, sub_ℕ, ◌+ℤ◌, ◌-ℤ◌}

-- What the scheduler reads of a worker: whether it is alive, and the ports of its pods.
pub record Worker : Type 0 where
  pub alive : Bool
  pub ports : List ℕ

unfoldable pub port_available : ℕ → List ℕ → Bool
port_available p [] = true
port_available p (port ∷ ports) =
    let rest = port_available p ports in if port == p then false else rest

-- A call so far: it has returned a worker or the null pointer, it still runs, or it has divided by 0.
pub data Call : Type 0 where
  returned : Worker → Call
  null undefined : Call
  running : ℤ → Call

-- `last.fetch_add(1)`, which wraps around at 32 bits.
unfoldable pub next_last : ℤ → ℤ
next_last (pos n) = if n == 0x7FFFFFFF then negsuc 0x7FFFFFFF else pos (n + 1)
next_last (negsuc zero) = pos 0
next_last (negsuc (suc n)) = negsuc n

-- `i % size`, which has the sign of `i`.
unfoldable pub remainder : ℤ → ℕ → ℤ
remainder (pos n) size = pos (n % size)
remainder (negsuc n) size = sub_ℕ 0 (suc n % size)

abbrev pub is_zero : ℤ → Bool
is_zero (pos n) = n == 0
is_zero (negsuc n) = false

unfoldable pub is_usable : ℕ → Worker → Bool
unfolding port_available
is_usable port w = w.alive && port_available port w.ports

-- The loop, for a number of rounds: `i--`, the test, and `i++`. Nothing moves the iterator.
unfoldable pub scan : ℕ → ℤ → List Worker → ℕ → Call
unfolding is_usable ◌-ℤ◌ ◌+ℤ◌
scan zero i it port = running i
scan (suc rounds) i [] port = null
scan (suc rounds) i (w ∷ it) port =
    let less = i -ℤ pos 1 in
    let rest = scan rounds (less +ℤ pos 1) (w ∷ it) port in
    if is_zero less && is_usable port w then returned w else rest

-- `getBestWorker` at the counter `last`, after a number of rounds of its loop.
unfoldable pub get_best_worker : ℕ → ℤ → List Worker → ℕ → Call
unfolding scan remainder
get_best_worker rounds last [] port = undefined
get_best_worker rounds last (w ∷ workers) port =
    scan rounds (remainder last (length (w ∷ workers))) (w ∷ workers) port
