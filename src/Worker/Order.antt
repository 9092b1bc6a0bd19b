-- ===== src/Worker/Order.antt =====
-- worker/util/LockFreeQueue.h: what comes out of the queue, in all interleavings of the two threads.
use tiny_swarm.Prelude.{◌≡◌, refl, sym, ap, subst, ◌∙◌, arith, List, [], ◌∷◌, ◌++◌, map, some}
use tiny_swarm.Worker.LockFreeQueue.{
  Producer, idle, allocated, loaded, filled, linked, Consumer, waiting, old_head, found, taken,
  read, Queue, new_queue, start_push, start_pop, Event, push, push_step, pop, pop_step, step,
  and_then, run,
}
use tiny_swarm.Worker.Fifo.{IsGood}
use tiny_swarm.Worker.Pushing.{start_push-IsGood, push_on-IsGood}
use tiny_swarm.Worker.Popping.{start_pop-IsGood, pop_on-IsGood}

module _ {A : Type 0} where
  abbrev Good : Queue A → Type 0
  Good s = IsGood s.producer s.consumer s

  pushes :
      (v : A) (pr : Producer A) (s : Queue A)
      → s.producer ≡ pr
      → IsGood pr s.consumer s
      → Good (start_push v pr s)
  pushes v idle s e g = start_push-IsGood v s.consumer s g
  pushes v (allocated w p) s e g = subst (λ q. IsGood q s.consumer s) (sym e) g
  pushes v (loaded w p old) s e g = subst (λ q. IsGood q s.consumer s) (sym e) g
  pushes v (filled w p old) s e g = subst (λ q. IsGood q s.consumer s) (sym e) g
  pushes v (linked w p) s e g = subst (λ q. IsGood q s.consumer s) (sym e) g

  pops :
      (co : Consumer) (s : Queue A)
      → s.consumer ≡ co
      → IsGood s.producer co s
      → Good (start_pop co s)
  pops waiting s e g = start_pop-IsGood s.producer s g
  pops (old_head old) s e g = subst (λ c. IsGood s.producer c s) (sym e) g
  pops (found old) s e g = subst (λ c. IsGood s.producer c s) (sym e) g
  pops (taken old) s e g = subst (λ c. IsGood s.producer c s) (sym e) g
  pops (read old) s e g = subst (λ c. IsGood s.producer c s) (sym e) g

  step-Good : (e : Event A) (s : Queue A) → Good s → (s' : Queue A) × (step e s ≡ some s') × Good s'
  step-Good (push v) s g = (start_push v s.producer s, refl, pushes v s.producer s refl g)
  step-Good push_step s g =
      let (s', ran, good, kept) = push_on-IsGood s.producer s.consumer s g refl refl in
      (s', ran, subst (λ c. IsGood s'.producer c s') (sym kept) good)
  step-Good pop s g = (start_pop s.consumer s, refl, pops s.consumer s refl g)
  step-Good pop_step s g =
      let (s', ran, good, kept) = pop_on-IsGood s.producer s.consumer s g refl refl in
      (s', ran, subst (λ p. IsGood p s'.consumer s') (sym kept) good)

  run-Good :
      (es : List (Event A)) (s : Queue A) → Good s → (s' : Queue A) × (run es s ≡ some s') × Good s'
  unfolding run
  run-Good [] s g = (s, refl, g)
  run-Good (e ∷ es) s g =
      let (s₁, one, good) = step-Good e s g in
      let (s', ran, good') = run-Good es s₁ good in
      (s', ap (λ o. and_then o (λ t. run es t)) one ∙ ran, good')

  new_queue-Good : Good new_queue
  new_queue-Good = record {
    values = [];
    pending = [];
    chain = refl;
    producing = (refl, omega arith);
    consuming = refl;
    history = refl;
  }

  -- However the steps of one thread that pushes and of one that pops are interleaved, none of them uses a
  -- node that is freed or a null pointer, and what has been popped is what has been pushed, in the same
  -- order, but for a rest that is still in the queue.
  pub run_lem :
      (es : List (Event A))
      → (s : Queue A) × (rest : List A) × (run es new_queue ≡ some s)
        × (map some s.pushed ≡ s.popped ++ map some rest)
  run_lem es =
      let (s, ran, good) = run-Good es new_queue new_queue-Good in
      (s, good.pending ++ good.values, ran, good.history)
