-- ===== src/Manager/Restarts.antt =====
-- manager/ServiceDescriptor.h, `restartFailedPods`: how many pods one call starts.
use tiny_swarm.Prelude.{
  ℕ, zero, suc, ◌+◌, ◌-◌, ◌*◌, ◌≤◌, ◌<◌, ◌≡◌, refl, sym, ap, ◌∙◌, true, false, [], ◌∷◌, ltb, ◌==◌,
  if_true, if_false, Bool-cases, inl, inr, length, length-append, arith,
}
use tiny_swarm.Manager.Pod.{PodDescriptor}
use tiny_swarm.Manager.Core.{
  Manager, Outcome, done, undefined, waiting, after, CreateResult, created, failed,
}
use tiny_swarm.Manager.Service.{
  ServiceDescriptor, ready, missing, restart_alias, pod_of, add_pod, restart_from,
  restart_failed_pods, now_ready,
}

missing_left : (num size : ℕ) → size ≤ num → missing num size ≡ num - size
missing_left num size h = ground arith

after_cong {ℓ κ} :
    {A : Type ℓ} {B : Type κ} (o : Outcome A) (f g : Manager → A → Outcome B)
    → ((m : Manager) (a : A) → f m a ≡ g m a)
    → after o f ≡ after o g
after_cong (done m a) f g h = h m a
after_cong undefined f g h = refl
after_cong waiting f g h = refl

add_pod-num : (result : CreateResult) (sd : ServiceDescriptor) → (add_pod result sd).num ≡ sd.num
add_pod-num (failed reason) sd = refl
add_pod-num (created p) sd = refl

add_pod-bounds :
    (result : CreateResult) (sd : ServiceDescriptor)
    → (length sd.pods ≤ length (add_pod result sd).pods)
      × (length (add_pod result sd).pods ≤ length sd.pods + 1)
add_pod-bounds (failed reason) sd = (omega arith, omega arith)
add_pod-bounds (created p) sd =
    let more = length-append sd.pods (p ∷ []) in (omega (arith, more), omega (arith, more))

module _ (create : PodDescriptor → Manager → Outcome CreateResult) where
  -- The loop of `restartFailedPods` ends: in a service with no more pods than it is to have, the rounds
  -- that are left up to its number are enough, and any number of rounds more changes nothing.
  pub restart_ends :
      (fuel more i : ℕ) (sd : ServiceDescriptor) (m : Manager)
      → length sd.pods ≤ sd.num
      → sd.num ≤ length sd.pods + i + fuel
      → restart_from create (fuel + more) i sd m ≡ restart_from create fuel i sd m
  unfolding restart_from
  restart_ends zero zero i sd m h enough = refl
  restart_ends zero (suc more) i sd m h enough =
      ground (arith, missing_left sd.num (length sd.pods) h)
  restart_ends (suc fuel) more i sd m h enough =
      let next : suc fuel + more ≡ suc (fuel + more) = omega arith in
      ap (λ k. restart_from create k i sd m) next
      ∙ elim (Bool-cases (ltb i (missing sd.num (length sd.pods)))) [
        | inr over ↦ if_false _ _ over ∙ sym (if_false _ _ over)
        | inl on ↦
            let below : i + length sd.pods < sd.num =
              ground (arith, on, missing_left sd.num (length sd.pods) h) in
            if_true _ _ on
            ∙ after_cong _ _ _ (λ m' result.
              let same = add_pod-num result sd in
              let bounds = add_pod-bounds result sd in
              restart_ends fuel more (i + 1) (add_pod result sd) m' (omega (arith, bounds))
                (omega (arith, bounds)))
            ∙ sym (if_true _ _ on)
      ]

  -- The next so many pods that the loop asks for are made, one after the other, up to a state of the
  -- manager and of the service.
  pub data Makes : ℕ → ServiceDescriptor → Manager → Manager → ServiceDescriptor → Type 0 where
    none_left : {sd : ServiceDescriptor} {m : Manager} → Makes 0 sd m m sd
    one_more :
        {k p : ℕ} {sd sd' : ServiceDescriptor} {m m₁ m' : Manager}
        → create (pod_of sd (restart_alias sd)) m ≡ done m₁ (created p)
        → Makes k (add_pod (created p) sd) m₁ m' sd'
        → Makes (suc k) sd m m' sd'

  -- How many pods a run of the loop starts: it ends when half of the pods that were missing are made.
  restart_from-half :
      {k : ℕ} {sd sd' : ServiceDescriptor} {m m' : Manager} (fuel i : ℕ)
      → Makes k sd m m' sd'
      → length sd.pods ≤ sd.num
      → k ≤ fuel
      → sd.num ≤ length sd.pods + i + k + k
      → length sd.pods + i + k + k ≤ sd.num + 1
      → (restart_from create fuel i sd m ≡ done m' sd') × (length sd'.pods ≡ length sd.pods + k)
  unfolding restart_from
  restart_from-half zero i (none_left {sd} {m}) h enough lower upper = (refl, omega arith)
  restart_from-half (suc fuel) i (none_left {sd} {m}) h enough lower upper =
      let over : ltb i (missing sd.num (length sd.pods)) ≡ false =
        ground (arith, lower, missing_left sd.num (length sd.pods) h) in
      (if_false _ _ over, omega arith)
  restart_from-half zero i (one_more made rest) h enough lower upper =
      absurd (omega (arith, enough))
  restart_from-half (suc fuel) i (one_more {k} {p} {sd} {sd'} {m} {m₁} {m'} made rest) h enough
        lower upper =
      let on : ltb i (missing sd.num (length sd.pods)) ≡ true =
        ground (arith, upper, missing_left sd.num (length sd.pods) h) in
      let grown = length-append sd.pods (p ∷ []) in
      let (run, size) =
        restart_from-half fuel (i + 1) rest (omega arith) (omega arith) (omega arith)
          (omega arith) in
      (
        if_true _ _ on
            ∙ ap
                (λ o.
                  after o (λ m₂ result. restart_from create fuel (i + 1) (add_pod result sd) m₂))
                made
            ∙ run,
        omega arith,
      )

  now_ready-pods :
      (m : Manager) (sd : ServiceDescriptor)
      → (sd' : ServiceDescriptor) × (now_ready create m sd ≡ done m sd') × (sd'.pods ≡ sd.pods)
  now_ready-pods m sd = elim (Bool-cases (sd.num == length sd.pods)) [
    | inl full ↦ (record sd { status = ready }, ap (done m) (if_true _ _ full), refl)
    | inr other ↦ (sd, ap (done m) (if_false _ _ other), refl)
  ]

  -- `restartFailedPods` of a service with too few pods: if as many pods as half of the missing ones,
  -- rounded up, are made when the loop asks for them one after the other, then the call ends in the
  -- state of the manager behind them, and the service has its pods and these.
  pub restart_half :
      (k : ℕ) (sd sd' : ServiceDescriptor) (m m' : Manager)
      → length sd.pods < sd.num
      → sd.num ≤ length sd.pods + 2 * k
      → length sd.pods + 2 * k ≤ sd.num + 1
      → Makes k sd m m' sd'
      → (sd₁ : ServiceDescriptor) × (restart_failed_pods create sd m ≡ done m' sd₁)
        × (sd₁.pods ≡ sd'.pods)
        × (length sd₁.pods ≡ length sd.pods + k)
  unfolding restart_failed_pods
  restart_half k sd sd' m m' few lower upper makes =
      let not_full : (length sd.pods == sd.num) ≡ false = ground arith in
      let (run, size) =
        restart_from-half sd.num 0 makes (omega arith) (omega arith) (omega arith) (omega arith) in
      let (sd₁, final, kept_pods) = now_ready-pods m' sd' in
      let same : length sd₁.pods ≡ length sd'.pods = ap length kept_pods in
      (
        sd₁,
        if_false _ _ not_full ∙ ap (λ o. after o (now_ready create)) run ∙ final,
        kept_pods,
        omega (arith, same, size),
      )
