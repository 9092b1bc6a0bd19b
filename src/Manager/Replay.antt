-- ===== src/Manager/Replay.antt =====
-- manager/Manager.cpp, `parseLogLine`: the lines that creating a pod writes, read again.
use tiny_swarm.Prelude.{
  ◌≡◌, refl, ap, ◌∙◌, false, List, [], ◌∷◌, ◌++◌, none, some, if◌then◌else◌, if_false,
}
use tiny_swarm.Text.{Str, codes, ◌==s◌}
use tiny_swarm.Text.Stream.{get_word, skip_space, split_word, is_space}
use tiny_swarm.Text.Stream.Words.{IsWord, get_word-blank}
use tiny_swarm.Manager.Pod.{
  PodDescriptor, WorkerDescriptor, to_snapshot_message, snapshot_fields, fields_behind_alias,
  snapshot_to_pod,
}
use tiny_swarm.Manager.Pod.Snapshot.{IsPrintable, restored, snapshot_roundtrip_blank}
use tiny_swarm.Manager.Core.{Manager}
use tiny_swarm.Manager.Calls.{emplace_pod, fail_line}
use tiny_swarm.Manager.Log.{blank_pod, parse_create, keep_pod, parse_log_line, and_then, replay}

pub replay-append :
    (xs ys : List Str) (m : Manager)
    → replay (xs ++ ys) m ≡ and_then (replay xs m) (λ m'. replay ys m')
unfolding replay
replay-append [] ys m = refl
replay-append (x ∷ xs) ys m =
    elim (parse_log_line x m)
      as (λ o.
        and_then o (λ m'. replay (xs ++ ys) m')
        ≡ and_then (and_then o (λ m'. replay xs m')) (λ m'. replay ys m')) [
          | none ↦ refl
          | some m' ↦ replay-append xs ys m'
        ]

pub parse-start : (alias : Str) (m : Manager) → parse_log_line (codes "CSS " ++ alias) m ≡ some m
unfolding parse_log_line get_word skip_space split_word is_space ◌==s◌
parse-start alias m = refl

pub parse-fail :
    (alias : Str) (m : Manager) → IsWord alias → parse_log_line (fail_line alias) m ≡ some m
unfolding parse_log_line get_word skip_space split_word is_space ◌==s◌
parse-fail alias m h =
    ap (λ g. parse_create g (b' ' ∷ (alias ++ codes " Fail")) m)
      (get_word-blank alias (codes " Fail") [] h refl)

-- The line of a pod, whose name is not the word that marks a failure.
pub parse-success :
    (wd : WorkerDescriptor) (pod : PodDescriptor) (m : Manager)
    → IsPrintable wd pod
    → (pod.alias ==s codes "Fail") ≡ false
    → parse_log_line (codes "CSE " ++ to_snapshot_message wd pod) m
      ≡ some (emplace_pod (restored m.workers wd pod blank_pod) m).0
unfolding parse_log_line get_word skip_space split_word is_space ◌==s◌ to_snapshot_message
    snapshot_fields
parse-success wd pod m h other =
    let line = b' ' ∷ to_snapshot_message wd pod in
    ap (λ g. parse_create g line m)
      (get_word-blank pod.service (snapshot_fields wd pod) [] h.service_word refl)
    ∙ ap
        (λ g.
          if g.0 ==s codes "Fail"
          then some m
          else keep_pod (snapshot_to_pod m.workers line blank_pod) m)
        (get_word-blank pod.alias (fields_behind_alias wd pod) [] h.alias_word refl)
    ∙ if_false _ _ other
    ∙ ap (λ o. keep_pod o m) (snapshot_roundtrip_blank wd pod h m.workers blank_pod)
