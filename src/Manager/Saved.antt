-- ===== src/Manager/Saved.antt =====
-- manager/Manager.cpp: what `recover` reads from the lines that `snapshot` has written, one at a time.
use tiny_swarm.Prelude.{
  ℕ, ◌+◌, ◌≡◌, refl, sym, ap, ◌∙◌, false, ◌&&◌, List, [], ◌∷◌, ◌++◌, map, append_assoc, append-nil,
  some, if◌then◌else◌, if_true, if_false, All, arith,
}
use tiny_swarm.Prelude.Int.{ℤ, pos, ◌==ℤ◌}
use tiny_swarm.Text.{Str, ◌==s◌, ==s-refl}
use tiny_swarm.Text.Stream.{print_int, is_space}
use tiny_swarm.Text.Stream.Words.{IsSolid, IsWord, get_word-append}
use tiny_swarm.Text.Stream.Integers.{IsInt, get_int-print_int}
use tiny_swarm.Manager.Pod.{WorkerDescriptor, find_worker_from, find_worker, alive_int}
use tiny_swarm.Manager.Pod.Snapshot.{get_flag-print}
use tiny_swarm.Manager.Core.{Manager}
use tiny_swarm.Manager.SnapshotFile.{
  workers_end, pods_end, worker_line, worker_flag, worker_port, worker_ip, parse_worker,
  read_workers,
}

-- A line with a blank is not one that ends a part of the file.
pub ends_no_part : (w rest e : Str) → IsSolid e → ((w ++ (b' ' ∷ rest)) ==s e) ≡ false
unfolding ◌==s◌ is_space
ends_no_part [] rest [] h = refl
ends_no_part [] rest (c ∷ e) h = ground (arith, h.0)
ends_no_part (x ∷ w) rest [] h = refl
ends_no_part (x ∷ w) rest (c ∷ e) h = ground (arith, ends_no_part w rest e h.1)

pub workers_end-IsSolid : IsSolid workers_end
unfolding is_space
workers_end-IsSolid = (
  refl,
  (
    refl,
    (
      refl,
      (
        refl,
        (
          refl,
          (
            refl,
            (
              refl,
              (
                refl,
                (
                  refl,
                  (
                    refl,
                    (refl, (refl, (refl, (refl, (refl, (refl, (refl, (refl, (refl, tt))))))))),
                  ),
                ),
              ),
            ),
          ),
        ),
      ),
    ),
  ),
)

pub pods_end-IsSolid : IsSolid pods_end
unfolding is_space
pods_end-IsSolid = (
  refl,
  (
    refl,
    (
      refl,
      (
        refl,
        (
          refl,
          (
            refl,
            (
              refl,
              (
                refl,
                (
                  refl,
                  (
                    refl,
                    (
                      refl,
                      (refl, (refl, (refl, (refl, (refl, (refl, (refl, (refl, (refl, tt))))))))),
                    ),
                  ),
                ),
              ),
            ),
          ),
        ),
      ),
    ),
  ),
)

-- A worker whose address is a word and an `int`.
pub record IsAddress (wd : WorkerDescriptor) : Type 0 where
  pub ip_word : IsWord wd.ip
  pub port_int : IsInt wd.port

-- What the file keeps of a worker.
abbrev pub unlisted : WorkerDescriptor → WorkerDescriptor
unlisted wd = record wd { pods = [] }

parse_worker-line :
    (time : WorkerDescriptor → Str) (wd : WorkerDescriptor)
    → IsAddress wd
    → parse_worker (worker_line time wd) ≡ unlisted wd
unfolding parse_worker worker_line is_space
parse_worker-line time wd h =
    let behind_alive = b' ' ∷ time wd in
    let behind_port = b' ' ∷ (print_int (alive_int wd.alive) ++ behind_alive) in
    ap worker_ip
      (get_word-append wd.ip (b' ' ∷ (print_int wd.port ++ behind_port)) [] h.ip_word refl)
    ∙ ap (worker_port wd.ip) (get_int-print_int wd.port (pos 0) behind_port h.port_int refl)
    ∙ ap (worker_flag wd.ip wd.port) (get_flag-print wd.alive false behind_alive refl)

worker_line-part :
    (time : WorkerDescriptor → Str) (wd : WorkerDescriptor)
    → (worker_line time wd ==s workers_end) ≡ false
unfolding worker_line
worker_line-part time wd = ends_no_part wd.ip _ workers_end workers_end-IsSolid

pub read_workers-lines :
    (time : WorkerDescriptor → Str) (workers : List WorkerDescriptor) (rest : List Str)
    (m : Manager)
    → All IsAddress workers
    → read_workers (map (worker_line time) workers ++ (workers_end ∷ rest)) m
      ≡ (record m { workers = m.workers ++ map unlisted workers }, rest)
unfolding read_workers
read_workers-lines time [] rest m h =
    if_true (m, rest)
      (read_workers rest (record m { workers = m.workers ++ (parse_worker workers_end ∷ []) }))
      (==s-refl workers_end)
    ∙ ap (λ ws. (record m { workers = ws }, rest)) (sym (append-nil m.workers))
read_workers-lines time (wd ∷ workers) rest m h =
    if_false _ _ (worker_line-part time wd)
    ∙ ap
        (λ d.
          read_workers (map (worker_line time) workers ++ (workers_end ∷ rest))
            (record m { workers = m.workers ++ (d ∷ []) }))
        (parse_worker-line time wd h.0)
    ∙ read_workers-lines time workers rest (record m { workers = m.workers ++ (unlisted wd ∷ []) })
        h.1
    ∙ ap (λ ws. (record m { workers = ws }, rest))
        (append_assoc m.workers (unlisted wd ∷ []) (map unlisted workers))

-- The lists of pods do not matter when a worker is looked for.
find_worker_from-unlisted :
    (i : ℕ) (ip : Str) (port : ℤ) (workers : List WorkerDescriptor)
    → find_worker_from i ip port (map unlisted workers) ≡ find_worker_from i ip port workers
unfolding find_worker_from
find_worker_from-unlisted i ip port [] = refl
find_worker_from-unlisted i ip port (wd ∷ workers) =
    ap (λ o. if (wd.ip ==s ip) && (wd.port ==ℤ port) then some i else o)
      (find_worker_from-unlisted (i + 1) ip port workers)

pub find_worker-unlisted :
    (ip : Str) (port : ℤ) (workers : List WorkerDescriptor)
    → find_worker ip port (map unlisted workers) ≡ find_worker ip port workers
unfolding find_worker
find_worker-unlisted ip port workers = find_worker_from-unlisted 0 ip port workers
