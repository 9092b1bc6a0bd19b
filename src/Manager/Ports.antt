-- ===== src/Manager/Ports.antt =====
-- manager/Proxy/NginxProxy.h: the ports of the pools, over insertions and deletions.
use tiny_swarm.Prelude.{
  ℕ, ◌+◌, ◌<◌, ◌≡◌, ◌≢◌, false, ap, sym, subst, if_holds, Option-cases, inl, inr, List, [], ◌∷◌,
  none, arith, All,
}
use tiny_swarm.Text.{Str, ◌==s◌}
use tiny_swarm.Manager.NginxProxy.{
  Pool, NginxProxy, find_pool, update_nginx_status, inserted, deleted, insert_address_pool,
  delete_address_pool, erase_pool, new_proxy,
}

-- The pools have different names and ports, and their ports lie below the next one.
pub AreSeparate : ℕ → List Pool → Type 0
AreSeparate port [] = Unit
AreSeparate port (p ∷ pools) =
    (p.bind_port < port)
    × All (λ q. (p.bind_port ≢ q.bind_port) × ((q.name ==s p.name) ≡ false)) pools
    × AreSeparate port pools

-- What the manager does to its proxy.
pub data Operation : Type 0 where
  insert : Str → List Str → Operation
  delete : Str → Operation

unfoldable pub apply : Operation → NginxProxy → NginxProxy
apply (insert name pool) s = (insert_address_pool name pool s).0
apply (delete name) s = (delete_address_pool name s).0

unfoldable pub apply_all : List Operation → NginxProxy → NginxProxy
unfolding apply
apply_all [] s = s
apply_all (o ∷ operations) s = apply_all operations (apply o s)

fresh :
    (name : Str) (port : ℕ) (pools : List Pool)
    → find_pool name pools ≡ none
    → AreSeparate port pools
    → All (λ q. (port ≢ q.bind_port) × ((q.name ==s name) ≡ false)) pools
unfolding find_pool AreSeparate
fresh name port [] new h = tt
fresh name port (p ∷ pools) new h = (
  (λ e. absurd (omega (arith, h.0, e)), ground (arith, new)),
  fresh name port pools (ground (arith, new)) h.2,
)

raise : (port : ℕ) (pools : List Pool) → AreSeparate port pools → AreSeparate (port + 1) pools
unfolding AreSeparate
raise port [] h = tt
raise port (p ∷ pools) h = (omega (arith, h.0), h.1, raise port pools h.2)

All-erase_pool {κ} :
    (P : Pool → Type κ) (name : Str) (pools : List Pool)
    → All P pools
    → All P (erase_pool name pools)
unfolding erase_pool
All-erase_pool P name [] h = tt
All-erase_pool P name (p ∷ pools) h =
    let rest = All-erase_pool P name pools h.1 in
    if_holds (All P) (p.name ==s name) _ _ rest (h.0, rest)

erase_pool-AreSeparate :
    (name : Str) (port : ℕ) (pools : List Pool)
    → AreSeparate port pools
    → AreSeparate port (erase_pool name pools)
unfolding erase_pool AreSeparate
erase_pool-AreSeparate name port [] h = tt
erase_pool-AreSeparate name port (p ∷ pools) h =
    let rest = erase_pool-AreSeparate name port pools h.2 in
    if_holds (AreSeparate port) (p.name ==s name) _ _ rest
      (h.0, All-erase_pool _ name pools h.1, rest)

abbrev HasSeparate : NginxProxy → Type 0
HasSeparate s = AreSeparate s.port s.pools

insert-AreSeparate :
    (name : Str) (pool : List Str) (s : NginxProxy)
    → HasSeparate s
    → HasSeparate (insert_address_pool name pool s).0
unfolding insert_address_pool update_nginx_status AreSeparate
insert-AreSeparate name pool s h = elim (Option-cases (find_pool name s.pools)) [
  | inl new ↦
      subst HasSeparate (sym (ap (λ o. (inserted o name pool s).0) new))
        (omega arith, fresh name s.port s.pools new h, raise s.port s.pools h)
  | inr found ↦ subst HasSeparate (sym (ap (λ o. (inserted o name pool s).0) found.1)) h
]

delete-AreSeparate :
    (name : Str) (s : NginxProxy) → HasSeparate s → HasSeparate (delete_address_pool name s).0
unfolding delete_address_pool
delete-AreSeparate name s h = elim (Option-cases (find_pool name s.pools)) [
  | inl new ↦ subst HasSeparate (sym (ap (λ o. (deleted o name s).0) new)) h
  | inr found ↦
      subst HasSeparate (sym (ap (λ o. (deleted o name s).0) found.1))
        (erase_pool-AreSeparate name s.port s.pools h)
]

apply_all-AreSeparate :
    (operations : List Operation) (s : NginxProxy)
    → AreSeparate s.port s.pools
    → let s' = apply_all operations s in AreSeparate s'.port s'.pools
unfolding apply_all apply
apply_all-AreSeparate [] s h = h
apply_all-AreSeparate (insert name pool ∷ operations) s h =
    apply_all-AreSeparate operations _ (insert-AreSeparate name pool s h)
apply_all-AreSeparate (delete name ∷ operations) s h =
    apply_all-AreSeparate operations _ (delete-AreSeparate name s h)

-- Whatever is inserted into a new proxy and deleted again, in any order, its pools have different
-- names and are bound to different ports, all of them below the port of the next pool.
pub ports_separate :
    (operations : List Operation)
    → let s = apply_all operations new_proxy in AreSeparate s.port s.pools
unfolding AreSeparate
ports_separate operations = apply_all-AreSeparate operations new_proxy tt
