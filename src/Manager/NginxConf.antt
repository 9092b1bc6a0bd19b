-- ===== src/Manager/NginxConf.antt =====
-- manager/Proxy/NginxProxy.h: the file that configures nginx, and what the operations answer.
use tiny_swarm.Prelude.{
  ℕ, ◌+◌, ◌-◌, ◌≡◌, refl, sym, ap, ap₂, take-append, drop-append, ◌∙◌, true, false, List, [], ◌∷◌,
  ◌++◌, append_assoc, none, some, length, length-append, take, drop, arith,
}
use tiny_swarm.Text.{Str, codes, ◌==s◌, ==s-refl}
use tiny_swarm.Text.Digits.{to_string}
use tiny_swarm.Manager.NginxProxy.{
  Pool, NginxProxy, basic_conf, find_pool, to_nginx_conf, insert_block, conf_of,
  update_nginx_status, insert_address_pool, delete_address_pool, erase_pool, find_address_pool,
  get_bind_port,
}

-- The sections of the pools, one behind the other.
pub blocks : List Pool → Str
blocks [] = []
blocks (p ∷ pools) = to_nginx_conf p ++ blocks pools

-- `basic_conf` without its last brace.
abbrev pub stem : Str
stem = take (length basic_conf - 1) basic_conf

length-brace : (s : Str) (c : ℕ) → length (s ++ (c ∷ [])) - 1 ≡ length s
length-brace s c = omega (arith, length-append s (c ∷ []))

insert_block-brace :
    (block s : Str) (c : ℕ) → insert_block block (s ++ (c ∷ [])) ≡ s ++ (block ++ (c ∷ []))
unfolding insert_block
insert_block-brace block s c =
    ap (λ n. take n (s ++ (c ∷ [])) ++ (block ++ drop n (s ++ (c ∷ [])))) (length-brace s c)
    ∙ ap₂ (λ front back. front ++ (block ++ back)) (take-append s (c ∷ [])) (drop-append s (c ∷ []))

conf_of-blocks :
    (pools : List Pool) (s : Str) (c : ℕ)
    → conf_of pools (s ++ (c ∷ [])) ≡ s ++ (blocks pools ++ (c ∷ []))
unfolding conf_of blocks
conf_of-blocks [] s c = refl
conf_of-blocks (p ∷ pools) s c =
    ap (conf_of pools)
      (insert_block-brace (to_nginx_conf p) s c ∙ sym (append_assoc s (to_nginx_conf p) (c ∷ [])))
    ∙ conf_of-blocks pools (s ++ to_nginx_conf p) c
    ∙ append_assoc s (to_nginx_conf p) (blocks pools ++ (c ∷ []))
    ∙ ap (λ t. s ++ t) (sym (append_assoc (to_nginx_conf p) (blocks pools) (c ∷ [])))

-- Under a new name `insertAddressPool` adds the pool at the next port: the pool and its port are found
-- under the name, and any other name finds what it found before. It answers the address with that
-- port, counts the port up, and writes the sections of all pools into the file, between the start of
-- the file and its last brace.
pub insert_address_pool_lem :
    (name other : Str) (pool : List Str) (s : NginxProxy)
    → find_pool name s.pools ≡ none
    → (name ==s other) ≡ false
    → (s' : NginxProxy) × (insert_address_pool name pool s
        ≡ (s', codes "127.0.0.1:" ++ to_string 10 s.port))
      × (find_address_pool name s' ≡ pool)
      × (get_bind_port name s' ≡ some s.port)
      × (find_pool other s'.pools ≡ find_pool other s.pools)
      × (s'.port ≡ s.port + 1)
      × (s'.conf ≡ stem ++ (blocks s'.pools ++ codes "}"))
unfolding insert_address_pool update_nginx_status find_address_pool get_bind_port find_pool
insert_address_pool_lem name other pool s new apart =
    let p : Pool = record { name = name; addresses = pool; bind_port = s.port } in
    (
      record (update_nginx_status (record s { pools = p ∷ s.pools })) { port = s.port + 1 },
      ground (arith, new),
      ground (arith, ==s-refl name),
      ground (arith, ==s-refl name),
      ground (arith, apart),
      refl,
      conf_of-blocks (p ∷ s.pools) stem b'}',
    )

find_pool-erase_pool :
    (name : Str) (pools : List Pool) → find_pool name (erase_pool name pools) ≡ none
unfolding find_pool erase_pool
find_pool-erase_pool name [] = refl
find_pool-erase_pool name (p ∷ pools) = ground (arith, find_pool-erase_pool name pools)

-- `deleteAddressPool` removes the pool of a name that it knows, but neither writes the file again nor
-- tells nginx.
pub delete_address_pool_lem :
    (name : Str) (p : Pool) (s : NginxProxy)
    → find_pool name s.pools ≡ some p
    → (s' : NginxProxy) × (delete_address_pool name s ≡ (s', true))
      × (find_pool name s'.pools ≡ none)
      × (s'.conf ≡ s.conf)
      × (s'.reloads ≡ s.reloads)
unfolding delete_address_pool
delete_address_pool_lem name p s found = (
  record s { pools = erase_pool name s.pools },
  ground (arith, found),
  find_pool-erase_pool name s.pools,
  refl,
  refl,
)
