-- ===== src/Manager/NginxProxy.antt =====
-- manager/Proxy/NginxProxy.h: the address pools and the file that configures nginx. A port is an
-- `int`, which no run of fewer than 2^31 insertions overflows. The order in which an `unordered_map`
-- is walked is left to its implementation: here the newest pool comes first.
use tiny_swarm.Prelude.{
  ℕ, ◌+◌, ◌-◌, Bool, true, false, List, [], ◌∷◌, ◌++◌, Option, none, some, if◌then◌else◌, length,
  take, drop,
}
use tiny_swarm.Text.{Str, codes, ◌==s◌}
use tiny_swarm.Text.Digits.{to_string}

pub record Pool : Type 0 where
  pub name : Str
  pub addresses : List Str
  pub bind_port : ℕ

pub record NginxProxy : Type 0 where
  pub pools : List Pool
  pub port : ℕ
  -- the content of `proxy.conf`, and how often nginx was told to read it
  pub conf : Str
  pub reloads : ℕ

abbrev pub basic_conf : Str
basic_conf =
    codes
      "\n#user  nobody;\nworker_processes  2;\n\n#error_log  logs/error.log;\n#error_log  logs/error.log  notice;\n#error_log  logs/error.log  info;\n\n#pid        logs/nginx.pid;\n\n\nevents {\n    worker_connections 1024;\n}\n\nstream {\n}"

-- The state behind the constructor, where nginx is installed.
abbrev pub new_proxy : NginxProxy
new_proxy = record { pools = []; port = 10000; conf = basic_conf; reloads = 0 }

-- `pools_.find(pool_name)`
unfoldable pub find_pool : Str → List Pool → Option Pool
find_pool name [] = none
find_pool name (p ∷ pools) =
    let rest = find_pool name pools in if p.name ==s name then some p else rest

-- `for (auto &address: pool) result += …`
unfoldable pub server_lines : List Str → Str
server_lines [] = []
server_lines (address ∷ pool) =
    codes "\t\tserver " ++ (address ++ (codes " weight=1;\n" ++ server_lines pool))

unfoldable pub to_nginx_conf : Pool → Str
unfolding server_lines to_string
to_nginx_conf p =
    codes "\tupstream stream_"
    ++ (p.name
        ++ (codes " {\n"
            ++ (server_lines p.addresses
                ++ (codes "\t}\n\tserver {\n\t\tlisten "
                    ++ (to_string 10 p.bind_port
                        ++ (codes ";\n\t\tproxy_pass stream_" ++ (p.name ++ codes ";\n\t}\n")))))))

-- `conf_str.insert(conf_str.size() - 1, block)`
unfoldable pub insert_block : Str → Str → Str
insert_block block conf = take (length conf - 1) conf ++ (block ++ drop (length conf - 1) conf)

-- The loop over the pools.
unfoldable pub conf_of : List Pool → Str → Str
unfolding insert_block to_nginx_conf
conf_of [] conf = conf
conf_of (p ∷ pools) conf = conf_of pools (insert_block (to_nginx_conf p) conf)

unfoldable pub update_nginx_status : NginxProxy → NginxProxy
unfolding conf_of
update_nginx_status s = record s { conf = conf_of s.pools basic_conf; reloads = s.reloads + 1 }

-- The branches of `insertAddressPool` by what `find` has found.
abbrev pub inserted : Option Pool → Str → List Str → NginxProxy → NginxProxy × Str
inserted (some p) name pool s = (s, [])
inserted none name pool s = (
  record (update_nginx_status (record s {
    pools = record { name = name; addresses = pool; bind_port = s.port } ∷ s.pools;
  })) { port = s.port + 1 },
  codes "127.0.0.1:" ++ to_string 10 s.port,
)

unfoldable pub insert_address_pool : Str → List Str → NginxProxy → NginxProxy × Str
unfolding update_nginx_status to_string find_pool
insert_address_pool name pool s = inserted (find_pool name s.pools) name pool s

-- `std::map`'s `operator[]`: the pool of a name; for a name that is not there, a pair of default values
-- is put into the map first, no address and the number 0.
abbrev pub entry_or_new : Option Pool → Str → List Pool → Pool × List Pool
entry_or_new (some p) name pools = (p, pools)
entry_or_new none name pools =
    let p : Pool = record { name = name; addresses = []; bind_port = 0 } in (p, p ∷ pools)

unfoldable pub entry_at : Str → List Pool → Pool × List Pool
unfolding find_pool
entry_at name pools = entry_or_new (find_pool name pools) name pools

-- `pools_[pool_name] = {pool, port}`, for a name that is there.
unfoldable pub assign_pool : Str → List Str → ℕ → List Pool → List Pool
assign_pool name pool port [] = []
assign_pool name pool port (p ∷ pools) =
    let rest = assign_pool name pool port pools in
    if p.name ==s name
    then record { name = p.name; addresses = pool; bind_port = port } ∷ pools
    else p ∷ rest

-- `int port = pools_[pool_name].second; pools_[pool_name] = {pool, port};`
abbrev pub stored_at : Pool × List Pool → Str → List Str → NginxProxy → NginxProxy
stored_at (p, pools) name pool s = record s {
  pools = assign_pool name pool p.bind_port (entry_at name pools).1;
}

-- The branches of `updateAddressPool` by what `find` has found.
abbrev pub updated : Option Pool → Str → List Str → NginxProxy → NginxProxy × Bool
updated (some p) name pool s = (s, false)
updated none name pool s = (stored_at (entry_at name s.pools) name pool s, true)

unfoldable pub update_address_pool : Str → List Str → NginxProxy → NginxProxy × Bool
unfolding find_pool entry_at assign_pool
update_address_pool name pool s = updated (find_pool name s.pools) name pool s

-- `pools_.erase(pool_name)`
unfoldable pub erase_pool : Str → List Pool → List Pool
erase_pool name [] = []
erase_pool name (p ∷ pools) =
    let rest = erase_pool name pools in if p.name ==s name then rest else p ∷ rest

abbrev pub deleted : Option Pool → Str → NginxProxy → NginxProxy × Bool
deleted (some p) name s = (record s { pools = erase_pool name s.pools }, true)
deleted none name s = (s, false)

unfoldable pub delete_address_pool : Str → NginxProxy → NginxProxy × Bool
unfolding erase_pool find_pool
delete_address_pool name s = deleted (find_pool name s.pools) name s

unfoldable pub find_address_pool : Str → NginxProxy → List Str
find_address_pool name s = elim (find_pool name s.pools) [ some p ↦ p.addresses | none ↦ [] ]

-- -1, which is no port, is none here.
unfoldable pub get_bind_port : Str → NginxProxy → Option ℕ
get_bind_port name s = elim (find_pool name s.pools) [ some p ↦ some p.bind_port | none ↦ none ]

unfoldable pub proxy_type : Str
proxy_type = codes "Nginx"
