-- ===== src/SearchId/Tests.antt =====
-- Runs of the encoding of ids.
use tiny_swarm.Prelude.{◌≡◌, refl, false, arith}
use tiny_swarm.Text.{codes, is_prefix}
use tiny_swarm.SearchId.{convert_to_id}
use tiny_swarm.SearchId.Prefix.{is_prefix-convert_to_id}

convert_to_id_runs : convert_to_id (codes "~A b") ≡ codes "_7e_41_20b"
unfolding convert_to_id
convert_to_id_runs = refl

is_prefix-convert_to_id_example :
    is_prefix (convert_to_id (codes "a_")) (convert_to_id (codes "a b")) ≡ false
unfolding is_prefix
is_prefix-convert_to_id_example =
    is_prefix-convert_to_id (codes "a_") (codes "a b") (omega arith) (omega arith)
