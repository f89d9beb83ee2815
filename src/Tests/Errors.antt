-- ===== src/Tests/Errors.antt =====
-- A write to read-only state.
use lmdb_deno.Prelude.{◌≡◌, refl, none, pos, negsuc, lmdb_error, err}
use lmdb_deno.Native.Errors.{check_lmdb_result, check_node_write_result}

read_only :
    check_node_write_result (negsuc 30769) none ≡ err (lmdb_error (pos 13) "Permission denied")
unfolding check_node_write_result check_lmdb_result
read_only = refl
