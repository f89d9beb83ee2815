-- ===== src/Tests/Txn.antt =====
-- Transactions of txn.ts that end, at concrete inputs.
use lmdb_deno.Prelude.{refl, true, false, error, ok, err}
use lmdb_deno.State.World.{TransactionPhase}
use lmdb_deno.State.Lifecycle.Phases.{IsLive}
use lmdb_deno.Tests.State.{writing}
use lmdb_deno.Txn.{TxnApi, Txn, commit}
use lmdb_deno.Txn.Ending.{Concludes, commit-Concludes}
use lmdb_deno.State.Access.{
  get_txn_handle, assert_txn_active, require_environment_binding, require_environment_state,
  get_shared_environment, assert_shared_state_usable, require_live_dbi_binding,
  require_transaction_binding,
}
use lmdb_deno.State.Transactions.{join, register_txn_handle, register_owned_transaction}
use lmdb_deno.State.Databases.{
  register_dbi_handle, require_pending, register_cursor_handle, add_cursor,
}
use lmdb_deno.State.Environments.{register_env_handle, attach_shared_environment}

-- LMDB that is out of space when a transaction commits.
abbrev full : TxnApi
full = record {
  txn_begin = λ environment read_only w. ok 91;
  txn_commit = λ txn w. err (error "MDB_MAP_FULL");
  txn_renew = λ txn w. ok tt;
}

abbrev txn : Txn
txn = record { object = 200; env = 100; registered = true; is_readonly = false }

writing-IsLive : IsLive 200 2 91 TransactionPhase.active writing
unfolding register_env_handle attach_shared_environment register_txn_handle
    register_owned_transaction join register_dbi_handle require_pending register_cursor_handle
    add_cursor require_environment_binding require_environment_state get_shared_environment
    require_transaction_binding assert_shared_state_usable require_live_dbi_binding get_txn_handle
    assert_txn_active
writing-IsLive = record { bound = refl; live = refl; in_phase = refl; usable = refl }

commit-Concludes_example : Concludes 200 2 (err (error "MDB_MAP_FULL")) (commit full txn writing)
commit-Concludes_example =
    commit-Concludes full txn 2 91 TransactionPhase.active writing writing-IsLive
