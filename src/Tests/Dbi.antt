-- ===== src/Tests/Dbi.antt =====
-- `drop` of dbi.ts at a concrete input.
use lmdb_deno.Prelude.{true, none, error, ok, err}
use lmdb_deno.Tests.State.{database}
use lmdb_deno.Dbi.{DbiApi, drop_with}
use lmdb_deno.Dbi.Release.{NoNewReservation, drop_with-releases}

-- LMDB that refuses to drop a database.
abbrev refusing : DbiApi
refusing = record {
  begin = λ environment read_only w. ok 91;
  open_named = λ txn name flags w. ok 12;
  commit_txn = λ txn w. ok tt;
  drop_dbi = λ txn dbi delete w. err (error "EACCES");
}

drop_with-releases_example : NoNewReservation database (drop_with refusing none 300 true database).1
drop_with-releases_example = drop_with-releases refusing 300 true database
