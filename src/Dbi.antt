-- ===== src/Dbi.antt =====
-- The class `Dbi` (dbi.ts): how a database is opened, closed and dropped.
use lmdb_deno.Prelude.{
  ℕ, ◌+◌, Bool, true, false, not, ◌&&◌, Option, none, some, [], ◌∷◌, negsuc, error, Result, ok, err,
  ltb, if◌then◌else◌,
}
use lmdb_deno.Encoding.Values.{KeyEncoding}
use lmdb_deno.Encoding.Text.{CodeUnits}
use lmdb_deno.Native.Errors.{check_lmdb_result}
use lmdb_deno.State.World.{
  dbi_close, txn_abort, txn_commit, World, Action, pure, run, ◌>>=◌, ◌>>◌, call,
}
use lmdb_deno.State.Access.{
  get_env_handle, get_txn_handle, assert_txn_active, assert_same_shared_environment,
}
use lmdb_deno.State.Handles.{
  get_dbi_handle_for_txn, get_committed_dbi_handle, get_dbi_environment_handle,
  assert_dbi_not_retained,
}
use lmdb_deno.State.Records.{close_dbi}
use lmdb_deno.State.Transactions.{invalidate_transaction_cursor_caches_for_write}
use lmdb_deno.State.Closing.{
  InternalWriterReservation, reserve_internal_writer, release_internal_writer,
}
use lmdb_deno.State.Databases.{
  register_dbi_handle, release_dbi_handle, invalidate_dbi_record, clear_dbi_cursor_current_records,
}
pub mod Release

-- What LMDB answers, which may depend on all that was done before.
pub record DbiApi : Type 0 where
  pub begin : (environment : ℕ) (read_only : Bool) → World → Result ℕ
  pub open_named : (txn : ℕ) (name : Option CodeUnits) (flags : ℕ) → World → Result ℕ
  pub commit_txn : (txn : ℕ) → World → Result (Unit {0})
  pub drop_dbi : (txn dbi : ℕ) (delete : Bool) → World → Result (Unit {0})

-- `DbiOptions`, of which a Boolean field stands for the test that it is `true`. `txn` is the identity
-- of the supplied transaction.
pub record DbiOptions : Type 0 where
  pub name : Option CodeUnits
  pub create : Bool
  pub key_is_uint32 : Bool
  pub key_is_buffer : Bool
  pub key_is_string : Bool
  pub reverse_key : Bool
  pub dup_sort : Bool
  pub dup_fixed : Bool
  pub integer_dup : Bool
  pub reverse_dup : Bool
  pub txn : Option ℕ

abbrev flag : Bool → ℕ → ℕ
flag b n = if b then n else 0

-- `keyFormatFromOptions`.
unfoldable pub key_format_from_options : DbiOptions → Result KeyEncoding
key_format_from_options o =
    if ltb 1 (flag o.key_is_uint32 1 + flag o.key_is_buffer 1 + flag o.key_is_string 1)
    then err (
        error
          "You can't specify multiple key types at once. Either set keyIsUint32, or keyIsBuffer or keyIsString (default).")
    else ok (record {
      key_is_uint32 = o.key_is_uint32;
      key_is_buffer = not o.key_is_uint32 && o.key_is_buffer;
      key_is_string = not o.key_is_uint32 && not o.key_is_buffer;
    })

-- The bits are different, so that their sum is their disjunction.
unfoldable pub open_flags : DbiOptions → ℕ
open_flags o =
    flag o.reverse_key 0x02
    + flag o.dup_sort 0x04
    + flag o.dup_fixed 0x10
    + flag o.integer_dup 0x20
    + flag o.reverse_dup 0x40
    + flag o.create 0x40000
    + flag o.key_is_uint32 0x08

-- A call that LMDB answers, and one that has to be made up for if it throws.
abbrev pub ask : {A : Type 0} → (World → Result A) → Action A
ask answer w = (answer w, w)

abbrev pub on_error_with : {A : Type 0} → (World → World) → Result A × World → Result A × World
on_error_with undo (ok a, w) = (ok a, w)
on_error_with undo (err e, w) = (err e, undo w)

abbrev pub on_error : {A : Type 0} → Action A → (World → World) → Action A
on_error m undo w = on_error_with undo (m w)

-- `finally`: what it throws replaces what was thrown before.
abbrev pub ensure_with : Result (Unit {0}) → Result (Unit {0}) × World → Result (Unit {0}) × World
ensure_with thrown (ok _, w) = (thrown, w)
ensure_with thrown (err e, w) = (err e, w)

abbrev pub ensure : Action (Unit {0}) → Action (Unit {0}) → Action (Unit {0})
ensure m final w = let (thrown, w₁) = m w in ensure_with thrown (final w₁)

abbrev pub release_if : Option InternalWriterReservation → Action (Unit {0})
release_if none w = (ok tt, w)
release_if (some r) w = release_internal_writer r w

abbrev pub reserve_if : Bool → ℕ → Action (Option InternalWriterReservation)
reserve_if true env = reserve_internal_writer env >>= λ r. pure (some r)
reserve_if false env = pure none

abbrev pub when : Bool → Action (Unit {0}) → Action (Unit {0})
when true m = m
when false m = pure tt

-- The last test of `validateOptions`; the types of the options rule the others out.
abbrev check_name : Option CodeUnits → Result (Unit {0})
check_name (some []) = check_lmdb_result (negsuc 30780) none
check_name _ = ok tt

unfoldable pub close : ℕ → Action (Unit {0})
close object = release_dbi_handle object >>= λ due. run (close_dbi due)

module _ (api : DbiApi) where
  -- The constructor with a transaction that is supplied.
  unfoldable pub open_in : ℕ → ℕ → ℕ → DbiOptions → KeyEncoding → Action (Unit {0})
  open_in object env txn_owner o key_format =
      assert_same_shared_environment (env ∷ txn_owner ∷ [])
      >> (assert_txn_active txn_owner
          >> (get_txn_handle txn_owner >>= λ txn.
              when o.create (invalidate_transaction_cursor_caches_for_write txn_owner)
              >> (ask (api.open_named txn o.name (open_flags o)) >>= λ dbi.
                  register_dbi_handle object dbi key_format env (open_flags o) (some txn_owner))))

  -- The `try` of the constructor, with a transaction of its own.
  unfoldable pub open_alone : ℕ → ℕ → ℕ → DbiOptions → KeyEncoding → Action (Unit {0})
  open_alone object env env_handle o key_format =
      ask (api.begin env_handle (not o.create)) >>= λ txn.
      on_error (ask (api.open_named txn o.name (open_flags o))) (call (txn_abort txn)) >>= λ dbi.
      run (call (txn_commit txn))
      >> (ask (api.commit_txn txn)
          >> on_error (register_dbi_handle object dbi key_format env (open_flags o) none)
              (call (dbi_close env_handle dbi)))

  abbrev pub open_with : Option ℕ → ℕ → ℕ → DbiOptions → KeyEncoding → Action (Unit {0})
  open_with (some txn_owner) object env o key_format = open_in object env txn_owner o key_format
  open_with none object env o key_format = get_env_handle env >>= λ env_handle.
      reserve_if o.create env >>= λ reservation.
      ensure (open_alone object env env_handle o key_format) (release_if reservation)

  -- The constructor of the object `object`. The name is a string or `null`.
  unfoldable pub open_dbi : ℕ → ℕ → DbiOptions → Action (Unit {0})
  open_dbi object env o =
      ask (λ w. check_name o.name)
      >> (ask (λ w. key_format_from_options o) >>= λ key_format.
          open_with o.txn object env o key_format)

  -- `drop` in a transaction that is supplied.
  unfoldable pub drop_in : ℕ → ℕ → Bool → Action (Unit {0})
  drop_in object txn_owner delete =
      assert_same_shared_environment (object ∷ txn_owner ∷ [])
      >> (assert_txn_active txn_owner
          >> (get_txn_handle txn_owner >>= λ txn. get_dbi_handle_for_txn object txn_owner >>= λ dbi.
              invalidate_transaction_cursor_caches_for_write txn_owner
              >> (ask (api.drop_dbi txn dbi delete)
                  >> (if delete
                      then invalidate_dbi_record object
                      else clear_dbi_cursor_current_records object))))

  -- The `try` of `drop`, with a transaction of its own.
  unfoldable pub drop_alone : ℕ → ℕ → ℕ → Bool → Action (Unit {0})
  drop_alone object dbi env_handle delete = ask (api.begin env_handle false) >>= λ txn.
      on_error (ask (api.drop_dbi txn dbi delete)) (call (txn_abort txn))
      >> (run (call (txn_commit txn))
          >> (ask (api.commit_txn txn) >> when delete (invalidate_dbi_record object)))

  abbrev pub drop_with : Option ℕ → ℕ → Bool → Action (Unit {0})
  drop_with (some txn_owner) object delete = drop_in object txn_owner delete
  drop_with none object delete = get_committed_dbi_handle object >>= λ dbi.
      get_dbi_environment_handle object >>= λ env_handle.
      reserve_internal_writer object >>= λ reservation.
      ensure (drop_alone object dbi env_handle delete) (release_internal_writer reservation)

  -- `drop`, where `just_free_pages` stands for the test that the option is `true`.
  unfoldable pub drop : ℕ → Option ℕ → Bool → Action (Unit {0})
  drop object txn_owner just_free_pages =
      assert_dbi_not_retained object >> drop_with txn_owner object (not just_free_pages)
