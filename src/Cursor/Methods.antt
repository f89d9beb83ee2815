-- ===== src/Cursor/Methods.antt =====
-- The public methods of `Cursor` (cursor.ts). The arguments have their types, and their number is
-- not looked at.
use lmdb_deno.Prelude.{
  ℕ, Bool, true, not, ◌&&◌, Option, none, some, [], ◌∷◌, length, error, Result, ok, err, throw_if,
}
use lmdb_deno.Bytes.{Bytes}
use lmdb_deno.Encoding.Text.{CodeUnits, decode_string}
use lmdb_deno.Encoding.Values.{Number, Key, Value, KeyEncoding}
use lmdb_deno.Encoding.Keys.{decode_number}
use lmdb_deno.State.World.{cursor_close, World, call}
use lmdb_deno.State.Access.{assert_same_shared_environment, assert_txn_active, get_txn_handle}
use lmdb_deno.State.Handles.{
  get_dbi_key_format, get_dbi_handle_for_txn, get_cursor_handle, get_cursor_handle_for_close,
}
use lmdb_deno.State.Cursors.{close_cursor}
use lmdb_deno.State.Databases.{
  register_cursor_handle, clear_cursor_handle, invalidate_cursor_transaction_caches_for_write,
}
use lmdb_deno.Data.{CursorOperation, DataApi, Step, on_world, on_native, of_result, ◌>>=◌}
use lmdb_deno.Data.Keys.{encode_value}
use lmdb_deno.Txn.{Txn}
use lmdb_deno.Txn.Access.{as_boolean}
use lmdb_deno.Cursor.{
  Cursor, Method, clear_current_record, clear, key_format_from_options, encode_cursor_key, navigate,
  get_current,
}

module _ {S : Type 0} (api : DataApi S) where
  -- The constructor, once LMDB has opened the cursor.
  abbrev pub register_at : ℕ → Cursor → Result (Unit {0}) × World → S → Result Cursor × World × S
  register_at handle c (ok _, w) s = (ok (record c { since = length w.calls }), w, s)
  register_at handle c (err e, w) s = (err e, call (cursor_close handle) w, s)

  unfoldable pub register : ℕ → Txn → ℕ → KeyEncoding → ℕ → Step S Cursor
  register object t dbi format handle w s =
      register_at handle
        (record {
          object = object;
          key_format = format;
          current = clear_current_record true;
          since = 0;
        })
        (register_cursor_handle object handle t.object dbi t.is_readonly w) s

  -- The constructor of the object `object`.
  unfoldable pub construct : ℕ → Txn → ℕ → Option KeyEncoding → Step S Cursor
  construct object t dbi options =
      on_world (assert_same_shared_environment (t.object ∷ dbi ∷ [])) >>= λ _.
      on_world (assert_txn_active t.object) >>= λ _.
      on_world (get_dbi_key_format dbi) >>= λ fallback.
      of_result (key_format_from_options options fallback) >>= λ format.
      of_result (
        throw_if (fallback.key_is_uint32 && not format.key_is_uint32)
          (error "You specified keyIsUint32 on the Dbi, so you can't use other key types with it."))
      >>= λ _. on_world (get_txn_handle t.object) >>= λ txn.
          on_world (get_dbi_handle_for_txn dbi t.object) >>= λ handle.
          on_native (api.cursor_open txn handle) >>= register object t dbi format

  unfoldable pub go_to_first : Method S (Option Key)
  go_to_first = navigate api CursorOperation.mdb_first none none

  unfoldable pub go_to_last : Method S (Option Key)
  go_to_last = navigate api CursorOperation.mdb_last none none

  unfoldable pub go_to_next : Method S (Option Key)
  go_to_next = navigate api CursorOperation.mdb_next none none

  unfoldable pub go_to_prev : Method S (Option Key)
  go_to_prev = navigate api CursorOperation.mdb_prev none none

  unfoldable pub go_to_first_dup : Method S (Option Key)
  go_to_first_dup = navigate api CursorOperation.mdb_first_dup none none

  unfoldable pub go_to_last_dup : Method S (Option Key)
  go_to_last_dup = navigate api CursorOperation.mdb_last_dup none none

  unfoldable pub go_to_next_dup : Method S (Option Key)
  go_to_next_dup = navigate api CursorOperation.mdb_next_dup none none

  unfoldable pub go_to_prev_dup : Method S (Option Key)
  go_to_prev_dup = navigate api CursorOperation.mdb_prev_dup none none

  -- A navigation to a key that may not have an encoding.
  abbrev pub navigate_to : CursorOperation → Result Bytes → Option Bytes → Method S (Option Key)
  navigate_to operation (err e) v c w s = ((err e, w, s), c)
  navigate_to operation (ok k) v c w s = navigate api operation (some k) v c w s

  unfoldable pub go_to_key : Value → Option KeyEncoding → Method S (Option Key)
  go_to_key k o c =
      navigate_to CursorOperation.mdb_set_key (encode_cursor_key k o c.key_format) none c

  unfoldable pub go_to_range : Value → Option KeyEncoding → Method S (Option Key)
  go_to_range k o c =
      navigate_to CursorOperation.mdb_set_range (encode_cursor_key k o c.key_format) none c

  unfoldable pub get_current_boolean :
      Option (Key → Bool → Step S (Unit {0})) → Bool → Method S (Option Bool)
  get_current_boolean = get_current api (λ b. ok (as_boolean api b))

  -- `getCurrentString` and `getCurrentStringUnsafe`, `getCurrentBinary` and `getCurrentBinaryUnsafe`.
  unfoldable pub get_current_string :
      Option (Key → CodeUnits → Step S (Unit {0})) → Bool → Method S (Option CodeUnits)
  get_current_string = get_current api decode_string

  unfoldable pub get_current_binary :
      Option (Key → Bytes → Step S (Unit {0})) → Bool → Method S (Option Bytes)
  get_current_binary = get_current api (λ b. ok b)

  -- The `finally` of `del` and `close`.
  abbrev pub cleared_after :
      Cursor → Result (Unit {0}) × World × S → (Result (Unit {0}) × World × S) × Cursor
  cleared_after c (r, w, s) = ((r, w, s), clear c w)

  abbrev pub del_at :
      Cursor
      → Option ℕ
      → Bool
      → S
      → Result (Unit {0}) × World
      → (Result (Unit {0}) × World × S) × Cursor
  del_at c cursor no_dup_data s (err e, w) = ((err e, w, s), c)
  del_at c cursor no_dup_data s (ok _, w) =
      cleared_after c (on_native (api.cursor_del cursor no_dup_data) w s)

  abbrev pub del_with :
      Cursor → Bool → S → Result (Option ℕ) × World → (Result (Unit {0}) × World × S) × Cursor
  del_with c no_dup_data s (err e, w) = ((err e, w, s), c)
  del_with c no_dup_data s (ok cursor, w) =
      del_at c cursor no_dup_data s (invalidate_cursor_transaction_caches_for_write c.object w)

  -- `del`, where `no_dup_data` stands for the test that the option is `true`.
  unfoldable pub del : Bool → Method S (Unit {0})
  del no_dup_data c w s = del_with c no_dup_data s (get_cursor_handle c.object w)

  module _ (set_float64 : Number → Bytes) (get_float64 : Bytes → Number) where
    -- `encodeCursorValue`, after the key.
    abbrev pub navigate_dup : CursorOperation → Result Bytes → Value → Method S (Option Key)
    navigate_dup operation (err e) v c w s = ((err e, w, s), c)
    navigate_dup operation (ok k) v c w s = elim (encode_value set_float64 get_float64 v) [
      | err e ↦ ((err e, w, s), c)
      | ok b ↦ navigate api operation (some k) (some b) c w s
    ]

    unfoldable pub go_to_dup : Value → Value → Option KeyEncoding → Method S (Option Key)
    go_to_dup k v o c =
        navigate_dup CursorOperation.mdb_get_both (encode_cursor_key k o c.key_format) v c

    unfoldable pub go_to_dup_range : Value → Value → Option KeyEncoding → Method S (Option Key)
    go_to_dup_range k v o c =
        navigate_dup CursorOperation.mdb_get_both_range (encode_cursor_key k o c.key_format) v c

    unfoldable pub get_current_number :
        Option (Key → Number → Step S (Unit {0})) → Bool → Method S (Option Number)
    get_current_number = get_current api (decode_number set_float64 get_float64)

-- The `try` of `close`.
abbrev pub close_with : ℕ → Result (Option ℕ) × World → Result (Unit {0}) × World
close_with object (err e, w) = (err e, w)
close_with object (ok handle, w) = (ok tt, clear_cursor_handle object (close_cursor handle w))

-- `close` asks LMDB nothing.
unfoldable pub close : Cursor → World → (Result (Unit {0}) × World) × Cursor
close c w =
    let (r, w₁) = close_with c.object (get_cursor_handle_for_close c.object w) in
    ((r, w₁), clear c w₁)
