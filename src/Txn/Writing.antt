-- ===== src/Txn/Writing.antt =====
-- What the methods of a transaction do to the world and to LMDB (txn.ts).
use lmdb_deno.Prelude.{
  ℕ, ◌≡◌, inl, inr, refl, sym, ap, ◌∙◌, Bool, true, false, Option, none, some, ◌++◌, Result, ok,
  arith,
}
use lmdb_deno.Bytes.{Bytes}
use lmdb_deno.Encoding.Text.{CodeUnits, AreCodeUnits, encode_string, decode_string}
use lmdb_deno.Encoding.Text.RoundTrip.{decode_string-encode_string}
use lmdb_deno.Encoding.Values.{Number, text, Value, key, KeyEncoding}
use lmdb_deno.State.World.{World}
use lmdb_deno.Data.{DataApi, continue_with, beneath, of_result}
use lmdb_deno.Data.Observe.{Observes, of_result-Observes, then-Observes}
use lmdb_deno.Native.Api.{Call}
use lmdb_deno.Txn.{Txn}
use lmdb_deno.Txn.Access.{
  PutOptions, key_type_of, put_flags, DelArgument, prepare_get, get, put, get_string, put_string,
  data_if, prepare_del, key_options, has_data, del, some_result,
}
use lmdb_deno.Txn.Clearing.{
  clears, cleared, cleared_lem, Writes, prepared-Writes, check_usable-Observes,
  encode_transaction_key-Observes, both_handles-Observes, prepare_get-Observes,
  sorts_duplicates-Observes,
}

module _ {S : Type 0} (api : DataApi S) (t : Txn) (dbi : ℕ) (k : Value) where
  module _ (set_float64 : Number → Bytes) (get_float64 : Bytes → Number) (third : DelArgument) where
    data_if-Observes : (b : Bool) → Observes {S = S} (data_if api set_float64 get_float64 third b)
    unfolding Observes
    data_if-Observes false w cs s s' = refl
    data_if-Observes true w cs s s' = refl

    prepare_del-Observes :
        (explicit : Option KeyEncoding)
        → Observes {S = S} (prepare_del api set_float64 get_float64 t dbi k third explicit)
    unfolding prepare_del
    prepare_del-Observes explicit = then-Observes _ _ (check_usable-Observes S t dbi) (λ _.
        then-Observes _ _ (encode_transaction_key-Observes S dbi k (key_options third explicit))
          (λ encoded.
            then-Observes _ _ (sorts_duplicates-Observes S dbi (has_data third explicit)) (λ wanted.
              then-Observes _ _ (data_if-Observes wanted) (λ value.
                then-Observes _ _ (both_handles-Observes S t dbi)
                  (λ handles. of_result-Observes S (ok (encoded, value, handles.0, handles.1)))))))

  abbrev pub put_call : Bytes → ℕ → Bytes × ℕ × ℕ → World → Call S (Unit {0})
  put_call value flags (encoded, txn, handle) = api.put txn handle encoded value flags

  abbrev pub del_call : Bytes × Option Bytes × ℕ × ℕ → World → Call S (Unit {0})
  del_call (encoded, value, txn, handle) = api.del txn handle encoded value

  -- A put throws what its checks or the clearing of the caches throw, and then nothing has changed; or it has its key and its handles, the caches of
  -- all cursors of the transaction are cleared, and then LMDB is asked once, with the flags of the
  -- options.
  pub put-Writes :
      (value : Bytes) (o : Option PutOptions) (w : World) (s : S)
      → Writes t
          (prepare_get t dbi k (key_type_of o))
          (put_call value (put_flags o))
          w
          s
          (put api t dbi k value o w s)
  unfolding put
  put-Writes value o w s =
      prepared-Writes t _ (put_call value (put_flags o)) w s
        (prepare_get-Observes S t dbi k (key_type_of o))

  -- The same of `del`.
  pub del-Writes :
      (set_float64 : Number → Bytes) (get_float64 : Bytes → Number) (third : DelArgument)
      (explicit : Option KeyEncoding) (w : World) (s : S)
      → Writes t
          (prepare_del api set_float64 get_float64 t dbi k third explicit)
          del_call
          w
          s
          (del api set_float64 get_float64 t dbi k third explicit w s)
  unfolding del
  del-Writes set_float64 get_float64 third explicit w s =
      prepared-Writes t _ del_call w s (prepare_del-Observes set_float64 get_float64 third explicit)

  get-cleared :
      (o : Option KeyEncoding) (encoded : Bytes) (txn handle binding : ℕ) (w : World) (s s' : S)
      → prepare_get t dbi k o w s ≡ (ok (encoded, txn, handle), w, s)
      → get api t dbi k o false (cleared binding w) s'
        ≡ beneath (cleared binding w) (api.get txn handle encoded (cleared binding w) s')
  unfolding get Observes
  get-cleared o encoded txn handle binding w s s' e = rw cleared_lem (
      rw
        (
          prepare_get-Observes S t dbi k o w (w.calls ++ clears (w.transactions binding).cursors) s
              s',
          e,
        )
        refl)

  -- If `putString` returns, `getString` of the same key in the same transaction returns the same
  -- string then, if LMDB reads the value that it has stored.
  pub put_string-get_string :
      (v : CodeUnits) (o : Option PutOptions) (w w' : World) (s s' : S)
      → AreCodeUnits v
      → put_string api t dbi k (key (text v)) o w s ≡ (ok tt, w', s')
      → ((txn handle : ℕ) (encoded value : Bytes) (u u' : World)
          → api.put txn handle encoded value (put_flags o) u s ≡ (ok tt, s')
          → (api.get txn handle encoded u' s').0 ≡ ok (some value))
      → (get_string api t dbi k (key_type_of o) w' s').0 ≡ ok (some v)
  unfolding put_string get_string Writes
  put_string-get_string v o w w' s s' units stored keeps = read (put-Writes (encode_string v) o w s)
    where
      converted :
          (u : World) (x : Result (Option Bytes) × S)
          → x.0 ≡ ok (some (encode_string v))
          → (continue_with (beneath u x) (λ result.
              of_result {S = S}
                (elim result [ none ↦ ok none | some b ↦ some_result (decode_string b) ]))).0
            ≡ ok (some v)
      converted u (r, y) e = rw (e, decode_string-encode_string v units) refl

      answered :
          (u : World) (x : Result (Unit {0}) × S)
          → beneath u x ≡ (ok tt, w', s')
          → (x ≡ (ok tt, s')) × (u ≡ w')
      answered u (r, y) e = (
        ap (λ (z : Result (Unit {0}) × World × S). (z.0, z.2)) e,
        ap (λ (z : Result (Unit {0}) × World × S). z.1) e,
      )

      read :
          Writes t
            (prepare_get t dbi k (key_type_of o))
            (put_call (encode_string v) (put_flags o))
            w
            s
            (put api t dbi k (encode_string v) o w s)
          → (get_string api t dbi k (key_type_of o) w' s').0 ≡ ok (some v)
      read (inl (x, e, _)) = absurd (ground arith)
      read (inr ((encoded, txn, handle), binding, e, bound, f)) =
          let (answer, same) = answered (cleared binding w) _ (sym f ∙ stored) in
          rw (sym same, get-cleared (key_type_of o) encoded txn handle binding w s s' e)
            (converted (cleared binding w) _ (
              keeps txn handle encoded (encode_string v) (cleared binding w) (cleared binding w)
                answer))
