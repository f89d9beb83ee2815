-- ===== src/Native/Errors/Codes.antt =====
-- The codes of the errors that are thrown.
use lmdb_deno.Prelude.{
  ◌≡◌, ◌≢◌, ◌⊎◌, inl, inr, refl, Option, ℤ, pos, negsuc, String, lmdb_error, Result, ok, err, ◌==ℤ◌,
  ==ℤ_iff, if◌then◌else◌, if-cases, arith,
}
use lmdb_deno.Native.Errors.{Strerror, check_lmdb_result, check_node_write_result}

check_lmdb_result-code :
    (code : ℤ) (strerror : Option Strerror)
    → ((code ≡ pos 0) × (check_lmdb_result code strerror ≡ ok tt))
      ⊎ ((code ≢ pos 0)
          × ((m : String) × (check_lmdb_result code strerror ≡ err (lmdb_error code m))))
unfolding check_lmdb_result
check_lmdb_result-code code strerror =
    if-cases
      (λ (r : Result (Unit {0})).
        ((code ≡ pos 0) × (r ≡ ok tt))
        ⊎ ((code ≢ pos 0) × ((m : String) × (r ≡ err (lmdb_error code m)))))
      (code ==ℤ pos 0) _ _ (λ zero_code. inl ((==ℤ_iff code (pos 0)).0 zero_code, refl))
      (λ other. inr ((λ e. ground (arith, e, other)), (_, refl)))

-- A write result throws exactly if the code is not zero, with an LMDB error of that code; only the
-- code for read-only state, -30770, is reported as 13.
pub check_node_write_result-code :
    (code : ℤ) (strerror : Option Strerror)
    → ((code ≡ pos 0) × (check_node_write_result code strerror ≡ ok tt))
      ⊎ ((code ≢ pos 0)
          × ((m : String) × (check_node_write_result code strerror
                ≡ err (lmdb_error (if code ==ℤ negsuc 30769 then pos 13 else code) m))))
unfolding check_node_write_result
check_node_write_result-code code strerror =
    elim (check_lmdb_result-code (if code ==ℤ negsuc 30769 then pos 13 else code) strerror) [
      | inl h ↦ inl (ground (arith, h.0), h.1)
      | inr h ↦ inr ((λ e. h.0 (ground (arith, e))), h.1)
    ]
