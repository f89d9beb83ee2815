-- ===== src/State/Writer/Databases.antt =====
-- Databases and cursors (State/Databases), seen from the writer of their environment.
use lmdb_deno.Prelude.{
  ℕ, ◌≡◌, inl, refl, Bool, true, false, not, Option, none, some, List, [], ◌∷◌, is_some,
  if◌then◌else◌, if-cases, arith,
}
use lmdb_deno.Encoding.Values.{KeyEncoding}
use lmdb_deno.State.World.{DbiBinding, invalidate_current, World, call}
use lmdb_deno.State.Access.{
  is_closed, assert_txn_active, get_txn_handle, assert_shared_state_usable,
  assert_same_shared_environment, assert_same_states, or_throw, require_transaction_binding,
  require_live_dbi_binding, record_of_dbi, transaction_closed, get_shared_environment,
}
use lmdb_deno.State.Records.{find_record, invalidate_dbi_binding, drop_record}
use lmdb_deno.State.Cursors.{close_cursor_binding}
use lmdb_deno.State.Databases.{
  require_pending, find_or_create, add_wrapper, add_pending, register_in, register_dbi_handle,
  release_dbi_handle, clear_dbi_handle, invalidate_wrappers, close_pending, invalidate_record,
  invalidate_dbi_record, swap_dbi_handle, add_cursor, register_cursor_handle, clear_cursor_handle,
  clear_current_records, clear_dbi_cursor_current_records,
}
use lmdb_deno.State.Leases.{
  require_committed_dbi, retain_dbi_for_batch, BatchDbiLease, release_batch_dbi_lease,
  finish_batch_dbi_lease_release,
}
use lmdb_deno.State.Quiet.{
  Quiet, Quiet-refl, Quiet-trans, set_dbi-Quiet, set_record-Quiet, set_transaction-Quiet,
  call-Quiet,
}
use lmdb_deno.State.Quiet.Records.{
  drop_record-Quiet, finalize_empty_dbi_record-Quiet, invalidate_dbi_binding-Quiet,
  detach_pending_binding-Quiet, release_dbi_binding-Quiet,
}
use lmdb_deno.State.Quiet.Cursors.{close_cursor_binding-Quiet}
use lmdb_deno.State.Writer.{Ends, Ends-refl, Ends-trans, Quiet-Ends}
use lmdb_deno.State.Writer.Ending.{anything, of_owner-Ends}
use lmdb_deno.State.Writer.Closing.{same-Ends, set_shared-Ends, close_if_unused-Ends}
use lmdb_deno.State.Writer.Reading.{
  Reads, reads-then, or_throw-Reads, get_shared_environment-Reads,
  require_transaction_binding-Reads, require_live_dbi_binding-Reads,
}

-- Views may be invalidated and databases closed.
caches : (c : ℕ) (fallback : Bool) → anything (invalidate_current c fallback) ≡ true
caches c fallback = refl

pub swap_dbi_handle-Ends : (owner next : ℕ) (w : World) → Ends w (swap_dbi_handle owner next w).1
unfolding swap_dbi_handle
swap_dbi_handle-Ends owner next w =
    reads-then Ends _ w (require_live_dbi_binding owner w) Ends-refl
      (require_live_dbi_binding-Reads owner w)
      (λ d. Quiet-Ends (set_dbi-Quiet {may = anything} d _ w))

pub release_batch_dbi_lease-Ends :
    (lease : BatchDbiLease) (w : World) → Ends w (release_batch_dbi_lease lease w).0.1
unfolding release_batch_dbi_lease
release_batch_dbi_lease-Ends lease w =
    if-cases (λ (a : (Option (ℕ × ℕ) × World) × BatchDbiLease). Ends w (a.0.1)) lease.released _ _
      (λ _. Ends-refl w)
      (λ _. Quiet-Ends (
        Quiet-trans (set_record-Quiet {may = anything} lease.record_id _ w)
          (finalize_empty_dbi_record-Quiet lease.record_id _ _)))

pub finish_batch_dbi_lease_release-Ends :
    (lease : BatchDbiLease) (w : World) → Ends w (finish_batch_dbi_lease_release lease w).1
unfolding finish_batch_dbi_lease_release
finish_batch_dbi_lease_release-Ends lease w = close_if_unused-Ends _ w

pub release_dbi_handle-Ends : (owner : ℕ) (w : World) → Ends w (release_dbi_handle owner w).1
unfolding release_dbi_handle
release_dbi_handle-Ends owner w =
    reads-then Ends _ w (require_live_dbi_binding owner w) Ends-refl
      (require_live_dbi_binding-Reads owner w)
      (λ d. Quiet-Ends (release_dbi_binding-Quiet {may = anything} caches d true w))

pub clear_dbi_handle-Ends : (owner : ℕ) (w : World) → Ends w (clear_dbi_handle owner w)
unfolding clear_dbi_handle
clear_dbi_handle-Ends owner w =
    of_owner-Ends invalidate_dbi_binding
      (λ d v. Quiet-Ends (invalidate_dbi_binding-Quiet {may = anything} caches d v))
      (w.dbi_bindings owner) w

invalidate_wrappers-Quiet : (ds : List ℕ) (w : World) → Quiet anything w (invalidate_wrappers ds w)
unfolding invalidate_wrappers
invalidate_wrappers-Quiet [] w = Quiet-refl w
invalidate_wrappers-Quiet (d ∷ ds) w =
    Quiet-trans (invalidate_dbi_binding-Quiet caches d w) (invalidate_wrappers-Quiet ds _)

close_pending-Quiet : (ds : List ℕ) (w : World) → Quiet anything w (close_pending ds w)
unfolding close_pending
close_pending-Quiet [] w = Quiet-refl w
close_pending-Quiet (d ∷ ds) w =
    Quiet-trans (detach_pending_binding-Quiet d w)
      (Quiet-trans (set_dbi-Quiet d _ _) (close_pending-Quiet ds _))

invalidate_record-Quiet : (id : ℕ) (w : World) → Quiet anything w (invalidate_record id w)
unfolding invalidate_record drop_record
invalidate_record-Quiet id w =
    Quiet-trans (invalidate_wrappers-Quiet (w.records id).wrappers w)
      (Quiet-trans (close_pending-Quiet _ _) (drop_record-Quiet id _))

pub invalidate_dbi_record-Ends : (owner : ℕ) (w : World) → Ends w (invalidate_dbi_record owner w).1
unfolding invalidate_dbi_record
invalidate_dbi_record-Ends owner w =
    reads-then Ends _ w (require_live_dbi_binding owner w) Ends-refl
      (require_live_dbi_binding-Reads owner w)
      (λ d. Quiet-Ends (invalidate_record-Quiet (w.dbis d).record_id w))

pub clear_cursor_handle-Ends : (owner : ℕ) (w : World) → Ends w (clear_cursor_handle owner w)
unfolding clear_cursor_handle
clear_cursor_handle-Ends owner w =
    of_owner-Ends
      (λ c v. if is_closed (v.cursors c).phase then v else close_cursor_binding c false true v)
      (λ c v.
        if-cases (Ends v) (is_closed (v.cursors c).phase) v _ (λ _. Ends-refl v)
          (λ _. Quiet-Ends (
            close_cursor_binding-Quiet {may = anything} caches (λ e h. refl) c false true v
              (λ _ h. refl))))
      (w.cursor_bindings owner) w

clear_current_records-Quiet :
    (id : ℕ) (cs : List ℕ) (w : World) → Quiet anything w (clear_current_records id cs w)
unfolding clear_current_records
clear_current_records-Quiet id [] w = Quiet-refl w
clear_current_records-Quiet id (c ∷ cs) w =
    Quiet-trans
      (if-cases (Quiet anything w) _ (call (invalidate_current c false) w) w
        (λ _. call-Quiet _ w refl) (λ _. Quiet-refl w))
      (clear_current_records-Quiet id cs _)

pub clear_dbi_cursor_current_records-Ends :
    (owner : ℕ) (w : World) → Ends w (clear_dbi_cursor_current_records owner w).1
unfolding clear_dbi_cursor_current_records
clear_dbi_cursor_current_records-Ends owner w =
    reads-then Ends _ w (require_live_dbi_binding owner w) Ends-refl
      (require_live_dbi_binding-Reads owner w)
      (λ d. Quiet-Ends (
        clear_current_records-Quiet (w.dbis d).record_id
          (w.shared (record_of_dbi d w).state).cursors w))

-- A cursor joins the sets of its state, its transaction and its database.
add_cursor-Ends :
    (owner handle txn dbi : ℕ) (read_only : Bool) (s : ℕ) (w : World)
    → Ends w (add_cursor owner handle txn dbi read_only s w)
unfolding add_cursor
add_cursor-Ends owner handle txn dbi read_only s w = record {
  leaves = λ t. ground arith;
  frees = λ j. ground arith;
  keeps = λ j t e there. ground arith;
  lists = λ j t e there. ground arith;
}

pub register_cursor_handle-Ends :
    (owner handle txn dbi : ℕ) (read_only : Bool) (w : World)
    → Ends w (register_cursor_handle owner handle txn dbi read_only w).1
unfolding register_cursor_handle
register_cursor_handle-Ends owner handle txn dbi read_only w =
    reads-then Ends _ w (require_transaction_binding txn w) Ends-refl
      (require_transaction_binding-Reads txn w)
      (λ t.
        reads-then Ends _ w (require_live_dbi_binding dbi w) Ends-refl
          (require_live_dbi_binding-Reads dbi w)
          (λ d.
            reads-then Ends _ w (or_throw transaction_closed (w.transactions t).state w) Ends-refl
              (or_throw-Reads transaction_closed (w.transactions t).state w)
              (λ s. add_cursor-Ends owner handle t d read_only s w)))

pub require_committed_dbi-Reads :
    (env_owner owner : ℕ) → Reads (require_committed_dbi env_owner owner)
unfolding require_committed_dbi require_live_dbi_binding assert_shared_state_usable
    assert_same_shared_environment assert_same_states
require_committed_dbi-Reads env_owner owner w = ground arith

pub retain_dbi_for_batch-Ends :
    (env_owner owner : ℕ) (w : World) → Ends w (retain_dbi_for_batch env_owner owner w).1
unfolding retain_dbi_for_batch
retain_dbi_for_batch-Ends env_owner owner w =
    reads-then Ends _ w (require_committed_dbi env_owner owner w) Ends-refl
      (require_committed_dbi-Reads env_owner owner w)
      (λ d. Quiet-Ends (set_record-Quiet {may = anything} (w.dbis d).record_id _ w))

find_or_create-Ends :
    (found : Option ℕ) (state handle : ℕ) (committed : Bool) (w : World)
    → Ends w (find_or_create found state handle committed w).1
find_or_create-Ends (some id) state handle true w = same-Ends refl refl
find_or_create-Ends (some id) state handle false w = Ends-refl w
find_or_create-Ends none state handle committed w =
    Ends-trans (set_shared-Ends state _ w (inl refl) (λ t e. refl) (λ t e k. e))
      (same-Ends refl refl)

add_wrapper-Ends :
    (owner state id : ℕ) (d : DbiBinding) (w : World) → Ends w (add_wrapper owner state id d w)
add_wrapper-Ends owner state id d w =
    Ends-trans (set_shared-Ends state _ w (inl refl) (λ t e. refl) (λ t e k. e))
      (same-Ends refl refl)

add_pending-Ends : (dbi id : ℕ) (txn : Option ℕ) (w : World) → Ends w (add_pending dbi id txn w)
add_pending-Ends dbi id none w = Ends-refl w
add_pending-Ends dbi id (some txn) w =
    Quiet-Ends
      (Quiet-trans (set_record-Quiet {may = anything} id _ w) (set_transaction-Quiet txn _ _ refl))

register_in-Ends :
    (owner handle : ℕ) (key_format : KeyEncoding) (flags : ℕ) (pending : Option ℕ) (s : ℕ)
    (w : World)
    → Ends w (register_in owner handle key_format flags pending s w)
register_in-Ends owner handle key_format flags pending s w =
    let found = find_record handle (w.shared s).dbi_records in
    Ends-trans (find_or_create-Ends found s handle (not (is_some pending)) w)
      (Ends-trans (add_wrapper-Ends owner s _ _ _) (add_pending-Ends _ _ pending _))

require_pending-Reads : (pending : Option ℕ) (s : ℕ) → Reads (require_pending pending s)
unfolding require_pending require_transaction_binding assert_shared_state_usable assert_txn_active
    get_txn_handle
require_pending-Reads none s w = refl
require_pending-Reads (some owner) s w = ground arith

pub register_dbi_handle-Ends :
    (owner handle : ℕ) (key_format : KeyEncoding) (env_owner flags : ℕ) (pending : Option ℕ)
    (w : World)
    → Ends w (register_dbi_handle owner handle key_format env_owner flags pending w).1
unfolding register_dbi_handle
register_dbi_handle-Ends owner handle key_format env_owner flags pending w =
    reads-then Ends _ w (get_shared_environment env_owner w) Ends-refl
      (get_shared_environment-Reads env_owner w)
      (λ s.
        reads-then Ends _ w (require_pending pending s w) Ends-refl
          (require_pending-Reads pending s w)
          (λ txn. register_in-Ends owner handle key_format flags txn s w))
