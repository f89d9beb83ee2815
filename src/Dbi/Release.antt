-- ===== src/Dbi/Release.antt =====
-- The writer that `drop` reserves (dbi.ts).
use lmdb_deno.Prelude.{
  ℕ, ◌≡◌, ◌⊎◌, inl, inr, refl, subst, ap, ◌∙◌, sym, Bool, true, false, none, some, is_some, ◌==◌,
  Result, ok, err, arith,
}
use lmdb_deno.State.World.{
  set_shared, internal_writer, World, Action, NativeCall, proceed, run, throw_when, call, ◌>>◌,
  txn_abort, txn_commit,
}
use lmdb_deno.State.Writer.Reading.{
  Reads, reads-then, environment_state_for_owner-Reads, assert_shared_state_usable-Reads,
}
use lmdb_deno.State.Transactions.{second_writer_error}
use lmdb_deno.State.Access.{
  require_live_dbi_binding, assert_shared_state_usable, environment_state_for_owner,
}
use lmdb_deno.State.Databases.{invalidate_dbi_record}
use lmdb_deno.State.Handles.{get_committed_dbi_handle, get_dbi_environment_handle}
use lmdb_deno.State.Closing.{
  InternalWriterReservation, holds_token, release_internal_writer, reserve_in,
  reserve_internal_writer,
}
use lmdb_deno.State.Writer.{writer, Ends, Ends-refl, Ends-trans}
use lmdb_deno.State.Writer.Closing.{same-Ends, release_internal_writer-Ends, close_if_unused-Ends}
use lmdb_deno.State.Writer.Databases.{invalidate_dbi_record-Ends}
use lmdb_deno.Dbi.{
  DbiApi, ask, on_error, on_error_with, ensure, ensure_with, when, drop_alone, drop_with,
}

bind-Ends :
    {A B : Type 0} (next : A → Action B) (w : World) (x : Result A × World)
    → Ends w (x.1)
    → ((a : A) (v : World) → Ends v (next a v).1)
    → Ends w (proceed x next).1
bind-Ends next w (ok a, v) first rest = Ends-trans first (rest a v)
bind-Ends next w (err e, v) first rest = first

undo-Ends :
    {A : Type 0} (undo : World → World) (w : World) (x : Result A × World)
    → Ends w (x.1)
    → ((v : World) → Ends v (undo v))
    → Ends w (on_error_with undo x).1
undo-Ends undo w (ok a, v) first undone = first
undo-Ends undo w (err e, v) first undone = Ends-trans first (undone v)

call-Ends : (c : NativeCall) (w : World) → Ends w (call c w)
call-Ends c w = same-Ends refl refl

when-Ends : (b : Bool) (m : Action (Unit {0})) (w : World) → Ends w (m w).1 → Ends w (when b m w).1
when-Ends true m w h = h
when-Ends false m w h = Ends-refl w

seq-Ends :
    {A : Type 0} (m : Action A) (next : Action (Unit {0})) (w : World)
    → Ends w (m w).1
    → ((v : World) → Ends v (next v).1)
    → Ends w (proceed (m w) (λ _. next)).1
seq-Ends m next w first rest = bind-Ends (λ _. next) w (m w) first (λ _ v. rest v)

drop_alone-Ends :
    (api : DbiApi) (object dbi env_handle : ℕ) (delete : Bool) (w : World)
    → Ends w (drop_alone api object dbi env_handle delete w).1
unfolding drop_alone
drop_alone-Ends api object dbi env_handle delete w =
    let forget = when delete (invalidate_dbi_record object) in
    let committing = λ (txn : ℕ). ask (api.commit_txn txn) >> forget in
    let ending = λ (txn : ℕ). run (call (txn_commit txn)) >> committing txn in
    let dropping =
      λ (txn : ℕ). on_error (ask (api.drop_dbi txn dbi delete)) (call (txn_abort txn)) in
    bind-Ends (λ txn. dropping txn >> ending txn) w (ask (api.begin env_handle false) w)
      (Ends-refl w)
      (λ txn v.
        seq-Ends (dropping txn) (ending txn) v
          (undo-Ends (call (txn_abort txn)) v (ask (api.drop_dbi txn dbi delete) v) (Ends-refl v)
            (call-Ends (txn_abort txn)))
          (λ u.
            seq-Ends (run (call (txn_commit txn))) (committing txn) u (call-Ends (txn_commit txn) u)
              (λ x. seq-Ends (ask (api.commit_txn txn)) forget x (Ends-refl x) (λ y.
                when-Ends delete (invalidate_dbi_record object) y
                  (invalidate_dbi_record-Ends object y)))))

-- No environment is reserved by an internal writer that did not reserve it before.
abbrev pub NoNewReservation : World → World → Type 0
NoNewReservation w w' =
    (s token : ℕ)
    → writer s w' ≡ some (internal_writer token)
    → writer s w ≡ some (internal_writer token)

Ends-NoNew : (u v w : World) → NoNewReservation u v → Ends v w → NoNewReservation u w
Ends-NoNew u v w h k s token held = h s token (ground (arith, k.frees s))

-- Where the writer is the reservation's or nobody, nobody is left.
release-free :
    (r : InternalWriterReservation) (w : World)
    → (writer r.state w ≡ some (internal_writer r.token)) ⊎ (writer r.state w ≡ none)
    → writer r.state (release_internal_writer r w).1 ≡ none
unfolding release_internal_writer
release-free r w (inl held) =
    let free : World = set_shared r.state (record (w.shared r.state) { active_writer = none }) w in
    let at_free : writer r.state free ≡ none = ground arith in
    let kept = close_if_unused-Ends r.state free in
    let test : holds_token (w.shared r.state).active_writer r.token ≡ true = ground (arith, held) in
    rw test (ground (arith, kept.frees r.state))
release-free r w (inr free) = rw free free

-- What is done between a reservation and its release.
between :
    (s : ℕ) (w v : World)
    → Ends (reserve_in s w) v
    → is_some (writer s w) ≡ false
    → NoNewReservation w (release_internal_writer (record { state = s; token = w.next_object }) v).1
between s w v ended was_free j token held =
    let r : InternalWriterReservation = record { state = s; token = w.next_object } in
    let released = release_internal_writer-Ends r v in
    let mine : writer s (reserve_in s w) ≡ some (internal_writer w.next_object) = ground arith in
    let gone = release-free r v (ground (arith, mine, ended.frees s)) in
    elim (j == s) as (λ b. (j == s) ≡ b → writer j w ≡ some (internal_writer token)) [
      | true ↦ λ same.
          let e : j ≡ s = ground arith in
          absurd (ground (arith, ap (λ i. writer i (release_internal_writer r v).1) e, gone, held))
      | false ↦ λ other.
          let untouched : writer j (reserve_in s w) ≡ writer j w = ground arith in
          ground (arith, released.frees j, ended.frees j, untouched, held)
    ]
      refl

NoNew-refl : (w : World) → NoNewReservation w w
NoNew-refl w s token held = held

-- What follows a reservation.
module _ (k : InternalWriterReservation → Action (Unit {0})) where
  abbrev Safe : World → Type 0
  Safe w =
      (s : ℕ)
      → is_some (writer s w) ≡ false
      → NoNewReservation w (k (record { state = s; token = w.next_object }) (reserve_in s w)).1

  guarded :
      (s : ℕ) (b : Bool) (w : World)
      → (b ≡ false
          → NoNewReservation w (k (record { state = s; token = w.next_object }) (reserve_in s w)).1)
      → NoNewReservation w
          (proceed
            (proceed
              (throw_when b second_writer_error w)
              (λ _ v. (ok (record { state = s; token = v.next_object }), reserve_in s v)))
            k).1
  guarded s true w safe = NoNew-refl w
  guarded s false w safe = safe refl

  reserve-follows :
      (owner : ℕ) (w : World)
      → Safe w
      → NoNewReservation w (proceed (reserve_internal_writer owner w) k).1
  unfolding reserve_internal_writer
  reserve-follows owner w safe =
      found (environment_state_for_owner owner w) (environment_state_for_owner-Reads owner w)
    where
      usable :
          (s : ℕ) (y : Result (Unit {0}) × World)
          → y.1 ≡ w
          → NoNewReservation w
              (proceed
                (proceed y (λ _ u.
                  (throw_when (is_some (u.shared s).active_writer) second_writer_error >> λ v.
                  (ok (record { state = s; token = v.next_object }), reserve_in s v))
                    u))
                k).1
      usable s (err e, u) same = subst (λ v. NoNewReservation w v) (sym same) (NoNew-refl w)
      usable s (ok _, u) same =
          subst
            (λ v.
              NoNewReservation w
                (proceed
                  (proceed (throw_when (is_some (v.shared s).active_writer) second_writer_error v)
                    (λ _ x. (ok (record { state = s; token = x.next_object }), reserve_in s x)))
                  k).1)
            (sym same) (guarded s (is_some (w.shared s).active_writer) w (λ free. safe s free))

      found :
          (x : Result ℕ × World)
          → x.1 ≡ w
          → NoNewReservation w
              (proceed
                (proceed x (λ s. assert_shared_state_usable (some s) >> λ u.
                  (throw_when (is_some (u.shared s).active_writer) second_writer_error >> λ v.
                  (ok (record { state = s; token = v.next_object }), reserve_in s v))
                    u))
                k).1
      found (err e, u) same = subst (λ v. NoNewReservation w v) (sym same) (NoNew-refl w)
      found (ok s, u) same =
          usable s (assert_shared_state_usable (some s) u)
            (assert_shared_state_usable-Reads (some s) u ∙ same)

ensure-world :
    (thrown : Result (Unit {0})) (x : Result (Unit {0}) × World) → (ensure_with thrown x).1 ≡ x.1
ensure-world thrown (ok _, w) = refl
ensure-world thrown (err e, w) = refl

get_committed-Reads : (owner : ℕ) → Reads (get_committed_dbi_handle owner)
unfolding get_committed_dbi_handle require_live_dbi_binding assert_shared_state_usable
get_committed-Reads owner w = ground arith

get_environment-Reads : (owner : ℕ) → Reads (get_dbi_environment_handle owner)
unfolding get_dbi_environment_handle require_live_dbi_binding assert_shared_state_usable
get_environment-Reads owner w = ground arith

-- `drop` without a transaction leaves no internal reservation behind that was not there before,
-- whether it returns or throws and however LMDB answers.
pub drop_with-releases :
    (api : DbiApi) (object : ℕ) (delete : Bool) (w : World)
    → NoNewReservation w (drop_with api none object delete w).1
drop_with-releases api object delete w =
    reads-then NoNewReservation _ w (get_committed_dbi_handle object w) NoNew-refl
      (get_committed-Reads object w)
      (λ dbi.
        reads-then NoNewReservation _ w (get_dbi_environment_handle object w) NoNew-refl
          (get_environment-Reads object w)
          (λ env_handle.
            reserve-follows
              (λ r.
                ensure (drop_alone api object dbi env_handle delete) (release_internal_writer r))
              object w
              (λ s free.
                let r : InternalWriterReservation = record { state = s; token = w.next_object } in
                let tried = drop_alone api object dbi env_handle delete (reserve_in s w) in
                rw (ensure-world (tried.0) (release_internal_writer r (tried.1))) (
                  between s w (tried.1)
                    (drop_alone-Ends api object dbi env_handle delete (reserve_in s w)) free))))
