-- ===== src/State/Writer/Moves.antt =====
-- What becomes of the writer of an environment when transactions join it, and how it is reserved.
use lmdb_deno.Prelude.{
  ℕ, has, add, Bool-cases, if-cases, subst, ◌==◌, ◌||◌, ◌++◌, ◌≡◌, ◌⊎◌, inl, inr, Bool, true, false,
  not, ◌&&◌, Option, none, some, List, [], ◌∷◌, is_some, ok, arith,
}
use lmdb_deno.State.World.{SharedEnvironment, WriterOwner, transaction, internal_writer, World, run}
use lmdb_deno.State.Access.{
  assert_shared_state_usable, require_environment_binding, require_environment_state,
  require_transaction_binding, environment_state_for_owner,
}
use lmdb_deno.State.Transactions.{second_writer_error, join, register_owned_transaction}
use lmdb_deno.State.Closing.{
  reserve_internal_writer, reserve_in, invalidate_shared_environment_children,
}
use lmdb_deno.State.Writer.{
  writer, listed, SingleWriter, Members, Ends, Ends-SingleWriter, Ends-Members,
}
use lmdb_deno.State.Writer.Closing.{children-frees, children-Members}
use lmdb_deno.State.Writer.Reading.{
  reads-then, guard-then, assert_shared_state_usable-Reads, require_environment_binding-Reads,
  require_environment_state-Reads, require_transaction_binding-Reads,
  environment_state_for_owner-Reads,
}

-- A lock: it is taken when it is free, and given back, and never passed on.
pub data Lock : Option WriterOwner → Option WriterOwner → Type 0 where
  keep : (o : Option WriterOwner) → Lock o o
  take : (o : WriterOwner) → Lock none (some o)
  give_back : (o : WriterOwner) → Lock (some o) none

pub record Moves (w w' : World) : Type 0 where
  pub locks : (s : ℕ) → Lock (writer s w) (writer s w')
  pub keeps_single : SingleWriter w → Members w → SingleWriter w'
  pub keeps_members : Members w → Members w'

pub Moves-refl : (w : World) → Moves w w
Moves-refl w = record {
  locks = λ s. keep (writer s w);
  keeps_single = λ single members. single;
  keeps_members = λ members. members;
}

frees-Lock : (o o' : Option WriterOwner) → (o' ≡ o) ⊎ (o' ≡ none) → Lock o o'
frees-Lock o o' (inl e) = rw e (keep o)
frees-Lock none o' (inr e) = rw e (keep none)
frees-Lock (some o) o' (inr e) = rw e (give_back o)

pub Ends-Moves : {w w' : World} → Ends w w' → Moves w w'
Ends-Moves {w} {w'} h = record {
  locks = λ s. frees-Lock (writer s w) (writer s w') (h.frees s);
  keeps_single = λ single members. Ends-SingleWriter h single;
  keeps_members = Ends-Members h;
}

-- Nobody writes before a write transaction joins.
join-writer :
    (e s t : ℕ) (read_only : Bool) (j : ℕ) (w : World)
    → (writer j (join e s t read_only w) ≡ writer j w)
      ⊎ ((j ≡ s) × (read_only ≡ false) × (writer j (join e s t read_only w) ≡ some (transaction t)))
unfolding join
join-writer e s t true j w = ground arith
join-writer e s t false j w = ground arith

join-Lock :
    (o o' : Option WriterOwner) (t : ℕ)
    → (o' ≡ o) ⊎ ((o ≡ none) × (o' ≡ some (transaction t)))
    → Lock o o'
join-Lock o o' t (inl e) = rw e (keep o)
join-Lock o o' t (inr h) = rw (h.0, h.1) (take (transaction t))

has-snoc : (t n : ℕ) (l : List ℕ) → ((n == t) || has n l) ≡ true → has n (l ++ t ∷ []) ≡ true
has-snoc t n [] h = h
has-snoc t n (m ∷ l) h = ground (arith, has-snoc t n l)

has-add : (t n : ℕ) (l : List ℕ) → ((n == t) || has n l) ≡ true → has n (add t l) ≡ true
has-add t n l h = elim (Bool-cases (has t l)) [
  | inl there ↦
      if-cases (λ (m : List ℕ). has n m ≡ true) (has t l) l _
        (λ _. member there (Bool-cases (n == t))) (λ absent. absurd (ground arith))
  | inr fresh ↦
      if-cases (λ (m : List ℕ). has n m ≡ true) (has t l) l _ (λ present. absurd (ground arith))
        (λ _. has-snoc t n l h)
]
  where
    member : has t l ≡ true → ((n == t) ≡ true) ⊎ ((n == t) ≡ false) → has n l ≡ true
    member there (inl same) =
        let one : t ≡ n = ground arith in subst (λ m. has m l ≡ true) one there
    member there (inr differs) = ground arith

-- Who joins is in the set, and nobody else leaves.
join-listed :
    (e s t : ℕ) (read_only : Bool) (u j : ℕ) (w : World)
    → ((w.transactions u).state ≡ some j → listed j u w ≡ true)
    → ((join e s t read_only w).transactions u).state ≡ some j
    → listed j u (join e s t read_only w) ≡ true
unfolding join
join-listed e s t read_only u j w before there =
    if-cases (λ (v : SharedEnvironment). has u v.transactions ≡ true) (j == s) _ (w.shared j)
      (λ same. has-add t u (w.shared s).transactions (elim (Bool-cases (u == t)) [
        | inl one ↦ ground arith
        | inr differs ↦
            let here : listed j u w ≡ true = before (ground arith) in
            let place : j ≡ s = ground arith in
            let there' : has u (w.shared s).transactions ≡ true =
              subst (λ i. listed i u w ≡ true) place here in
            ground arith
      ]))
      (λ differ. before (ground arith))

join-Moves :
    (e s t : ℕ) (read_only : Bool) (w : World)
    → (not read_only && is_some (writer s w)) ≡ false
    → Moves w (join e s t read_only w)
unfolding SingleWriter Members join
join-Moves e s t read_only w free = record {
  locks = λ j.
      join-Lock (writer j w) (writer j (join e s t read_only w)) t
        (ground (arith, join-writer e s t read_only j w));
  keeps_single = λ single members u j there writes. ground (arith, single u j);
  keeps_members = λ members u j there. join-listed e s t read_only u j w (members u j) there;
}

-- The children of an environment are invalidated with its writer, if that is in its set.
pub children-Moves : (s : ℕ) (w : World) → Moves w (invalidate_shared_environment_children s w).1
children-Moves s w = record {
  locks = λ j. frees-Lock (writer j w) _ (children-frees s w j);
  keeps_single = λ single members. Ends-SingleWriter (children-Members s w members) single;
  keeps_members = λ members. Ends-Members (children-Members s w members) members;
}

-- A write transaction joins only if nobody writes.
pub register_owned_transaction-Moves :
    (env_owner txn_owner : ℕ) (read_only : Bool) (w : World)
    → Moves w (register_owned_transaction env_owner txn_owner read_only w).1
unfolding register_owned_transaction
register_owned_transaction-Moves env_owner txn_owner read_only w =
    reads-then Moves _ w (require_environment_binding env_owner w) Moves-refl
      (require_environment_binding-Reads env_owner w)
      (λ e.
        reads-then Moves _ w (require_environment_state e w) Moves-refl
          (require_environment_state-Reads e w)
          (λ s.
            reads-then Moves _ w (require_transaction_binding txn_owner w) Moves-refl
              (require_transaction_binding-Reads txn_owner w)
              (λ t.
                guard-then Moves (run (join e s t read_only))
                  (not read_only && is_some (writer s w)) second_writer_error w Moves-refl
                  (λ free. join-Moves e s t read_only w free))))

reserve_in-Moves : (s : ℕ) (w : World) → is_some (writer s w) ≡ false → Moves w (reserve_in s w)
unfolding SingleWriter Members
reserve_in-Moves s w free = record {
  locks = λ j. reserve-Lock (writer j w) (writer j (reserve_in s w)) (ground arith);
  keeps_single = λ single members u j there writes. ground (arith, single u j);
  keeps_members = λ members u j there. ground (arith, members u j);
}
  where
    reserve-Lock :
        (o o' : Option WriterOwner)
        → (o' ≡ o) ⊎ ((o ≡ none) × (o' ≡ some (internal_writer w.next_object)))
        → Lock o o'
    reserve-Lock o o' (inl e) = rw e (keep o)
    reserve-Lock o o' (inr h) = rw (h.0, h.1) (take (internal_writer w.next_object))

pub reserve_internal_writer-Moves :
    (env_owner : ℕ) (w : World) → Moves w (reserve_internal_writer env_owner w).1
unfolding reserve_internal_writer
reserve_internal_writer-Moves env_owner w =
    reads-then Moves _ w (environment_state_for_owner env_owner w) Moves-refl
      (environment_state_for_owner-Reads env_owner w)
      (λ s.
        reads-then Moves _ w (assert_shared_state_usable (some s) w) Moves-refl
          (assert_shared_state_usable-Reads (some s) w)
          (λ _.
            guard-then Moves
              (λ v. (ok (record { state = s; token = v.next_object }), reserve_in s v))
              (is_some (writer s w)) second_writer_error w Moves-refl
              (λ free. reserve_in-Moves s w free)))
