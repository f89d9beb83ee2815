-- ===== src/Batch/Protocol/Authority.antt =====
-- What a validation finds in the tables and what it leaves there.
use lmdb_deno.Prelude.{
  ℕ, ◌≡◌, ◌≢◌, ◌⊎◌, inl, inr, refl, true, false, Option, none, some, List, [], ◌∷◌, arith, ℤ, pos,
  negsuc, ◌==ℤ◌, Option-cases, Exception, Result, ok, err, ◌>>◌,
}
use lmdb_deno.Encoding.Text.{CodeUnits}
use lmdb_deno.Encoding.Values.{Number, integer, non_integer}
use lmdb_deno.Batch.Protocol.Registry.{
  Capability, WorkerEnvironmentDescriptor, IssuedDescriptorRecord, SharedState, Registry,
  find_issued, find_authenticator, delete_authenticator, same_units, same_capability, read, batch,
  other,
}
use lmdb_deno.Batch.Protocol.Descriptors.{
  remove_issued_descriptor, consume_issued_descriptor, check_issued,
  validate_environment_descriptor, is_number, matches, is_current, assert_capability,
  assert_descriptor_shape,
}

find_authenticator-delete_self :
    (o : ℕ) (l : List (ℕ × ℕ)) → find_authenticator o (delete_authenticator o l) ≡ none
find_authenticator-delete_self o [] = refl
find_authenticator-delete_self o ((p, g) ∷ l) = ground (arith, find_authenticator-delete_self o l)

find_authenticator-delete :
    (o p : ℕ) (l : List (ℕ × ℕ))
    → find_authenticator o l ≡ none
    → find_authenticator o (delete_authenticator p l) ≡ none
find_authenticator-delete o p [] h = refl
find_authenticator-delete o p ((q, g) ∷ l) h = ground (arith, find_authenticator-delete o p l)

remove-authenticators :
    (i : IssuedDescriptorRecord) (r : Registry)
    → (remove_issued_descriptor i r).authenticators
      ≡ delete_authenticator i.authenticator r.authenticators
unfolding remove_issued_descriptor
remove-authenticators i r = ground arith

-- By what the object and then the generation are found to stand for.
pub consume-cases :
    (o : ℕ) (r : Registry)
    → let r' = record r { authenticators = delete_authenticator o r.authenticators } in
      ((find_authenticator o r.authenticators ≡ none) × (consume_issued_descriptor o r ≡ (none, r)))
      ⊎ (((g : ℕ) × (find_authenticator o r.authenticators ≡ some g)
            × (find_issued g r.issued ≡ none)
            × (consume_issued_descriptor o r ≡ (none, r')))
          ⊎ ((g : ℕ) × (i : IssuedDescriptorRecord) × (find_authenticator o r.authenticators
                ≡ some g)
              × (find_issued g r.issued ≡ some i)
              × (consume_issued_descriptor o r ≡ (some i, remove_issued_descriptor i r'))))
unfolding consume_issued_descriptor
consume-cases o r = elim (Option-cases (find_authenticator o r.authenticators)) [
  | inl missing ↦ inl (missing, ground (arith, missing))
  | inr h ↦ elim (Option-cases (find_issued h.0 r.issued)) [
    | inl gone ↦ inr (inl (h.0, h.1, gone, ground (arith, h.1, gone)))
    | inr k ↦ inr (inr (h.0, k.0, h.1, k.1, ground (arith, h.1, k.1)))
  ]
]

consume-forgets :
    (o : ℕ) (r : Registry)
    → find_authenticator o (consume_issued_descriptor o r).1.authenticators ≡ none
consume-forgets o r =
    let self = find_authenticator-delete_self o r.authenticators in
    elim (consume-cases o r) [
      | inl h ↦ rw h.1 h.0
      | inr (inl h) ↦ rw h.3 self
      | inr (inr h) ↦
          rw h.4 (
            rw (remove-authenticators h.1 _) (find_authenticator-delete o h.1.authenticator _ self))
    ]

then_err :
    (x y : Result (Unit {0})) (e : Exception) → y ≡ err e → (e' : Exception) × ((x >> y) ≡ err e')
then_err (ok _) y e h = (e, h)
then_err (err e') y e h = (e', refl)

rejected :
    (o : ℕ) (d : WorkerEnvironmentDescriptor) (c : Capability) (r : Registry)
    → find_authenticator o r.authenticators ≡ none
    → (e : Exception) × ((validate_environment_descriptor o d c r).0 ≡ err e)
unfolding validate_environment_descriptor check_issued
rejected o d c r h = elim (consume-cases o r) [
  | inl k ↦ rw k.1 (then_err (assert_capability c >> assert_descriptor_shape d) _ _ refl)
  | inr (inl k) ↦ absurd (ground (arith, h, k.1))
  | inr (inr k) ↦ absurd (ground (arith, h, k.2))
]

-- Once a descriptor object has been validated, successfully or not, every later validation of it
-- throws, whatever its fields are then and whatever capability is asked for.
pub validate_once :
    (o : ℕ) (d d' : WorkerEnvironmentDescriptor) (c c' : Capability) (r : Registry)
    → (e : Exception) × ((validate_environment_descriptor o d' c'
          (validate_environment_descriptor o d c r).1).0
        ≡ err e)
unfolding validate_environment_descriptor
validate_once o d d' c c' r =
    rejected o d' c' (consume_issued_descriptor o r).1 (consume-forgets o r)

-- The fields of a descriptor and a capability are those of an issued record.
record Unchanged (i : IssuedDescriptorRecord) (d : WorkerEnvironmentDescriptor) (c : Capability)
    : Type 0 where
  path : d.library_path ≡ i.library_path
  address : d.env_address ≡ pos i.env_address
  number : d.generation ≡ integer (pos i.generation)
  described : d.capability ≡ i.capability
  asked : c ≡ i.capability

same_units-same : (xs ys : CodeUnits) → same_units xs ys ≡ true → ys ≡ xs
same_units-same [] [] h = refl
same_units-same [] (y ∷ ys) h = absurd (ground arith)
same_units-same (x ∷ xs) [] h = absurd (ground arith)
same_units-same (x ∷ xs) (y ∷ ys) h =
    let tail : ys ≡ xs = same_units-same xs ys (ground arith) in
    let head : y ≡ x = ground arith in rw (head, tail) refl

same_capability-same : (c d : Capability) → same_capability c d ≡ true → d ≡ c
same_capability-same read d h = ground arith
same_capability-same batch d h = ground arith
same_capability-same other d h = ground arith

is_number-same : (n : ℕ) (m : Number) → is_number n m ≡ true → m ≡ integer (pos n)
is_number-same n (integer (pos m)) h = ground arith
is_number-same n (integer (negsuc m)) h = absurd (ground arith)
is_number-same n (non_integer m) h = absurd (ground arith)

address-same : (n : ℕ) (m : ℤ) → (pos n ==ℤ m) ≡ true → m ≡ pos n
address-same n (pos m) h = ground arith
address-same n (negsuc m) h = absurd (ground arith)

matches-Unchanged :
    (i : IssuedDescriptorRecord) (d : WorkerEnvironmentDescriptor) (c : Capability)
    → matches i d c ≡ true
    → Unchanged i d c
unfolding matches
matches-Unchanged i d c h = record {
  path = same_units-same i.library_path d.library_path (ground arith);
  address = address-same i.env_address d.env_address (ground arith);
  number = is_number-same i.generation d.generation (ground arith);
  described = same_capability-same i.capability d.capability (ground arith);
  asked = same_capability-same i.capability c (ground arith);
}

-- What a validation that succeeds has found.
pub record IsGranted (o : ℕ) (d : WorkerEnvironmentDescriptor) (c : Capability) (r : Registry)
    : Type 0 where
  pub issued : IssuedDescriptorRecord
  pub state : SharedState
  pub authentic : find_authenticator o r.authenticators ≡ some issued.generation
  pub listed : find_issued issued.generation r.issued ≡ some issued
  pub same_path : d.library_path ≡ issued.library_path
  pub same_address : d.env_address ≡ pos issued.env_address
  pub same_number : d.generation ≡ integer (pos issued.generation)
  pub described : d.capability ≡ issued.capability
  pub asked : c ≡ issued.capability
  pub referenced : r.states issued.state ≡ some state
  pub usable : state.poisoned ≡ false
  pub retained : state.ref_count ≢ 0
  pub same_generation : state.generation ≡ issued.state_generation

find_issued-generation :
    (g : ℕ) (l : List IssuedDescriptorRecord) (i : IssuedDescriptorRecord)
    → find_issued g l ≡ some i
    → i.generation ≡ g
find_issued-generation g [] i h = absurd (ground arith)
find_issued-generation g (j ∷ l) i h = ground (arith, find_issued-generation g l i)

-- Taking a record out of the tables changes no more of a state than its tokens.
pub remove-state :
    (i : IssuedDescriptorRecord) (r : Registry) (n : ℕ) (s' : SharedState)
    → (remove_issued_descriptor i r).states n ≡ some s'
    → (s : SharedState) × (r.states n ≡ some s)
      × (s'.poisoned ≡ s.poisoned)
      × (s'.ref_count ≡ s.ref_count)
      × (s'.generation ≡ s.generation)
unfolding remove_issued_descriptor
remove-state i r n s' h = elim (Option-cases (r.states i.state)) [
  | inl gone ↦ (s', ground arith, refl, refl, refl)
  | inr k ↦ elim (Option-cases (r.states n)) [
    | inl missing ↦ absurd (ground arith)
    | inr q ↦ (q.0, q.1, ground arith, ground arith, ground arith)
  ]
]

granted :
    (i : IssuedDescriptorRecord) (d : WorkerEnvironmentDescriptor) (c : Capability) (r : Registry)
    → check_issued (some i) d c r ≡ ok tt
    → (matches i d c ≡ true)
      × ((s : SharedState) × (r.states i.state ≡ some s)
          × (s.poisoned ≡ false)
          × (s.ref_count ≢ 0)
          × (s.generation ≡ i.state_generation))
unfolding check_issued is_current
granted i d c r h = elim (Option-cases (r.states i.state)) [
  | inl gone ↦ absurd (ground arith)
  | inr k ↦ (ground arith, (k.0, k.1, ground arith, ground arith, ground arith))
]

no_record :
    (j : Option IssuedDescriptorRecord) (d : WorkerEnvironmentDescriptor) (c : Capability)
    (r : Registry)
    → j ≡ none
    → check_issued j d c r ≡ ok tt
    → ⊥
unfolding check_issued
no_record none d c r e h = ground arith
no_record (some i) d c r e h = ground arith

sequence-ok : (x y : Result (Unit {0})) → (x >> y) ≡ ok tt → y ≡ ok tt
sequence-ok (ok _) y h = h
sequence-ok (err e) y h = absurd (ground arith)

-- A validation that succeeds was given the very object that was issued, with the library path, the
-- address, the generation and the capability it was issued with, and that capability was asked for; its record was in the table; and the shared state it was
-- issued for is still referenced, retained and not poisoned, and has the generation it had then.
pub validate_grants :
    (o : ℕ) (d : WorkerEnvironmentDescriptor) (c : Capability) (r : Registry)
    → (validate_environment_descriptor o d c r).0 ≡ ok tt
    → IsGranted o d c r
unfolding validate_environment_descriptor
validate_grants o d c r h =
    let checked = sequence-ok (assert_capability c >> assert_descriptor_shape d) _ h in
    elim (consume-cases o r) [
      | inl k ↦ absurd (no_record _ d c _ (ground (arith, k.1)) checked)
      | inr (inl k) ↦ absurd (no_record _ d c _ (ground (arith, k.3)) checked)
      | inr (inr k) ↦
          let same = find_issued-generation k.0 r.issued k.1 k.3 in
          let q = granted k.1 d c _ (rw k.4 at checked) in
          let s = remove-state k.1 _ k.1.state q.1.0 q.1.1 in
          let u = matches-Unchanged k.1 d c q.0 in
          record {
            issued = k.1;
            state = s.0;
            authentic = ground (arith, k.2, same);
            listed = ground (arith, k.3, same);
            same_path = u.path;
            same_address = u.address;
            same_number = u.number;
            described = u.described;
            asked = u.asked;
            referenced = s.1;
            usable = ground (arith, s.2, q.1.2);
            retained = ground (arith, s.3, q.1.3);
            same_generation = ground (arith, s.4, q.1.4);
          }
    ]
