-- ===== src/Batch/Protocol/Use.antt =====
-- A validation right after a descriptor was issued.
use lmdb_deno.Prelude.{
  add, delete, ℕ, ◌≡◌, ◌≢◌, ap, sym, ◌∙◌, refl, true, false, some, [], ◌∷◌, arith, Result, ok, pos,
}
use lmdb_deno.Encoding.Text.{CodeUnits}
use lmdb_deno.Encoding.Values.{integer}
use lmdb_deno.Batch.Protocol.Registry.{
  Capability, IssuedDescriptorRecord, WorkerEnvironmentDescriptor, SharedState, Registry,
  same_units,
}
use lmdb_deno.Batch.Protocol.Descriptors.{
  issue_descriptor, get_environment_descriptor, assert_capability, assert_descriptor_shape, matches,
  is_current, check_issued, consume_issued_descriptor, remove_issued_descriptor,
  validate_environment_descriptor,
}
use lmdb_deno.Batch.Protocol.Bound.{issued_by, find_issued-set_issued_self}

-- The descriptor object as `getEnvironmentDescriptor` returns it.
abbrev pub descriptor_of : IssuedDescriptorRecord → WorkerEnvironmentDescriptor
descriptor_of i = record {
  library_path = i.library_path;
  env_address = pos i.env_address;
  generation = integer (pos i.generation);
  capability = i.capability;
}

same_units_refl : (u : CodeUnits) → same_units u u ≡ true
same_units_refl [] = refl
same_units_refl (a ∷ u) = ground (arith, same_units_refl u)

matches_own :
    (i : IssuedDescriptorRecord)
    → assert_capability i.capability ≡ ok tt
    → matches i (descriptor_of i) i.capability ≡ true
unfolding matches
matches_own i h = ground (arith, same_units_refl i.library_path)

module _ (id : ℕ) (state : SharedState) (c : Capability) (g : ℕ) (t : Registry) where
  abbrev record_of : IssuedDescriptorRecord
  record_of = record {
    library_path = state.library_path;
    env_address = state.address;
    generation = g;
    capability = c;
    authenticator = t.next_object;
    state = id;
    state_generation = state.generation;
  }

  consumed :
      let r = (issue_descriptor id state c g t).1 in
      (r' : Registry) × (consume_issued_descriptor t.next_object r ≡ (some record_of, r'))
      × (r'.states id
          ≡ some (record state { descriptor_tokens = delete g (add g state.descriptor_tokens) }))
  unfolding issue_descriptor consume_issued_descriptor remove_issued_descriptor
  consumed =
      let self = find_issued-set_issued_self record_of t.issued in
      (
        (consume_issued_descriptor t.next_object (issue_descriptor id state c g t).1).1,
        ground (arith, self),
        ground (arith, self),
      )

  accepted :
      (r' : Registry) (s : SharedState)
      → r'.states id ≡ some s
      → (s.poisoned ≡ false)
        × (s.ref_count ≢ 0)
        × (s.generation ≡ state.generation)
        × (s.address ≡ state.address)
      → assert_capability c ≡ ok tt
      → check_issued (some record_of) (descriptor_of record_of) c r' ≡ ok tt
  unfolding check_issued is_current
  accepted r' s e h known = ground (arith, e, matches_own record_of known)

  record_of-issued :
      (i : IssuedDescriptorRecord) (r' : Registry)
      → issue_descriptor id state c g t ≡ (ok i, r')
      → record_of ≡ i
  unfolding issue_descriptor
  record_of-issued i r' made = ground (arith, made)

  validated :
      state.poisoned ≡ false
      → state.ref_count ≢ 0
      → assert_capability c ≡ ok tt
      → assert_descriptor_shape (descriptor_of record_of) ≡ ok tt
      → (validate_environment_descriptor t.next_object
          (descriptor_of record_of)
          c
          (issue_descriptor id state c g t).1).0
        ≡ ok tt
  unfolding validate_environment_descriptor
  validated usable kept known shaped =
      let passed = accepted consumed.0 _ consumed.2 (usable, kept, refl, refl) known in
      rw consumed.1 (ground (arith, known, shaped, passed))

-- A descriptor that was issued for a usable state, and has a well-formed path and address, passes
-- its first validation for its capability.
pub get-validate :
    (id : ℕ) (state : SharedState) (c : Capability) (r : Registry) (i : IssuedDescriptorRecord)
    (r' : Registry)
    → state.poisoned ≡ false
    → state.ref_count ≢ 0
    → get_environment_descriptor id state c r ≡ some (ok i, r')
    → assert_descriptor_shape (descriptor_of i) ≡ ok tt
    → (validate_environment_descriptor i.authenticator (descriptor_of i) c r').0 ≡ ok tt
get-validate id state c r i r' usable kept h shaped =
    let (g, t, drawn, few, known, made) = issued_by id state c r i r' h in
    let same : record_of id state c g t ≡ i = record_of-issued id state c g t i r' made in
    let end : (issue_descriptor id state c g t).1 ≡ r' =
      ap (λ (p : Result IssuedDescriptorRecord × Registry). p.1) made in
    ap
      (λ (j : IssuedDescriptorRecord).
        (validate_environment_descriptor j.authenticator (descriptor_of j) c r').0)
      (sym same)
    ∙ ap
        (λ (x : Registry).
          (validate_environment_descriptor t.next_object (descriptor_of (record_of id state c g t))
            c x).0)
        (sym end)
    ∙ validated id state c g t usable kept known (
        ap (λ (j : IssuedDescriptorRecord). assert_descriptor_shape (descriptor_of j)) same
        ∙ shaped)
