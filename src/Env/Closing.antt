-- ===== src/Env/Closing.antt =====
-- `close` (env.ts): the native environment is closed with its last wrapper.
use lmdb_deno.Prelude.{
  ◌⊎◌, inl, inr, Exception, ℕ, ◌≡◌, ◌⊎◌, inl, inr, refl, sym, ap, ◌∙◌, Bool, true, false, not, ◌&&◌,
  List, [], ◌∷◌, ◌++◌, append-nil, append_assoc, Exception, Result, ok, err, if◌then◌else◌, arith,
}
use lmdb_deno.Env.{EnvironmentStatus, Env, with_status}
use lmdb_deno.State.Closing.{
  retire, invalidate_shared_environment_children, close_shared_environment,
}
use lmdb_deno.State.Order.Close.{is_child, children-Calm, close_shared_environment-IsClosed}
use lmdb_deno.State.World.{
  cursor_close, dbi_close, invalidate_current, txn_commit, txn_reset, txn_renew, NativeCall,
  env_close, txn_abort, World,
}
use lmdb_deno.State.Access.{is_poisoned, handle_of}
use lmdb_deno.State.Closing.{is_retired, is_referenced, close_shared_environment}
use lmdb_deno.State.Quiet.{AllCalls, AllCalls-append}
use lmdb_deno.State.Order.Close.{is_child, close_shared_environment-IsClosed}
use lmdb_deno.Env.{EnvironmentStatus, Env}
use lmdb_deno.State.Order.Retire.{retire-IsRetired}
use lmdb_deno.Env.Opening.{
  Outcome, close_last, finish_close, close_opened, close_with, close, close_last, finish_close,
  leave, close_opened, close_with, close,
}
use lmdb_deno.Env.Leaving.{not_env_close, Keeps, leave-Keeps}

-- Whether the environment that an object was attached to is closed natively by what ends its `close`.
abbrev pub closes_last : ℕ → World → Bool
closes_last s w = not (is_referenced s w) && not (is_retired s w) && not (is_poisoned s w)

abbrev pub closing_call : Bool → ℕ → List NativeCall
closing_call true h = env_close h ∷ []
closing_call false h = []

weaken : (cs : List NativeCall) → AllCalls is_child cs → AllCalls not_env_close cs
unfolding AllCalls
weaken [] h = tt
weaken (cursor_close x ∷ cs) h = (refl, weaken cs (h.1))
weaken (dbi_close x y ∷ cs) h = (refl, weaken cs (h.1))
weaken (invalidate_current x y ∷ cs) h = (refl, weaken cs (h.1))
weaken (txn_abort x ∷ cs) h = absurd (ground arith)
weaken (txn_commit x ∷ cs) h = absurd (ground arith)
weaken (txn_reset x ∷ cs) h = absurd (ground arith)
weaken (txn_renew x ∷ cs) h = absurd (ground arith)
weaken (env_close x ∷ cs) h = absurd (ground arith)

nothing_called : AllCalls not_env_close []
unfolding AllCalls
nothing_called = tt

-- The calls that end a `close`.
pub record Finishes (closing : Bool) (h : ℕ) (w w' : World) : Type 0 where
  pub before : List NativeCall
  pub in_order : w'.calls ≡ w.calls ++ before ++ closing_call closing h
  pub no_other : AllCalls not_env_close before

close_last-same : (s : ℕ) (w : World) → close_last s w ≡ close_shared_environment s w
unfolding close_last close_shared_environment
close_last-same s w = refl

-- Nothing is done to a poisoned environment.
close_last-poisoned :
    (s : ℕ) (w : World) → is_poisoned s w ≡ true → Finishes false (handle_of s w) w (close_last s w)
unfolding close_last
close_last-poisoned s w e =
    let w₁ = retire s w in
    let gone = retire-IsRetired s (w.registry.states s) w refl in
    let ended = children-Calm s w₁ in
    let w₂ = (invalidate_shared_environment_children s w₁).1 in
    let whole : close_last s w ≡ w₂ =
      rw
        (ap (λ r. is_poisoned s (record w₁ { registry = r })) ended.same_registry
          ∙ gone.same_poison
          ∙ e)
        refl in
    rw whole (record {
      before = ended.new_calls;
      in_order =
          ended.calls_grow
          ∙ ap (λ l. l ++ ended.new_calls) gone.same_calls
          ∙ sym (append-nil (w.calls ++ ended.new_calls));
      no_other = weaken ended.new_calls ended.calls_allowed;
    })

finish_close-Finishes :
    (s : ℕ) (w : World) → Finishes (closes_last s w) (handle_of s w) w (finish_close s w)
finish_close-Finishes s w =
    ending (not (is_referenced s w) && not (is_retired s w)) (is_poisoned s w) refl
  where
    ending :
        (b p : Bool)
        → is_poisoned s w ≡ p
        → Finishes (b && not p) (handle_of s w) w (if b then close_last s w else w)
    ending false p e = record {
      before = [];
      in_order = sym (append-nil (w.calls ++ []) ∙ append-nil w.calls);
      no_other = nothing_called;
    }
    ending true true e = close_last-poisoned s w e
    ending true false e =
        let closed = close_shared_environment-IsClosed s w e in
        rw (close_last-same s w) (record {
          before = closed.before;
          in_order = closed.in_order;
          no_other = weaken closed.before closed.children;
        })

-- How the `close` of an open environment ends, if it returns.
pub record ClosesEnvironment (e : Env) (w : World) (x : Outcome) : Type 0 where
  pub state : ℕ
  pub left : World
  pub leaves : leave e.object w ≡ (ok state, left)
  pub returns : x ≡ ((ok tt, finish_close state left), with_status e EnvironmentStatus.closed)
  pub before : List NativeCall
  pub in_order :
      (x.0.1).calls ≡ w.calls ++ before ++ closing_call (closes_last state left) (handle_of state w)
  pub no_other : AllCalls not_env_close before

-- `close` of an open environment throws what its steps before the object is closed throw, with the
-- object as it was and no environment closed natively; or it returns, and the object is closed. Then `env_close` is called once, last and for the handle of
-- the shared environment, if no wrapper is left and the environment is neither retired nor poisoned,
-- and otherwise it is not called.
pub close-ClosesEnvironment :
    (e : Env) (w : World)
    → e.status ≡ EnvironmentStatus.opened
    → ClosesEnvironment e w (close e w)
      ⊎ ((x : Exception) × (v : World) × (leave e.object w ≡ (err x, v))
          × Keeps w v
          × (close e w ≡ ((err x, v), e)))
unfolding close
close-ClosesEnvironment e w h =
    let whole : close e w ≡ close_opened e (leave e.object w) = ap (λ st. close_with st e w) h in
    rw whole (ends (leave e.object w) (leave-Keeps e.object w) refl)
  where
    ends :
        (x : Result ℕ × World)
        → Keeps w (x.1)
        → leave e.object w ≡ x
        → ClosesEnvironment e w (close_opened e x)
          ⊎ ((y : Exception) × (v : World) × (leave e.object w ≡ (err y, v))
              × Keeps w v
              × (close_opened e x ≡ ((err y, v), e)))
    ends (err y, v) k l = inr (y, v, l, k, refl)
    ends (ok s, v) k l =
        let f = finish_close-Finishes s v in
        inl (record {
          state = s;
          left = v;
          leaves = l;
          returns = refl;
          before = k.new_calls ++ f.before;
          in_order =
              f.in_order
              ∙ ap (λ c. c ++ f.before ++ closing_call (closes_last s v) (handle_of s v))
                  k.calls_grow
              ∙ ap (λ c. c ++ closing_call (closes_last s v) (handle_of s v))
                  (append_assoc w.calls k.new_calls f.before)
              ∙ ap (λ n. w.calls ++ (k.new_calls ++ f.before) ++ closing_call (closes_last s v) n)
                  (k.same_handle s);
          no_other = AllCalls-append not_env_close k.new_calls f.before k.calls_allowed f.no_other;
        })
