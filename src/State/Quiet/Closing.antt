-- ===== src/State/Quiet/Closing.antt =====
-- The loops of State/Closing over cursors: which native calls they make.
use lmdb_deno.Prelude.{ℕ, ◌≡◌, Bool, true, false, List, [], ◌∷◌, arith}
use lmdb_deno.State.World.{NativeCall, cursor_close, dbi_close, invalidate_current, World}
use lmdb_deno.State.Closing.{close_cursors, close_native_cursors}
use lmdb_deno.State.Quiet.{Quiet, Quiet-refl, Quiet-trans, call-Quiet}
use lmdb_deno.State.Quiet.Cursors.{close_cursor_binding-Quiet}

module _ {may : NativeCall → Bool} where
  pub close_cursors-Quiet :
      ((c : ℕ) (fallback : Bool) → may (invalidate_current c fallback) ≡ true)
      → ((environment handle : ℕ) → may (dbi_close environment handle) ≡ true)
      → (cs : List ℕ) (w : World) → Quiet may w (close_cursors cs w).1
  unfolding close_cursors
  close_cursors-Quiet caches closes [] w = Quiet-refl w
  close_cursors-Quiet caches closes (c ∷ cs) w =
      Quiet-trans
        (close_cursor_binding-Quiet caches closes c false false w
          (λ impossible. absurd (ground arith)))
        (close_cursors-Quiet caches closes cs _)

  pub close_native_cursors-Quiet :
      ((handle : ℕ) → may (cursor_close handle) ≡ true)
      → (hs : List ℕ) (w : World) → Quiet may w (close_native_cursors hs w)
  unfolding close_native_cursors
  close_native_cursors-Quiet closes [] w = Quiet-refl w
  close_native_cursors-Quiet closes (h ∷ hs) w =
      Quiet-trans (call-Quiet _ w (closes h)) (close_native_cursors-Quiet closes hs _)
