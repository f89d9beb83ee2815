-- ===== src/Cursor/Keys.antt =====
-- The keys that a cursor is given and the keys that it returns (cursor.ts).
use lmdb_deno.Prelude.{
  ℕ, ◌≡◌, ◌∙◌, sym, ap, inl, inr, pos, Option, none, some, List, ok, arith, if◌then◌else◌,
}
use lmdb_deno.Bytes.{Bytes}
use lmdb_deno.Encoding.Text.{encode_string, decode_string}
use lmdb_deno.Encoding.Text.RoundTrip.{decode_string-encode_string}
use lmdb_deno.Cursor.Serving.{refused, nothing, entry, navigate-Serves}
use lmdb_deno.Encoding.Values.{
  Number, integer, Key, text, number, bytes, IsKey, key, KeyEncoding, KeyKind, string_kind,
  uint32_kind, buffer_kind,
}
use lmdb_deno.Encoding.Keys.{encode_key, encode_uint32_key, decode_uint32_key}
use lmdb_deno.Encoding.Keys.RoundTrip.{encode_uint32_key_total}
use lmdb_deno.Batch.Prepare.Normalize.{key_kind, infer_key_kind}
use lmdb_deno.Data.{CursorOperation, DataApi}
use lmdb_deno.Data.Keys.{key_kind_from_options, agreed_kind, encode_in}
use lmdb_deno.State.World.{World}
use lmdb_deno.Cursor.{Cursor, format_key, encode_cursor_key, navigate}

-- The kind of the keys of a cursor.
abbrev pub format_kind : KeyEncoding → KeyKind
format_kind format =
    if format.key_is_uint32
    then uint32_kind
    else if format.key_is_buffer
    then buffer_kind
    else string_kind

format_key-kind :
    (format : KeyEncoding) (b : Bytes) (k : Key)
    → format_key format b ≡ ok k
    → key_kind k ≡ format_kind format
unfolding format_key
format_key-kind format b k e = ground arith

encoded-text :
    (s : List ℕ) (o : Option KeyEncoding) (format : KeyEncoding) (b : Bytes)
    → encode_cursor_key (key (text s)) o format ≡ ok b
    → encode_string s ≡ b
unfolding encode_cursor_key agreed_kind encode_in infer_key_kind key_kind_from_options encode_key
encoded-text s o format b e = ground arith

encoded-number :
    (n : Number) (o : Option KeyEncoding) (format : KeyEncoding) (b : Bytes)
    → encode_cursor_key (key (number n)) o format ≡ ok b
    → encode_uint32_key n ≡ ok b
unfolding encode_cursor_key agreed_kind encode_in infer_key_kind key_kind_from_options encode_key
encoded-number n o format b e = ground arith

encoded-bytes :
    (bs : Bytes) (o : Option KeyEncoding) (format : KeyEncoding) (b : Bytes)
    → encode_cursor_key (key (bytes bs)) o format ≡ ok b
    → bs ≡ b
unfolding encode_cursor_key agreed_kind encode_in infer_key_kind key_kind_from_options encode_key
encoded-bytes bs o format b e = ground arith

format_key-text :
    (format : KeyEncoding) (b : Bytes) (s : List ℕ)
    → string_kind ≡ format_kind format
    → decode_string b ≡ ok s
    → format_key format b ≡ ok (text s)
unfolding format_key
format_key-text format b s e h = ground arith

format_key-number :
    (format : KeyEncoding) (b : Bytes) (n : ℕ)
    → uint32_kind ≡ format_kind format
    → decode_uint32_key b ≡ ok n
    → format_key format b ≡ ok (number (integer (pos n)))
unfolding format_key
format_key-number format b n e h = ground arith

format_key-bytes :
    (format : KeyEncoding) (b : Bytes)
    → buffer_kind ≡ format_kind format
    → format_key format b ≡ ok (bytes b)
unfolding format_key
format_key-bytes format b e = ground arith

-- A key of the kind of the cursor's keys that has an encoding is what the cursor formats the encoding
-- to.
pub encode_cursor_key-format_key :
    (k : Key) (o : Option KeyEncoding) (format : KeyEncoding) (b : Bytes)
    → IsKey k
    → key_kind k ≡ format_kind format
    → encode_cursor_key (key k) o format ≡ ok b
    → format_key format b ≡ ok k
encode_cursor_key-format_key (text s) o format b h kind e =
    format_key-text format b s kind
      (ap decode_string (sym (encoded-text s o format b e)) ∙ decode_string-encode_string s h)
encode_cursor_key-format_key (bytes bs) o format b h kind e =
    format_key-bytes format b kind ∙ ap (λ x. ok (bytes x)) (sym (encoded-bytes bs o format b e))
encode_cursor_key-format_key (number n) o format b h kind e =
    let encoded : encode_uint32_key n ≡ ok b = encoded-number n o format b e in
    elim (encode_uint32_key_total n) [
      | inl (m, v, is_m, small, encodes, decodes) ↦
          let same : v ≡ b = ground arith in
          format_key-number format b m kind (ap decode_uint32_key (sym same) ∙ decodes)
          ∙ ap (λ x. ok (number x)) (sym is_m)
      | inr (unfit, throws) ↦ absurd (ground arith)
    ]

-- A key that a navigation returns is a number if the cursor's keys are `uint32`, bytes if they are
-- binary, and otherwise a string.
pub navigate-kind :
    {S : Type 0} (api : DataApi S) (operation : CursorOperation) (k v : Option Bytes)
    (c c' : Cursor) (w w' : World) (s s' : S) (shown : Key)
    → navigate api operation k v c w s ≡ ((ok (some shown), w', s'), c')
    → key_kind shown ≡ format_kind c.key_format
navigate-kind api operation k v c c' w w' s s' shown e =
    elim (navigate-Serves api (λ b. ok b) none operation k v c w s) [
      | refused x h f ↦ absurd (ground arith)
      | nothing cursor y s₁ c₁ handle a n f stays ↦ absurd (n shown (ap (λ x. x.0.0) (sym f ∙ e)))
      | entry cursor found stored q s₁ c₁ handle a formats f stays ↦
          let same : q ≡ shown = ground arith in
          ap key_kind (sym same) ∙ format_key-kind c.key_format found q formats
    ]
