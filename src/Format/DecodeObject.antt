-- ===== src/Format/DecodeObject.antt =====
-- A whole object that was read is the file's on every host.
use jio.Base.{
  ℕ, zero, suc, ◌+◌, ◌*◌, ◌≤◌, ◌≡◌, refl, ap, ◌∙◌, List, ◌∷◌, Option, none, some, arith, length,
  get_elem?, leb, leb→le, Bool-cases, inl, inr, take, drop,
}
use jio.Format.{ObjectHeader, field_at, object_header_of, got_object_header}
use jio.Format.Endian.{ByteOrder, AreBytes, le64toh}
use jio.Format.Decode.{field_le, field_lem, object_header_le, object_header_lem}
use jio.Format.Object.{
  Kind, kinds, Body, words, pairs, inside, n_items, body_with, with_kind, swap_words, swap_pairs,
  swap_body, swapped, got_object,
}

module _ (e : ByteOrder) (bs : List ℕ) (b : AreBytes bs) where
  abbrev host : ℕ → ℕ
  host o = field_at e o 8 bs

  abbrev file : ℕ → ℕ
  file o = field_le bs 8 o

  word : (o : ℕ) → o + 8 ≤ length bs → le64toh e (host o) ≡ file o
  word o h = field_lem e bs 8 o h b

  swap_words_lem :
      (n o : ℕ) → o + 8 * n ≤ length bs → swap_words e (words host n o) ≡ words file n o
  swap_words_lem zero o h = refl
  swap_words_lem (suc n) o h =
      λ i. word o (omega arith) i ∷ swap_words_lem n (o + 8) (omega arith) i

  swap_pairs_lem :
      (n o : ℕ) → o + 16 * n ≤ length bs → swap_pairs e (pairs host n o) ≡ pairs file n o
  swap_pairs_lem zero o h = refl
  swap_pairs_lem (suc n) o h = λ i.
      (word o (omega arith) i, word (o + 8) (omega arith) i)
      ∷ swap_pairs_lem n (o + 16) (omega arith) i

  inside_lem :
      (o w n : ℕ) (x y : Body)
      → (o + w * n ≤ length bs → swap_body e x ≡ y)
      → swapped e (inside o w n bs x) ≡ inside o w n bs y
  inside_lem o w n x y h = elim (Bool-cases (leb (o + w * n) (length bs))) [
    | inl t ↦ rw t (ap some (h (leb→le (o + w * n) (length bs) t)))
    | inr f ↦ rw f refl
  ]

  body_lem : (t : Kind) (size : ℕ) → swapped e (body_with host t size bs) ≡ body_with file t size bs
  unfolding body_with swap_body
  body_lem Kind.unused size = refl
  body_lem Kind.data_kind size = inside_lem 64 0 0 _ _ λ h i. Body.data_body (record {
    hash = word 16 (omega arith) i;
    next_hash_offset = word 24 (omega arith) i;
    next_field_offset = word 32 (omega arith) i;
    entry_offset = word 40 (omega arith) i;
    entry_array_offset = word 48 (omega arith) i;
    n_entries = word 56 (omega arith) i;
    payload = drop 64 bs;
  })
  body_lem Kind.field size = inside_lem 40 0 0 _ _ λ h i. Body.field_body (record {
    hash = word 16 (omega arith) i;
    next_hash_offset = word 24 (omega arith) i;
    head_data_offset = word 32 (omega arith) i;
    payload = drop 40 bs;
  })
  body_lem Kind.entry size = inside_lem 64 16 (n_items 64 16 size) _ _ λ h i.
      Body.entry_body (record {
        seqnum = word 16 (omega arith) i;
        realtime = word 24 (omega arith) i;
        monotonic = word 32 (omega arith) i;
        boot_id = take 16 (drop 40 bs);
        xor_hash = word 56 (omega arith) i;
        items = swap_pairs_lem (n_items 64 16 size) 64 h i;
      })
  body_lem Kind.data_hash_table size =
      inside_lem 16 16 (n_items 16 16 size) _ _
        λ h i. Body.hash_table_body (swap_pairs_lem (n_items 16 16 size) 16 h i)
  body_lem Kind.field_hash_table size =
      inside_lem 16 16 (n_items 16 16 size) _ _
        λ h i. Body.hash_table_body (swap_pairs_lem (n_items 16 16 size) 16 h i)
  body_lem Kind.entry_array size = inside_lem 24 8 (n_items 24 8 size) _ _ λ h i.
      Body.entry_array_body (word 16 (omega arith) i) (swap_words_lem (n_items 24 8 size) 24 h i)
  body_lem Kind.tag size = inside_lem 64 0 0 _ _ λ h i.
      Body.tag_body (word 16 (omega arith) i) (word 24 (omega arith) i) (take 32 (drop 32 bs))

-- The object that bytes stand for, by the format's definition.
abbrev pub object_le : List ℕ → Option (ObjectHeader × Body)
object_le bs =
    let h = object_header_le bs in
    elim (with_kind (λ t. body_with (λ o. field_le bs 8 o) t h.size bs) (get_elem? kinds h.type)) [
      | none ↦ none
      | some b ↦ some (h, b)
    ]

with_kind_lem :
    (e : ByteOrder) (f g : Kind → Option Body)
    → ((t : Kind) → swapped e (f t) ≡ g t)
    → (k : Option Kind) → swapped e (with_kind f k) ≡ with_kind g k
with_kind_lem e f g h none = refl
with_kind_lem e f g h (some t) = h t

abbrev pair_up : ObjectHeader → Option Body → Option (ObjectHeader × Body)
pair_up h o = elim o [ none ↦ none | some b ↦ some (h, b) ]

-- On a host of either byte order, `got_object` makes of at least 16 bytes what the format says in
-- little-endian order: for each type of object every field and every item, and nothing for an
-- unknown type or where the items do not lie in the bytes.
pub got_object-le :
    (e : ByteOrder) (bs : List ℕ) → 16 ≤ length bs → AreBytes bs → got_object e bs ≡ object_le bs
unfolding got_object
got_object-le e bs l b =
    let header = object_header_lem e bs l b in
    let h = got_object_header e (object_header_of e bs) in
    ap (pair_up h) (with_kind_lem e _ _ (λ t. body_lem e bs b t h.size) (get_elem? kinds h.type))
    ∙ ap
        (λ (k : ObjectHeader).
          pair_up k (
            with_kind (λ t. body_with (λ o. field_le bs 8 o) t k.size bs) (get_elem? kinds k.type)))
        header
