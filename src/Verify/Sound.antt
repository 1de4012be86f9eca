-- ===== src/Verify/Sound.antt =====
-- A journal is verified exactly when the hash of each data and field object is that of its payload.
use mathlib.Core.Path.{subst}
use jio.Base.{
  ℕ, ◌/◌, ◌%◌, ◌<◌, ◌≤◌, ◌⊎◌, ltb, lt→ltb, le→leb, sym, ◌∙◌, if◌then◌else◌, ◌≡◌, ◌≢◌, inl, inr,
  refl, ap, List, [], ◌∷◌, Option, none, some, arith, length, take, true, leb, ◌==◌, sub64,
  Bool-cases, ==→eq, ==→ne,
}
use jio.Io.{Call, Reply, Step, done, fail, allocated, enomem}
use jio.Io.Wp.{Wp, Wp-bind, Wp-errors, allocated-Wp}
use jio.Format.{ObjectHeader, Header}
use jio.Format.Object.{Body}
use jio.Verify.{
  Verified, Zstd, ZstdResult, ebadmsg, is_zstd, grow, decompressed, decompress, is_compressed, hash,
  payload_hash, verify_payload, verify_hashed_object,
}

-- The payload, its size by the object's, and the stored hash of a data or field object.
abbrev pub payload_of : Body → List ℕ
payload_of (Body.data_body d) = d.payload
payload_of (Body.field_body d) = d.payload
payload_of _ = []

abbrev pub payload_size : ℕ → Body → Option ℕ
payload_size size (Body.data_body d) = some (sub64 size 64)
payload_size size (Body.field_body d) = some (sub64 size 40)
payload_size size _ = none

abbrev pub stored_hash : Body → ℕ
stored_hash (Body.data_body d) = d.hash
stored_hash (Body.field_body d) = d.hash
stored_hash _ = 0

-- The hash that the format asks for: keyed by the id of the file if bit 2 of the incompatible flags
-- is set, else the one of Jenkins.
abbrev pub format_hash : (List ℕ → List ℕ → ℕ) → (List ℕ → ℕ) → Header → List ℕ → ℕ
format_hash siphash24 jenkins_hash64 h bs =
    if (h.incompatible_flags / 4) % 2 == 1 then siphash24 bs h.file_id else jenkins_hash64 bs

-- What zstd makes of a payload, up to the size that its frame tells.
abbrev pub output_of : ℕ → ZstdResult → List ℕ
output_of size (ZstdResult.output bs) = take size bs
output_of size (ZstdResult.failed e) = []

abbrev pub inflate_to : Zstd → List ℕ → Option ℕ → List ℕ
inflate_to z payload none = []
inflate_to z payload (some size) = output_of size (z.decompress_stream payload size)

abbrev pub inflate : Zstd → List ℕ → List ℕ
inflate z payload = inflate_to z payload (z.frame_content_size payload)

-- The bytes that are hashed: of a compressed object, what zstd makes of its payload.
abbrev pub content : Zstd → ℕ → List ℕ → List ℕ
content z flags payload = if is_compressed flags then inflate z payload else payload

-- The payload is a whole zstd frame that tells its size.
pub record Inflates (z : Zstd) (flags : ℕ) (payload : List ℕ) : Type 0 where
  pub some_bytes : 0 < length payload
  pub zstd : is_zstd flags ≡ true
  pub size : ℕ
  pub bs : List ℕ
  pub known : z.frame_content_size payload ≡ some size
  pub result : z.decompress_stream payload size ≡ ZstdResult.output bs
  pub whole : size ≤ length bs

-- `x` is a data or field object whose header is `o`; if it is compressed it is so by zstd.
pub record IsHashed (z : Zstd) (o : ObjectHeader) (x : ObjectHeader × Body) : Type 0 where
  pub header : x.0 ≡ o
  pub inflates : is_compressed o.flags ≡ true → Inflates z o.flags (payload_of x.1)
  pub size : payload_size o.size x.1 ≡ some (length (payload_of x.1))

-- The bytes that are hashed for an object.
abbrev pub content_of : Zstd → ObjectHeader × Body → List ℕ
content_of z (o, b) = content z o.flags (payload_of b)

unwrap : (a b : ℕ) → ◌≡◌ {A = Option ℕ} (some a) (some b) → a ≡ b
unwrap a b e = cc

take-length : (xs : List ℕ) → take (length xs) xs ≡ xs
take-length [] = refl
take-length (x ∷ xs) = ap (λ (r : List ℕ). x ∷ r) (take-length xs)

leb_refl : (n : ℕ) → leb n n ≡ true
leb_refl n = ground arith

module _ (siphash24 : List ℕ → List ℕ → ℕ) (jenkins_hash64 : List ℕ → ℕ) (z : Zstd) (h : Header)
    (Ok : Call → Reply → Type 0) (W : ℕ → Type 0)
    (no_memory : (n e : ℕ) → Ok (Call.malloc n) (Reply.error e) → W enomem)
    (no_context : (e : ℕ) → Ok Call.create_context (Reply.error e) → W enomem) where
  abbrev hash_of : List ℕ → ℕ
  hash_of = format_hash siphash24 jenkins_hash64 h

  hash-format : (bs : List ℕ) → hash siphash24 jenkins_hash64 h bs ≡ hash_of bs
  unfolding hash
  hash-format bs = refl

  pub grow_lem : (usable size : ℕ) → Wp Ok W (λ n. Unit {0}) (grow usable size)
  unfolding grow
  grow_lem usable size = elim (Bool-cases (ltb usable size)) [
    | inl less ↦ rw less (grown size)
    | inr enough ↦ rw enough tt
  ]
    where
      grown :
          (size : ℕ) (r : Reply)
          → Ok (Call.malloc size) r
          → Wp Ok W
              (λ n. Unit {0})
              (elim r as (λ _. Step ℕ) [ Reply.ok n _ ↦ done n | Reply.error e ↦ fail enomem ])
      grown size (Reply.ok n _) ok = tt
      grown size (Reply.error e) ok = no_memory size e ok

  decompressed_lem :
      (flags : ℕ) (payload : List ℕ) (i : Inflates z flags payload)
      → decompressed i.size (z.decompress_stream payload i.size) ≡ done (inflate z payload)
  unfolding decompressed
  decompressed_lem flags payload i =
      ap (decompressed i.size) i.result
      ∙ rw (le→leb i.size (length i.bs) i.whole) refl
      ∙ sym (ap done (ap (inflate_to z payload) i.known ∙ ap (output_of i.size) i.result))

  -- Decompressing a whole frame gives its content, or there is no memory.
  decompress_lem :
      (flags : ℕ) (payload : List ℕ) (usable : ℕ)
      → Inflates z flags payload
      → Wp Ok W (λ (bs, u). bs ≡ inflate z payload) (decompress z flags payload usable)
  unfolding decompress
  decompress_lem flags payload usable i =
      rw (lt→ltb 0 (length payload) i.some_bytes, i.zstd, i.known)
        (Wp-bind Ok W (λ n. Unit {0}) _ (grow usable i.size) _ (grow_lem usable i.size)
          λ usable' u. λ r ok.
            Wp-bind Ok W (λ bs. bs ≡ inflate z payload) _
              (allocated r (decompressed i.size (z.decompress_stream payload i.size))) _
              (allocated-Wp Ok W _ r _ (λ e q. no_context e (subst (Ok Call.create_context) q ok))
                (rw (decompressed_lem flags payload i) refl))
              λ bs same. same ∙ ap (inflate_to z payload) i.known)

  payload_hash_lem :
      (flags : ℕ) (payload : List ℕ) (s : Verified)
      → (is_compressed flags ≡ true → Inflates z flags payload)
      → Wp Ok W
          (λ (n, s'). n ≡ hash_of (content z flags payload))
          (payload_hash siphash24 jenkins_hash64 z h flags payload s)
  unfolding payload_hash
  payload_hash_lem flags payload s inflates = elim (Bool-cases (is_compressed flags)) [
    | inl yes_it_is ↦ rw yes_it_is (
        Wp-bind Ok W (λ (bs, u). bs ≡ inflate z payload) _
          (decompress z flags payload s.decompressed_usable) _
          (decompress_lem flags payload s.decompressed_usable (inflates yes_it_is))
          λ (bs, u) same. hash-format bs ∙ ap hash_of same)
    | inr plain ↦ rw plain (hash-format payload)
  ]

  -- Verifying ends well only if the hashes agree, and fails only for want of memory or if they do
  -- not.
  abbrev pub Fails : List ℕ → ℕ → ℕ → Type 0
  Fails bs stored e = W e ⊎ ((e ≡ ebadmsg) × (hash_of bs ≢ stored))

  verify_payload_lem :
      (flags size : ℕ) (payload : List ℕ) (stored : ℕ) (s : Verified)
      → (is_compressed flags ≡ true → Inflates z flags payload)
      → size ≡ length payload
      → Wp Ok
          (Fails (content z flags payload) stored)
          (λ s'. hash_of (content z flags payload) ≡ stored)
          (verify_payload siphash24 jenkins_hash64 z h flags size payload stored s)
  unfolding verify_payload
  verify_payload_lem flags size payload stored s inflates e =
      let bs = content z flags payload in
      rw (e, leb_refl (length payload), take-length payload)
        (Wp-bind Ok (Fails bs stored) (λ (n, s'). n ≡ hash_of bs) _
          (payload_hash siphash24 jenkins_hash64 z h flags payload s) _
          (Wp-errors Ok W (Fails bs stored) _
            (payload_hash siphash24 jenkins_hash64 z h flags payload s)
            (payload_hash_lem flags payload s inflates) (λ err w. inl w))
          λ (n, s') same. rw same (elim (Bool-cases (hash_of bs == stored)) [
            | inl agree ↦ rw agree (==→eq (hash_of bs) stored agree)
            | inr other ↦ rw other (inr (refl, ==→ne (hash_of bs) stored other))
          ]))

  abbrev Disagrees : ObjectHeader × Body → ℕ → Type 0
  Disagrees x = Fails (content_of z x) (stored_hash x.1)

  abbrev Agrees : ObjectHeader × Body → Verified → Type 0
  Agrees x s = hash_of (content_of z x) ≡ stored_hash x.1

  pub verify_hashed_object_lem :
      (o : ObjectHeader) (x : ObjectHeader × Body) (s : Verified)
      → IsHashed z o x
      → Wp Ok (Disagrees x) (Agrees x) (verify_hashed_object siphash24 jenkins_hash64 z h x s)
  unfolding verify_hashed_object
  verify_hashed_object_lem o (o', Body.data_body d) s i =
      verify_payload_lem o'.flags (sub64 o'.size 64) d.payload d.hash _ (rw i.header i.inflates)
        (rw i.header (unwrap _ _ i.size))
  verify_hashed_object_lem o (o', Body.field_body d) s i =
      verify_payload_lem o'.flags (sub64 o'.size 40) d.payload d.hash _ (rw i.header i.inflates)
        (rw i.header (unwrap _ _ i.size))
  verify_hashed_object_lem o (o', Body.entry_body d) s i = cc i.size
  verify_hashed_object_lem o (o', Body.hash_table_body d) s i = cc i.size
  verify_hashed_object_lem o (o', Body.entry_array_body n d) s i = cc i.size
  verify_hashed_object_lem o (o', Body.tag_body a b t) s i = cc i.size
