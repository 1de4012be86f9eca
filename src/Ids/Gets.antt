-- ===== src/Ids/Gets.antt =====
-- What the ids are, by the content of the files.
use jio.Base.{
  ℕ, zero, suc, ◌-◌, ◌≤◌, ◌<◌, ◌≡◌, refl, ap, ◌∙◌, List, [], ◌∷◌, ◌++◌, arith, length,
  length-append, set, take, drop,
}
use jio.Io.{Call, Reply, done, call}
use jio.Io.Wp.{Wp, Wp-bind, Wp-mono, allocated-Wp}
use jio.Ids.{
  read_done, open_done, readfile, cstr, terminate, strdup, machid_get, bootid_get, id_buf_size,
}
use jio.Ids.Dehyphen.{without_hyphens, IsTerminated, dehyphen-without_hyphens}

-- A read from the start of a file of that content returns all of it.
pub record Reads (content : List ℕ) (Ok : Call → Reply → Type 0) : Type 0 where
  pub all :
      (fd n : ℕ) (bs : List ℕ)
      → Ok (Call.pread fd 0 id_buf_size) (Reply.ok n bs)
      → (n ≡ length content) × (bs ≡ content)

cstr-set_lem : (n : ℕ) (buf : List ℕ) → n < length buf → cstr (set buf n 0) ≡ cstr (take n buf)
cstr-set_lem n [] h = absurd (omega arith)
cstr-set_lem zero (x ∷ xs) h = refl
cstr-set_lem (suc n) (x ∷ xs) h = ground (arith, cstr-set_lem n xs)

set-IsTerminated : (n : ℕ) (buf : List ℕ) → n < length buf → IsTerminated (set buf n 0)
set-IsTerminated n [] h = absurd (omega arith)
set-IsTerminated zero (x ∷ xs) h = refl
set-IsTerminated (suc n) (x ∷ xs) h = ground (arith, set-IsTerminated n xs)

take-front : (n : ℕ) (xs ys : List ℕ) → n ≤ length xs → take n (xs ++ ys) ≡ take n xs
take-front zero xs ys h = refl
take-front (suc n) [] ys h = absurd (omega arith)
take-front (suc n) (x ∷ xs) ys h = ap (λ (r : List ℕ). x ∷ r) (take-front n xs ys (omega arith))

module _ (content : List ℕ) (Ok : Call → Reply → Type 0) (reads : Reads content Ok) where
  abbrev pub Any : ℕ → Type 0
  Any e = Unit {0}

  -- The buffer behind the read of the whole file.
  abbrev WasRead : List ℕ → ℕ × List ℕ → Type 0
  WasRead buf (n, bs) = (n ≡ length content) × (bs ≡ content ++ drop n buf)

  read_done_lem :
      (fd : ℕ) (buf : List ℕ) (r : Reply)
      → Ok (Call.pread fd 0 id_buf_size) r
      → Wp Ok Any (WasRead buf) (read_done fd buf r)
  unfolding read_done
  read_done_lem fd buf (Reply.error e) ok = tt
  read_done_lem fd buf (Reply.ok n bs) ok =
      let (p, q) = reads.all fd n bs ok in λ r ok'. (p, ap (λ (k : List ℕ). k ++ drop n buf) q)

  open_done_lem : (buf : List ℕ) (r : Reply) → Wp Ok Any (WasRead buf) (open_done id_buf_size buf r)
  unfolding open_done
  open_done_lem buf (Reply.error e) = tt
  open_done_lem buf (Reply.ok fd _) = λ r ok.
      allocated-Wp Ok Any (WasRead buf) r (call (Call.pread fd 0 id_buf_size) (read_done fd buf))
        (λ e q. tt) (λ r' ok'. read_done_lem fd buf r' ok')

  readfile_lem : (path buf : List ℕ) → Wp Ok Any (WasRead buf) (readfile path id_buf_size buf)
  unfolding readfile
  readfile_lem path buf = λ r ok.
      allocated-Wp Ok Any (WasRead buf) r (call (Call.openat 0 path 0) (open_done id_buf_size buf))
        (λ e q. tt) (λ r' ok'. open_done_lem buf r')

  strdup_lem : (buf : List ℕ) → Wp Ok Any (λ out. out ≡ cstr buf) (strdup buf)
  unfolding strdup
  strdup_lem buf =
      λ r ok. allocated-Wp Ok Any (λ out. out ≡ cstr buf) r (done (cstr buf)) (λ e q. tt) refl

  terminate_lem : (n : ℕ) (bs : List ℕ) → 0 < n → terminate n bs ≡ done (set bs (n - 1) 0)
  unfolding terminate
  terminate_lem zero bs h = absurd (omega arith)
  terminate_lem (suc n) bs h = ap (λ (k : ℕ). done (set bs k 0)) (less_one n)
    where
      less_one : (n : ℕ) → n ≡ suc n - 1
      less_one n = omega arith

  -- For a file that is not empty and is read whole, `bootid_get` never writes outside its buffer:
  -- it ends with an error, or returns the content of the file, less its last byte and up to a
  -- terminator, without the hyphens.
  pub bootid_get-without_hyphens :
      (path buf : List ℕ)
      → 0 < length content
      → Wp Ok Any
          (λ out. out ≡ without_hyphens (cstr (take (length content - 1) content)))
          (bootid_get path buf)
  unfolding bootid_get
  bootid_get-without_hyphens path buf pos =
      Wp-bind Ok Any (WasRead buf) _ (readfile path id_buf_size buf) _ (readfile_lem path buf)
        λ (n, bs) (p, q).
          let m = length content - 1 in
          let rest = drop n buf in
          let inside : m < length (content ++ rest) = omega (arith, length-append content rest) in
          let (out, e, s) =
            dehyphen-without_hyphens (set (content ++ rest) m 0)
              (set-IsTerminated m (content ++ rest) inside) in
          let ends : terminate n bs ≡ done (set (content ++ rest) m 0) =
            (λ i. terminate (p i) (q i)) ∙ terminate_lem (length content) (content ++ rest) pos in
          let left : cstr out ≡ without_hyphens (cstr (take m content)) =
            s
            ∙ ap without_hyphens (
                cstr-set_lem m (content ++ rest) inside
                ∙ ap cstr (take-front m content rest (omega arith))) in
          rw (ends, e) (Wp-mono Ok Any _ _ (strdup out) (strdup_lem out) λ x f. f ∙ left)

  -- For a file that is not empty and is read whole, `machid_get` never writes outside its buffer:
  -- it ends with an error, or returns the content of the file, less its last byte and up to a
  -- terminator.
  pub machid_get-cstr :
      (path buf : List ℕ)
      → 0 < length content
      → Wp Ok Any (λ out. out ≡ cstr (take (length content - 1) content)) (machid_get path buf)
  unfolding machid_get
  machid_get-cstr path buf pos =
      Wp-bind Ok Any (WasRead buf) _ (readfile path id_buf_size buf) _ (readfile_lem path buf)
        λ (n, bs) (p, q).
          let m = length content - 1 in
          let rest = drop n buf in
          let inside : m < length (content ++ rest) = omega (arith, length-append content rest) in
          let ends : terminate n bs ≡ done (set (content ++ rest) m 0) =
            (λ i. terminate (p i) (q i)) ∙ terminate_lem (length content) (content ++ rest) pos in
          let left : cstr (set (content ++ rest) m 0) ≡ cstr (take m content) =
            cstr-set_lem m (content ++ rest) inside
            ∙ ap cstr (take-front m content rest (omega arith)) in
          rw ends (
            Wp-mono Ok Any _ _ (strdup (set (content ++ rest) m 0))
              (strdup_lem (set (content ++ rest) m 0)) λ x f. f ∙ left)
