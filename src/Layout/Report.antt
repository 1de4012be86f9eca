-- ===== src/Layout/Report.antt =====
-- The layout of a whole journal, as `per_journal` writes it.
use mathlib.Core.Path.{subst}
use jio.Base.{
  ℕ, ◌+◌, ◌^◌, ◌<◌, ◌≤◌, ◌≡◌, ◌≢◌, refl, sym, ap, ◌∙◌, List, [], ◌∷◌, ◌++◌, arith, ◌==◌, length,
  if◌then◌else◌, ne→==, add64, align64,
}
use jio.Io.{Step, Call, Reply, fail, ◌>>=◌}
use jio.Io.Wp.{Wp, Wp-bind, Wp-mono, allocated-Wp}
use jio.Cache.World.{World}
use jio.Cache.Window.{IsCache}
use jio.Format.{ObjectHeader, Header}
use jio.Format.Endian.{ByteOrder, AreBytes}
use jio.Objects.{Iter, journal_get_header, journal_iter_objects}
use jio.Objects.Loads.{header_at, journal_get_header-le}
use jio.Objects.Walk.{Objects, All, visit, journal_iter_objects-visit}
use jio.Layout.{Printed, suffix, per_data_object, per_journal}
use jio.Layout.Marks.{IsMarked, entry, entry-IsMarked, per_data_object-entry}

-- An object of a known type.
abbrev pub HasLetter : ObjectHeader → Type 0
HasLetter h = h.type < 8

-- No object reaches the last page below 2 ^ 64.
abbrev pub AreLow : ℕ → List ObjectHeader → Type 0
AreLow o [] = Unit
AreLow o (h ∷ hs) = (o + h.size + 4095 < 2 ^ 64) × AreLow (add64 o (align64 h.size)) hs

-- One entry for each object from `o`, in order, by its place, type and size.
abbrev pub AreMarked : ℕ → List ObjectHeader → List Printed → Type 0
AreMarked o [] [] = Unit
AreMarked o (h ∷ hs) (p ∷ ps) =
    IsMarked o h.type h.size p × AreMarked (add64 o (align64 h.size)) hs ps
AreMarked o _ _ = ⊥

-- What `per_data_object` does to the lines that are already written.
abbrev mark : ℕ → ObjectHeader → List Printed → List Printed
mark o h out = if o == 0 then out else out ++ entry o h ∷ []

append_nil : (out : List Printed) → out ≡ out ++ []
append_nil [] = refl
append_nil (p ∷ out) = ap (λ (ps : List Printed). p ∷ ps) (append_nil out)

append_snoc :
    (out : List Printed) (p : Printed) (ps : List Printed) → (out ++ p ∷ []) ++ ps ≡ out ++ p ∷ ps
append_snoc [] p ps = refl
append_snoc (q ∷ out) p ps = ap (λ (qs : List Printed). q ∷ qs) (append_snoc out p ps)

visit-AreMarked :
    (file : List ℕ) (tail o : ℕ) (hs : List ObjectHeader) (before : ObjectHeader)
    (out : List Printed)
    → Objects file tail o hs
    → All HasLetter hs
    → AreLow o hs
    → (ps : List Printed) × (visit mark o hs before out ≡ out ++ ps) × AreMarked o hs ps
visit-AreMarked file tail o [] before out objs all low = ([], append_nil out, tt)
visit-AreMarked file tail o (h ∷ hs) before out (nz, le, at, pos, inside, rest) (known, all)
      (small, low) =
    let next = add64 o (align64 h.size) in
    let (ps, same, marked) = visit-AreMarked file tail next hs h (mark o h out) rest all low in
    let here : mark o h out ≡ out ++ entry o h ∷ [] = rw (ne→== o 0 nz) refl in
    (
      entry o h ∷ ps,
      same ∙ ap (λ (xs : List Printed). xs ++ ps) here ∙ append_snoc out (entry o h) ps,
      (entry-IsMarked o h (some_size h.size pos) small known, marked),
    )
  where
    some_size : (n : ℕ) → n ≢ 0 → 0 < n
    some_size n p = ground arith

module _ (file : List ℕ) (w : World file) (small : length file < 2 ^ 64) (bytes : AreBytes file)
    (e : ByteOrder)
    (no_file : (name : List ℕ) (err : ℕ) → w.Ok (Call.fopen name) (Reply.error err) → w.E err) where
  abbrev walk : ℕ → Header → Iter → Step (List Printed)
  walk fuel h it = journal_iter_objects e per_data_object fuel h it []

  walk-AreMarked :
      (header : Header) (fuel : ℕ) (hs : List ObjectHeader) (it : Iter)
      → length hs < fuel
      → Objects file header.tail_object_offset header.header_size hs
      → All HasLetter hs
      → HasLetter it.object
      → AreLow header.header_size hs
      → IsCache file it.journal
      → Wp w.Ok w.E (AreMarked header.header_size hs) (walk fuel header it)
  walk-AreMarked header fuel hs it lt objs all first low c =
      let (ps, same, marked) =
        visit-AreMarked file header.tail_object_offset header.header_size hs it.object [] objs all
          low in
      Wp-mono w.Ok w.E _ (AreMarked header.header_size hs) (walk fuel header it)
        (journal_iter_objects-visit file w small bytes e header per_data_object mark HasLetter
          (λ it' out known. per_data_object-entry it' out known) fuel hs it [] lt objs all first c)
        λ out is. rw (is ∙ same) marked

  opened_lem :
      (fuel : ℕ) (hs : List ObjectHeader) (it : Iter)
      → 256 ≤ length file
      → length hs < fuel
      → Objects file (header_at file).tail_object_offset (header_at file).header_size hs
      → All HasLetter hs
      → HasLetter it.object
      → AreLow (header_at file).header_size hs
      → IsCache file it.journal
      → Wp w.Ok w.E
          (AreMarked (header_at file).header_size hs)
          (journal_get_header e it.journal >>= λ (h, j). walk fuel h (record it { journal = j }))
  opened_lem fuel hs it big lt objs all first low c =
      let goal = AreMarked (header_at file).header_size hs in
      Wp-bind w.Ok w.E (λ (h, k). (h ≡ header_at file) × IsCache file k) goal
        (journal_get_header e it.journal) (λ (h, j). walk fuel h (record it { journal = j }))
        (journal_get_header-le file w small bytes e it.journal big c)
        λ (h, k) (at, c').
          subst (λ x. Wp w.Ok w.E goal (walk fuel x (record it { journal = k }))) (sym at)
            (walk-AreMarked (header_at file) fuel hs (record it { journal = k }) lt objs all first
              low c')

  -- Behind `fopen`.
  on_file :
      (P : List Printed → Type 0) (name : List ℕ) (m : Step (List Printed)) (r : Reply)
      → w.Ok (Call.fopen name) r
      → Wp w.Ok w.E P m
      → Wp w.Ok w.E P (elim r [ Reply.error err ↦ fail err | Reply.ok n bs ↦ m ])
  on_file P name m (Reply.error err) ok h = no_file name err ok
  on_file P name m (Reply.ok n bs) ok h = h

  -- The layout of a journal of at least 256 bytes, of objects of known types, none of which
  -- reaches the last page below 2 ^ 64, with more fuel than there are objects: `per_journal` never
  -- faults, and ends with an error of the world, or with one entry for each object in the order of
  -- the file, each with the letter of the object's type, its size, page crossings and padding.
  pub per_journal-AreMarked :
      (fuel : ℕ) (name : List ℕ) (hs : List ObjectHeader) (it : Iter)
      → 256 ≤ length file
      → length hs < fuel
      → Objects file (header_at file).tail_object_offset (header_at file).header_size hs
      → All HasLetter hs
      → HasLetter it.object
      → AreLow (header_at file).header_size hs
      → IsCache file it.journal
      → Wp w.Ok w.E (AreMarked (header_at file).header_size hs) (per_journal e fuel name it)
  unfolding per_journal
  per_journal-AreMarked fuel name hs it big lt objs all first low c = λ r ok.
      allocated-Wp w.Ok w.E (AreMarked (header_at file).header_size hs) r _
        (λ err q.
          w.no_memory (length name + 8) err (subst (w.Ok (Call.malloc (length name + 8))) q ok))
        λ r1 ok1.
          on_file (AreMarked (header_at file).header_size hs) (name ++ suffix) _ r1 ok1
            (opened_lem fuel hs it big lt objs all first low c)
