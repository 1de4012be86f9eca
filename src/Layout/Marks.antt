-- ===== src/Layout/Marks.antt =====
-- What the marks of the layout say about an object's place in the file.
use jio.Base.{
  ℕ, ◌+◌, ◌-◌, ◌/◌, ◌%◌, ◌^◌, ◌<◌, ◌≡◌, refl, sym, ap, ◌∙◌, List, [], ◌∷◌, ◌++◌, none, some, arith,
  ◌==◌, get_elem?, get_elem?-inside, false, Bool-cases, inl, inr, if◌then◌else◌,
}
use jio.Io.{done}
use jio.Format.{ObjectHeader}
use jio.Objects.{Iter}
use jio.Format.ObjectType
use jio.Layout.{
  Marker, Printed, type_map, page_floor, boundary_marker, alignment_marker, per_data_object,
}

-- The number that a marker stands for.
abbrev pub meaning : Marker → ℕ
meaning Marker.empty = 0
meaning Marker.sign = 1
meaning (Marker.number n) = n

-- The page boundaries strictly between the first and the last byte of an object.
abbrev pub crossings : ℕ → ℕ → ℕ
crossings off size = (off + size - 1) / 4096 - off / 4096

boundary-crossings :
    (off size : ℕ)
    → 0 < size
    → off + size + 4095 < 2 ^ 64
    → meaning (boundary_marker off size) ≡ crossings off size
unfolding boundary_marker
boundary-crossings off size pos small = ground arith

alignment-padding :
    (size : ℕ)
    → size + 7 < 2 ^ 64
    → ((size + meaning (alignment_marker size)) % 8 ≡ 0) × (meaning (alignment_marker size) < 8)
unfolding alignment_marker
alignment-padding size small = ground arith

page_floor_test : (off : ℕ) → (page_floor off == off) ≡ (off % 4096 == 0)
page_floor_test off = ground arith

nonzero : (n : ℕ) → 0 < n → (n == 0) ≡ false
nonzero n h = ground arith

-- The letter that the legend gives to a type.
pub record IsLetter (type c : ℕ) : Type 0 where
  pub unused : type ≡ ObjectType.unused → c ≡ b'?'
  pub a_data : type ≡ ObjectType.object_data → c ≡ b'd'
  pub a_field : type ≡ ObjectType.field → c ≡ b'f'
  pub an_entry : type ≡ ObjectType.entry → c ≡ b'e'
  pub data_table : type ≡ ObjectType.data_hash_table → c ≡ b'D'
  pub field_table : type ≡ ObjectType.field_hash_table → c ≡ b'F'
  pub array : type ≡ ObjectType.entry_array → c ≡ b'A'
  pub a_tag : type ≡ ObjectType.tag → c ≡ b't'

-- What is printed for an object at `off`, by its place, its type and its size.
pub record IsMarked (off type size : ℕ) (p : Printed) : Type 0 where
  pub letter : IsLetter type p.letter
  pub size_printed : p.size ≡ size
  pub boundary : meaning p.boundary ≡ crossings off size
  pub padded : (size + meaning p.alignment) % 8 ≡ 0
  pub padding : meaning p.alignment < 8
  pub at_page : p.at_page ≡ (off % 4096 == 0)

-- The entry for an object of that header at `off`.
abbrev pub letter_of : ℕ → ℕ
letter_of type = elim (get_elem? type_map type) [ none ↦ 0 | some c ↦ c ]

abbrev pub entry : ℕ → ObjectHeader → Printed
entry off h = record {
  at_page = page_floor off == off;
  letter = letter_of h.type;
  boundary = boundary_marker off h.size;
  size = h.size;
  alignment = alignment_marker h.size;
}

letter_of-IsLetter : (type : ℕ) → IsLetter type (letter_of type)
letter_of-IsLetter type = record {
  unused = λ e. ap letter_of e;
  a_data = λ e. ap letter_of e;
  a_field = λ e. ap letter_of e;
  an_entry = λ e. ap letter_of e;
  data_table = λ e. ap letter_of e;
  field_table = λ e. ap letter_of e;
  array = λ e. ap letter_of e;
  a_tag = λ e. ap letter_of e;
}

known_letter : (type : ℕ) → type < 8 → get_elem? type_map type ≡ some (letter_of type)
known_letter type known =
    let (c, e) = get_elem?-inside type type_map (omega arith) in e ∙ ap some (sym (letter c e))
  where
    letter : (c : ℕ) → get_elem? type_map type ≡ some c → letter_of type ≡ c
    letter c e = rw e refl

pub entry-IsMarked :
    (off : ℕ) (h : ObjectHeader)
    → 0 < h.size
    → off + h.size + 4095 < 2 ^ 64
    → h.type < 8
    → IsMarked off h.type h.size (entry off h)
entry-IsMarked off h sized small known =
    let (padded, padding) = alignment-padding h.size (omega arith) in
    record {
      letter = letter_of-IsLetter h.type;
      size_printed = refl;
      boundary = boundary-crossings off h.size sized small;
      padded = padded;
      padding = padding;
      at_page = page_floor_test off;
    }

pub per_data_object-entry :
    (it : Iter) (out : List Printed)
    → it.object.type < 8
    → per_data_object it out
      ≡ done (if it.offset == 0 then out else out ++ entry it.offset it.object ∷ [])
unfolding per_data_object
per_data_object-entry it out known = elim (Bool-cases (it.offset == 0)) [
  | inl end ↦ rw end refl
  | inr other ↦ rw (other, known_letter it.object.type known) refl
]

-- For an object of a known type and a size that is not zero, which does not reach the last page
-- below 2 ^ 64, `per_data_object` prints one entry: the letter of the type and the size, the
-- number of page boundaries that the object crosses, the padding up to the next multiple of 8, and
-- the mark for the start of a page exactly where the object starts one.
pub per_data_object-IsMarked :
    (it : Iter) (out : List Printed)
    → 0 < it.offset
    → 0 < it.object.size
    → it.offset + it.object.size + 4095 < 2 ^ 64
    → it.object.type < 8
    → (p : Printed) × (per_data_object it out ≡ done (out ++ p ∷ []))
      × IsMarked it.offset it.object.type it.object.size p
per_data_object-IsMarked it out pos sized small known = (
  entry it.offset it.object,
  per_data_object-entry it out known ∙ (λ i.
      done (if nonzero it.offset pos i then out else out ++ entry it.offset it.object ∷ [])),
  entry-IsMarked it.offset it.object sized small known,
)
