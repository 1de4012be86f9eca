-- ===== src/Layout.antt =====
-- `jio report layout`, of src/report-layout.c: the marks that it writes for each object. The
-- file is the list of what was printed on it.
pub mod Marks
pub mod Report
pub mod Text
use jio.Base.{
  length, ℕ, ◌+◌, ◌-◌, ◌*◌, ◌/◌, ◌%◌, ◌^◌, Bool, List, [], ◌∷◌, ◌++◌, Option, none, some, ltb, ◌==◌,
  if◌then◌else◌, get_elem?, add64, sub64, align64,
}
use jio.Io.{Step, Call, Reply, done, fail, fault, call, allocated, ◌>>=◌}
use jio.Lru.{Journal}
use jio.Format.{ObjectHeader, Header}
use jio.Format.Endian.{ByteOrder}
use jio.Objects.{Iter, journal_get_header, journal_iter_objects}

-- `type_map`, by `ObjectType`.
abbrev pub type_map : List ℕ
type_map = b'?' ∷ b'd' ∷ b'f' ∷ b'e' ∷ b'D' ∷ b'F' ∷ b'A' ∷ b't' ∷ []

abbrev pub page_size : ℕ
page_size = 4096

-- `x & ~(PAGE_SIZE-1)`.
abbrev pub page_floor : ℕ → ℕ
page_floor x = x / 4096 * 4096

-- `boundary_marker` and `alignment_marker`: nothing, the sign alone, or the sign with a number.
pub data Marker : Type 0 where
  empty : Marker
  sign : Marker
  number : ℕ → Marker

-- What one `fprintf` writes: "| " in front, the type's letter, the markers and the size.
pub record Printed : Type 0 where
  pub at_page : Bool
  pub letter : ℕ
  pub boundary : Marker
  pub size : ℕ
  pub alignment : Marker

unfoldable pub boundary_marker : ℕ → ℕ → Marker
boundary_marker off size =
    let this_page = page_floor off in
    let next_page = page_floor (add64 (add64 off size) 4095) in
    let page_delta = sub64 next_page this_page in
    if ltb 8192 page_delta
    then Marker.number (page_delta / 4096 - 1)
    else (if ltb 4096 page_delta then Marker.sign else Marker.empty)

unfoldable pub alignment_marker : ℕ → Marker
alignment_marker size =
    let aligned_delta = sub64 (align64 size) size in
    if ltb 1 aligned_delta
    then Marker.number aligned_delta
    else (if aligned_delta == 0 then Marker.empty else Marker.sign)

unfoldable pub per_data_object : Iter → List Printed → Step (List Printed)
per_data_object it out =
    if it.offset == 0 then done out else elim (get_elem? type_map it.object.type) [
      | none ↦ fault
      | some c ↦ done (
          out
          ++ record {
            at_page = page_floor it.offset == it.offset;
            letter = c;
            boundary = boundary_marker it.offset it.object.size;
            size = it.object.size;
            alignment = alignment_marker it.object.size;
          }
            ∷ [])
    ]

-- ".layout".
abbrev pub suffix : List ℕ
suffix = b'.' ∷ b'l' ∷ b'a' ∷ b'y' ∷ b'o' ∷ b'u' ∷ b't' ∷ []

-- `per_journal` for a journal of that name; the legend that it writes first is left out.
unfoldable pub per_journal : ByteOrder → ℕ → List ℕ → Iter → Step (List Printed)
per_journal e fuel name it = call (Call.malloc (length name + 8)) λ r. allocated r (
    call (Call.fopen (name ++ suffix)) λ r1. elim r1 [
      | Reply.error err ↦ fail err
      | Reply.ok _ _ ↦ (do
        (header, j) ← journal_get_header e it.journal
        journal_iter_objects e per_data_object fuel header (record it { journal = j }) [])
    ])
