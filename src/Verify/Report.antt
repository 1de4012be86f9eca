-- ===== src/Verify/Report.antt =====
-- The outcome of `jio verify hashed-objects`, however the tasks of the journals take turns.
use mathlib.Core.Path.{subst}
use jio.Base.{ℕ, ◌<◌, ◌≡◌, sym, ◌⊎◌, inl, inr, refl, List, [], ◌∷◌, length}
use jio.Io.{Step, Call, Reply, enomem}
use jio.Io.Wp.{Wp, Wp-bind, Wp-errors}
use jio.Cache.Window.{IsCache}
use jio.Format.{ObjectHeader, Header}
use jio.Format.Endian.{ByteOrder}
use jio.Lru.{Journal}
use jio.Objects.{Iter, advance, journal_get_header}
use jio.Objects.Loads.{header_at, journal_get_header-le}
use jio.Objects.Walk.{Objects}
use jio.Verify.{Verified, Zstd, Async, ebadmsg, verify_objects, per_journal}
use jio.Verify.Workers.{Dispatches}
use jio.Verify.Sound.{format_hash}
use jio.Verify.Walk.{AreHashed, AllAgree, SomeDisagrees, Failed, verify_objects-AllAgree}
use jio.Tasks.{ended, Pool, OneFailed, AllEnded, Inevitably}
use jio.Tasks.Promised.{Promises-lift, PromiseAll, AreKept, Comes}
use jio.Tasks.Readable.{Answered}
use jio.Tasks.Fate.{promises-Inevitably}
use jio.Drive.Commands.{alone}

-- The tasks share no totals.
abbrev pub unshared : Unit {0} → Unit {0} → Unit {0}
unshared u s = s

pub unshared_commute : (u v s : Unit {0}) → unshared u (unshared v s) ≡ unshared v (unshared u s)
unshared_commute u v s = refl

left : {A B C : Type 0} → (A → B) → A ⊎ C → B ⊎ C
left f (inl a) = inl (f a)
left f (inr c) = inr c

module _ (siphash24 : List ℕ → List ℕ → ℕ) (jenkins_hash64 : List ℕ → ℕ) (z : Zstd)
    (iou_async : Async) (memory : Verified) (E : ℕ → Type 0) where
  -- A journal of objects `hs`, fewer than `fuel`, each data or field object of it whole, and the
  -- iteration in memory that is zero. Contexts are refused only as the world fails, and `iou_async`
  -- dispatches its closure when the work has completed, or fails as the world or the work does.
  pub record Hashed : Type 1 where
    pub base : Answered E
    pub fuel : ℕ
    pub hs : List ObjectHeader
    pub enough : length hs < fuel
    pub objects :
        Objects base.file
          (header_at base.file).tail_object_offset
          (header_at base.file).header_size
          hs
    pub loads : AreHashed z base.file (header_at base.file).header_size hs
    pub fresh : (base.it).offset ≡ 0
    pub no_context :
        (err : ℕ) → (base.world).Ok Call.create_context (Reply.error err) → (base.world).E enomem
    pub dispatches : Dispatches iou_async (base.world).E

  -- Every hash of a smallish object of the journal is that of its payload; some hash is not.
  abbrev pub Agrees : Hashed → Type 0
  Agrees j =
      let file = (j.base).file in
      AllAgree z (format_hash siphash24 jenkins_hash64 (header_at file)) file
        (header_at file).header_size j.hs

  abbrev pub Disagrees : Hashed → Type 0
  Disagrees j =
      let file = (j.base).file in
      SomeDisagrees z (format_hash siphash24 jenkins_hash64 (header_at file)) file
        (header_at file).header_size j.hs

  abbrev pub EachAgrees : List Hashed → Type 0
  EachAgrees [] = Unit
  EachAgrees (j ∷ js) = Agrees j × EachAgrees js

  abbrev pub OneDisagrees : List Hashed → Type 0
  OneDisagrees [] = ⊥
  OneDisagrees (j ∷ js) = Disagrees j ⊎ OneDisagrees js

  -- The tasks that `journals_for_each` starts.
  abbrev pub tasks : ByteOrder → List Hashed → Pool (Unit {0})
  tasks e [] = []
  tasks e (j ∷ js) =
      (
        ((j.base).world).Ok,
        alone (per_journal siphash24 jenkins_hash64 z iou_async e j.fuel (j.base).it memory),
      )
      ∷ tasks e js

  -- An error of a world, or the report of a hash that disagrees.
  abbrev pub Refused : List Hashed → ℕ → Type 0
  Refused js err = E err ⊎ ((err ≡ ebadmsg) × OneDisagrees js)

  own :
      (j : Hashed) (js : List Hashed) (err : ℕ)
      → E err ⊎ ((err ≡ ebadmsg) × Disagrees j)
      → Refused (j ∷ js) err
  own j js err (inl f) = inl f
  own j js err (inr (bad, d)) = inr (bad, inl d)

  others : (j : Hashed) (js : List Hashed) (err : ℕ) → Refused js err → Refused (j ∷ js) err
  others j js err (inl f) = inl f
  others j js err (inr (bad, d)) = inr (bad, inr d)

  start_lem :
      (header : Header) (it : Iter)
      → it.offset ≡ 0
      → advance header it.offset it.object.size ≡ header.header_size
  unfolding advance
  start_lem header it fresh = rw fresh refl

  -- The counters of a journal that is not yet verified.
  abbrev unverified : Verified
  unverified = record memory {
    n_field_objects = 0;
    n_data_objects = 0;
    object_usable = 0;
    decompressed_usable = 0;
  }

  abbrev Err : Hashed → ℕ → Type 0
  Err j err = E err ⊎ ((err ≡ ebadmsg) × Disagrees j)

  abbrev verifying : ByteOrder → Hashed → Header → Journal → Step Verified
  verifying e j h k =
      verify_objects siphash24 jenkins_hash64 z iou_async e j.fuel h
        (record (j.base).it { journal = k }) unverified

  verifying-Agrees :
      (e : ByteOrder) (j : Hashed) (k : Journal)
      → IsCache (j.base).file k
      → Wp ((j.base).world).Ok (Err j) (λ s. Agrees j) (verifying e j (header_at (j.base).file) k)
  verifying-Agrees e j k c =
      let b = j.base in
      let w = b.world in
      let header = header_at b.file in
      Wp-errors w.Ok
        (Failed siphash24 jenkins_hash64 z iou_async e header b.file w b.small b.bytes j.no_context
          j.dispatches header.header_size j.hs)
        (Err j) (λ s. Agrees j) (verifying e j header k)
        (verify_objects-AllAgree siphash24 jenkins_hash64 z iou_async e header b.file w b.small
          b.bytes j.no_context j.dispatches j.fuel header.header_size j.hs
          (record b.it { journal = k }) unverified j.enough (start_lem header b.it j.fresh)
          j.objects j.loads c)
        λ err f. left (b.errors err) f

  per_journal-Agrees :
      (e : ByteOrder) (j : Hashed)
      → Wp
          ((j.base).world).Ok
          (Err j)
          (λ s. Agrees j)
          (per_journal siphash24 jenkins_hash64 z iou_async e j.fuel (j.base).it memory)
  unfolding per_journal
  per_journal-Agrees e j =
      let b = j.base in
      let w = b.world in
      Wp-bind w.Ok (Err j) (λ (h, k). (h ≡ header_at b.file) × IsCache b.file k) (λ s. Agrees j)
        (journal_get_header e (b.it).journal) (λ (h, k). verifying e j h k)
        (Wp-errors w.Ok w.E (Err j) _ (journal_get_header e (b.it).journal)
          (journal_get_header-le b.file w b.small b.bytes e (b.it).journal b.big b.cache)
          (λ err f. inl (b.errors err f)))
        λ (h, k) (at, c).
          subst (λ x. Wp w.Ok (Err j) (λ s. Agrees j) (verifying e j x k)) (sym at)
            (verifying-Agrees e j k c)

  abbrev pub promised : List Hashed → List (List (Unit {0}) → Type 0)
  promised [] = []
  promised (j ∷ js) = (λ us. Agrees j) ∷ promised js

  pub tasks-PromiseAll :
      (e : ByteOrder) (js : List Hashed) (F : ℕ → Type 0)
      → ((err : ℕ) → Refused js err → F err)
      → PromiseAll F (promised js) (tasks e js)
  tasks-PromiseAll e [] F into = tt
  tasks-PromiseAll e (j ∷ js) F into = (
    Promises-lift ((j.base).world).Ok F (λ s. Agrees j)
        (per_journal siphash24 jenkins_hash64 z iou_async e j.fuel (j.base).it memory) (λ s. ended)
        (λ us. Agrees j)
        (Wp-errors ((j.base).world).Ok (Err j) F (λ s. Agrees j)
          (per_journal siphash24 jenkins_hash64 z iou_async e j.fuel (j.base).it memory)
          (per_journal-Agrees e j) λ err f. into err (own j js err f))
        (λ s agrees. agrees),
    (j.base).serial,
    tasks-PromiseAll e js F λ err f. into err (others j js err f),
  )

  AreKept-EachAgrees :
      (js : List Hashed) (uss : List (List (Unit {0}))) → AreKept (promised js) uss → EachAgrees js
  AreKept-EachAgrees [] uss k = tt
  AreKept-EachAgrees (j ∷ js) [] k = absurd k
  AreKept-EachAgrees (j ∷ js) (us ∷ uss) (agrees, k) = (agrees, AreKept-EachAgrees js uss k)

  -- What the changes come to.
  pub promised-EachAgrees :
      (js : List Hashed) (s : Unit {0})
      → Comes unshared unshared_commute (Refused js) (promised js) tt s
      → EachAgrees js
  unfolding Comes
  promised-EachAgrees js s (uss, k, same) = AreKept-EachAgrees js uss k

  -- What comes to pass of the tasks.
  abbrev pub Reported : List Hashed → Pool (Unit {0}) → Unit {0} → Type 0
  Reported js p s = OneFailed (Refused js) p ⊎ (AllEnded p × EachAgrees js)

  -- The tasks of `jio verify hashed-objects` on journals of objects, each data or field object
  -- whole and, if it is compressed, a whole zstd frame that tells its size, with iterations in
  -- memory that is zero and more fuel than there are objects, where `iou_async` dispatches its
  -- closure when the work has completed, or fails as the work or as the world does: however the
  -- tasks take turns, and whatever the worlds reply, it comes to pass that one has failed, with an
  -- error of `E` or with EBADMSG where some hash of some journal disagrees, or that all have ended.
  -- They all end only if in every journal the stored hash of each data or field object of at most
  -- 16 KiB is the hash of its payload, as it is decompressed, keyed or not as the header says.
  pub tasks-EachAgrees :
      (e : ByteOrder) (js : List Hashed) → Inevitably unshared (Reported js) (tasks e js) tt
  tasks-EachAgrees e js =
      promises-Inevitably unshared (Refused js) unshared_commute (promised js) (tasks e js) tt
        (λ s. EachAgrees js) (tasks-PromiseAll e js (Refused js) (λ err f. f))
        (promised-EachAgrees js)
