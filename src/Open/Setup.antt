-- ===== src/Open/Setup.antt =====
-- The buffers of a journal that was just opened.
use jio.Base.{ℕ, ◌≡◌, refl, false, some, List, [], ◌∷◌, arith}
use jio.Lru.{Bufs, Journal, set_next, set_prev}
use jio.Lru.Order.{IsLru}
use jio.Cache.Window.{IsCache}
use jio.Open.{zero_journal, zero_buf, append_buf, append_bufs, setup}

abbrev linked : Bufs → ℕ → ℕ → Bufs
linked f t i = set_prev (set_next f t (some i)) i (some t)

-- The buffers behind the loop.
abbrev opened_bufs : Bufs
opened_bufs =
    linked
      (linked (linked (linked (linked (linked (linked (λ _. zero_buf) 0 1) 1 2) 2 3) 3 4) 4 5) 5 6)
      6 7

-- The journal behind the loop.
abbrev pub opened : ℕ → Journal
opened fd = record {
  fd = some fd;
  idx = 0;
  lru_head = some 0;
  lru_tail = some 7;
  bufs = opened_bufs;
}

abbrev pub all_bufs : List ℕ
all_bufs = 0 ∷ 1 ∷ 2 ∷ 3 ∷ 4 ∷ 5 ∷ 6 ∷ 7 ∷ []

pub setup_lem : (fd : ℕ) → setup fd zero_journal ≡ some (opened fd)
unfolding setup append_bufs append_buf
setup_lem fd = refl

linked-invalid :
    (f : Bufs) (t i : ℕ)
    → ((a : ℕ) → (f a).valid ≡ false)
    → (a : ℕ) → (linked f t i a).valid ≡ false
unfolding set_next set_prev
linked-invalid f t i h a = ground (arith, h a, h t, h i)

opened-invalid : (a : ℕ) → (opened_bufs a).valid ≡ false
opened-invalid = linked-invalid _ 6 7 (
    linked-invalid _ 5 6 (
      linked-invalid _ 4 5 (
        linked-invalid _ 3 4 (
          linked-invalid _ 2 3
            (linked-invalid _ 1 2 (linked-invalid (λ _. zero_buf) 0 1 (λ a. refl)))))))

pub opened-IsLru : (fd : ℕ) → IsLru (opened fd) all_bufs
unfolding set_next set_prev
opened-IsLru fd = record {
  head = refl;
  tail = refl;
  chain = (
    refl,
    refl,
    (
      refl,
      refl,
      (refl, refl, (refl, refl, (refl, refl, (refl, refl, (refl, refl, (refl, refl, tt)))))),
    ),
  );
  distinct = (refl, (refl, (refl, (refl, (refl, (refl, (refl, (refl, tt))))))));
}

pub opened-IsCache : (file : List ℕ) (fd : ℕ) → IsCache file (opened fd)
opened-IsCache file fd = record {
  order = all_bufs;
  lru = opened-IsLru fd;
  covers = λ i h. ground arith;
  only = λ i h. ground arith;
  holds = λ i h v. cc (opened-invalid i);
}

-- What `opened_journal` does to a journal that `calloc` gave and whose open succeeded: no null
-- pointer is followed, all eight buffers are in the list in their order, and none is valid,
-- so that the buffers are right for any file.
pub setup-IsCache :
    (file : List ℕ) (fd : ℕ)
    → (j : Journal) × (setup fd zero_journal ≡ some j) × IsLru j all_bufs × IsCache file j
setup-IsCache file fd = (opened fd, setup_lem fd, opened-IsLru fd, opened-IsCache file fd)
