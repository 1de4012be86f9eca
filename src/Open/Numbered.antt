-- ===== src/Open/Numbered.antt =====
-- The buffers of a journal behind its registration, where they are numbered.
use jio.Base.{ℕ, ◌<◌, ◌≡◌, refl, none, List, ltb, lt→ltb, Bool-cases, inl, inr}
use jio.Lru.{Journal}
use jio.Lru.Order.{IsLru}
use jio.Lru.Seg.{SameLinks, Seg-frame}
use jio.Cache.{buf_cnt}
use jio.Cache.Window.{Holds, IsCache}
use jio.Cache.Own.{IsOwn}
use jio.Open.{number_bufs}

-- The journal of number `l`.
abbrev pub numbered : ℕ → Journal → Journal
numbered l j = number_bufs l (record j { idx = l })

numbered-SameLinks : (l : ℕ) (j : Journal) (xs : List ℕ) → SameLinks j.bufs (numbered l j).bufs xs
unfolding number_bufs
numbered-SameLinks l j xs a h = elim (Bool-cases (ltb a 8)) [
  | inl inside ↦ rw inside (refl, refl)
  | inr outside ↦ rw outside (refl, refl)
]

numbered-IsLru : (l : ℕ) (j : Journal) (xs : List ℕ) → IsLru j xs → IsLru (numbered l j) xs
unfolding number_bufs
numbered-IsLru l j xs h = record {
  head = h.head;
  tail = h.tail;
  chain = Seg-frame j.bufs (numbered l j).bufs none xs none (numbered-SameLinks l j xs) h.chain;
  distinct = h.distinct;
}

numbered-Holds :
    (l : ℕ) (file : List ℕ) (j : Journal) (i : ℕ)
    → i < buf_cnt
    → Holds file (j.bufs i)
    → Holds file ((numbered l j).bufs i)
unfolding number_bufs
numbered-Holds l file j i below h =
    rw (lt→ltb i 8 below)
      (record { window = h.window; inside = h.inside; fits = h.fits; bounded = h.bounded })

numbered-valid : (l : ℕ) (j : Journal) (i : ℕ) → ((numbered l j).bufs i).valid ≡ (j.bufs i).valid
unfolding number_bufs
numbered-valid l j i = elim (Bool-cases (ltb i 8)) [
  | inl inside ↦ rw inside refl
  | inr outside ↦ rw outside refl
]

-- Numbering the buffers of a journal keeps them right for a file.
pub numbered-IsCache :
    (l : ℕ) (file : List ℕ) (j : Journal) → IsCache file j → IsCache file (numbered l j)
numbered-IsCache l file j c = record {
  order = c.order;
  lru = numbered-IsLru l j c.order c.lru;
  covers = c.covers;
  only = c.only;
  holds = λ i below v.
      numbered-Holds l file j i below (c.holds i below (rw (← numbered-valid l j i) v));
}

-- A journal that is registered has its own number and numbers of its buffers.
pub numbered-IsOwn : (l : ℕ) (file : List ℕ) (j : Journal) → IsCache file j → IsOwn l (numbered l j)
unfolding number_bufs
numbered-IsOwn l file j c = record {
  order = c.order;
  lru = numbered-IsLru l j c.order c.lru;
  covers = c.covers;
  only = c.only;
  idx = refl;
  numbers = λ i below. rw (lt→ltb i 8 below) refl;
}
