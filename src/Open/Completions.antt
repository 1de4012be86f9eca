-- ===== src/Open/Completions.antt =====
-- The opens of the journals may complete in any order.
use mathlib.Core.Path.{subst}
use jio.Base.{
  ℕ, suc, ◌+◌, ◌<◌, ◌≡◌, ◌≢◌, inl, inr, refl, sym, ap, ◌∙◌, true, false, Option, none, some, List,
  [], ◌∷◌, arith, ◌==◌, if◌then◌else◌, length, get_elem?, set, Bool-cases, eq→==, ==→eq, ◌*◌, ne→==,
  has, IsDistinct,
}
use jio.Io.{Step, Call, Reply, done, or_fault, ◌>>=◌}
use jio.Io.Wp.{Wp, allocated-Wp, Wp-bind, Wp-mono}
use jio.Lru.{Journal}
use jio.Open.{
  Journals, zero_journal, is_denied, open_result, checked, number_bufs, number_all, register_all,
  open_at, opened_journal, completions,
}
use jio.Open.Setup.{opened, setup_lem}
use jio.Open.Arrays.{
  get-set, get-set_other, length-set, length-number_all, get-number_all, get-inside,
}

-- What an open made of a journal: none where it was denied, else one with its buffers set up.
abbrev pub Opened : Reply → Journal → Type 0
Opened (Reply.error e) j = j ≡ record zero_journal { fd = none }
Opened (Reply.ok fd _) j = j ≡ opened fd

-- A world in which the registering succeeds, and an open fails only for want of permission.
pub record Opens (Ok : Call → Reply → Type 0) : Type 0 where
  pub malloc : (n e : ℕ) → Ok (Call.malloc n) (Reply.error e) → ⊥
  pub files : (n e : ℕ) → Ok (Call.register_files n) (Reply.error e) → ⊥
  pub buffers : (n e : ℕ) → Ok (Call.register_buffers n) (Reply.error e) → ⊥

abbrev pub IsDenied : Reply → Type 0
IsDenied (Reply.error e) = is_denied e ≡ true
IsDenied (Reply.ok fd _) = Unit

open_result_lem :
    (r : Reply) → IsDenied r → (j : Journal) × (open_result r zero_journal ≡ done j) × Opened r j
unfolding open_result
open_result_lem (Reply.error e) h = (record zero_journal { fd = none }, rw h refl, refl)
open_result_lem (Reply.ok fd _) h = (opened fd, ap or_fault (setup_lem fd), refl)

-- The journals that completions are about, and what was replied for one.
abbrev pub indices : List (ℕ × Reply) → List ℕ
indices [] = []
indices ((i, r) ∷ rs) = i ∷ indices rs

abbrev pub reply_of : ℕ → List (ℕ × Reply) → Option Reply
reply_of l [] = none
reply_of l ((i, r) ∷ rs) = let rest = reply_of l rs in if l == i then some r else rest

-- Each of the journals is as `calloc` gave it, and each open succeeds or is denied.
abbrev pub Fresh : List (ℕ × Reply) → List Journal → Type 0
Fresh [] js = Unit {0}
Fresh ((i, r) ∷ rs) js = (get_elem? js i ≡ some zero_journal) × IsDenied r × Fresh rs js

-- What became of a journal.
abbrev pub Became : Option Reply → Journal → Journal → Type 0
Became none j0 j = j ≡ j0
Became (some r) j0 j = Opened r j

pub record Completed (rs : List (ℕ × Reply)) (js : Journals) (d : ℕ) (end : ℕ × Journals)
    : Type 0 where
  pub once : end.0 ≡ suc d
  pub size : length (end.1).journals ≡ length js.journals
  pub all :
      (l : ℕ) (j0 : Journal)
      → get_elem? js.journals l ≡ some j0
      → (j : Journal) × Became (reply_of l rs) j0 j
        × (get_elem? (end.1).journals l ≡ some (number_bufs l (record j { idx = l })))

reply_none : (i : ℕ) (rs : List (ℕ × Reply)) → has i (indices rs) ≡ false → reply_of i rs ≡ none
reply_none i [] h = refl
reply_none i ((x, r) ∷ rs) h = ground (arith, reply_none i rs)

Fresh-set :
    (i : ℕ) (k : Journal) (rs : List (ℕ × Reply)) (js : List Journal)
    → has i (indices rs) ≡ false
    → Fresh rs js
    → Fresh rs (set js i k)
Fresh-set i k [] js h f = tt
Fresh-set i k ((l, r) ∷ rs) js h (z, d, f) =
    (get-set_other i l js k (ground arith) ∙ z, d, Fresh-set i k rs js (ground arith) f)

zero_add : (n : ℕ) → 0 + n ≡ n
zero_add n = omega arith

get-numbered :
    (l : ℕ) (js : List Journal) (j : Journal)
    → get_elem? js l ≡ some j
    → get_elem? (number_all 0 js) l ≡ some (number_bufs l (record j { idx = l }))
get-numbered l js j at =
    get-number_all l 0 js j at
    ∙ (λ k. some (number_bufs (zero_add l k) (record j { idx = zero_add l k })))

set_here :
    (i l : ℕ) (js : List Journal) (k : Journal)
    → i < length js
    → (l == i) ≡ true
    → get_elem? (set js i k) l ≡ some k
set_here i l js k inside same = ap (get_elem? (set js i k)) (==→eq l i same) ∙ get-set i js k inside

apart : (i l : ℕ) → (l == i) ≡ false → i ≢ l
apart i l e = ground arith

module _ (Ok : Call → Reply → Type 0) (E : ℕ → Type 0) (world : Opens Ok) where
  checked-Wp :
      {A : Type 0} (r : Reply) (P : A → Type 0) (m : Step A)
      → ((e : ℕ) → r ≡ Reply.error e → ⊥)
      → Wp Ok E P m
      → Wp Ok E P (checked r m)
  checked-Wp (Reply.ok _ _) P m never h = h
  checked-Wp (Reply.error e) P m never h = absurd (never e refl)

  -- The calls of `register_all` succeed.
  register_all_lem :
      (js : Journals)
      → Wp Ok E (λ k. k ≡ record js { journals = number_all 0 js.journals }) (register_all js)
  unfolding register_all
  register_all_lem js = λ r ok.
      let n = length js.journals in
      allocated-Wp Ok E _ r _
        (λ e q. absurd (world.malloc (4 * n) e (subst (Ok (Call.malloc (4 * n))) q ok)))
        (λ r1 ok1.
          checked-Wp r1 _ _ (λ e q. world.files n e (subst (Ok (Call.register_files n)) q ok1))
            (λ r2 ok2.
              allocated-Wp Ok E _ r2 _
                (λ e q.
                  absurd
                    (world.malloc (16 * 8 * n) e (subst (Ok (Call.malloc (16 * 8 * n))) q ok2)))
                (λ r3 ok3.
                  checked-Wp r3 _ _
                    (λ e q.
                      world.buffers (8 * n) e (subst (Ok (Call.register_buffers (8 * n))) q ok3))
                    refl)))

  -- The state behind one open.
  abbrev behind : Journals → ℕ → Journal → Journals
  behind js i k = record js { n_opened = js.n_opened + 1; journals = set js.journals i k }

  open_at_lem :
      (i : ℕ) (r : Reply) (js : Journals) (k : Journal)
      → get_elem? js.journals i ≡ some zero_journal
      → open_result r zero_journal ≡ done k
      → open_at i r js ≡ done (behind js i k)
  unfolding open_at
  open_at_lem i r js k at opens =
      ap (λ (o : Option Journal). or_fault o >>= λ j. open_result r j >>= λ m. done (behind js i m))
        at
      ∙ ap (λ (o : Step Journal). o >>= λ m. done (behind js i m)) opens

  opened_last :
      (i : ℕ) (r : Reply) (js : Journals) (k : Journal)
      → open_at i r js ≡ done (behind js i k)
      → js.n_opened + 1 ≡ length js.journals
      → opened_journal i r js ≡ (register_all (behind js i k) >>= λ m. done (true, m))
  unfolding opened_journal
  opened_last i r js k opens n =
      let len = length-set i js.journals k in
      rw (opens, eq→== (js.n_opened + 1) (length (set js.journals i k)) (n ∙ sym len)) refl

  opened_more :
      (i : ℕ) (r : Reply) (js : Journals) (k : Journal)
      → open_at i r js ≡ done (behind js i k)
      → js.n_opened + 1 < length js.journals
      → opened_journal i r js ≡ done (false, behind js i k)
  unfolding opened_journal
  opened_more i r js k opens n =
      let len = length-set i js.journals k in
      rw (opens, ne→== (js.n_opened + 1) (length (set js.journals i k)) (λ q. absurd (omega arith)))
        refl

  -- The journals of the last completion.
  Completed-last :
      (i : ℕ) (r : Reply) (js : Journals) (k : Journal) (d : ℕ)
      → i < length js.journals
      → Opened r k
      → Completed
          ((i, r) ∷ [])
          js
          d
          (suc d, record (behind js i k) { journals = number_all 0 (set js.journals i k) })
  Completed-last i r js k d inside was = record {
    once = refl;
    size = length-number_all 0 (set js.journals i k) ∙ length-set i js.journals k;
    all = λ l j0 at. elim (Bool-cases (l == i)) [
      | inl same ↦ (k, rw same was, get-numbered l _ k (set_here i l js.journals k inside same))
      | inr other ↦ (
        j0,
        rw other refl,
        get-numbered l _ j0 (get-set_other i l js.journals k (apart i l other) ∙ at),
      )
    ];
  }

  -- The journals of the completions behind another one.
  Completed-more :
      (i : ℕ) (r : Reply) (rs : List (ℕ × Reply)) (js : Journals) (k : Journal) (d : ℕ)
      (end : ℕ × Journals)
      → i < length js.journals
      → Opened r k
      → has i (indices rs) ≡ false
      → Completed rs (behind js i k) d end
      → Completed ((i, r) ∷ rs) js d end
  Completed-more i r rs js k d end inside was new c = record {
    once = c.once;
    size = c.size ∙ length-set i js.journals k;
    all = λ l j0 at. elim (Bool-cases (l == i)) [
      | inl same ↦
          let (j, became, final) = c.all l k (set_here i l js.journals k inside same) in
          let none_left : reply_of l rs ≡ none =
            ap (λ (x : ℕ). reply_of x rs) (==→eq l i same) ∙ reply_none i rs new in
          let kept : j ≡ k = subst (λ (o : Option Reply). Became o k j) none_left became in
          (j, rw same (subst (Opened r) (sym kept) was), final)
      | inr other ↦
          let (j, became, final) =
            c.all l j0 (get-set_other i l js.journals k (apart i l other) ∙ at) in
          (j, rw other became, final)
    ];
  }

  completions_lem :
      (rs : List (ℕ × Reply)) (d i : ℕ) (r : Reply) (js : Journals)
      → js.n_opened + suc (length rs) ≡ length js.journals
      → IsDistinct (indices ((i, r) ∷ rs))
      → Fresh ((i, r) ∷ rs) js.journals
      → Wp Ok E (Completed ((i, r) ∷ rs) js d) (completions ((i, r) ∷ rs) d js)
  unfolding completions
  completions_lem [] d i r js n distinct (at, denied, fresh) =
      let (k, opens, was) = open_result_lem r denied in
      let all = behind js i k in
      rw (opened_last i r js k (open_at_lem i r js k at opens) n) (
        Wp-bind Ok E
          (λ (t, m). (t ≡ true) × (m ≡ record all { journals = number_all 0 all.journals })) _
          (register_all all >>= λ m. done (true, m)) _
          (Wp-bind Ok E _ _ (register_all all) _ (register_all_lem all) λ m q. (refl, q))
          λ (t, m) (q1, q2).
            rw (q1, q2) (Completed-last i r js k d (get-inside i js.journals zero_journal at) was))
  completions_lem ((l, r') ∷ rs) d i r js n (new, distinct) (at, denied, fresh) =
      let (k, opens, was) = open_result_lem r denied in
      let len = length-set i js.journals k in
      let js' = behind js i k in
      rw (opened_more i r js k (open_at_lem i r js k at opens) (omega arith)) (
        Wp-mono Ok E (Completed ((l, r') ∷ rs) js' d) _ (completions ((l, r') ∷ rs) d js')
          (completions_lem rs d l r' js' (omega arith) distinct
            (Fresh-set i k ((l, r') ∷ rs) js.journals new fresh))
          λ end c.
            Completed-more i r ((l, r') ∷ rs) js k d end (get-inside i js.journals zero_journal at)
              was new c)

  -- From the journals of `get_journals`, where `malloc` and the registering of the files and buffers
  -- do not fail, whatever the order in which all their opens complete, each succeeding or denied:
  -- the closure of `opened_journal` is dispatched exactly once, and each
  -- journal is then set up with the descriptor of its own open and registered under its own
  -- number, or without a descriptor where its open was denied.
  pub completions-Completed :
      (rs : List (ℕ × Reply)) (js : Journals)
      → 0 < length rs
      → js.n_opened ≡ 0
      → length rs ≡ length js.journals
      → IsDistinct (indices rs)
      → Fresh rs js.journals
      → Wp Ok E (Completed rs js 0) (completions rs 0 js)
  completions-Completed [] js pos none_yet n distinct fresh = absurd (omega arith)
  completions-Completed ((i, r) ∷ rs) js pos none_yet n distinct fresh =
      completions_lem rs 0 i r js (omega arith) distinct fresh
