-- ===== src/Open/Listing.antt =====
-- The journals that `journals_open` lists.
use jio.Base.{
  ℕ, zero, suc, ◌≤◌, ◌≡◌, refl, List, [], ◌∷◌, Option, none, some, arith, length, le→leb, ◌==◌,
  Bool-cases, inl, inr, ==→eq,
}
use jio.Io.{Call, Reply, Step}
use jio.Io.Wp.{Wp, Wp-bind, allocated-Wp}
use jio.Open.{
  Journals, zero_journal, replicate, visible, queue_opens, list_journals, dir_opened, get_journals,
  var_opened, journals_open, checked,
}

abbrev pub Any : ℕ → Type 0
Any e = Unit {0}

-- None where the directory shows no journal; else fresh journals of the names that it shows.
abbrev pub Listed : List (List ℕ) → List (List ℕ) → Option Journals → Type 0
Listed first second none = visible first ≡ []
Listed first second (some js) =
    (js.names ≡ visible second)
    × (js.n_opened ≡ 0)
    × (js.journals ≡ replicate (length (visible second)) zero_journal)

empty_of_length : (xs : List (List ℕ)) → length xs ≡ 0 → xs ≡ []
empty_of_length [] h = refl
empty_of_length (x ∷ xs) h = absurd (omega arith)

module _ (Ok : Call → Reply → Type 0) (first second : List (List ℕ))
    (opens_dir : (fd e : ℕ) → Ok (Call.fdopendir fd) (Reply.error e) → ⊥)
    (fewer : length (visible second) ≤ length (visible first)) where
  queue_opens_lem : (n : ℕ) (js : Journals) → Wp Ok Any (λ k. k ≡ js) (queue_opens n js)
  queue_opens_lem zero js = refl
  queue_opens_lem (suc n) js =
      λ r ok. allocated-Wp Ok Any _ r (queue_opens n js) (λ e q. tt) (queue_opens_lem n js)

  checked-Any :
      {A : Type 0} (r : Reply) (P : A → Type 0) (m : Step A)
      → Wp Ok Any P m
      → Wp Ok Any P (checked r m)
  checked-Any (Reply.ok _ _) P m h = h
  checked-Any (Reply.error e) P m h = tt

  list_journals-Listed : (fd : ℕ) → Wp Ok Any (Listed first second) (list_journals fd first second)
  unfolding list_journals
  list_journals-Listed fd = elim (Bool-cases (length (visible first) == 0)) [
    | inl none_there ↦ rw none_there (empty_of_length (visible first) (==→eq _ 0 none_there))
    | inr some_there ↦ rw some_there λ r ok.
        allocated-Wp Ok Any _ r _ (λ e q. tt)
          (rw (le→leb (length (visible second)) (length (visible first)) fewer) λ r1 ok1 r2 ok2.
            checked-Any r2 _ _ (
              Wp-bind Ok Any _ _ (queue_opens (length (visible second)) _) _
                (queue_opens_lem (length (visible second)) _) λ k same. rw same (refl, refl, refl)))
  ]

  dir_opened-Listed :
      (fd : ℕ) (r : Reply)
      → Ok (Call.fdopendir fd) r
      → Wp Ok Any (Listed first second) (dir_opened fd first second r)
  unfolding dir_opened
  dir_opened-Listed fd (Reply.error e) ok = absurd (opens_dir fd e ok)
  dir_opened-Listed fd (Reply.ok _ _) ok = list_journals-Listed fd

  get_journals-Listed : (r : Reply) → Wp Ok Any (Listed first second) (get_journals first second r)
  unfolding get_journals
  get_journals-Listed (Reply.error e) = tt
  get_journals-Listed (Reply.ok fd _) = dir_opened-Listed fd

  var_opened-Listed :
      (machid : List ℕ) (r : Reply)
      → Wp Ok Any (Listed first second) (var_opened machid first second r)
  unfolding var_opened
  var_opened-Listed machid (Reply.error e) = tt
  var_opened-Listed machid (Reply.ok fd _) =
      λ r ok. allocated-Wp Ok Any _ r _ (λ e q. tt) (λ r1 ok1. get_journals-Listed r1)

  -- Where `fdopendir` does not fail, and the second pass over the directory shows no more journals
  -- than the first, `journals_open` never fails its assertion: it ends with an error, or with none
  -- where the first pass showed no journal, or with one fresh journal for every name that the
  -- second pass showed, dot files left out.
  pub journals_open-Listed :
      (machid : List ℕ) → Wp Ok Any (Listed first second) (journals_open machid first second)
  unfolding journals_open
  journals_open-Listed machid =
      λ r ok. allocated-Wp Ok Any _ r _ (λ e q. tt) (λ r1 ok1. var_opened-Listed machid r1)
