-- ===== src/Ids/Dehyphen.antt =====
-- `dehyphen` against the string without its hyphens.
use jio.Base.{
  ℕ, zero, suc, ◌≤◌, ◌<◌, ◌≡◌, ◌≢◌, refl, sym, ap, ◌∙◌, List, [], ◌∷◌, ◌++◌, some, arith, ◌==◌,
  if◌then◌else◌, length, get_elem?, set, take, drop, has, true, false, Bool-cases, inl, inr, ==→eq,
  ==→ne,
}
use mathlib.Core.List.{append-nil, append_assoc}
use jio.Ids.{cstr, dehyphen_loop, dehyphen}

abbrev pub without_hyphens : List ℕ → List ℕ
without_hyphens [] = []
without_hyphens (c ∷ cs) = if c == b'-' then without_hyphens cs else c ∷ without_hyphens cs

-- The buffer has a terminator.
abbrev pub IsTerminated : List ℕ → Type 0
IsTerminated buf = has 0 buf ≡ true

take-set :
    (n : ℕ) (buf : List ℕ) (c : ℕ)
    → n < length buf
    → take (suc n) (set buf n c) ≡ take n buf ++ c ∷ []
take-set n [] c h = absurd (omega arith)
take-set zero (x ∷ xs) c h = refl
take-set (suc n) (x ∷ xs) c h = ap (λ (r : List ℕ). x ∷ r) (take-set n xs c (omega arith))

drop-set : (n m : ℕ) (buf : List ℕ) (c : ℕ) → n < m → drop m (set buf n c) ≡ drop m buf
drop-set n m [] c h = refl
drop-set n zero (x ∷ xs) c h = absurd (omega arith)
drop-set zero (suc m) (x ∷ xs) c h = refl
drop-set (suc n) (suc m) (x ∷ xs) c h = drop-set n m xs c (omega arith)

-- The string that a terminator at `n` leaves.
cstr-set :
    (n : ℕ) (buf : List ℕ)
    → n < length buf
    → has 0 (take n buf) ≡ false
    → cstr (set buf n 0) ≡ take n buf
cstr-set n [] h nz = absurd (omega arith)
cstr-set zero (x ∷ xs) h nz = refl
cstr-set (suc n) (x ∷ xs) h nz = ground (arith, cstr-set n xs)

get-drop :
    (n : ℕ) (buf : List ℕ) (c : ℕ) (cs : List ℕ)
    → drop n buf ≡ c ∷ cs
    → (get_elem? buf n ≡ some c) × (drop (suc n) buf ≡ cs) × (n < length buf)
get-drop zero [] c cs h = cc
get-drop (suc n) [] c cs h = cc
get-drop zero (x ∷ xs) c cs h = (cc, cc, omega arith)
get-drop (suc n) (x ∷ xs) c cs h = let (p, q, r) = get-drop n xs c cs h in (p, q, omega arith)

-- The cell that the loop reads, where the string does not end there.
step_zero :
    (fuel str dest : ℕ) (buf : List ℕ)
    → get_elem? buf str ≡ some 0
    → dehyphen_loop (suc fuel) str dest buf ≡ some (set buf dest 0)
unfolding dehyphen_loop
step_zero fuel str dest buf g = rw (g, dehyphen_loop)

step_skip :
    (fuel str dest : ℕ) (buf : List ℕ)
    → get_elem? buf str ≡ some b'-'
    → dehyphen_loop (suc fuel) str dest buf ≡ dehyphen_loop fuel (suc str) dest buf
unfolding dehyphen_loop
step_skip fuel str dest buf g = ground arith

step_copy :
    (fuel str dest c : ℕ) (buf : List ℕ)
    → get_elem? buf str ≡ some c
    → c ≢ 0
    → c ≢ b'-'
    → dehyphen_loop (suc fuel) str dest buf
      ≡ dehyphen_loop fuel (suc str) (suc dest) (set buf dest c)
unfolding dehyphen_loop
step_copy fuel str dest c buf g a b = ground arith

no_zero_snoc : (xs : List ℕ) (c : ℕ) → has 0 xs ≡ false → c ≢ 0 → has 0 (xs ++ c ∷ []) ≡ false
no_zero_snoc [] c h nz = ground arith
no_zero_snoc (x ∷ xs) c h nz = ground (arith, no_zero_snoc xs c)

tail-IsTerminated :
    (c : ℕ) (cs : List ℕ) → IsTerminated (c ∷ cs) → (c == 0) ≡ false → IsTerminated cs
tail-IsTerminated c cs t nz = ground arith

dehyphen_loop_lem :
    (fuel str dest : ℕ) (buf cs : List ℕ)
    → drop str buf ≡ cs
    → dest ≤ str
    → has 0 (take dest buf) ≡ false
    → IsTerminated cs
    → length cs ≤ fuel
    → (out : List ℕ) × (dehyphen_loop fuel str dest buf ≡ some out)
      × (cstr out ≡ take dest buf ++ without_hyphens (cstr cs))
dehyphen_loop_lem fuel str dest buf [] d le nz t lt = cc
dehyphen_loop_lem zero str dest buf (c ∷ cs) d le nz t lt = absurd (omega arith)
dehyphen_loop_lem (suc fuel) str dest buf (c ∷ cs) d le nz t lt =
    let (g, d', inside) = get-drop str buf c cs d in
    elim (Bool-cases (c == 0)) [
      | inl z ↦
          let e : c ≡ 0 = ==→eq c 0 z in
          (
            set buf dest 0,
            step_zero fuel str dest buf (g ∙ ap some e),
            rw z (cstr-set dest buf (omega arith) nz ∙ sym (append-nil (take dest buf))),
          )
      | inr nonzero ↦ elim (Bool-cases (c == b'-')) [
        | inl hyphen ↦
            let (out, r, s) =
              dehyphen_loop_lem fuel (suc str) dest buf cs d' (omega arith) nz
                (tail-IsTerminated c cs t nonzero) (omega arith) in
            (
              out,
              step_skip fuel str dest buf (g ∙ ap some (==→eq c b'-' hyphen)) ∙ r,
              rw (nonzero, hyphen) s,
            )
        | inr plain ↦
            let buf' = set buf dest c in
            let front = take-set dest buf c (omega arith) in
            let (out, r, s) =
              dehyphen_loop_lem fuel (suc str) (suc dest) buf' cs
                (drop-set dest (suc str) buf c (omega arith) ∙ d') (omega arith)
                (rw front (no_zero_snoc (take dest buf) c nz (==→ne c 0 nonzero)))
                (tail-IsTerminated c cs t nonzero) (omega arith) in
            (
              out,
              step_copy fuel str dest c buf g (==→ne c 0 nonzero) (==→ne c b'-' plain) ∙ r,
              rw (nonzero, plain)
                  (s
                    ∙ ap (λ (k : List ℕ). k ++ without_hyphens (cstr cs)) front
                    ∙ append_assoc (take dest buf) (c ∷ []) (without_hyphens (cstr cs))),
            )
      ]
    ]

-- On a terminated buffer `dehyphen` stays inside it, and leaves the string less its hyphens.
pub dehyphen-without_hyphens :
    (buf : List ℕ)
    → IsTerminated buf
    → (out : List ℕ) × (dehyphen buf ≡ some out) × (cstr out ≡ without_hyphens (cstr buf))
unfolding dehyphen
dehyphen-without_hyphens buf t =
    dehyphen_loop_lem (length buf) 0 0 buf buf refl (omega arith) refl t (omega arith)
