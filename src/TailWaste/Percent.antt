-- ===== src/TailWaste/Percent.antt =====
-- The percentages of `jio report tail-waste`.
use jio.Base.{ℕ, ◌*◌, ◌/◌, ◌≤◌, ◌<◌, ◌≡◌, refl, arith, leb, Bool-cases, inl, inr, leb→le}
use jio.TailWaste.{percent}

div-le : (a q b : ℕ) → 0 < q → a ≤ b * q → a / q ≤ b
div-le a q b h k = grind arith

-- A part of the total is shown as less than 200 per cent.
pub percent-lt : (part total : ℕ) → part ≤ total → percent part total < 200
unfolding percent
percent-lt part total h = elim (Bool-cases (leb 100 total)) [
  | inl big ↦ rw big (
      let pos : 0 < total / 100 = omega (arith, leb→le 100 total big) in
      let whole : part ≤ 199 * (total / 100) = omega (arith, leb→le 100 total big) in
      let le = div-le part (total / 100) 199 pos whole in omega arith)
  | inr small ↦ rw small (omega arith)
]

-- The whole of a total of 199 is shown as 199 per cent.
percent_of_199 : percent 199 199 ≡ 199
unfolding percent
percent_of_199 = refl
