-- ===== src/Cli/Words.antt =====
-- The words that run each command, and what the exit status says.
use Prim.Native.String.{String}
use text.Mathlib.Text.{◌==◌}
use text.Mathlib.TextEquality.{eq_iff}
use mathlib.Core.Logic.{◌↔◌}
use jio.Base.{◌≡◌, refl, sym, ap, List, [], ◌∷◌, Bool, true, false, if◌then◌else◌, arith}
use jio.Cli.{
  Command, reclaim_tail_waste, report_entry_arrays, report_layout, report_tail_waste, report_usage,
  verify_hashed_objects, Parsed, usage, prints, unsupported, runs, reclaim, report, verify,
  subcommand,
}

-- The subcommand of a command and the word behind it.
abbrev pub words : Command → String × String
words reclaim_tail_waste = ("reclaim", "tail-waste")
words report_entry_arrays = ("report", "entry-arrays")
words report_layout = ("report", "layout")
words report_tail_waste = ("report", "tail-waste")
words report_usage = ("report", "usage")
words verify_hashed_objects = ("verify", "hashed-objects")

-- The two words of a command run it, whatever follows them.
words_run :
    (c : Command) (rest : List String) → subcommand (words c).0 ((words c).1 ∷ rest) ≡ runs c
unfolding subcommand reclaim report verify
words_run reclaim_tail_waste rest = refl
words_run report_entry_arrays rest = refl
words_run report_layout rest = refl
words_run report_tail_waste rest = refl
words_run report_usage rest = refl
words_run verify_hashed_objects rest = refl

-- A command is run by its two words only.
abbrev pub Named : String → List String → Command → Type 0
Named word rest c = (tail : List String) × (word ≡ (words c).0) × (rest ≡ (words c).1 ∷ tail)

-- A test that led to `z` has taken one of its branches.
by_branch :
    (b : Bool) (x y z : Parsed) {P : Type 0}
    → (if b then x else y) ≡ z
    → (b ≡ true → x ≡ z → P)
    → (y ≡ z → P)
    → P
by_branch true x y z e on_true on_false = on_true refl e
by_branch false x y z e on_true on_false = on_false e

by_test :
    (word name : String) (x y z : Parsed) {P : Type 0}
    → (if word == name then x else y) ≡ z
    → (word ≡ name → x ≡ z → P)
    → (y ≡ z → P)
    → P
by_test word name x y z e on_equal on_other =
    by_branch (word == name) x y z e (λ h. on_equal ((eq_iff word name).0 h)) on_other

two_words :
    (word w : String) (ws : List String) (d c : Command)
    → word ≡ (words d).0
    → w ≡ (words d).1
    → runs d ≡ runs c
    → Named word (w ∷ ws) c
two_words word w ws d c p q e = rw (sym command_eq) (ws, p, ap (λ x. x ∷ ws) q)
  where
    command_eq : d ≡ c
    command_eq = ground arith

no_usage : {P : Type 0} (c : Command) → usage ≡ runs c → P
no_usage c e = absurd (ground arith)

no_print : {P : Type 0} (c : Command) → prints ≡ runs c → P
no_print c e = absurd (ground arith)

no_word : {P : Type 0} (word : String) (c : Command) → unsupported word ≡ runs c → P
no_word word c e = absurd (ground arith)

reclaim-Named :
    (word : String) (rest : List String) (c : Command)
    → word ≡ "reclaim"
    → reclaim rest ≡ runs c
    → Named word rest c
unfolding reclaim
reclaim-Named word [] c p e = no_usage c e
reclaim-Named word (w ∷ ws) c p e =
    by_test w "tail-waste" _ _ _ e (λ q h. two_words word w ws reclaim_tail_waste c p q h)
      (no_word w c)

report-Named :
    (word : String) (rest : List String) (c : Command)
    → word ≡ "report"
    → report rest ≡ runs c
    → Named word rest c
unfolding report
report-Named word [] c p e = no_usage c e
report-Named word (w ∷ ws) c p e =
    by_test w "entry-arrays" _ _ _ e (λ q h. two_words word w ws report_entry_arrays c p q h)
      (λ e1.
        by_test w "layout" _ _ _ e1 (λ q h. two_words word w ws report_layout c p q h)
          (λ e2.
            by_test w "tail-waste" _ _ _ e2 (λ q h. two_words word w ws report_tail_waste c p q h)
              (λ e3.
                by_test w "usage" _ _ _ e3 (λ q h. two_words word w ws report_usage c p q h)
                  (no_word w c))))

verify-Named :
    (word : String) (rest : List String) (c : Command)
    → word ≡ "verify"
    → verify rest ≡ runs c
    → Named word rest c
unfolding verify
verify-Named word [] c p e = no_usage c e
verify-Named word (w ∷ ws) c p e =
    by_test w "hashed-objects" _ _ _ e (λ q h. two_words word w ws verify_hashed_objects c p q h)
      (no_word w c)

subcommand-Named :
    (word : String) (rest : List String) (c : Command)
    → subcommand word rest ≡ runs c
    → Named word rest c
unfolding subcommand
subcommand-Named word rest c e =
    by_test word "help" _ _ _ e (λ _ h. no_print c h)
      (λ e1.
        by_test word "license" _ _ _ e1 (λ _ h. no_print c h)
          (λ e2.
            by_test word "reclaim" _ _ _ e2 (λ p h. reclaim-Named word rest c p h)
              (λ e3.
                by_test word "report" _ _ _ e3 (λ p h. report-Named word rest c p h)
                  (λ e4.
                    by_test word "verify" _ _ _ e4 (λ p h. verify-Named word rest c p h)
                      (λ e5.
                        by_test word "version" _ _ _ e5 (λ _ h. no_print c h) (no_word word c))))))

-- A command runs exactly when the arguments begin with the two words of that command; what stands
-- behind them is ignored.
pub subcommand-words :
    (word : String) (rest : List String) (c : Command)
    → (subcommand word rest ≡ runs c) ↔ Named word rest c
subcommand-words word rest c =
    (subcommand-Named word rest c, λ (tail, p, q). rw p (rw q (words_run c tail)))
