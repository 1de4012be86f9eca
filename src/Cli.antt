-- ===== src/Cli.antt =====
-- `main` of src/jio.c: which subcommand the arguments name, and the exit status.
pub mod Words
use Prim.Native.String.{String}
use text.Mathlib.Text.{◌==◌}
use jio.Base.{ℕ, List, [], ◌∷◌, Option, none, some, Bool, true, false, if◌then◌else◌}

-- The subcommands that call into the rest of the program.
pub data Command : Type 0 where
  reclaim_tail_waste report_entry_arrays report_layout report_tail_waste report_usage : Command
  verify_hashed_objects : Command

-- What `main` makes of its arguments: it prints the usage of itself or of a subcommand, or a text;
-- it complains about a word; or it runs a command.
pub data Parsed : Type 0 where
  usage : Parsed
  prints : Parsed
  unsupported : String → Parsed
  runs : Command → Parsed

unfoldable pub reclaim : List String → Parsed
reclaim [] = usage
reclaim (word ∷ rest) = if word == "tail-waste" then runs reclaim_tail_waste else unsupported word

unfoldable pub report : List String → Parsed
report [] = usage
report (word ∷ rest) =
    if word == "entry-arrays"
    then runs report_entry_arrays
    else if word == "layout"
    then runs report_layout
    else if word == "tail-waste"
    then runs report_tail_waste
    else if word == "usage"
    then runs report_usage
    else unsupported word

unfoldable pub verify : List String → Parsed
verify [] = usage
verify (word ∷ rest) =
    if word == "hashed-objects" then runs verify_hashed_objects else unsupported word

-- The chain of tests on `argv[1]`, with what follows it.
unfoldable pub subcommand : String → List String → Parsed
subcommand word rest =
    if word == "help"
    then prints
    else if word == "license"
    then prints
    else if word == "reclaim"
    then reclaim rest
    else if word == "report"
    then report rest
    else if word == "verify"
    then verify rest
    else if word == "version"
    then prints
    else unsupported word

-- Behind `r = jio_...(iou, argc, argv)`: an error is -e, and a last `iou_run` may fail too.
unfoldable pub finish : Option ℕ → Option ℕ → ℕ
finish (some e) flushed = 1
finish none (some e) = 1
finish none none = 0

-- The exit status, of what each command returns, of the last `iou_run`, and of whether `iou_new`
-- gave an iou.
unfoldable pub status : (Command → Option ℕ) → Option ℕ → Parsed → ℕ
status run flushed usage = 0
status run flushed prints = 0
status run flushed (unsupported word) = 1
status run flushed (runs c) = finish (run c) flushed

unfoldable pub main : Bool → (Command → Option ℕ) → Option ℕ → List String → ℕ
main has_iou run flushed [] = 0
main has_iou run flushed (name ∷ []) = 0
main false run flushed (name ∷ word ∷ rest) = 1
main true run flushed (name ∷ word ∷ rest) = status run flushed (subcommand word rest)
