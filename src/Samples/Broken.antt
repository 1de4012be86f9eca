-- ===== src/Samples/Broken.antt =====
-- A test of what becomes of a journal with an unknown state.
use jio.Base.{ℕ, refl, List, [], ◌∷◌, ◌++◌, arith}
use jio.Cache.World.{World}
use jio.Open.{replicate}
use jio.Open.Setup.{opened, opened-IsCache}
use jio.Format.{header_fields}
use jio.Format.Endian.{ByteOrder, AreBytes, le}
use jio.TailWaste.{no_waste, per_journal_tail_waste}
use jio.TailWaste.Broken.{Breaks, per_journal_tail_waste-Breaks}
use jio.Samples.{no_error, honest, sample_object, are_bytes-AreBytes}

-- The sample file, with the state 3.
abbrev odd_file : List ℕ
odd_file =
    replicate 16 0
    ++ (3 ∷ replicate 71 0)
    ++ (0 ∷ 1 ∷ replicate 6 0)
    ++ replicate 40 0
    ++ (0 ∷ 1 ∷ replicate 6 0)
    ++ replicate 112 0
    ++ sample_object

odd_file-AreBytes : AreBytes odd_file
odd_file-AreBytes = are_bytes-AreBytes odd_file refl

abbrev world : World odd_file
world = honest odd_file

per_journal_tail_waste-Breaks_example :
    Breaks world.Ok world.E (per_journal_tail_waste ByteOrder.big 3 (opened 3) no_waste)
unfolding header_fields le
per_journal_tail_waste-Breaks_example =
    per_journal_tail_waste-Breaks odd_file world ByteOrder.big 3 (opened 3) no_waste (omega arith)
      odd_file-AreBytes (omega arith) (omega arith) (omega arith) (λ err ok. no_error err 328 [] ok)
      (opened-IsCache odd_file 3)
