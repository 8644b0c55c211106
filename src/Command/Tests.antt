-- ===== src/Command/Tests.antt =====
-- A command with spaces and a comment: "A T I #B".
use spark_fun_lo_ra_serial.Base.{ℕ, ◌≡◌, refl, List, [], ◌∷◌, ◌++◌, some, length}
use spark_fun_lo_ra_serial.Command.{trim_command}
use spark_fun_lo_ra_serial.Command.Trim.{before_comment, unspaced}
use spark_fun_lo_ra_serial.Command.Outcome.{trim_command_lem}

abbrev spaced_line : List ℕ
spaced_line = 65 ∷ 32 ∷ 84 ∷ 9 ∷ 32 ∷ 73 ∷ 32 ∷ 35 ∷ 66 ∷ []

kept_of_spaced_line : unspaced (before_comment spaced_line) ≡ 65 ∷ 84 ∷ 73 ∷ []
kept_of_spaced_line = refl

trim_command_lem_example :
    (t2 : List ℕ) × (trim_command (spaced_line ++ 0 ∷ []) (length spaced_line)
      ≡ some (
        unspaced (before_comment spaced_line) ++ 0 ∷ t2,
        length (unspaced (before_comment spaced_line)),
      ))
trim_command_lem_example = trim_command_lem spaced_line []
