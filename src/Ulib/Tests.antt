-- ===== src/Ulib/Tests.antt =====
-- A number printed and read back.
use tp2_so.Prelude.{◌≡◌, true, arith}
use tp2_so.Ulib.{digit_codes, printint, atoi}
use tp2_so.Ulib.Numbers.{atoi-printint}

atoi-printint_example : atoi (printint digit_codes 1984 10 true) ≡ 1984
atoi-printint_example = atoi-printint 1984 true (omega arith)
