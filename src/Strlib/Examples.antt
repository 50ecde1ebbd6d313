-- ===== src/Strlib/Examples.antt =====
-- A buffer of 6 bytes.
use amast.Common.{ℕ, ◌≡◌, refl, arith, List, [], ◌∷◌, ◌++◌, take, copy, slice, ok}
use amast.Strlib.{copy_loop, strlen, memchr, str_lcpy, str_lcat, str_vlcatf}
use amast.Strlib.Strings.{append-str_lcpy}

abbrev buffer : ℕ → ℕ
buffer k = 9

abbrev hello : List ℕ
hello = 104 ∷ 101 ∷ 108 ∷ 108 ∷ 111 ∷ []

cut_run :
    (slice ((str_lcpy buffer hello 4).0) 0 6 ≡ 104 ∷ 101 ∷ 108 ∷ 0 ∷ 9 ∷ 9 ∷ [])
    × ((str_lcpy buffer hello 4).1 ≡ 5)
    × ((str_lcpy buffer hello 0).1 ≡ 5)
unfolding str_lcpy copy_loop strlen
cut_run = (refl, refl, refl)

-- Without a NUL in the buffer nothing is appended, and the length counts all of it.
no_nul_run : str_lcat buffer hello 6 ≡ ok (buffer, 11)
unfolding str_lcat memchr strlen
no_nul_run = refl

append-str_lcpy_example :
    let all : (ℕ → ℕ) × ℕ = (copy buffer 0 (take 5 (hello ++ hello) ++ 0 ∷ []), 10) in
    (str_lcpy buffer (hello ++ hello) 6 ≡ all)
    × (str_lcat ((str_lcpy buffer hello 6).0) hello 6 ≡ ok all)
    × (str_vlcatf ((str_lcpy buffer hello 6).0) 6 hello ≡ ok all)
append-str_lcpy_example =
    append-str_lcpy buffer hello hello 6 (omega arith) (omega arith) (omega arith) (omega arith)
