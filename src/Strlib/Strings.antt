-- ===== src/Strlib/Strings.antt =====
-- What str_lcpy and str_lcat leave in memory.
use amast.Common.{
  take_all, ℕ, zero, suc, ◌+◌, ◌-◌, ◌≤◌, ◌<◌, ◌≡◌, ◌≢◌, ◌∙◌, refl, sym, ap, fun_ext, arith, true,
  false, ltb, leb, ◌==◌, Bool-cases, inl, inr, List, [], ◌∷◌, ◌++◌, append_assoc, length,
  length-append, take, drop, copy, copy-outside, none, some, update, ok,
}
use amast.Strlib.{strlen, memchr, copy_loop, copied_length, str_lcpy, str_lcat, int_max, str_vlcatf}

abbrev pub IsString : List ℕ → Type 0
IsString [] = Unit
IsString (c ∷ s) = (c ≢ 0) × IsString s

strlen-length : (s : List ℕ) → IsString s → strlen s ≡ length s
unfolding strlen
strlen-length [] h = refl
strlen-length (c ∷ s) h =
    let c≢0 : (c == 0) ≡ false = ground (arith, h.0) in rw c≢0 (omega (arith, strlen-length s h.1))

update_again : (m : ℕ → ℕ) (p a b : ℕ) → update (update m p a) p b ≡ update m p b
update_again m p a b =
    fun_ext
      λ q. elim (Bool-cases (p == q)) [ inl same ↦ rw same refl | inr differ ↦ rw differ refl ]

-- A string with room for its NUL is copied with it.
copy_loop-fits :
    (dst : ℕ → ℕ) (d lim : ℕ) (s : List ℕ)
    → IsString s
    → d + length s < lim
    → copy_loop dst d lim s ≡ (copy dst d (s ++ 0 ∷ []), suc (d + length s), none)
unfolding copy_loop
copy_loop-fits dst d lim [] h lt = let sum : d + 0 ≡ d = omega arith in rw sum refl
copy_loop-fits dst d lim (c ∷ s) h lt =
    let c≢0 : (c == 0) ≡ false = ground (arith, h.0) in
    let room : ltb (suc d) lim ≡ true = ground arith in
    let sum : d + suc (length s) ≡ suc d + length s = omega arith in
    rw (c≢0, room, sum) (copy_loop-fits (update dst d c) (suc d) lim s h.1 (omega arith))

-- A longer one is cut, and what is left of it comes back.
copy_loop-cut :
    (dst : ℕ → ℕ) (d n : ℕ) (s : List ℕ)
    → IsString s
    → n < length s
    → copy_loop dst d (d + suc n) s
      ≡ (copy dst d (take n s ++ 0 ∷ []), d + suc n, some (drop (suc n) s))
unfolding copy_loop
copy_loop-cut dst d n [] h lt = absurd (omega arith)
copy_loop-cut dst d zero (c ∷ s) h lt =
    let c≢0 : (c == 0) ≡ false = ground (arith, h.0) in
    let full : ltb (suc d) (d + 1) ≡ false = ground arith in
    let sum : d + 1 ≡ suc d = omega arith in
    let last : suc d - 1 ≡ d = omega arith in
    rw (c≢0, full, last, sum) (ap (λ m. (m, suc d, some s)) (update_again dst d c 0))
copy_loop-cut dst d (suc n) (c ∷ s) h lt =
    let c≢0 : (c == 0) ≡ false = ground (arith, h.0) in
    let room : ltb (suc d) (d + suc (suc n)) ≡ true = ground arith in
    let sum : d + suc (suc n) ≡ suc d + suc n = omega arith in
    rw (c≢0, room, sum) (copy_loop-cut (update dst d c) (suc d) n s h.1 (omega arith))

length-drop : (n : ℕ) (s : List ℕ) → n ≤ length s → n + length (drop n s) ≡ length s
length-drop zero s le = omega arith
length-drop (suc n) [] le = absurd (omega arith)
length-drop (suc n) (c ∷ s) le = omega (arith, length-drop n s (omega arith))

drop-IsString : (n : ℕ) (s : List ℕ) → IsString s → IsString (drop n s)
drop-IsString zero s h = h
drop-IsString (suc n) [] h = h
drop-IsString (suc n) (c ∷ s) h = drop-IsString n s h.1

-- What fits into the `n` bytes before the last, a NUL, and the length of it all.
copied-lem :
    (dst : ℕ → ℕ) (d n : ℕ) (s : List ℕ)
    → IsString s
    → copied_length (copy_loop dst d (d + suc n) s)
      ≡ (copy dst d (take n s ++ 0 ∷ []), d + length s)
copied-lem dst d n s h = elim (Bool-cases (ltb n (length s))) [
  | inl long ↦
      let lt : n < length s = ground arith in
      let total : d + suc n + length (drop (suc n) s) ≡ d + length s =
        omega (arith, length-drop (suc n) s (omega arith)) in
      rw
        (
          copy_loop-cut dst d n s h lt,
          strlen-length (drop (suc n) s) (drop-IsString (suc n) s h),
          total,
        )
        refl
  | inr short ↦
      let le : length s ≤ n = ground arith in
      let total : suc (d + length s) - 1 ≡ d + length s = omega arith in
      rw (copy_loop-fits dst d (d + suc n) s h (omega arith), total, take_all n s le) refl
]

-- The search for the NUL of a string that has been copied.
memchr-copy :
    (m : ℕ → ℕ) (i count : ℕ) (s : List ℕ)
    → IsString s
    → length s < count
    → memchr (copy m i (s ++ 0 ∷ [])) i count ≡ some (i + length s)
unfolding memchr
memchr-copy m i zero s h lt = absurd (omega arith)
memchr-copy m i (suc count) [] h lt =
    let sum : i + 0 ≡ i = omega arith in
    let here : (i == i) ≡ true = ground arith in rw (sum, here) refl
memchr-copy m i (suc count) (c ∷ s) h lt =
    let here : (i == i) ≡ true = ground arith in
    let c≢0 : (c == 0) ≡ false = ground (arith, h.0) in
    let sum : i + suc (length s) ≡ suc i + length s = omega arith in
    rw (copy-outside (update m i c) (suc i) (s ++ 0 ∷ []) i (inl (omega arith)), here, c≢0, sum)
      (memchr-copy (update m i c) (suc i) count s h.1 (omega arith))

-- What is copied to the NUL of a string extends it.
copy-copy_append :
    (m : ℕ → ℕ) (i : ℕ) (s : List ℕ) (x : ℕ) (xs : List ℕ)
    → copy (copy m i (s ++ 0 ∷ [])) (i + length s) (x ∷ xs) ≡ copy m i (s ++ x ∷ xs)
copy-copy_append m i [] x xs =
    let sum : i + 0 ≡ i = omega arith in
    rw sum (ap (λ m'. copy m' (suc i) xs) (update_again m i 0 x))
copy-copy_append m i (c ∷ s) x xs =
    let sum : i + suc (length s) ≡ suc i + length s = omega arith in
    rw sum (copy-copy_append (update m i c) (suc i) s x xs)

copy-copy_string :
    (m : ℕ → ℕ) (i : ℕ) (s t : List ℕ)
    → copy (copy m i (s ++ 0 ∷ [])) (i + length s) (t ++ 0 ∷ []) ≡ copy m i ((s ++ t) ++ 0 ∷ [])
copy-copy_string m i s [] =
    copy-copy_append m i s 0 [] ∙ ap (copy m i) (sym (append_assoc s [] (0 ∷ [])))
copy-copy_string m i s (x ∷ xs) =
    copy-copy_append m i s x (xs ++ 0 ∷ []) ∙ ap (copy m i) (sym (append_assoc s (x ∷ xs) (0 ∷ [])))

append-IsString : (s t : List ℕ) → IsString s → IsString t → IsString (s ++ t)
append-IsString [] t hs ht = ht
append-IsString (c ∷ s) t hs ht = (hs.0, append-IsString s t hs.1 ht)

take-append_more : (s t : List ℕ) (n : ℕ) → take (length s + n) (s ++ t) ≡ s ++ take n t
take-append_more [] t n = let sum : 0 + n ≡ n = omega arith in rw sum refl
take-append_more (c ∷ s) t n =
    let sum : suc (length s) + n ≡ suc (length s + n) = omega arith in
    rw sum (ap (λ xs. c ∷ xs) (take-append_more s t n))

str_lcpy-lem :
    (dst : ℕ → ℕ) (s : List ℕ) (n : ℕ)
    → IsString s
    → str_lcpy dst s (suc n) ≡ (copy dst 0 (take n s ++ 0 ∷ []), length s)
unfolding str_lcpy
str_lcpy-lem dst s n h =
    let some : ltb 0 (suc n) ≡ true = ground arith in
    let lim : 0 + suc n ≡ suc n = omega arith in
    let total : 0 + length s ≡ length s = omega arith in
    let copied = copied-lem dst 0 n s h in rw some (rw (lim, total) at copied)

-- Appending is a copy from the NUL on.
str_lcat-copy :
    (dst : ℕ → ℕ) (s t : List ℕ) (n : ℕ)
    → IsString s
    → IsString t
    → str_lcat (copy dst 0 (s ++ 0 ∷ [])) t (length s + suc n)
      ≡ ok (copy dst 0 ((s ++ take n t) ++ 0 ∷ []), length s + length t)
unfolding str_lcat
str_lcat-copy dst s t n hs ht =
    let lim : ltb 0 (length s + suc n) ≡ true = ground arith in
    let start : 0 + length s ≡ length s = omega arith in
    let found = memchr-copy dst 0 (length s + suc n) s hs (omega arith) in
    let below : ltb (length s) (length s + suc n) ≡ true = ground arith in
    let joined = copy-copy_string dst 0 s (take n t) in
    rw (lim, (rw start at found), below, copied-lem (copy dst 0 (s ++ 0 ∷ [])) (length s) n t ht)
      (ap (λ m. ok (m, length s + length t)) (rw start at joined))

str_vlcatf-copy :
    (dst : ℕ → ℕ) (s t : List ℕ) (n : ℕ)
    → IsString s
    → length s + length t ≤ int_max
    → str_vlcatf (copy dst 0 (s ++ 0 ∷ [])) (length s + suc n) t
      ≡ ok (copy dst 0 ((s ++ take n t) ++ 0 ∷ []), length s + length t)
unfolding str_vlcatf
str_vlcatf-copy dst s t n hs short =
    let lim : ltb 0 (length s + suc n) ≡ true = ground arith in
    let start : 0 + length s ≡ length s = omega arith in
    let found = memchr-copy dst 0 (length s + suc n + 1) s hs (omega arith) in
    let below : leb (length s) (length s + suc n) ≡ true = ground arith in
    let room : length s + suc n - length s ≡ suc n = omega arith in
    let total : leb (length s + length t) int_max ≡ true = ground arith in
    let joined = copy-copy_string dst 0 s (take n t) in
    rw (lim, (rw start at found), below, room, total)
      (ap (λ m. ok (m, length s + length t)) (rw start at joined))

-- A string that fits with its NUL into `lim` bytes, copied there by str_lcpy, and a second one
-- appended to it by str_lcat, or as the output of a format by str_vlcatf, where both together are
-- no longer than INT_MAX: each leaves the memory and returns the length that str_lcpy of the two
-- as one string does, and fails no assertion. The memory holds as much of them as fits into
-- the bytes before the last, then a NUL, and is as before elsewhere; the length is that of both,
-- whether they fit or not.
pub append-str_lcpy :
    (dst : ℕ → ℕ) (s t : List ℕ) (lim : ℕ)
    → IsString s
    → IsString t
    → length s < lim
    → length s + length t ≤ int_max
    → let all : (ℕ → ℕ) × ℕ =
        (copy dst 0 (take (lim - 1) (s ++ t) ++ 0 ∷ []), length s + length t) in
      (str_lcpy dst (s ++ t) lim ≡ all)
      × (str_lcat ((str_lcpy dst s lim).0) t lim ≡ ok all)
      × (str_vlcatf ((str_lcpy dst s lim).0) lim t ≡ ok all)
append-str_lcpy dst s t lim hs ht lt short = let n = lim - 1 - length s in go n lim (omega arith)
  where
    go :
        (n lim : ℕ)
        → lim ≡ length s + suc n
        → (str_lcpy dst (s ++ t) lim
            ≡ (copy dst 0 (take (lim - 1) (s ++ t) ++ 0 ∷ []), length s + length t))
          × (str_lcat ((str_lcpy dst s lim).0) t lim
              ≡ ok (copy dst 0 (take (lim - 1) (s ++ t) ++ 0 ∷ []), length s + length t))
          × (str_vlcatf ((str_lcpy dst s lim).0) lim t
              ≡ ok (copy dst 0 (take (lim - 1) (s ++ t) ++ 0 ∷ []), length s + length t))
    go n lim e =
        let size : lim ≡ suc (length s + n) = omega arith in
        let minus : suc (length s + n) - 1 ≡ length s + n = omega arith in
        let sum : suc (length s + n) ≡ length s + suc n = omega arith in
        let both = str_lcpy-lem dst (s ++ t) (length s + n) (append-IsString s t hs ht) in
        let first : str_lcpy dst s (suc (length s + n)) ≡ (copy dst 0 (s ++ 0 ∷ []), length s) =
          rw (take_all (length s + n) s (omega arith)) at (str_lcpy-lem dst s (length s + n) hs) in
        rw (size, minus, take-append_more s t n)
          (
            rw (length-append s t, take-append_more s t n) at both,
            rw (first, sum) (str_lcat-copy dst s t n hs ht),
            rw (first, sum) (str_vlcatf-copy dst s t n hs short),
          )
