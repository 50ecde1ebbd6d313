-- ===== src/Strlib.antt =====
-- libs/strlib/strlib.c. A destination is memory from offset 0 on. A source is the list of the bytes
-- before its NUL.
pub mod Strings
mod Examples
use amast.Common.{
  ℕ, zero, suc, ◌+◌, ◌-◌, ◌*◌, Bool, ltb, leb, ◌==◌, if◌then◌else◌, List, [], ◌∷◌, ◌++◌, length,
  take, copy, Option, none, some, update, Checked, ok, fault, check, ◌>>=◌, ◌>>◌,
}

-- strlen, and the loop at the end of str_lcpy and str_lcat
unfoldable pub strlen : List ℕ → ℕ
strlen [] = 0
strlen (c ∷ s) = let rest = strlen s in if c == 0 then 0 else rest + 1

-- memchr of a NUL in the `count` bytes from `from` on
unfoldable pub memchr : (dst : ℕ → ℕ) → (from count : ℕ) → Option ℕ
memchr dst from zero = none
memchr dst from (suc count) =
    let rest = memchr dst (suc from) count in if dst from == 0 then some from else rest

-- The copying loop of str_lcpy and str_lcat: memory, where `d` stops, and what is left of the
-- source if the loop ran out of room. Then the last byte becomes a NUL.
unfoldable pub copy_loop :
    (dst : ℕ → ℕ) → (d lim : ℕ) → (s : List ℕ) → (ℕ → ℕ) × ℕ × Option (List ℕ)
copy_loop dst d lim [] = (update dst d 0, suc d, none)
copy_loop dst d lim (c ∷ s) =
    let copied = update dst d c in
    let rest = copy_loop copied (suc d) lim s in
    if c == 0
    then (copied, suc d, none)
    else if ltb (suc d) lim
    then rest
    else (update copied (suc d - 1) 0, suc d, some s)

-- The result of the two functions: the memory, and the length of the string they tried to create.
abbrev pub copied_length : (ℕ → ℕ) × ℕ × Option (List ℕ) → (ℕ → ℕ) × ℕ
copied_length (dst, d, none) = (dst, d - 1)
copied_length (dst, d, some s) = (dst, d + strlen s)

unfoldable pub str_lcpy : (dst : ℕ → ℕ) → (src : List ℕ) → (lim : ℕ) → (ℕ → ℕ) × ℕ
str_lcpy dst src lim =
    if ltb 0 lim then copied_length (copy_loop dst 0 lim src) else (dst, strlen src)

abbrev pub append_at : (dst : ℕ → ℕ) → (src : List ℕ) → (lim : ℕ) → Option ℕ → (ℕ → ℕ) × ℕ
append_at dst src lim none = (dst, lim + strlen src)
append_at dst src lim (some d) =
    if ltb d lim then copied_length (copy_loop dst d lim src) else (dst, lim + strlen src)

unfoldable pub str_lcat : (dst : ℕ → ℕ) → (src : List ℕ) → (lim : ℕ) → Checked ((ℕ → ℕ) × ℕ)
str_lcat dst src lim = do check (ltb 0 lim); ok (append_at dst src lim (memchr dst 0 lim))

abbrev pub int_max : ℕ
int_max = 2147483647

-- vsnprintf at `d` with room for `size` bytes, of a format that gives `output`
abbrev pub vsnprintf : (dst : ℕ → ℕ) → (d size : ℕ) → (output : List ℕ) → (ℕ → ℕ) × ℕ
vsnprintf dst d zero output = (dst, length output)
vsnprintf dst d (suc n) output = (copy dst d (take n output ++ 0 ∷ []), length output)

-- str_vlcatf after the call of strlen, which finds no NUL in `lim + 1` bytes if the string in `dst`
-- is longer than the assertion that follows it allows
abbrev pub format_at :
    (dst : ℕ → ℕ) → (lim : ℕ) → (output : List ℕ) → Option ℕ → Checked ((ℕ → ℕ) × ℕ)
format_at dst lim output none = fault
format_at dst lim output (some len) = do
  check (leb len lim)
  let printed = vsnprintf dst len (lim - len) output
  check (leb (len + printed.1) int_max)
  ok (printed.0, len + printed.1)

unfoldable pub str_vlcatf : (dst : ℕ → ℕ) → (lim : ℕ) → (output : List ℕ) → Checked ((ℕ → ℕ) × ℕ)
str_vlcatf dst lim output = do check (ltb 0 lim); format_at dst lim output (memchr dst 0 (lim + 1))
