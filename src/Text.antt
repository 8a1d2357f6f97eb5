-- ===== src/Text.antt =====
-- The texts that the framework builds and inspects: joining, stripping, prefixes and suffixes.
use Prim.Native.Char.{code}
use Prim.Native.Nat.{◌%◌}
use Prim.Native.String.{◌++◌ as text_append}
use mathlib.Core.List.{reverse}
use cloudify_system_tests.Prelude.{
  ltb, ◌/◌, zero, ◌-◌, length, suc, Option, none, some, ◌==◌, ℕ, String, Bool, true, false, ◌&&◌,
  ◌||◌, List, [], ◌∷◌, leb, if◌then◌else◌,
}

-- `'{}…{}'.format(…)` with the parts in order
abbrev pub concat : List String → String
concat [] = ""
concat (t ∷ ts) = text_append t (concat ts)

-- `sep.join(ts)`
unfoldable pub join : String → List String → String
join sep [] = ""
join sep (t ∷ []) = t
join sep (t ∷ ts) = text_append t (text_append sep (join sep ts))

abbrev pub codes : String → List ℕ
codes String.[] = []
codes (String.◌∷◌ c s) = code c ∷ codes s

-- The code points that `str.strip` removes.
unfoldable is_space : ℕ → Bool
is_space c =
    (leb 9 c && leb c 13)
    || (leb 28 c && leb c 32)
    || (leb 0x85 c && leb c 0x85)
    || (leb 0xa0 c && leb c 0xa0)
    || (leb 0x1680 c && leb c 0x1680)
    || (leb 0x2000 c && leb c 0x200a)
    || (leb 0x2028 c && leb c 0x2029)
    || (leb 0x202f c && leb c 0x202f)
    || (leb 0x205f c && leb c 0x205f)
    || (leb 0x3000 c && leb c 0x3000)

unfoldable lstrip : List ℕ → List ℕ
unfolding is_space
lstrip [] = []
lstrip (c ∷ cs) = let rest = lstrip cs in if is_space c then rest else c ∷ cs

unfoldable pub starts_with : List ℕ → List ℕ → Bool
starts_with cs [] = true
starts_with [] (p ∷ ps) = false
starts_with (c ∷ cs) (p ∷ ps) = (leb c p && leb p c) && starts_with cs ps

-- `text.strip().endswith(suffix)`, for a suffix that begins and ends with no space
unfoldable pub ends_stripped : String → String → Bool
unfolding lstrip starts_with
ends_stripped text suffix = starts_with (lstrip (reverse (codes text))) (reverse (codes suffix))

-- `needle in text`
unfoldable pub occurs : List ℕ → List ℕ → Bool
unfolding starts_with
occurs needle [] = starts_with [] needle
occurs needle (c ∷ cs) = starts_with (c ∷ cs) needle || occurs needle cs

abbrev pub text_in : String → String → Bool
text_in needle text = occurs (codes needle) (codes text)

-- `text.strip() == other`, for an `other` that begins and ends with no space
unfoldable pub strip : List ℕ → List ℕ
unfolding lstrip
strip cs = reverse (lstrip (reverse (lstrip cs)))

unfoldable equal_codes : List ℕ → List ℕ → Bool
equal_codes [] [] = true
equal_codes (c ∷ cs) (d ∷ ds) = (leb c d && leb d c) && equal_codes cs ds
equal_codes _ _ = false

unfoldable pub stripped_is : String → String → Bool
unfolding strip equal_codes
stripped_is text other = equal_codes (strip (codes text)) (codes other)

-- `text.split()`: the words between the spaces; `word` is the one that is being read
abbrev flush : String → List String → List String
flush word rest = if word == "" then rest else word ∷ rest

unfoldable split_from : String → String → List String
unfolding is_space
split_from word String.[] = flush word []
split_from word (String.◌∷◌ c s) =
    let next = split_from "" s in
    let same = split_from (text_append word (String.◌∷◌ c String.[])) s in
    if is_space (code c) then flush word next else same

unfoldable pub split : String → List String
unfolding split_from
split text = split_from "" text

-- `s.rsplit(c, 1)` of a text that has the character: what stands before its last occurrence, and after
unfoldable pub split_last : ℕ → String → Option (String × String)
split_last c String.[] = none
split_last c (String.◌∷◌ d s) = elim (split_last c s) [
  | some (before, after) ↦ some (String.◌∷◌ d before, after)
  | none ↦ if leb c (code d) && leb (code d) c then some ("", s) else none
]

-- `s.replace(old, new)`, for an `old` that is not empty; the number says how many characters are left
-- of an occurrence that has been replaced
unfoldable pub replace_from : String → String → ℕ → String → String
unfolding starts_with
replace_from old new skipped String.[] = ""
replace_from old new (suc skipped) (String.◌∷◌ c s) = replace_from old new skipped s
replace_from old new zero (String.◌∷◌ c s) =
    let after = replace_from old new (length (codes old) - 1) s in
    let kept = replace_from old new zero s in
    if starts_with (codes (String.◌∷◌ c s)) (codes old)
    then text_append new after
    else String.◌∷◌ c kept

-- `s.split(c)[0]`: what stands before the first occurrence of the character, or the whole text
unfoldable pub split_first : ℕ → String → String
split_first c String.[] = ""
split_first c (String.◌∷◌ d s) =
    let rest = split_first c s in if leb c (code d) && leb (code d) c then "" else String.◌∷◌ d rest

abbrev nth : ℕ → List String → String
nth n [] = ""
nth zero (t ∷ ts) = t
nth (suc n) (t ∷ ts) = nth n ts

unfoldable pub digit : ℕ → String
digit d = nth d ("0" ∷ "1" ∷ "2" ∷ "3" ∷ "4" ∷ "5" ∷ "6" ∷ "7" ∷ "8" ∷ "9" ∷ [])

-- `str(n)`: a number has fewer digits than its value, but for zero, so that this is fuel enough
unfoldable pub str_from : ℕ → ℕ → String
unfolding digit
str_from zero n = digit n
str_from (suc fuel) n =
    let before = str_from fuel (n / 10) in
    if ltb n 10 then digit n else text_append before (digit (n % 10))

unfoldable pub str : ℕ → String
unfolding str_from
str n = str_from n n

-- `s.lstrip()` and `s.rstrip()`
unfoldable pub strip_start : String → String
unfolding is_space
strip_start String.[] = ""
strip_start (String.◌∷◌ c s) =
    let rest = strip_start s in if is_space (code c) then rest else String.◌∷◌ c s

unfoldable pub strip_end : String → String
unfolding is_space
strip_end String.[] = ""
strip_end (String.◌∷◌ c s) =
    let rest = strip_end s in if rest == "" && is_space (code c) then "" else String.◌∷◌ c rest

-- `s.strip()`
unfoldable pub strip_text : String → String
strip_text s = strip_end (strip_start s)

abbrev on_first : (String → String) → List String → List String
on_first f [] = []
on_first f (t ∷ ts) = f t ∷ ts

-- `s.split(c)`, for one character: always at least one part
unfoldable pub split_on : ℕ → String → List String
split_on c String.[] = "" ∷ []
split_on c (String.◌∷◌ d s) =
    let parts = split_on c s in
    if leb c (code d) && leb (code d) c then "" ∷ parts else on_first (String.◌∷◌ d) parts

-- `s[n:]`
unfoldable pub drop : ℕ → String → String
drop zero s = s
drop (suc n) String.[] = ""
drop (suc n) (String.◌∷◌ c s) = drop n s
