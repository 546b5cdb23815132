-- ===== src/Base/Bytes.antt =====
-- Go's strings as lists of bytes, for the code that walks its texts: what it uses of the packages
-- strings and strconv. White space is that of ASCII.
use Prim.Native.Nat.{ℕ, zero, suc, ◌+◌, ◌-◌, ◌*◌, ◌≤◌}
use mathlib.Core.Bool.{Bool, true, false, ◌&&◌, ◌||◌}
use mathlib.Core.Option.{Option, none, some}
use mathlib.Core.List.{List, [], ◌∷◌}
use native.Mathlib.Omega.{arith}
use nzb_indexer.Base.Tests.{◌==◌, ltb, leb, if◌then◌else◌}
use nzb_indexer.Base.Lists.{length}
use nzb_indexer.Base.Int.{ℤ, pos, negsuc}

abbrev pub Bytes : Type 0
Bytes = List ℕ

unfoldable pub is_space : ℕ → Bool
is_space b = (leb 9 b && leb b 13) || (b == 32)

unfoldable pub same_bytes : Bytes → Bytes → Bool
same_bytes [] [] = true
same_bytes [] (c ∷ y) = false
same_bytes (b ∷ x) [] = false
same_bytes (b ∷ x) (c ∷ y) = (b == c) && same_bytes x y

-- `strings.CutPrefix`: what follows the prefix, if it is one.
unfoldable pub cut_prefix : Bytes → Bytes → Option Bytes
cut_prefix [] s = some s
cut_prefix (b ∷ x) [] = none
cut_prefix (b ∷ x) (c ∷ s) = let rest = cut_prefix x s in if b == c then rest else none

unfoldable pub trim_left : Bytes → Bytes
trim_left [] = []
trim_left (b ∷ s) = let rest = trim_left s in if is_space b then rest else b ∷ s

abbrev cons_trimmed : ℕ → Bytes → Bytes
cons_trimmed b [] = if is_space b then [] else b ∷ []
cons_trimmed b (c ∷ s) = b ∷ c ∷ s

unfoldable pub trim_end : Bytes → Bytes
trim_end [] = []
trim_end (b ∷ s) = cons_trimmed b (trim_end s)

-- `strings.TrimSpace`
unfoldable pub trim_space : Bytes → Bytes
trim_space s = trim_end (trim_left s)

abbrev push_first : ℕ → List Bytes → List Bytes
push_first b [] = (b ∷ []) ∷ []
push_first b (f ∷ fs) = (b ∷ f) ∷ fs

-- `strings.Split` at a separator of one byte: one field more than there are separators.
unfoldable pub split_on : ℕ → Bytes → List Bytes
split_on sep [] = [] ∷ []
split_on sep (b ∷ s) =
    let rest = split_on sep s in if b == sep then [] ∷ rest else push_first b rest

abbrev keep_field : Bytes → List Bytes → List Bytes
keep_field [] fs = fs
keep_field (b ∷ f) fs = (b ∷ f) ∷ fs

abbrev keep_fields : List Bytes → List Bytes
keep_fields [] = []
keep_fields (f ∷ fs) = keep_field f (keep_fields fs)

unfoldable pub split_space : Bytes → List Bytes
split_space [] = [] ∷ []
split_space (b ∷ s) =
    let rest = split_space s in if is_space b then [] ∷ rest else push_first b rest

-- `strings.Fields`
unfoldable pub fields : Bytes → List Bytes
fields s = keep_fields (split_space s)

-- The value of a numeral of digits alone; none for another byte.
unfoldable pub digits_from : ℕ → Bytes → Option ℕ
digits_from n [] = some n
digits_from n (b ∷ s) =
    let rest = digits_from (n * 10 + (b - 48)) s in if leb 48 b && leb b 57 then rest else none

-- What `strconv.ParseInt(s, 10, 64)` gives: the value, which a range error clamps and a syntax error
-- leaves 0, and whether there was an error.
pub record Parsed : Type 0 where
  pub value : ℤ
  pub failed : Bool

abbrev pub parsed_positive : Option ℕ → Parsed
parsed_positive none = record { value = pos 0; failed = true }
parsed_positive (some n) =
    if ltb n 9223372036854775808
    then record { value = pos n; failed = false }
    else record { value = pos 9223372036854775807; failed = true }

abbrev pub parsed_negative : Option ℕ → Parsed
parsed_negative none = record { value = pos 0; failed = true }
parsed_negative (some zero) = record { value = pos 0; failed = false }
parsed_negative (some (suc n)) =
    if ltb n 9223372036854775808
    then record { value = negsuc n; failed = false }
    else record { value = negsuc 9223372036854775807; failed = true }

abbrev numeral : Bytes → Option ℕ
numeral [] = none
numeral (b ∷ s) = digits_from 0 (b ∷ s)

unfoldable pub parse_int : Bytes → Parsed
parse_int [] = record { value = pos 0; failed = true }
parse_int (b ∷ s) =
    if b == 45
    then parsed_negative (numeral s)
    else if b == 43
    then parsed_positive (numeral s)
    else parsed_positive (numeral (b ∷ s))

pub length-trim_left : (s : Bytes) → length (trim_left s) ≤ length s
unfolding trim_left
length-trim_left [] = omega arith
length-trim_left (b ∷ s) = ground (arith, length-trim_left s)
