-- ===== src/Strings.antt =====
-- The class String of socketapi/tdstrings.h, tdstrings.icc and tdstrings.cc, with the number
-- formats of the C library that the sources use. A String holds NULL or a C string; the model's
-- `Text` is `none` for NULL, or the bytes in front of the terminating NUL, none of which is NUL.
-- A position is an Option: `none` stands for the result -1.
pub mod Decimal
pub mod Search
pub mod Slices
pub mod Strip
pub mod Order
pub mod Setting
mod Tests
use Prim.Native.Nat.{compare, Ordering}
use socketapi.Prelude.{
  ℕ, zero, suc, ◌+◌, ◌-◌, ◌%◌, ◌^◌, min, Bool, true, false, not, ◌&&◌, ◌||◌, List, [], ◌∷◌, ◌++◌,
  map, Option, none, some, Bytes, ltb, leb, ◌==◌, if◌then◌else◌, length, get_or, take, drop,
}

abbrev pub Text : Type 0
Text = Option Bytes

-- What a loop over Data reads in front of the terminating NUL.
abbrev pub chars : Text → Bytes
chars none = []
chars (some s) = s

unfoldable pub string_length : Text → ℕ
string_length none = 0
string_length (some s) = length s

pub is_null : Text → Bool
is_null none = true
is_null (some s) = false

-- `while (Data[position] != c)`, up to and with the NUL.
pub index_from : Bytes → ℕ → ℕ → Option ℕ
index_from [] c position = if 0 == c then some position else none
index_from (x ∷ s) c position = if x == c then some position else index_from s c (position + 1)

unfoldable pub index : Text → ℕ → Option ℕ
unfolding index_from
index none c = none
index (some s) c = index_from s c 0

-- The loop of rindex, which starts on the NUL and ends below position 0.
pub rindex_from : Bytes → ℕ → ℕ → Option ℕ
rindex_from s c zero = if get_or s 0 0 == c then some 0 else none
rindex_from s c (suc p) = if get_or s (suc p) 0 == c then some (suc p) else rindex_from s c p

unfoldable pub rindex : Text → ℕ → Option ℕ
unfolding rindex_from
rindex none c = none
rindex (some s) c = rindex_from s c (length s)

pub is_prefix : Bytes → Bytes → Bool
is_prefix [] s = true
is_prefix (c ∷ p) [] = false
is_prefix (c ∷ p) (x ∷ s) = x == c && is_prefix p s

-- strstr, from a position on.
pub find_from : Bytes → Bytes → ℕ → Option ℕ
unfolding is_prefix
find_from p [] position = if is_prefix p [] then some position else none
find_from p (x ∷ s) position =
    if is_prefix p (x ∷ s) then some position else find_from p s (position + 1)

unfoldable pub find : Text → Text → Option ℕ
unfolding find_from
find none p = none
find (some s) none = none
find (some s) (some p) = find_from p s 0

-- tolower and toupper of the C locale.
pub to_lower_char : ℕ → ℕ
to_lower_char c = if leb b'A' c && leb c b'Z' then c + 32 else c

pub to_upper_char : ℕ → ℕ
to_upper_char c = if leb b'a' c && leb c b'z' then c - 32 else c

unfoldable pub to_lower : Text → Bytes
unfolding to_lower_char
to_lower t = map to_lower_char (chars t)

unfoldable pub to_upper : Text → Bytes
unfolding to_upper_char
to_upper t = map to_upper_char (chars t)

unfoldable pub left : Text → ℕ → Bytes
unfolding string_length
left t max_chars = take (min (string_length t) max_chars) (chars t)

unfoldable pub mid : Text → ℕ → ℕ → Bytes
unfolding string_length
mid t start max_chars =
    if leb (string_length t) start
    then []
    else take (min (string_length t - start) max_chars) (drop start (chars t))

-- The overload with one argument.
unfoldable pub mid_from : Text → ℕ → Bytes
unfolding mid
mid_from t start = mid t start 0xffff_ffff

unfoldable pub right : Text → ℕ → Bytes
unfolding string_length
right t max_chars =
    let len = min (string_length t) max_chars in take len (drop (string_length t - len) (chars t))

-- `while ((Data[i] == ' ') && (i < strlen))`: the final i.
pub skip_front : Bytes → ℕ
skip_front [] = 0
skip_front (x ∷ s) = if x == b' ' then suc (skip_front s) else 0

-- `while ((j >= i) && (Data[j] == ' '))`, on j + 1, which is never negative: the final j + 1.
pub skip_back : Bytes → ℕ → ℕ → ℕ
skip_back s i zero = 0
skip_back s i (suc j) = if leb i j && get_or s j 0 == b' ' then skip_back s i j else suc j

-- The receiver's Data is read, so it is not NULL.
unfoldable pub strip_white_space : Bytes → Bytes
unfolding mid skip_front skip_back
strip_white_space s = let i = skip_front s in mid (some s) i (skip_back s i (length s) - i)

-- The value s2 with the quotes round it taken off; length - 2 is a card32.
pub unquote : Bytes → Bytes
unquote s2 =
    if get_or s2 0 0 == b'"' && get_or s2 (length s2 - 1) 0 == b'"'
    then mid (some s2) 1 ((length s2 + 2 ^ 32 - 2) % 2 ^ 32)
    else s2

-- The two parts of a setting, before the quotes are looked at.
pub setting_name : Text → ℕ → Bytes
setting_name t found = to_upper (some (strip_white_space (left t found)))

pub setting_value : Text → ℕ → Bytes
setting_value t found = strip_white_space (right t (string_length t - found - 1))

-- What follows once '=' is found behind the first byte: s1 and s2 are written in any case.
pub scan_parts : Bytes → Bytes → Bool × Text × Text
scan_parts s1 s2 =
    if ltb 0 (length s1) && ltb 0 (length s2)
    then (true, some s1, some (unquote s2))
    else (false, some s1, some s2)

unfoldable pub scan_setting : Text → Text → Text → Bool × Text × Text
scan_setting t s1 s2 = elim (index t b'=') [
  | none ↦ (false, s1, s2)
  | some found ↦
      if leb 1 found
      then scan_parts (setting_name t found) (setting_value t found)
      else (false, s1, s2)
]

-- strcmp: the order of the first bytes that differ, the NUL being below all others.
unfoldable pub strcmp : Bytes → Bytes → Ordering
strcmp [] [] = Ordering.eq
strcmp [] (y ∷ t) = Ordering.lt
strcmp (x ∷ s) [] = Ordering.gt
strcmp (x ∷ s) (y ∷ t) = elim (compare x y) [
  | Ordering.lt ↦ Ordering.lt
  | Ordering.eq ↦ strcmp s t
  | Ordering.gt ↦ Ordering.gt
]

unfoldable pub string_compare : Text → Text → Ordering
unfolding strcmp
string_compare none none = Ordering.eq
string_compare none (some t) = Ordering.lt
string_compare (some s) none = Ordering.gt
string_compare (some s) (some t) = strcmp s t

-- The operators ==, != , <, <=, > and >=.
unfoldable pub eq_text : Text → Text → Bool
eq_text a b = elim (string_compare a b) [ Ordering.eq ↦ true | _ ↦ false ]

pub ne_text : Text → Text → Bool
ne_text a b = elim (string_compare a b) [ Ordering.eq ↦ false | _ ↦ true ]

pub lt_text : Text → Text → Bool
lt_text a b = elim (string_compare a b) [ Ordering.lt ↦ true | _ ↦ false ]

pub le_text : Text → Text → Bool
le_text a b = elim (string_compare a b) [ Ordering.gt ↦ false | _ ↦ true ]

pub gt_text : Text → Text → Bool
gt_text a b = elim (string_compare a b) [ Ordering.gt ↦ true | _ ↦ false ]

pub ge_text : Text → Text → Bool
ge_text a b = elim (string_compare a b) [ Ordering.lt ↦ false | _ ↦ true ]

-- operator+: strcpy and strcat into a buffer of the two lengths.
unfoldable pub plus : Text → Text → Text
plus a b = some (chars a ++ chars b)
