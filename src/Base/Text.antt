-- ===== src/Base/Text.antt =====
-- The functions of Go's package strings that the program uses. Letter case is that of ASCII; white
-- space is that of `unicode.IsSpace`. `slices.Sort` and `slices.Compact` are here for strings.
use Prim.Native.Nat.{ℕ, ◌+◌, ◌-◌, compare as compare_ℕ, Ordering}
use Prim.Native.Char.{Char, char, code}
use Prim.Native.String.{String, [], ◌∷◌, ◌++◌, compare}
use mathlib.Core.Path.{◌≡◌, refl}
use mathlib.Core.Bool.{Bool, true, false, ◌&&◌, ◌||◌}
use mathlib.Core.List.{List}
use dnssec_keyrotation.Base.Sorting.{sort_by, insert_by}
use dnssec_keyrotation.Base.Tests.{leb, nat_eq, string_eq, ◌==◌, if◌then◌else◌}

small_char : (n : ℕ) (o : Ordering) → compare_ℕ n 55296 ≡ o → Char → Char
small_char n Ordering.lt e d = char n (rw e tt)
small_char n Ordering.eq e d = d
small_char n Ordering.gt e d = d

-- The character with a number below the surrogates, and else the default.
char_of : ℕ → Char → Char
unfolding small_char
char_of n d = small_char n (compare_ℕ n 55296) refl d

lower_char : Char → Char
unfolding char_of
lower_char c = if leb b'A' (code c) && leb (code c) b'Z' then char_of (code c + 32) c else c

upper_char : Char → Char
unfolding char_of
upper_char c = if leb b'a' (code c) && leb (code c) b'z' then char_of (code c - 32) c else c

unfoldable pub to_lower : String → String
unfolding lower_char
to_lower [] = []
to_lower (c ∷ s) = lower_char c ∷ to_lower s

unfoldable pub to_upper : String → String
unfolding upper_char
to_upper [] = []
to_upper (c ∷ s) = upper_char c ∷ to_upper s

-- `strings.EqualFold`
unfoldable pub equal_fold : String → String → Bool
unfolding to_lower
equal_fold a b = to_lower a == to_lower b

unfoldable pub is_space : Char → Bool
is_space c =
    let n = code c in
    (leb 9 n && leb n 13)
    || (n == 32)
    || (n == 0x85)
    || (n == 0xa0)
    || (n == 0x1680)
    || (leb 0x2000 n && leb n 0x200a)
    || (n == 0x2028)
    || (n == 0x2029)
    || (n == 0x202f)
    || (n == 0x205f)
    || (n == 0x3000)

trim_left : String → String
unfolding is_space
trim_left [] = []
trim_left (c ∷ s) = let rest = trim_left s in if is_space c then rest else c ∷ s

trim_right : String → String
unfolding is_space
trim_right [] = []
trim_right (c ∷ s) = let rest = trim_right s in if is_space c && rest == [] then [] else c ∷ rest

-- `strings.HasPrefix(s, prefix)`
unfoldable pub has_prefix : String → String → Bool
has_prefix [] s = true
has_prefix (c ∷ prefix) [] = false
has_prefix (c ∷ prefix) (d ∷ s) = let rest = has_prefix prefix s in (code c == code d) && rest

-- `len(s)`: the bytes of the UTF-8 form
unfoldable pub byte_length : String → ℕ
byte_length [] = 0
byte_length (c ∷ s) =
    let rest = byte_length s in
    if leb (code c) 0x7f
    then 1 + rest
    else if leb (code c) 0x7ff
    then 2 + rest
    else if leb (code c) 0xffff
    then 3 + rest
    else 4 + rest

-- `strings.TrimSpace`
unfoldable pub trim_space : String → String
unfolding trim_left trim_right
trim_space s = trim_right (trim_left s)

-- `strings.TrimSuffix(s, ".")`
unfoldable pub trim_dot : String → String
trim_dot [] = []
trim_dot (c ∷ s) = let rest = trim_dot s in if code c == b'.' && s == [] then [] else c ∷ rest

abbrev add_word : String → List String → List String
add_word [] words = words
add_word (c ∷ s) words = List.◌∷◌ (c ∷ s) words

-- The word that a text begins with, and the words after it.
words : String → String × List String
unfolding is_space
words [] = ([], List.[])
words (c ∷ s) =
    let (word, rest) = words s in if is_space c then ([], add_word word rest) else (c ∷ word, rest)

-- `strings.Fields`
unfoldable pub fields : String → List String
unfolding words
fields s = let (word, rest) = words s in add_word word rest

-- `strings.Join`
unfoldable pub join : List String → String → String
join List.[] separator = []
join (List.◌∷◌ s List.[]) separator = s
join (List.◌∷◌ s rest) separator = s ++ separator ++ join rest separator

-- `strings.ContainsAny(s, "\r\n")`
unfoldable pub has_line_break : String → Bool
has_line_break [] = false
has_line_break (c ∷ s) = (code c == 10) || (code c == 13) || has_line_break s

abbrev pub text_le : String → String → Bool
text_le s t = elim (compare s t) [ Ordering.gt ↦ false | _ ↦ true ]

-- `slices.Sort`
unfoldable pub sort : List String → List String
unfolding sort_by
sort = sort_by text_le

-- `slices.Compact`: of equal neighbours the first is kept
unfoldable pub compact : List String → List String
compact (List.◌∷◌ s (List.◌∷◌ t rest)) =
    let kept = compact (List.◌∷◌ t rest) in if s == t then kept else List.◌∷◌ s kept
compact short = short

lowered : to_lower "ExAmple.ORG." ≡ "example.org."
unfolding to_lower
lowered = refl

trimmed : trim_dot (trim_space "  a.b. ") ≡ "a.b"
unfolding trim_dot trim_space
trimmed = refl

split_words :
    fields "257  3 13 abc " ≡ List.◌∷◌ "257" (List.◌∷◌ "3" (List.◌∷◌ "13" (List.◌∷◌ "abc" List.[])))
unfolding fields
split_words = refl

sorted :
    compact (sort (List.◌∷◌ "b" (List.◌∷◌ "a" (List.◌∷◌ "b" List.[]))))
    ≡ List.◌∷◌ "a" (List.◌∷◌ "b" List.[])
unfolding sort sort_by insert_by compact
sorted = refl
