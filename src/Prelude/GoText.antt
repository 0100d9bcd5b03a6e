-- ===== src/Prelude/GoText.antt =====
-- What the program uses of Go's packages strings, strconv and fmt, on texts as code points.
use Prim.Native.Char.{Char, code}
use Prim.Native.String
use Prim.Native.String.{String, []}
use Prim.Native.Nat.{ℕ, zero, suc, ◌+◌, ◌-◌, ◌*◌, ◌/◌, ◌%◌, ◌^◌}
use mathlib.Core.Bool.{Bool, true, false, ◌&&◌, ◌||◌, not}
use mathlib.Core.Option.{Option, none, some}
use text.Mathlib.Text.{◌==◌}
use order_hub.Prelude.Tests.{ltb, leb, nat_eq, if◌then◌else◌}
use order_hub.Prelude.Int.{ℤ, pos, negsuc, sub_ℕ}

-- `unicode.IsSpace`.
abbrev pub is_space : ℕ → Bool
is_space c =
    (leb 9 c && leb c 13)
    || nat_eq c 32
    || nat_eq c 0x85
    || nat_eq c 0xA0
    || nat_eq c 0x1680
    || (leb 0x2000 c && leb c 0x200A)
    || nat_eq c 0x2028
    || nat_eq c 0x2029
    || nat_eq c 0x202F
    || nat_eq c 0x205F
    || nat_eq c 0x3000

unfoldable pub trim_left : String → String
trim_left [] = []
trim_left (String.◌∷◌ c s) = if is_space (code c) then trim_left s else String.◌∷◌ c s

unfoldable pub trim_right : String → String
trim_right [] = []
trim_right (String.◌∷◌ c s) =
    let rest = trim_right s in if is_space (code c) && rest == "" then [] else String.◌∷◌ c rest

-- `strings.TrimSpace`.
abbrev pub trim_space : String → String
trim_space s = trim_left (trim_right s)

-- `strings.HasPrefix`.
unfoldable pub has_prefix : String → String → Bool
has_prefix s [] = true
has_prefix [] (String.◌∷◌ d p) = false
has_prefix (String.◌∷◌ c s) (String.◌∷◌ d p) = nat_eq (code c) (code d) && has_prefix s p

unfoldable pub drop_prefix : String → String → String
drop_prefix s [] = s
drop_prefix [] (String.◌∷◌ d p) = []
drop_prefix (String.◌∷◌ c s) (String.◌∷◌ d p) = drop_prefix s p

-- `strings.TrimPrefix`.
abbrev pub trim_prefix : String → String → String
trim_prefix s p = if has_prefix s p then drop_prefix s p else s

-- `strings.Contains`.
unfoldable pub contains : String → String → Bool
contains [] p = p == ""
contains (String.◌∷◌ c s) p = has_prefix (String.◌∷◌ c s) p || contains s p

-- The `k`-th code point of an ASCII text, as a text.
abbrev letter_of : String → ℕ → String
letter_of letters k = String.slice letters k (suc k)

-- `strings.ToLower` and `strings.ToUpper` on the letters of ASCII; the others stay.
abbrev lower : Char → String
lower c =
    if leb 65 (code c) && leb (code c) 90
    then letter_of "abcdefghijklmnopqrstuvwxyz" (code c - 65)
    else String.◌∷◌ c []

abbrev upper : Char → String
upper c =
    if leb 97 (code c) && leb (code c) 122
    then letter_of "ABCDEFGHIJKLMNOPQRSTUVWXYZ" (code c - 97)
    else String.◌∷◌ c []

unfoldable pub to_lower : String → String
to_lower [] = []
to_lower (String.◌∷◌ c s) = String.◌++◌ (lower c) (to_lower s)

unfoldable pub to_upper : String → String
to_upper [] = []
to_upper (String.◌∷◌ c s) = String.◌++◌ (upper c) (to_upper s)

-- `%d` of a number that is not negative; the fuel is more than its digits.
unfoldable pub show_from : ℕ → ℕ → String
show_from zero n = []
show_from (suc fuel) n =
    let longer = String.◌++◌ (show_from fuel (n / 10)) (letter_of "0123456789" (n % 10)) in
    if ltb n 10 then letter_of "0123456789" n else longer

unfoldable pub show : ℕ → String
show n = show_from (suc n) n

-- `%02d`.
unfoldable pub show_two : ℕ → String
show_two n = if ltb n 10 then String.◌++◌ "0" (show n) else show n

-- The digits of a number, read behind `n`; the reading ends where a uint64 is left.
unfoldable pub digits : String → ℕ → Option ℕ
digits [] n = some n
digits (String.◌∷◌ c s) n =
    let m = n * 10 + (code c - 48) in
    let rest = digits s m in
    if not (leb 48 (code c) && leb (code c) 57)
    then none
    else if ltb m (2 ^ 64)
    then rest
    else some m

abbrev pub max_int : ℕ
max_int = 2 ^ 63 - 1

-- What `strconv.ParseInt` returns for a text in base 10: the value, and whether there is no error.
-- A value out of range is the nearest in range, with an error.
abbrev signed : Bool → Option ℕ → ℤ × Bool
signed negative none = (pos 0, false)
signed false (some n) = if leb n max_int then (pos n, true) else (pos max_int, false)
signed true (some n) = if leb n (suc max_int) then (sub_ℕ 0 n, true) else (negsuc max_int, false)

abbrev magnitude : String → Option ℕ
magnitude [] = none
magnitude (String.◌∷◌ c s) = digits (String.◌∷◌ c s) 0

unfoldable pub parse_int : String → ℤ × Bool
parse_int [] = (pos 0, false)
parse_int (String.◌∷◌ c s) =
    if nat_eq (code c) 45
    then signed true (magnitude s)
    else if nat_eq (code c) 43
    then signed false (magnitude s)
    else signed false (magnitude (String.◌∷◌ c s))

-- `strconv.Atoi` where the error is dropped.
abbrev pub atoi : String → ℤ
atoi s = (parse_int s).0
