-- ===== src/Base/Text.antt =====
-- What the source uses of Go's `strings` and of `strconv`. A text is the native `String`, whose
-- `len`, `slice` and `find?` count the bytes of its UTF-8, as Go's do.
use Prim.Native.Nat.{ℕ, zero, suc, ◌+◌, ◌-◌, ◌/◌, ◌%◌}
use Prim.Native.Char.{Char, code}
use Prim.Native.String.{String, [], ◌∷◌, ◌++◌}
use Prim.Native.String
use text.Mathlib.Text.{◌==◌, find?, starts_with}
use mathlib.Core.List.{List, [] as []ᴸ, ◌∷◌ as ◌∷ᴸ◌}
use mathlib.Core.Bool.{Bool, true, false, ◌&&◌, ◌||◌}
use mathlib.Core.Option.{Option, none, some}
use agent_claw.Base.Tests.{leb, eqb, ltb, if◌then◌else◌}

-- `unicode.IsSpace`.
abbrev pub is_space : Char → Bool
is_space c =
    let n = code c in
    (leb 9 n && leb n 13)
    || eqb n 32
    || eqb n 0x85
    || eqb n 0xa0
    || eqb n 0x1680
    || (leb 0x2000 n && leb n 0x200a)
    || eqb n 0x2028
    || eqb n 0x2029
    || eqb n 0x202f
    || eqb n 0x205f
    || eqb n 0x3000

trim_left : String → String
trim_left [] = []
trim_left (c ∷ s) = let rest = trim_left s in if is_space c then rest else c ∷ s

trim_right : String → String
trim_right [] = []
trim_right (c ∷ s) = let rest = trim_right s in if is_space c && rest == "" then "" else c ∷ rest

-- `strings.TrimSpace`.
unfoldable pub trim_space : String → String
unfolding trim_left trim_right
trim_space s = trim_right (trim_left s)

-- Two texts of one length as a table of characters.
mapped : Char → String → String → Char
mapped c (d ∷ from) (e ∷ onto) =
    let rest = mapped c from onto in if eqb (code c) (code d) then e else rest
mapped c _ _ = c

-- `unicode.ToUpper` at the characters whose upper case is an ASCII letter or has another number of bytes; the source
-- looks for ASCII words in what `strings.ToUpper` gives and uses their places, so the others may stay as they are.
upper : Char → Char
unfolding mapped
upper c =
    mapped c "abcdefghijklmnopqrstuvwxyzıſȿɀɐɑɒɜɡɥɦɪɫɬɱɽʂʇʝʞᲀᲁᲂᲃᲄᲅᲆᲇιⱥⱦ"
      "ABCDEFGHIJKLMNOPQRSTUVWXYZISⱾⱿⱯⱭⱰꞫꞬꞍꞪꞮⱢꞭⱮⱤꟅꞱꞲꞰВДОСТТЪѢΙȺȾ"

-- `strings.ToUpper`.
unfoldable pub to_upper : String → String
unfolding upper
to_upper [] = []
to_upper (c ∷ s) = upper c ∷ to_upper s

-- `unicode.ToLower` at the characters whose lower case is an ASCII letter.
lower : Char → Char
unfolding mapped
lower c = mapped c "ABCDEFGHIJKLMNOPQRSTUVWXYZKİ" "abcdefghijklmnopqrstuvwxyzki"

-- `strings.ToLower`, for a search of ASCII words.
unfoldable pub to_lower : String → String
unfolding lower
to_lower [] = []
to_lower (c ∷ s) = lower c ∷ to_lower s

take_runes : ℕ → String → String
take_runes zero s = []
take_runes (suc n) [] = []
take_runes (suc n) (c ∷ s) = c ∷ take_runes n s

-- The first n runes of a text and an ellipsis, or the text if it is not longer.
unfoldable pub truncate_with : String → String → ℕ → String
unfolding take_runes
truncate_with ellipsis s n = if leb (String.count s) n then s else take_runes n s ++ ellipsis

-- `strings.Contains`.
unfoldable pub contains : String → String → Bool
contains s t = elim (find? s t) [ none ↦ false | some i ↦ true ]

decimal : ℕ → ℕ → String
decimal zero n = ""
decimal (suc f) n =
    let digit = String.slice "0123456789" (n % 10) (n % 10 + 1) in
    let front = decimal f (n / 10) in if ltb n 10 then digit else front ++ digit

-- `%d` of `fmt`, at a number that is not negative: it has at most as many digits as its value + 1.
unfoldable pub itoa : ℕ → String
unfolding decimal
itoa n = decimal (suc n) n

push_char : Char → List String → List String
push_char c (part ∷ᴸ parts) = (c ∷ part) ∷ᴸ parts
push_char c []ᴸ = (c ∷ []) ∷ᴸ []ᴸ

-- The parts of a text between separators; so many characters are still those of a separator.
split_from : String → ℕ → String → List String
unfolding push_char
split_from sep skip [] = [] ∷ᴸ []ᴸ
split_from sep (suc skip) (c ∷ s) = split_from sep skip s
split_from sep zero (c ∷ s) =
    let after = split_from sep (String.count sep - 1) s in
    let within = split_from sep zero s in
    if starts_with (c ∷ s) sep then [] ∷ᴸ after else push_char c within

-- `strings.Split`, at a separator that is not empty.
unfoldable pub split : String → String → List String
unfolding split_from
split s sep = split_from sep zero s

-- `strings.TrimPrefix`.
unfoldable pub trim_prefix : String → String → String
trim_prefix s prefix =
    if starts_with s prefix then String.slice s (String.len prefix) (String.len s) else s

-- `strings.HasSuffix`.
unfoldable pub has_suffix : String → String → Bool
has_suffix s suffix =
    leb (String.len suffix) (String.len s)
    && String.slice s (String.len s - String.len suffix) (String.len s) == suffix

hex_digits : ℕ → String
hex_digits n =
    String.slice "0123456789abcdef" (n / 16) (n / 16 + 1)
    ++ String.slice "0123456789abcdef" (n % 16) (n % 16 + 1)

quoted_char : Char → String
unfolding hex_digits
quoted_char c =
    let n = code c in
    if eqb n 34
    then "\\\""
    else if eqb n 92
    then "\\\\"
    else if eqb n 7
    then "\\a"
    else if eqb n 8
    then "\\b"
    else if eqb n 12
    then "\\f"
    else if eqb n 10
    then "\\n"
    else if eqb n 13
    then "\\r"
    else if eqb n 9
    then "\\t"
    else if eqb n 11
    then "\\v"
    else if ltb n 32 || eqb n 127
    then "\\x" ++ hex_digits n
    else c ∷ []

quoted_chars : String → String
unfolding quoted_char
quoted_chars [] = []
quoted_chars (c ∷ s) = quoted_char c ++ quoted_chars s

-- `%q` of `fmt`, for a text whose other characters are printable.
unfoldable pub quote : String → String
unfolding quoted_chars
quote s = "\"" ++ quoted_chars s ++ "\""

-- `strings.TrimSpace(s[i:])`; the slice panics where `i` is beyond the end. A character that `i` cuts is left out, where Go keeps its last
-- bytes.
unfoldable pub trimmed_from : String → ℕ → Option String
trimmed_from s i =
    if leb i (String.len s) then some (trim_space (String.slice s i (String.len s))) else none
