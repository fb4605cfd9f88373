-- ===== src/Base64.antt =====
-- AppChat_Again/Pods/FirebaseDatabase/Firebase/Database/third_party/SocketRocket/fbase64.c: the
-- base 64 encoder and decoder of the web socket client. A string is the list of its characters
-- without the terminator.
use app_chat_again.Prelude.Words.{u8}
use mathlib.Core.Option.{Option}
use app_chat_again.Prelude.{
  ◌∷◌, bit_or, suc, length, not, ◌||◌, ltb, false, ◌++◌, ◌&&◌, ◌==◌, ◌*◌, ◌^◌, true, leb, get_or,
  ◌+◌, ◌/◌, set, bit_and, none, Bool, some, if◌then◌else◌, [], Option, ℕ, List,
}
pub mod Alphabet
pub mod Encode
pub mod Description
pub mod RoundTrip
use mathlib.Core.Option
use Prim.Native.Char.{code}
use Prim.Native.String.{String}
use Prim.Native.String

abbrev codes : String → List ℕ
codes String.[] = []
codes (String.◌∷◌ c s) = code c ∷ codes s

-- The table Base64.
unfoldable pub table : List ℕ
table = codes "ABCDEFGHIJKLMNOPQRSTUVWXYZabcdefghijklmnopqrstuvwxyz0123456789+/"

-- Base64[digit]
unfoldable pub char_of : ℕ → ℕ
unfolding table
char_of digit = get_or table digit 0

abbrev pub pad64 : ℕ
pad64 = b'='

-- `strchr(chars, ch) - chars`, with `none` for NULL.
unfoldable pub index_of : ℕ → List ℕ → Option ℕ
index_of ch [] = none
index_of ch (c ∷ cs) = if c == ch then some 0 else Option.map suc (index_of ch cs)

unfoldable pub digit_of : ℕ → Option ℕ
unfolding table index_of
digit_of ch = index_of ch table

-- `isspace` in the C locale.
unfoldable pub is_space : ℕ → Bool
is_space ch = ch == 32 || (leb 9 ch && leb ch 13)

-- The four digits of three bytes.
abbrev pub digit0 : ℕ → ℕ
digit0 a = a / 2 ^ 2

abbrev pub digit1 : ℕ → ℕ → ℕ
digit1 a b = bit_and a 0x03 * 2 ^ 4 + b / 2 ^ 4

abbrev pub digit2 : ℕ → ℕ → ℕ
digit2 b c = bit_and b 0x0f * 2 ^ 2 + c / 2 ^ 6

abbrev pub digit3 : ℕ → ℕ
digit3 c = bit_and c 0x3f

-- The characters of three bytes, of two and of one.
unfoldable pub group3 : ℕ → ℕ → ℕ → List ℕ
unfolding char_of
group3 a b c =
    char_of (digit0 a) ∷ char_of (digit1 a b) ∷ char_of (digit2 b c) ∷ char_of (digit3 c) ∷ []

unfoldable pub group2 : ℕ → ℕ → List ℕ
unfolding char_of
group2 a b = char_of (digit0 a) ∷ char_of (digit1 a b) ∷ char_of (digit2 b 0) ∷ pad64 ∷ []

unfoldable pub group1 : ℕ → List ℕ
unfolding char_of
group1 a = char_of (digit0 a) ∷ char_of (digit1 a 0) ∷ pad64 ∷ pad64 ∷ []

-- What follows the loop and the padding: the terminator, and the number of characters before it.
-- The answer is the returned number, `none` for -1, and what was written to the target.
unfoldable pub terminate : List ℕ → ℕ → Option ℕ × List ℕ
terminate target targsize =
    if leb targsize (length target)
    then (none, target)
    else (some (length target), target ++ (0 ∷ []))

abbrev pub group_full : List ℕ → ℕ → Bool
group_full target targsize = ltb targsize (length target + 4)

-- The loop of f_b64_ntop and its padding; `target` is what has been written.
unfoldable pub ntop_from : List ℕ → List ℕ → ℕ → Option ℕ × List ℕ
unfolding terminate
ntop_from [] target targsize = terminate target targsize
ntop_from (a ∷ []) target targsize =
    if group_full target targsize then (none, target) else terminate (target ++ group1 a) targsize
ntop_from (a ∷ b ∷ []) target targsize =
    if group_full target targsize then (none, target) else terminate (target ++ group2 a b) targsize
ntop_from (a ∷ b ∷ c ∷ src) target targsize =
    let rest = ntop_from src (target ++ group3 a b c) targsize in
    if group_full target targsize then (none, target) else rest

unfoldable pub f_b64_ntop : List ℕ → ℕ → Option ℕ × List ℕ
unfolding ntop_from
f_b64_ntop src targsize = ntop_from src [] targsize

-- The variable `state` of f_b64_pton: how many digits of a group have been read.
pub data State : Type 0 where
  none_read one_read two_read three_read : State

-- The target is NULL or an array; a digit is stored in it, or there is no room.
abbrev pub or_in : List ℕ → ℕ → ℕ → List ℕ
or_in target i bits = set target i (u8 (bit_or (get_or target i 0) bits))

unfoldable pub store_digit : State → ℕ → ℕ → ℕ → List ℕ → Option (List ℕ)
store_digit none_read digit targsize i target =
    if leb targsize i then none else some (set target i (u8 (digit * 2 ^ 2)))
store_digit one_read digit targsize i target =
    if leb targsize (i + 1)
    then none
    else some (set (or_in target i (digit / 2 ^ 4)) (i + 1) (u8 (bit_and digit 0x0f * 2 ^ 4)))
store_digit two_read digit targsize i target =
    if leb targsize (i + 1)
    then none
    else some (set (or_in target i (digit / 2 ^ 2)) (i + 1) (u8 (bit_and digit 0x03 * 2 ^ 6)))
store_digit three_read digit targsize i target =
    if leb targsize i then none else some (or_in target i digit)

unfoldable pub put_digit : State → ℕ → ℕ → ℕ → Option (List ℕ) → Option (Option (List ℕ))
unfolding store_digit
put_digit state digit targsize i none = some none
put_digit state digit targsize i (some target) =
    Option.map some (store_digit state digit targsize i target)

abbrev pub next_state : State → State
next_state none_read = one_read
next_state one_read = two_read
next_state two_read = three_read
next_state three_read = none_read

-- `tarindex++` in every state but the first.
abbrev pub next_index : State → ℕ → ℕ
next_index none_read i = i
next_index one_read i = i + 1
next_index two_read i = i + 1
next_index three_read i = i + 1

unfoldable pub all_space : List ℕ → Bool
unfolding is_space
all_space [] = true
all_space (ch ∷ src) = is_space ch && all_space src

-- `target && target[tarindex] != 0`
abbrev pub slopped : Option (List ℕ) → ℕ → Bool
slopped none i = false
slopped (some target) i = not (get_or target i 0 == 0)

-- Nothing but space may follow the padding, and no bits may be lost.
unfoldable pub after_pad : List ℕ → ℕ → Option (List ℕ) → Option ℕ
unfolding all_space
after_pad src i target = if all_space src && not (slopped target i) then some i else none

-- Behind one `=`: spaces, and another one.
unfoldable pub second_pad : List ℕ → ℕ → Option (List ℕ) → Option ℕ
unfolding after_pad
second_pad [] i target = none
second_pad (ch ∷ src) i target =
    if is_space ch
    then second_pad src i target
    else if ch == pad64
    then after_pad src i target
    else none

unfoldable pub at_pad : State → List ℕ → ℕ → Option (List ℕ) → Option ℕ
unfolding second_pad
at_pad none_read src i target = none
at_pad one_read src i target = none
at_pad two_read src i target = second_pad src i target
at_pad three_read src i target = after_pad src i target

-- At the end of the string.
abbrev pub at_end : State → ℕ → Option ℕ
at_end none_read i = some i
at_end one_read i = none
at_end two_read i = none
at_end three_read i = none

-- The loop of f_b64_pton and what follows it. The answer is the returned number, `none` for -1,
-- and the target.
unfoldable pub pton_from : ℕ → State → ℕ → Option (List ℕ) → List ℕ → Option ℕ × Option (List ℕ)
unfolding put_digit at_pad digit_of
pton_from targsize state i target [] = (at_end state i, target)
pton_from targsize state i target (ch ∷ src) =
    let skipped = pton_from targsize state i target src in
    if is_space ch
    then skipped
    else if ch == pad64
    then (at_pad state src i target, target)
    else elim (digit_of ch) [
      | none ↦ (none, target)
      | some digit ↦ elim (put_digit state digit targsize i target) [
        | none ↦ (none, target)
        | some target' ↦ pton_from targsize (next_state state) (next_index state i) target' src
      ]
    ]

unfoldable pub f_b64_pton : List ℕ → Option (List ℕ) → ℕ → Option ℕ × Option (List ℕ)
unfolding pton_from
f_b64_pton src target targsize = pton_from targsize none_read 0 target src
