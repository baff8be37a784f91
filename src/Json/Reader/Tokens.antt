-- ===== src/Json/Reader/Tokens.antt =====
-- The tokens of ttw/json/reader.cc, the sets of them that may come next, and `scan`.
use ttw.Prelude.{
  ℕ, zero, suc, Bool, false, not, ◌||◌, ◌&&◌, List, [], ◌∷◌, leb, ◌==◌, if◌then◌else◌, length,
}
use ttw.Prelude.Text.{Bytes}

pub data Token : Type 0 where
  object_begin object_end array_begin array_end token_string token_number token_null : Token
  token_true token_false token_separator token_colon token_eof token_error : Token

-- The bit of a token in `m_nextLegalPunctuation`.
unfoldable pub bit : Token → ℕ
bit object_begin = 0
bit object_end = 1
bit array_begin = 2
bit array_end = 3
bit token_string = 4
bit token_number = 5
bit token_null = 6
bit token_true = 7
bit token_false = 8
bit token_separator = 9
bit token_colon = 10
bit token_eof = 11
bit token_error = 12

abbrev pub Legal : Type 0
Legal = Token → Bool

-- The mask of some tokens, and its complement.
unfoldable pub only : List Token → Legal
unfolding bit
only [] t = false
only (x ∷ xs) t = bit x == bit t || only xs t

unfoldable pub all_but : List Token → Legal
unfolding only
all_but xs t = not (only xs t)

-- The bytes that `scan` hands to `skipSpaces`, and those that `skipSpaces` passes.
unfoldable pub is_space : ℕ → Bool
is_space c = c == b' ' || c == b'\n' || c == b'\t' || c == 8 || c == 12

unfoldable pub skip_spaces : Bytes → Bytes
unfolding is_space
skip_spaces [] = []
skip_spaces (c ∷ cs) = if is_space c || c == b'\r' then skip_spaces cs else c ∷ cs

unfoldable pub is_digit : ℕ → Bool
is_digit c = leb b'0' c && leb c b'9'

-- The cases of `scan` but for spaces: 5 is no case.
unfoldable pub classify : ℕ → Token
unfolding is_digit
classify c =
    if c == b'-' || (is_digit c && not (c == b'5'))
    then token_number
    else if c == b'f'
    then token_false
    else if c == b't'
    then token_true
    else if c == b'n'
    then token_null
    else if c == b'"'
    then token_string
    else if c == b','
    then token_separator
    else if c == b':'
    then token_colon
    else if c == b'['
    then array_begin
    else if c == b']'
    then array_end
    else if c == b'{'
    then object_begin
    else if c == b'}'
    then object_end
    else token_error

-- The loop of `scan`, on fuel; a round that goes on has passed a space.
unfoldable pub scan_loop : ℕ → Bytes → Token × Bytes
unfolding is_space skip_spaces classify
scan_loop zero rest = (token_error, rest)
scan_loop (suc f) [] = (token_eof, [])
scan_loop (suc f) (c ∷ cs) =
    let again = scan_loop f (skip_spaces (c ∷ cs)) in
    if is_space c then again else (classify c, c ∷ cs)

unfoldable pub scan : Bytes → Token × Bytes
unfolding scan_loop
scan rest = scan_loop (suc (length rest)) rest
