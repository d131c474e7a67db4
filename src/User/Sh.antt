-- ===== src/User/Sh.antt =====
-- lab3/xv6-public/sh.c: the parser of the shell, on what is left of the line.
-- `eq` marks where nulterminate ends the text that starts at `q`, so that a token here is the text
-- between them; a panic ends the shell's child with a message.
pub mod Parser
pub mod Ends
pub mod Syntax
pub mod Tokens
pub mod Words
pub mod RoundTrip
mod Tests
use cs.Prelude.{
  ℕ, zero, suc, ◌+◌, Bool, true, false, ◌||◌, not, ◌&&◌, List, [], ◌∷◌, ◌++◌, if◌then◌else◌, ◌==◌,
  leb,
}

-- `EXEC` to `BACK`, with `argv`, the file's name, `mode` and `fd`.
pub data Cmd : Type 0 where
  exec : List (List ℕ) → Cmd
  redir : Cmd → List ℕ → ℕ → ℕ → Cmd
  pipe : Cmd → Cmd → Cmd
  list : Cmd → Cmd → Cmd
  back : Cmd → Cmd

-- What a function of the parser gives: the command and where `*ps` is.
pub data Parsed : Type 0 where
  parsed : Cmd → List ℕ → Parsed
  syntax_error : Parsed
  out_of_fuel : Parsed

-- The rest of a function, after a call that may not return.
abbrev pub and_then : Parsed → (Cmd → List ℕ → Parsed) → Parsed
and_then (parsed cmd s) f = f cmd s
and_then syntax_error f = syntax_error
and_then out_of_fuel f = out_of_fuel

abbrev pub max_args : ℕ
max_args = 10

abbrev pub o_rdonly : ℕ
o_rdonly = 0

-- `O_WRONLY|O_CREATE`
abbrev pub o_write_create : ℕ
o_write_create = 513

abbrev pub whitespace : List ℕ
whitespace = b' ' ∷ 9 ∷ 13 ∷ 10 ∷ 11 ∷ []

abbrev pub symbols : List ℕ
symbols = b'<' ∷ b'|' ∷ b'>' ∷ b'&' ∷ b';' ∷ b'(' ∷ b')' ∷ []

-- `strchr(s, c)` as a condition.
unfoldable pub has_char : List ℕ → ℕ → Bool
has_char [] c = false
has_char (a ∷ s) c = (a == c) || has_char s c

-- `while (s < es && strchr(whitespace, *s)) s++;`
unfoldable pub skip_space : List ℕ → List ℕ
skip_space [] = []
skip_space (c ∷ s) = let rest = skip_space s in if has_char whitespace c then rest else c ∷ s

-- The characters of a word, and what follows it.
unfoldable pub take_word : List ℕ → List ℕ × List ℕ
take_word [] = ([], [])
take_word (c ∷ s) =
    let (word, rest) = take_word s in
    if not (has_char whitespace c) && not (has_char symbols c)
    then (c ∷ word, rest)
    else ([], c ∷ s)

abbrev pub starts_with : ℕ → List ℕ → Bool
starts_with c [] = false
starts_with c (a ∷ s) = a == c

abbrev pub tail : List ℕ → List ℕ
tail [] = []
tail (a ∷ s) = s

-- The switch of gettoken: `ret`, the text from `*q` to `*eq`, and `s`.
unfoldable pub token_at : List ℕ → ℕ × List ℕ × List ℕ
token_at [] = (0, [], [])
token_at (c ∷ s) =
    let (word, rest) = take_word (c ∷ s) in
    if has_char (b'|' ∷ b'(' ∷ b')' ∷ b';' ∷ b'&' ∷ b'<' ∷ []) c
    then (c, c ∷ [], s)
    else if c == b'>'
    then (if starts_with b'>' s then (b'+', b'>' ∷ b'>' ∷ [], tail s) else (c, c ∷ [], s))
    else (b'a', word, rest)

unfoldable pub gettoken : List ℕ → ℕ × List ℕ × List ℕ
gettoken s = let (ret, word, rest) = token_at (skip_space s) in (ret, word, skip_space rest)

-- The answer of peek; `*ps` is then `skip_space s`.
unfoldable pub peek : List ℕ → List ℕ → Bool
peek s toks = elim (skip_space s) [ [] ↦ false | c ∷ rest ↦ has_char toks c ]
