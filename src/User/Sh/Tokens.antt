-- ===== src/User/Sh/Tokens.antt =====
-- lab3/xv6-public/sh.c: gettoken and peek on the text of a line.
use cs.Prelude.{ℕ, ◌≡◌, refl, arith, true, false, List, [], ◌∷◌, ◌++◌}
use cs.User.Sh.{symbols, has_char, skip_space, take_word, token_at, gettoken, peek}
use cs.User.Sh.Syntax.{AllPlain, Word, text}

-- No space stands in front.
abbrev pub Starts : List ℕ → Type 0
Starts s = skip_space s ≡ s

-- The text is over, or goes on with one of the characters.
abbrev pub Follow : List ℕ → List ℕ → Type 0
Follow toks [] = Unit {0}
Follow toks (c ∷ r) = has_char toks c ≡ true

pub Word-Starts : (w : Word) (s : List ℕ) → Starts (text w ++ s)
unfolding skip_space
Word-Starts w s = let (pos, plain, _) = w.plain in ground (arith, plain)

pub take_word-plain : (t s : List ℕ) → AllPlain t → take_word (t ++ b' ' ∷ s) ≡ (t, b' ' ∷ s)
unfolding take_word has_char
take_word-plain [] s h = refl
take_word-plain (c ∷ t) s (pos, plain, h) = ground (arith, plain, take_word-plain t s h)

pub skip_space-space : (s : List ℕ) → Starts s → skip_space (b' ' ∷ s) ≡ s
unfolding skip_space has_char
skip_space-space s h = h

pub gettoken-Word :
    (w : Word) (s : List ℕ) → Starts s → gettoken (text w ++ b' ' ∷ s) ≡ (b'a', text w, s)
unfolding gettoken token_at has_char
gettoken-Word w s h =
    let (pos, plain, _) = w.plain in
    let word = take_word-plain (text w) s w.plain in
    ground (arith, plain, word, Word-Starts w (b' ' ∷ s), skip_space-space s h)

-- peek finds no symbol at a word.
pub peek-Word :
    (w : Word) (s toks : List ℕ)
    → (has_char symbols w.first ≡ false → has_char toks w.first ≡ false)
    → peek (text w ++ s) toks ≡ false
unfolding peek
peek-Word w s toks h = let (pos, plain, _) = w.plain in ground (arith, plain, Word-Starts w s, h)
