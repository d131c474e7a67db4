-- ===== src/User/Sh/Syntax.antt =====
-- lab3/xv6-public/sh.c: the lines that the shell is meant to read, and the commands they stand for.
use cs.Prelude.{ℕ, zero, suc, ◌<◌, ◌≡◌, Bool, true, not, ◌&&◌, List, [], ◌∷◌, ◌++◌, length}
use cs.User.Sh.{
  Cmd, exec, redir, pipe, list, back, max_args, o_rdonly, o_write_create, whitespace, symbols,
  has_char,
}

abbrev pub is_plain : ℕ → Bool
is_plain c = not (has_char whitespace c) && not (has_char symbols c)

abbrev pub AllPlain : List ℕ → Type 0
AllPlain [] = Unit {0}
AllPlain (c ∷ s) = (0 < c) × (is_plain c ≡ true) × AllPlain s

-- A word: one character at least, none of them a space or a symbol.
pub record Word : Type 0 where
  pub first : ℕ
  pub others : List ℕ
  pub plain : AllPlain (first ∷ others)

abbrev pub text : Word → List ℕ
text w = w.first ∷ w.others

pub data Redirect : Type 0 where
  from_file to_file append_to : Word → Redirect

-- A word of a command, and the redirections behind it.
pub record Arg : Type 0 where
  pub word : Word
  pub redirects : List Redirect

mutual
  pub data Simple : Type 0 where
    words : List Redirect → (args : List Arg) → length args < max_args → Simple
    block : Line → List Redirect → Simple

  pub data Pipeline : Type 0 where
    one : Simple → Pipeline
    piped : Simple → Pipeline → Pipeline

  -- With the number of its '&'.
  pub data Line : Type 0 where
    alone : Pipeline → ℕ → Line
    seq : Pipeline → ℕ → Line → Line

-- The text of each part with `r` behind it, a space after each token.
abbrev pub show_redirect : Redirect → List ℕ → List ℕ
show_redirect (from_file w) r = b'<' ∷ b' ' ∷ (text w ++ b' ' ∷ r)
show_redirect (to_file w) r = b'>' ∷ b' ' ∷ (text w ++ b' ' ∷ r)
show_redirect (append_to w) r = b'>' ∷ b'>' ∷ b' ' ∷ (text w ++ b' ' ∷ r)

abbrev pub show_redirects : List Redirect → List ℕ → List ℕ
show_redirects [] r = r
show_redirects (x ∷ xs) r = show_redirect x (show_redirects xs r)

abbrev pub show_args : List Arg → List ℕ → List ℕ
show_args [] r = r
show_args (a ∷ rest) r = text a.word ++ b' ' ∷ show_redirects a.redirects (show_args rest r)

abbrev pub show_backs : ℕ → List ℕ → List ℕ
show_backs zero r = r
show_backs (suc n) r = b'&' ∷ b' ' ∷ show_backs n r

unfoldable mutual
  pub show_simple : Simple → List ℕ → List ℕ
  show_simple (words xs args few) r = show_redirects xs (show_args args r)
  show_simple (block l xs) r = b'(' ∷ b' ' ∷ show_line l (b')' ∷ b' ' ∷ show_redirects xs r)

  pub show_pipe : Pipeline → List ℕ → List ℕ
  show_pipe (one s) r = show_simple s r
  show_pipe (piped s p) r = show_simple s (b'|' ∷ b' ' ∷ show_pipe p r)

  pub show_line : Line → List ℕ → List ℕ
  show_line (alone p n) r = show_pipe p (show_backs n r)
  show_line (seq p n l) r = show_pipe p (show_backs n (b';' ∷ b' ' ∷ show_line l r))

-- The command that each part stands for.
abbrev pub redirect_of : Cmd → Redirect → Cmd
redirect_of cmd (from_file w) = redir cmd (text w) o_rdonly 0
redirect_of cmd (to_file w) = redir cmd (text w) o_write_create 1
redirect_of cmd (append_to w) = redir cmd (text w) o_write_create 1

abbrev pub redirects_of : Cmd → List Redirect → Cmd
redirects_of cmd [] = cmd
redirects_of cmd (x ∷ xs) = redirects_of (redirect_of cmd x) xs

abbrev pub texts : List Arg → List (List ℕ)
texts [] = []
texts (a ∷ rest) = text a.word ∷ texts rest

abbrev pub all_redirects : List Arg → List Redirect
all_redirects [] = []
all_redirects (a ∷ rest) = a.redirects ++ all_redirects rest

abbrev pub backs_of : ℕ → Cmd → Cmd
backs_of zero cmd = cmd
backs_of (suc n) cmd = backs_of n (back cmd)

unfoldable mutual
  pub simple_of : Simple → Cmd
  simple_of (words xs args few) = redirects_of (exec (texts args)) (xs ++ all_redirects args)
  simple_of (block l xs) = redirects_of (line_of l) xs

  pub pipe_of : Pipeline → Cmd
  pipe_of (one s) = simple_of s
  pipe_of (piped s p) = pipe (simple_of s) (pipe_of p)

  pub line_of : Line → Cmd
  line_of (alone p n) = backs_of n (pipe_of p)
  line_of (seq p n l) = list (backs_of n (pipe_of p)) (line_of l)
