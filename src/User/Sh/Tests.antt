-- ===== src/User/Sh/Tests.antt =====
-- lab3/xv6-public/sh.c on small lines.
use cs.Prelude.{ℕ, ◌≡◌, ◌⊎◌, refl, arith, List, [], ◌∷◌}
use cs.User.Sh.{
  Cmd, parsed, syntax_error, has_char, skip_space, take_word, token_at, gettoken, peek,
}
use cs.User.Sh.Parser.{
  parsecmd, parseline, parsepipe, parseexec, parseblock, parseredirs, redirs_loop, redirect,
  add_arg, args_loop, back_loop,
}
use cs.User.Sh.Ends.{parsecmd_returns}
use cs.User.Sh.Syntax.{
  Word, words, block, one, piped, alone, seq, Line, to_file, show_line, line_of,
}
use cs.User.Sh.RoundTrip.{parsecmd-show_line}

-- cat<f|(wc
abbrev unclosed : List ℕ
unclosed = b'c' ∷ b'a' ∷ b't' ∷ b'<' ∷ b'f' ∷ b'|' ∷ b'(' ∷ b'w' ∷ b'c' ∷ []

parsecmd_returns_example :
    ((cmd : Cmd) × (parsecmd unclosed ≡ parsed cmd [])) ⊎ (parsecmd unclosed ≡ syntax_error)
parsecmd_returns_example = parsecmd_returns unclosed

unclosed-parsecmd : parsecmd unclosed ≡ syntax_error
unfolding parsecmd parseline parsepipe parseexec parseblock parseredirs redirs_loop redirect add_arg
    args_loop back_loop gettoken token_at take_word skip_space has_char peek
unclosed-parsecmd = refl

abbrev ls : Word
unfolding has_char
ls = record {
  first = b'l';
  others = b's' ∷ [];
  plain = (omega arith, refl, (omega arith, refl, tt));
}

-- ( ls ls > ls ) | ls & ; ls
abbrev small_line : Line
unfolding has_char
small_line =
    seq
      (piped
        (block
          (alone
            (one (
              words []
                (record { word = ls; redirects = [] }
                  ∷ record { word = ls; redirects = to_file ls ∷ [] }
                  ∷ [])
                (omega arith)))
            0)
          [])
        (one (words [] (record { word = ls; redirects = [] } ∷ []) (omega arith))))
      1 (alone (one (words [] (record { word = ls; redirects = [] } ∷ []) (omega arith))) 0)

parsecmd-show_line_example : parsecmd (show_line small_line []) ≡ parsed (line_of small_line) []
parsecmd-show_line_example = parsecmd-show_line small_line
