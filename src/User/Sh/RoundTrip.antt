-- ===== src/User/Sh/RoundTrip.antt =====
-- lab3/xv6-public/sh.c: the parser on the text of a line.
use cs.Prelude.{
  ℕ, zero, suc, ◌+◌, ◌≤◌, ◌<◌, ◌≡◌, ◌∙◌, refl, ap, arith, false, List, [], ◌∷◌, length,
  length-append,
}
use cs.User.Sh.{
  Cmd, exec, list, back, Parsed, parsed, and_then, max_args, has_char, skip_space, token_at,
  gettoken, peek,
}
use cs.User.Sh.Parser.{parseblock, parseexec, parsepipe, back_loop, parseline, parsecmd}
use cs.User.Sh.Syntax.{
  Redirect, from_file, to_file, append_to, Arg, Simple, words, block, Pipeline, one, piped, Line,
  alone, seq, show_redirects, show_args, show_backs, show_simple, show_pipe, show_line, backs_of,
  simple_of, pipe_of, line_of,
}
use cs.User.Sh.Tokens.{Starts, Follow, peek-Word}
use cs.User.Sh.Words.{
  after_words, after_pipe, after_line, words_end, args_end, args_loop-show_args,
  parseredirs-show_redirects, show_redirects-Starts, show_args-Starts, length-show_redirects,
}

length-show_args :
    (args : List Arg) (r : List ℕ) → length args + length r ≤ length (show_args args r)
length-show_args [] r = omega arith
length-show_args (a ∷ args) r =
    let all = length-append a.word.others (b' ' ∷ show_redirects a.redirects (show_args args r)) in
    omega
      (arith, all, length-show_redirects a.redirects (show_args args r), length-show_args args r)

-- A command of words does not start with a parenthesis.
no_block :
    (xs : List Redirect) (args : List Arg) (r : List ℕ)
    → Follow after_words r
    → peek (show_redirects xs (show_args args r)) (b'(' ∷ []) ≡ false
unfolding peek skip_space has_char
no_block [] [] r h = (words_end r h).2
no_block [] (a ∷ args) r h =
    peek-Word a.word (b' ' ∷ show_redirects a.redirects (show_args args r)) (b'(' ∷ [])
      (λ e. ground (arith, e))
no_block (from_file w ∷ xs) args r h = refl
no_block (to_file w ∷ xs) args r h = refl
no_block (append_to w ∷ xs) args r h = refl

parseexec-words :
    (line : List ℕ → Parsed) (xs : List Redirect) (args : List Arg) (few : length args < max_args)
    (r : List ℕ)
    → Follow after_words r
    → parseexec line (show_redirects xs (show_args args r))
      ≡ parsed (simple_of (words xs args few)) r
unfolding parseexec simple_of
parseexec-words line xs args few r stop =
    let start = show_args-Starts args r (words_end r stop).0 in
    let front =
      parseredirs-show_redirects (exec []) xs (show_args args r) start (args_end args r stop) in
    let rest =
      args_loop-show_args (length (show_args args r) + 1) 0 [] xs args r
        (omega (arith, length-show_args args r)) (omega (arith, few)) stop in
    ground (arith, no_block xs args r stop, front, rest)

show_simple-Starts : (s : Simple) (r : List ℕ) → Starts r → Starts (show_simple s r)
unfolding show_simple skip_space has_char
show_simple-Starts (words xs args few) r h =
    show_redirects-Starts xs (show_args args r) (show_args-Starts args r h)
show_simple-Starts (block l xs) r h = refl

show_pipe-Starts : (p : Pipeline) (r : List ℕ) → Starts r → Starts (show_pipe p r)
unfolding show_pipe skip_space has_char
show_pipe-Starts (one s) r h = show_simple-Starts s r h
show_pipe-Starts (piped s p) r h = show_simple-Starts s (b'|' ∷ b' ' ∷ show_pipe p r) refl

show_backs-Starts : (n : ℕ) (r : List ℕ) → Starts r → Starts (show_backs n r)
unfolding skip_space has_char
show_backs-Starts zero r h = h
show_backs-Starts (suc n) r h = refl

show_line-Starts : (l : Line) (r : List ℕ) → Starts r → Starts (show_line l r)
unfolding show_line skip_space has_char
show_line-Starts (alone p n) r h = show_pipe-Starts p (show_backs n r) (show_backs-Starts n r h)
show_line-Starts (seq p n l) r h =
    show_pipe-Starts p (show_backs n (b';' ∷ b' ' ∷ show_line l r))
      (show_backs-Starts n (b';' ∷ b' ' ∷ show_line l r) refl)

length-show_backs : (n : ℕ) (r : List ℕ) → length r + n ≤ length (show_backs n r)
length-show_backs zero r = omega arith
length-show_backs (suc n) r = omega (arith, length-show_backs n r)

pipe_end :
    (r : List ℕ)
    → Follow after_pipe r
    → Follow after_words r × Starts r × (peek r (b'|' ∷ []) ≡ false)
unfolding skip_space peek has_char
pipe_end [] h = (tt, refl, refl)
pipe_end (c ∷ r) h = (ground (arith, h), ground (arith, h), ground (arith, h))

-- What may follow the '&'s of a line.
abbrev after_backs : List ℕ
after_backs = b')' ∷ b';' ∷ []

backs_end :
    (r : List ℕ)
    → Follow after_backs r
    → Follow after_pipe r × Starts r × (peek r (b'&' ∷ []) ≡ false)
unfolding skip_space peek has_char
backs_end [] h = (tt, refl, refl)
backs_end (c ∷ r) h = (ground (arith, h), ground (arith, h), ground (arith, h))

line_end : (r : List ℕ) → Follow after_line r → Follow after_backs r × (peek r (b';' ∷ []) ≡ false)
unfolding skip_space peek has_char
line_end [] h = (tt, refl)
line_end (c ∷ r) h = (ground (arith, h), ground (arith, h))

show_backs-Follow : (n : ℕ) (r : List ℕ) → Follow after_backs r → Follow after_pipe (show_backs n r)
unfolding has_char
show_backs-Follow zero r h = (backs_end r h).0
show_backs-Follow (suc n) r h = refl

back_loop-show_backs :
    (fuel n : ℕ) (cmd : Cmd) (r : List ℕ)
    → n < fuel
    → Follow after_backs r
    → back_loop fuel cmd (show_backs n r) ≡ parsed (backs_of n cmd) r
unfolding back_loop peek skip_space gettoken token_at has_char
back_loop-show_backs zero n cmd r h stop = absurd (omega (arith, h))
back_loop-show_backs (suc fuel) zero cmd r h stop =
    let (_, start, over) = backs_end r stop in ground (arith, start, over)
back_loop-show_backs (suc fuel) (suc n) cmd r h stop =
    let start = show_backs-Starts n r (backs_end r stop).1 in
    ground (arith, start, back_loop-show_backs fuel n (back cmd) r (omega (arith, h)) stop)

mutual
  unfolding show_simple show_pipe show_line

  length-show_simple : (s : Simple) (r : List ℕ) → length r ≤ length (show_simple s r)
  length-show_simple (words xs args few) r =
      omega (arith, length-show_redirects xs (show_args args r), length-show_args args r)
  length-show_simple (block l xs) r =
      omega
        (arith, length-show_redirects xs r, length-show_line l (b')' ∷ b' ' ∷ show_redirects xs r))

  length-show_pipe : (p : Pipeline) (r : List ℕ) → length r ≤ length (show_pipe p r)
  length-show_pipe (one s) r = length-show_simple s r
  length-show_pipe (piped s p) r =
      omega (arith, length-show_simple s (b'|' ∷ b' ' ∷ show_pipe p r), length-show_pipe p r)

  length-show_line : (l : Line) (r : List ℕ) → length r ≤ length (show_line l r)
  length-show_line (alone p n) r =
      omega (arith, length-show_pipe p (show_backs n r), length-show_backs n r)
  length-show_line (seq p n l) r =
      let after = b';' ∷ b' ' ∷ show_line l r in
      omega (
        arith,
        length-show_pipe p (show_backs n after),
        length-show_backs n after,
        length-show_line l r,
      )

module _ (line : List ℕ → Parsed) (bound : ℕ)
    (line-show_line : (l : Line) (r : List ℕ)
      → length (show_line l r) < bound
      → Follow after_line r
      → line (show_line l r) ≡ parsed (line_of l) r) where
  parseexec-show_simple :
      (s : Simple) (r : List ℕ)
      → length (show_simple s r) ≤ bound
      → Follow after_words r
      → parseexec line (show_simple s r) ≡ parsed (simple_of s) r
  unfolding show_simple simple_of parseexec parseblock peek skip_space gettoken token_at has_char
  parseexec-show_simple (words xs args few) r fits stop = parseexec-words line xs args few r stop
  parseexec-show_simple (block l xs) r fits stop =
      let after = b')' ∷ b' ' ∷ show_redirects xs r in
      let inner = line-show_line l after (omega (arith, fits)) refl in
      let (start, over, _) = words_end r stop in
      let redirs = parseredirs-show_redirects (line_of l) xs r start over in
      ground (arith, inner, redirs, show_line-Starts l after refl, show_redirects-Starts xs r start)

  -- The lengths of what follows a part are part of its length.
  parsepipe-show_pipe :
      (fuel : ℕ) (p : Pipeline) (r : List ℕ)
      → length (show_pipe p r) < fuel
      → length (show_pipe p r) ≤ bound
      → Follow after_pipe r
      → parsepipe line fuel (show_pipe p r) ≡ parsed (pipe_of p) r
  unfolding parsepipe show_pipe pipe_of peek skip_space gettoken token_at has_char
  parsepipe-show_pipe zero p r enough fits stop = absurd (omega (arith, enough))
  parsepipe-show_pipe (suc fuel) (one s) r enough fits stop =
      let (more, start, over) = pipe_end r stop in
      let only = parseexec-show_simple s r fits more in ground (arith, only, start, over)
  parsepipe-show_pipe (suc fuel) (piped s p) r enough fits stop =
      let after = b'|' ∷ b' ' ∷ show_pipe p r in
      let first = parseexec-show_simple s after fits refl in
      let longer = length-show_simple s after in
      let rest =
        parsepipe-show_pipe fuel p r (omega (arith, enough, longer)) (omega (arith, fits, longer))
          stop in
      ground (arith, first, rest, show_pipe-Starts p r (pipe_end r stop).1)

-- The pipeline and the '&'s of a line.
front-show :
    (fuel : ℕ)
    (line-show_line : (l : Line) (r : List ℕ)
      → length (show_line l r) < fuel
      → Follow after_line r
      → parseline fuel (show_line l r) ≡ parsed (line_of l) r)
    (p : Pipeline) (n : ℕ) (r : List ℕ) (rest : Cmd → List ℕ → Parsed)
    → length (show_pipe p (show_backs n r)) ≤ fuel
    → Follow after_backs r
    → and_then
        (parsepipe
          (parseline fuel)
          (length (show_pipe p (show_backs n r)) + 1)
          (show_pipe p (show_backs n r)))
        (λ cmd s. and_then (back_loop (length s + 1) cmd s) rest)
      ≡ rest (backs_of n (pipe_of p)) r
front-show fuel line-show_line p n r rest fits stop =
    let s = show_backs n r in
    let pipeline =
      parsepipe-show_pipe (parseline fuel) fuel line-show_line (length (show_pipe p s) + 1) p s
        (omega arith) fits (show_backs-Follow n r stop) in
    let backs =
      back_loop-show_backs (length s + 1) n (pipe_of p) r (omega (arith, length-show_backs n r))
        stop in
    ap (λ x. and_then x (λ cmd s'. and_then (back_loop (length s' + 1) cmd s') rest)) pipeline
    ∙ ap (λ x. and_then x rest) backs

parseline-show_line :
    (fuel : ℕ) (l : Line) (r : List ℕ)
    → length (show_line l r) < fuel
    → Follow after_line r
    → parseline fuel (show_line l r) ≡ parsed (line_of l) r
unfolding parseline show_line line_of peek skip_space gettoken token_at has_char
parseline-show_line zero l r h stop = absurd (omega (arith, h))
parseline-show_line (suc fuel) (alone p n) r h stop =
    let (more, over) = line_end r stop in
    front-show fuel (λ l' r' less stop'. parseline-show_line fuel l' r' less stop') p n r _
      (omega (arith, h)) more
    ∙ ground (arith, over, (backs_end r more).1)
parseline-show_line (suc fuel) (seq p n l) r h stop =
    let after = b';' ∷ b' ' ∷ show_line l r in
    let longer = length-show_pipe p (show_backs n after) in
    let start = show_line-Starts l r (backs_end r (line_end r stop).0).1 in
    let rest =
      parseline-show_line fuel l r (omega (arith, h, longer, length-show_backs n after)) stop in
    front-show fuel (λ l' r' less stop'. parseline-show_line fuel l' r' less stop') p n after _
      (omega (arith, h)) refl
    ∙ ap
        (λ t.
          and_then (parseline fuel t) (λ right s. parsed (list (backs_of n (pipe_of p)) right) s))
        start
    ∙ ap (λ x. and_then x (λ right s. parsed (list (backs_of n (pipe_of p)) right) s)) rest

-- A line of the shell's grammar, written with a space after each token, is parsed to the command
-- that it stands for: lists, pipes, background commands, lines in parentheses, and commands of
-- fewer than 10 words, with redirections in front of, between and behind the words.
pub parsecmd-show_line : (l : Line) → parsecmd (show_line l []) ≡ parsed (line_of l) []
unfolding parsecmd skip_space
parsecmd-show_line l =
    let whole = parseline-show_line (length (show_line l []) + 1) l [] (omega arith) tt in
    ground (arith, whole)
