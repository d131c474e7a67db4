-- ===== src/User/Sh/Words.antt =====
-- lab3/xv6-public/sh.c: parseredirs and the loop of parseexec on the text of a command.
use cs.Prelude.{
  ℕ, zero, suc, ◌+◌, ◌≤◌, ◌<◌, ◌≡◌, ◌∙◌, refl, sym, ap, ap₂, arith, false, List, [], ◌∷◌, ◌++◌,
  length, length-append,
}
use mathlib.Core.List.{append-nil, append_assoc}
use cs.User.Sh.{Cmd, exec, parsed, max_args, has_char, skip_space, token_at, gettoken, peek}
use cs.User.Sh.Parser.{redirect, redirs_loop, parseredirs, add_arg, args_loop}
use cs.User.Sh.Syntax.{
  Word, text, Redirect, from_file, to_file, append_to, Arg, show_redirect, show_redirects,
  show_args, redirect_of, redirects_of, texts, all_redirects,
}
use cs.User.Sh.Tokens.{Starts, Follow, Word-Starts, gettoken-Word, peek-Word}

show_redirect-Starts : (x : Redirect) (r : List ℕ) → Starts (show_redirect x r)
unfolding skip_space has_char
show_redirect-Starts (from_file w) r = refl
show_redirect-Starts (to_file w) r = refl
show_redirect-Starts (append_to w) r = refl

pub show_redirects-Starts :
    (xs : List Redirect) (r : List ℕ) → Starts r → Starts (show_redirects xs r)
show_redirects-Starts [] r h = h
show_redirects-Starts (x ∷ xs) r h = show_redirect-Starts x (show_redirects xs r)

pub show_args-Starts : (args : List Arg) (r : List ℕ) → Starts r → Starts (show_args args r)
show_args-Starts [] r h = h
show_args-Starts (a ∷ args) r h =
    Word-Starts a.word (b' ' ∷ show_redirects a.redirects (show_args args r))

-- One round of parseredirs.
redirs_loop-redirect :
    (fuel : ℕ) (cmd : Cmd) (x : Redirect) (r : List ℕ)
    → Starts r
    → redirs_loop (suc fuel) cmd (show_redirect x r) ≡ redirs_loop fuel (redirect_of cmd x) r
unfolding redirs_loop peek skip_space has_char redirect gettoken token_at
redirs_loop-redirect fuel cmd (from_file w) r h =
    ground (arith, gettoken-Word w r h, Word-Starts w (b' ' ∷ r))
redirs_loop-redirect fuel cmd (to_file w) r h =
    ground (arith, gettoken-Word w r h, Word-Starts w (b' ' ∷ r))
redirs_loop-redirect fuel cmd (append_to w) r h =
    ground (arith, gettoken-Word w r h, Word-Starts w (b' ' ∷ r))

pub length-show_redirects :
    (xs : List Redirect) (r : List ℕ) → length xs + length r ≤ length (show_redirects xs r)
length-show_redirects [] r = omega arith
length-show_redirects (from_file w ∷ xs) r =
    let all = length-append (text w) (b' ' ∷ show_redirects xs r) in
    omega (arith, all, length-show_redirects xs r)
length-show_redirects (to_file w ∷ xs) r =
    let all = length-append (text w) (b' ' ∷ show_redirects xs r) in
    omega (arith, all, length-show_redirects xs r)
length-show_redirects (append_to w ∷ xs) r =
    let all = length-append (text w) (b' ' ∷ show_redirects xs r) in
    omega (arith, all, length-show_redirects xs r)

redirs_loop-end :
    (fuel : ℕ) (cmd : Cmd) (r : List ℕ)
    → peek r (b'<' ∷ b'>' ∷ []) ≡ false
    → redirs_loop (suc fuel) cmd r ≡ parsed cmd (skip_space r)
unfolding redirs_loop
redirs_loop-end fuel cmd r over = ground (arith, over)

redirs_loop-show_redirects :
    (fuel : ℕ) (cmd : Cmd) (xs : List Redirect) (r : List ℕ)
    → length xs < fuel
    → Starts r
    → peek r (b'<' ∷ b'>' ∷ []) ≡ false
    → redirs_loop fuel cmd (show_redirects xs r) ≡ parsed (redirects_of cmd xs) r
redirs_loop-show_redirects zero cmd xs r h start over = absurd (omega (arith, h))
redirs_loop-show_redirects (suc fuel) cmd [] r h start over =
    redirs_loop-end fuel cmd r over ∙ ap (parsed cmd) start
redirs_loop-show_redirects (suc fuel) cmd (x ∷ xs) r h start over =
    redirs_loop-redirect fuel cmd x (show_redirects xs r) (show_redirects-Starts xs r start)
    ∙ redirs_loop-show_redirects fuel (redirect_of cmd x) xs r (omega (arith, h)) start over

pub parseredirs-show_redirects :
    (cmd : Cmd) (xs : List Redirect) (r : List ℕ)
    → Starts r
    → peek r (b'<' ∷ b'>' ∷ []) ≡ false
    → parseredirs cmd (show_redirects xs r) ≡ parsed (redirects_of cmd xs) r
unfolding parseredirs
parseredirs-show_redirects cmd xs r start over =
    redirs_loop-show_redirects (length (show_redirects xs r) + 1) cmd xs r
      (omega (arith, length-show_redirects xs r)) start over

redirects_of-append :
    (cmd : Cmd) (xs ys : List Redirect)
    → redirects_of cmd (xs ++ ys) ≡ redirects_of (redirects_of cmd xs) ys
redirects_of-append cmd [] ys = refl
redirects_of-append cmd (x ∷ xs) ys = redirects_of-append (redirect_of cmd x) xs ys

add_arg-redirect_of :
    (cmd : Cmd) (x : Redirect) (q : List ℕ)
    → add_arg (redirect_of cmd x) q ≡ redirect_of (add_arg cmd q) x
unfolding add_arg
add_arg-redirect_of cmd (from_file w) q = refl
add_arg-redirect_of cmd (to_file w) q = refl
add_arg-redirect_of cmd (append_to w) q = refl

add_arg-redirects_of :
    (cmd : Cmd) (xs : List Redirect) (q : List ℕ)
    → add_arg (redirects_of cmd xs) q ≡ redirects_of (add_arg cmd q) xs
add_arg-redirects_of cmd [] q = refl
add_arg-redirects_of cmd (x ∷ xs) q =
    add_arg-redirects_of (redirect_of cmd x) xs q
    ∙ ap (λ c. redirects_of c xs) (add_arg-redirect_of cmd x q)

-- What may follow the words of a command, a pipeline and a line.
abbrev pub after_words : List ℕ
after_words = b'|' ∷ b')' ∷ b'&' ∷ b';' ∷ []

abbrev pub after_pipe : List ℕ
after_pipe = b')' ∷ b'&' ∷ b';' ∷ []

abbrev pub after_line : List ℕ
after_line = b')' ∷ []

pub words_end :
    (r : List ℕ)
    → Follow after_words r
    → Starts r × (peek r (b'<' ∷ b'>' ∷ []) ≡ false) × (peek r (b'(' ∷ []) ≡ false)
unfolding skip_space peek has_char
words_end [] h = (refl, refl, refl)
words_end (c ∷ r) h = (ground (arith, h), ground (arith, h), ground (arith, h))

pub args_end :
    (args : List Arg) (r : List ℕ)
    → Follow after_words r
    → peek (show_args args r) (b'<' ∷ b'>' ∷ []) ≡ false
unfolding has_char
args_end [] r h = (words_end r h).1
args_end (a ∷ args) r h =
    peek-Word a.word (b' ' ∷ show_redirects a.redirects (show_args args r)) (b'<' ∷ b'>' ∷ [])
      (λ e. ground (arith, e))

-- One round of parseexec.
args_loop-Arg :
    (fuel argc : ℕ) (ret : Cmd) (w : Word) (xs : List Redirect) (s : List ℕ)
    → argc + 1 < max_args
    → Starts s
    → peek s (b'<' ∷ b'>' ∷ []) ≡ false
    → args_loop (suc fuel) argc ret (text w ++ b' ' ∷ show_redirects xs s)
      ≡ args_loop fuel (argc + 1) (redirects_of (add_arg ret (text w)) xs) s
unfolding args_loop has_char
args_loop-Arg fuel argc ret w xs s few start over =
    let word = peek-Word w (b' ' ∷ show_redirects xs s) after_words (λ e. ground (arith, e)) in
    let token = gettoken-Word w (show_redirects xs s) (show_redirects-Starts xs s start) in
    let redirs = parseredirs-show_redirects (add_arg ret (text w)) xs s start over in
    ground (arith, word, token, redirs, few)

args_loop-end :
    (fuel argc : ℕ) (ret : Cmd) (r : List ℕ)
    → Follow after_words r
    → args_loop (suc fuel) argc ret r ≡ parsed ret r
unfolding args_loop peek skip_space gettoken token_at has_char
args_loop-end fuel argc ret [] h = refl
args_loop-end fuel argc ret (c ∷ r) h = ground (arith, h)

collected :
    (argv : List (List ℕ)) (xs : List Redirect) (q : List ℕ) (ys : List Redirect)
    → redirects_of (add_arg (redirects_of (exec argv) xs) q) ys
      ≡ redirects_of (exec (argv ++ q ∷ [])) (xs ++ ys)
unfolding add_arg
collected argv xs q ys =
    ap (λ c. redirects_of c ys) (add_arg-redirects_of (exec argv) xs q)
    ∙ sym (redirects_of-append (exec (argv ++ q ∷ [])) xs ys)

pub args_loop-show_args :
    (fuel argc : ℕ) (argv : List (List ℕ)) (xs : List Redirect) (args : List Arg) (r : List ℕ)
    → length args < fuel
    → argc + length args < max_args
    → Follow after_words r
    → args_loop fuel argc (redirects_of (exec argv) xs) (show_args args r)
      ≡ parsed (redirects_of (exec (argv ++ texts args)) (xs ++ all_redirects args)) r
args_loop-show_args zero argc argv xs args r h few stop = absurd (omega (arith, h))
args_loop-show_args (suc fuel) argc argv xs [] r h few stop =
    rw (append-nil argv, append-nil xs)
      (args_loop-end fuel argc (redirects_of (exec argv) xs) r stop)
args_loop-show_args (suc fuel) argc argv xs (a ∷ args) r h few stop =
    let start = show_args-Starts args r (words_end r stop).0 in
    let q = text a.word in
    args_loop-Arg fuel argc (redirects_of (exec argv) xs) a.word a.redirects (show_args args r)
      (omega (arith, few)) start (args_end args r stop)
    ∙ ap (λ c. args_loop fuel (argc + 1) c (show_args args r)) (collected argv xs q a.redirects)
    ∙ args_loop-show_args fuel (argc + 1) (argv ++ q ∷ []) (xs ++ a.redirects) args r
        (omega (arith, h)) (omega (arith, few)) stop
    ∙ ap (λ c. parsed c r)
        (ap₂ (λ us ys. redirects_of (exec us) ys) (append_assoc argv (q ∷ []) (texts args))
          (append_assoc xs a.redirects (all_redirects args)))
