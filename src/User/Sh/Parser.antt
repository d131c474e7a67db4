-- ===== src/User/Sh/Parser.antt =====
-- lab3/xv6-public/sh.c: the recursive descent. Each loop runs on as much fuel as there are characters
-- left, since each of its rounds takes one; parseline runs on fuel for the nested lines.
use cs.Prelude.{
  ℕ, zero, suc, ◌+◌, true, false, List, [], ◌∷◌, ◌++◌, if◌then◌else◌, ◌==◌, leb, length,
}
use cs.User.Sh.{
  Cmd, exec, redir, pipe, list, back, Parsed, parsed, syntax_error, out_of_fuel, and_then, max_args,
  o_rdonly, o_write_create, skip_space, gettoken, peek,
}

-- The switch of parseredirs.
unfoldable pub redirect : ℕ → Cmd → List ℕ → Cmd
redirect tok cmd file =
    if tok == b'<'
    then redir cmd file o_rdonly 0
    else if tok == b'>'
    then redir cmd file o_write_create 1
    else if tok == b'+'
    then redir cmd file o_write_create 1
    else cmd

unfoldable pub redirs_loop : ℕ → Cmd → List ℕ → Parsed
redirs_loop zero cmd s = out_of_fuel
redirs_loop (suc fuel) cmd s = elim (peek s (b'<' ∷ b'>' ∷ [])) [
  | false ↦ parsed cmd (skip_space s)
  | true ↦
      let (tok, _, s1) = gettoken s in
      let (kind, file, s2) = gettoken s1 in
      let rest = redirs_loop fuel (redirect tok cmd file) s2 in
      if kind == b'a' then rest else syntax_error
]

unfoldable pub parseredirs : Cmd → List ℕ → Parsed
parseredirs cmd s = redirs_loop (length s + 1) cmd s

-- `cmd->argv[argc] = q`: the exec command stands under the redirections that were read before.
unfoldable pub add_arg : Cmd → List ℕ → Cmd
add_arg (exec argv) q = exec (argv ++ q ∷ [])
add_arg (redir cmd file mode fd) q = redir (add_arg cmd q) file mode fd
add_arg (pipe left right) q = pipe left right
add_arg (list left right) q = list left right
add_arg (back cmd) q = back cmd

-- The loop of parseexec.
unfoldable pub args_loop : ℕ → ℕ → Cmd → List ℕ → Parsed
args_loop zero argc ret s = out_of_fuel
args_loop (suc fuel) argc ret s = elim (peek s (b'|' ∷ b')' ∷ b'&' ∷ b';' ∷ [])) [
  | true ↦ parsed ret (skip_space s)
  | false ↦
      let (tok, q, s1) = gettoken s in
      elim (tok == 0) [
        | true ↦ parsed ret s1
        | false ↦ elim (tok == b'a') [
          | false ↦ syntax_error
          | true ↦ elim (leb max_args (argc + 1)) [
            | true ↦ syntax_error
            | false ↦
                and_then (parseredirs (add_arg ret q) s1)
                  (λ ret' s2. args_loop fuel (argc + 1) ret' s2)
          ]
        ]
      ]
]

-- What parseblock does after the line.
abbrev pub close_block : Cmd → List ℕ → Parsed
close_block cmd s = elim (peek s (b')' ∷ [])) [
  | false ↦ syntax_error
  | true ↦ parseredirs cmd (gettoken s).2
]

-- parseblock, parseexec and parsepipe, where `line` is parseline.
unfoldable pub parseblock : (List ℕ → Parsed) → List ℕ → Parsed
parseblock line s = elim (peek s (b'(' ∷ [])) [
  | false ↦ syntax_error
  | true ↦ and_then (line (gettoken s).2) close_block
]

unfoldable pub parseexec : (List ℕ → Parsed) → List ℕ → Parsed
parseexec line s = elim (peek s (b'(' ∷ [])) [
  | true ↦ parseblock line s
  | false ↦ and_then (parseredirs (exec []) s) (λ ret s1. args_loop (length s1 + 1) 0 ret s1)
]

unfoldable pub parsepipe : (List ℕ → Parsed) → ℕ → List ℕ → Parsed
parsepipe line zero s = out_of_fuel
parsepipe line (suc fuel) s = and_then (parseexec line s) (λ cmd s1. elim (peek s1 (b'|' ∷ [])) [
  | false ↦ parsed cmd (skip_space s1)
  | true ↦ and_then (parsepipe line fuel (gettoken s1).2) (λ right s2. parsed (pipe cmd right) s2)
])

-- The loop of parseline.
unfoldable pub back_loop : ℕ → Cmd → List ℕ → Parsed
back_loop zero cmd s = out_of_fuel
back_loop (suc fuel) cmd s =
    let rest = back_loop fuel (back cmd) (gettoken s).2 in
    if peek s (b'&' ∷ []) then rest else parsed cmd (skip_space s)

unfoldable pub parseline : ℕ → List ℕ → Parsed
parseline zero s = out_of_fuel
parseline (suc fuel) s = and_then (parsepipe (parseline fuel) (length s + 1) s) (λ cmd s1.
    and_then (back_loop (length s1 + 1) cmd s1) (λ cmd' s2. elim (peek s2 (b';' ∷ [])) [
      | false ↦ parsed cmd' (skip_space s2)
      | true ↦ and_then (parseline fuel (gettoken s2).2) (λ right s3. parsed (list cmd' right) s3)
    ]))

-- parsecmd up to nulterminate.
unfoldable pub parsecmd : List ℕ → Parsed
parsecmd s =
    and_then (parseline (length s + 1) s)
      (λ cmd s1. elim (skip_space s1) [ [] ↦ parsed cmd [] | c ∷ rest ↦ syntax_error ])
