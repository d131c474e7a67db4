-- ===== src/Apt/Args.antt =====
-- proj2/aptsim.c: loadArguments. A text is the list of its codes.
pub mod Order
use cs.Prelude.{
  ℕ, zero, suc, ◌+◌, ◌-◌, ◌*◌, Bool, true, false, ◌&&◌, ◌||◌, not, List, [], ◌∷◌, Option, none,
  some, if◌then◌else◌, ◌==◌, leb, length,
}
use cs.Prelude.Int.{ℤ, pos, negsuc, sub_ℕ}
use cs.Fs.Bytes.{same_str}

-- `struct cli_args`
pub record CliArgs : Type 0 where
  pub total_tenants : ℤ
  pub total_agents : ℤ
  pub p_tenant_follows : ℤ
  pub delay_tenant : ℤ
  pub p_agent_follows : ℤ
  pub delay_agent : ℤ

abbrev pub defaults : CliArgs
defaults = record {
  total_tenants = pos 1;
  total_agents = pos 1;
  p_tenant_follows = pos 100;
  delay_tenant = pos 0;
  p_agent_follows = pos 100;
  delay_agent = pos 0;
}

-- The digits at the front of a text, after `acc`.
digits : ℕ → List ℕ → ℕ
digits acc [] = acc
digits acc (c ∷ s) = if leb 48 c && leb c 57 then digits (acc * 10 + (c - 48)) s else acc

-- `atoi` of a text without white space at its front, within the range of `int`.
unfoldable pub atoi : List ℕ → ℤ
unfolding digits
atoi [] = pos 0
atoi (c ∷ s) =
    if c == b'-'
    then sub_ℕ 0 (digits 0 s)
    else if c == b'+'
    then pos (digits 0 s)
    else pos (digits 0 (c ∷ s))

-- `current_arg[0] == '-'`
abbrev pub has_dash : List ℕ → Bool
has_dash [] = false
has_dash (c ∷ s) = c == b'-'

-- The chain of tests on the option's name; `none` is "Unsupported argument".
unfoldable pub set_option : List ℕ → ℤ → CliArgs → Option CliArgs
set_option name v a =
    if same_str name (b'-' ∷ b'm' ∷ [])
    then some (record a { total_tenants = v })
    else if same_str name (b'-' ∷ b'k' ∷ [])
    then some (record a { total_agents = v })
    else if same_str name (b'-' ∷ b'p' ∷ b't' ∷ [])
    then some (record a { p_tenant_follows = v })
    else if same_str name (b'-' ∷ b'd' ∷ b't' ∷ [])
    then some (record a { delay_tenant = v })
    else if same_str name (b'-' ∷ b'p' ∷ b'a' ∷ [])
    then some (record a { p_agent_follows = v })
    else if same_str name (b'-' ∷ b'd' ∷ b'a' ∷ [])
    then some (record a { delay_agent = v })
    else none

-- How the call ends: with the arguments set and no value returned, with -1, or in `atoi (NULL)`.
pub data Loaded : Type 0 where
  loaded : CliArgs → Loaded
  refused : CliArgs → Loaded
  crashed : Loaded

abbrev pub head_value : List (List ℕ) → Option ℤ
head_value [] = none
head_value (v ∷ rest) = some (atoi v)

unfoldable pub load_from : List (List ℕ) → CliArgs → Loaded
load_from [] a = loaded a
load_from (arg ∷ rest) a = elim (has_dash arg) [
  | false ↦ load_from rest a
  | true ↦ elim (head_value rest) [
    | none ↦ crashed
    | some v ↦ elim (set_option arg v a) [ none ↦ refused a | some a' ↦ load_from rest a' ]
  ]
]

-- `argv` without the program's name: `argc` is one more.
unfoldable pub load_arguments : List (List ℕ) → Loaded
load_arguments argv = if not (length argv == 12) then refused defaults else load_from argv defaults
