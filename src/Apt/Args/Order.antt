-- ===== src/Apt/Args/Order.antt =====
-- proj2/aptsim.c: options in another order.
use cs.Prelude.{
  ℕ, suc, ◌≡◌, ◌∙◌, refl, sym, ap, arith, true, false, List, [], ◌∷◌, ◌++◌, Option, none, some,
  length, Option-cases, inl, inr,
}
use cs.Prelude.Int.{ℤ}
use cs.Fs.Bytes.{same_str}
use cs.Apt.Args.{
  CliArgs, defaults, atoi, has_dash, set_option, Loaded, loaded, refused, load_from, load_arguments,
}

-- An option and its value, as they stand in `argv`.
abbrev pub Pair : Type 0
Pair = List ℕ × List ℕ

abbrev pub argv_of : List Pair → List (List ℕ)
argv_of [] = []
argv_of ((name, value) ∷ ps) = name ∷ value ∷ argv_of ps

-- Names begin with a dash, and values do not.
abbrev pub AllPairs : List Pair → Type 0
AllPairs [] = Unit {0}
AllPairs ((name, value) ∷ ps) = (has_dash name ≡ true) × (has_dash value ≡ false) × AllPairs ps

load_from-pair :
    (name value : List ℕ) (rest : List (List ℕ)) (a : CliArgs)
    → has_dash name ≡ true
    → has_dash value ≡ false
    → load_from (name ∷ value ∷ rest) a
      ≡ elim (set_option name (atoi value) a) [ none ↦ refused a | some a' ↦ load_from rest a' ]
unfolding load_from
load_from-pair name value rest a dash plain = ground (arith, dash, plain)

-- What main goes on with.
abbrev pub args_of : Loaded → Option CliArgs
args_of (loaded a) = some a
args_of _ = none

same_str-both : (n m k : List ℕ) → same_str n k ≡ true → same_str m k ≡ true → same_str n m ≡ true
unfolding same_str
same_str-both [] [] [] h g = refl
same_str-both [] [] (c ∷ k) h g = ground (arith, h)
same_str-both [] (b ∷ m) [] h g = ground (arith, g)
same_str-both [] (b ∷ m) (c ∷ k) h g = ground (arith, h)
same_str-both (a ∷ n) [] [] h g = ground (arith, h)
same_str-both (a ∷ n) [] (c ∷ k) h g = ground (arith, g)
same_str-both (a ∷ n) (b ∷ m) [] h g = ground (arith, g)
same_str-both (a ∷ n) (b ∷ m) (c ∷ k) h g = ground (arith, h, g, same_str-both n m k)

abbrev then_set : Option CliArgs → List ℕ → ℤ → Option CliArgs
then_set none name v = none
then_set (some a) name v = set_option name v a

-- Two options of different names can be set in either order.
set_option-swap :
    (n m : List ℕ) (v w : ℤ) (a : CliArgs)
    → same_str n m ≡ false
    → then_set (set_option n v a) m w ≡ then_set (set_option m w a) n v
unfolding set_option
set_option-swap n m v w a apart = ground (
  arith,
  apart,
  same_str-both n m (b'-' ∷ b'm' ∷ []),
  same_str-both n m (b'-' ∷ b'k' ∷ []),
  same_str-both n m (b'-' ∷ b'p' ∷ b't' ∷ []),
  same_str-both n m (b'-' ∷ b'd' ∷ b't' ∷ []),
  same_str-both n m (b'-' ∷ b'p' ∷ b'a' ∷ []),
  same_str-both n m (b'-' ∷ b'd' ∷ b'a' ∷ []),
)

abbrev load_args : List (List ℕ) → Option CliArgs → Option CliArgs
load_args rest none = none
load_args rest (some a) = args_of (load_from rest a)

load_args-pair :
    (name value : List ℕ) (rest : List (List ℕ)) (a : Option CliArgs)
    → has_dash name ≡ true
    → has_dash value ≡ false
    → load_args (name ∷ value ∷ rest) a ≡ load_args rest (then_set a name (atoi value))
load_args-pair name value rest none dash plain = refl
load_args-pair name value rest (some a) dash plain =
    elim (Option-cases (set_option name (atoi value) a)) [
      | inl e ↦ ground (arith, load_from-pair name value rest a dash plain, e)
      | inr (b, e) ↦ ground (arith, load_from-pair name value rest a dash plain, e)
    ]

module _ (n v m w : List ℕ) (ys : List Pair) (apart : same_str n m ≡ false) where
  load_args-swap :
      (xs : List Pair) (a : Option CliArgs)
      → AllPairs (xs ++ ((n, v) ∷ (m, w) ∷ ys))
      → load_args (argv_of (xs ++ ((n, v) ∷ (m, w) ∷ ys))) a
        ≡ load_args (argv_of (xs ++ ((m, w) ∷ (n, v) ∷ ys))) a
  load_args-swap [] none h = refl
  load_args-swap [] (some a) (dn, pv, (dm, pw, h)) =
      load_args-pair n v (m ∷ w ∷ argv_of ys) (some a) dn pv
      ∙ load_args-pair m w (argv_of ys) (set_option n (atoi v) a) dm pw
      ∙ ap (load_args (argv_of ys)) (set_option-swap n m (atoi v) (atoi w) a apart)
      ∙ sym (load_args-pair n v (argv_of ys) (set_option m (atoi w) a) dn pv)
      ∙ sym (load_args-pair m w (n ∷ v ∷ argv_of ys) (some a) dm pw)
  load_args-swap ((k, u) ∷ xs) a h =
      load_args-pair k u _ a h.0 h.1
      ∙ load_args-swap xs (then_set a k (atoi u)) h.2
      ∙ sym (load_args-pair k u _ a h.0 h.1)

  length-swap :
      (xs : List Pair)
      → length (argv_of (xs ++ ((n, v) ∷ (m, w) ∷ ys)))
        ≡ length (argv_of (xs ++ ((m, w) ∷ (n, v) ∷ ys)))
  length-swap [] = refl
  length-swap (p ∷ xs) = ap (λ k. suc (suc k)) (length-swap xs)

-- Two options next to each other, each with its value, may change places.
pub load_arguments_swap :
    (xs : List Pair) (n v m w : List ℕ) (ys : List Pair)
    → AllPairs (xs ++ ((n, v) ∷ (m, w) ∷ ys))
    → same_str n m ≡ false
    → args_of (load_arguments (argv_of (xs ++ ((n, v) ∷ (m, w) ∷ ys))))
      ≡ args_of (load_arguments (argv_of (xs ++ ((m, w) ∷ (n, v) ∷ ys))))
unfolding load_arguments
load_arguments_swap xs n v m w ys h apart =
    ground
      (arith, length-swap n v m w ys apart xs, load_args-swap n v m w ys apart xs (some defaults) h)
