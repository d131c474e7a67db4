-- ===== src/User/Grep/Decides.antt =====
-- lab3/xv6-public/grep.c: matchhere finds the items at the start of a text.
use cs.Prelude.{
  ℕ, ◌≡◌, ◌↔◌, refl, sym, arith, Bool, true, false, List, [], ◌∷◌, ◌++◌, ◌==◌, Bool-cases, inl, inr,
}
use cs.User.Grep.{accepts, matchstar, at_end, match_one, matchhere}
use cs.User.Grep.Regex.{Item, once, many, Produces, nothing, items_of, ends_of}
use cs.User.Grep.Starts.{
  Starts, Starts-leave, Starts-take, Starts-one, Starts-once-inv, Starts-many-inv, Starts-many-nil,
  Starts-once-nil,
}

-- A test is true exactly where the items are found.
abbrev pub Decides : (List ℕ → Bool) → List Item → Bool → Type 0
Decides here is e = (text : List ℕ) → (here text ≡ true) ↔ Starts is e text

matchstar-Decides :
    (here : List ℕ → Bool) (r : ℕ) (is : List Item) (e : Bool)
    → Decides here is e
    → Decides (matchstar here r) (many r ∷ is) e
unfolding matchstar
matchstar-Decides here r is e d [] =
    (λ h. Starts-leave r is e [] ((d []).0 h), λ s. (d []).1 (Starts-many-nil r is e s))
matchstar-Decides here r is e d (a ∷ text) = (
  λ h. elim (Bool-cases (here (a ∷ text))) [
    | inl now ↦ Starts-leave r is e (a ∷ text) ((d (a ∷ text)).0 now)
    | inr later ↦
        let both : (accepts r a ≡ true) × (matchstar here r text ≡ true) =
          (ground (arith, h, later), ground (arith, h, later)) in
        Starts-take r a is e text both.0 ((matchstar-Decides here r is e d text).0 both.1)
  ],
  λ s. elim (Starts-many-inv r a is e text s) [
    | inl now ↦ let b = (d (a ∷ text)).1 now in ground (arith, b)
    | inr (ok, more) ↦
        let b = (matchstar-Decides here r is e d text).1 more in ground (arith, ok, b)
  ],
)

match_one-Decides :
    (here : List ℕ → Bool) (r : ℕ) (is : List Item) (e : Bool)
    → Decides here is e
    → Decides (match_one here r) (once r ∷ is) e
match_one-Decides here r is e d [] =
    (λ h. absurd (ground (arith, h)), λ s. sym (Starts-once-nil r is e s))
match_one-Decides here r is e d (a ∷ text) = (
  λ h. Starts-one r a is e text (ground (arith, h)) ((d text).0 (ground (arith, h))),
  λ s.
      let (ok, rest) = Starts-once-inv r a is e text s in
      let b = (d text).1 rest in ground (arith, ok, b),
)

data IsNothing : List ℕ → Type 0 where
  is_nothing : IsNothing []

IsNothing-inv : {m : List ℕ} → Produces [] m → IsNothing m
IsNothing-inv nothing = is_nothing

nil-Decides : Decides (λ text. true) [] false
nil-Decides text = (
  λ h. record {
    middle = [];
    after = text;
    parts = refl;
    produced = nothing;
    end = λ e. absurd (ground (arith, e));
  },
  λ s. refl,
)

at_end-Decides : Decides at_end [] true
at_end-Decides [] = (
  λ h. record { middle = []; after = []; parts = refl; produced = nothing; end = λ e. refl },
  λ s. refl,
)
at_end-Decides (a ∷ text) = (
  λ h. absurd (ground (arith, h)),
  λ s. go s.middle s.after s.parts (IsNothing-inv s.produced) (s.end refl),
)
  where
    go : (m after : List ℕ) → a ∷ text ≡ m ++ after → IsNothing m → after ≡ [] → false ≡ true
    go [] after p is_nothing q = ground (arith, p, q)
    go (c ∷ m) after p none_such q = elim none_such [ ]

-- matchhere looks for the items at the start of the text.
pub matchhere-Decides : (re : List ℕ) → Decides (matchhere re) (items_of re) (ends_of re)
unfolding matchhere items_of ends_of
matchhere-Decides [] = nil-Decides
matchhere-Decides (r ∷ []) = elim (Bool-cases (r == b'$')) [
  | inl dollar ↦ rw dollar at_end-Decides
  | inr plain ↦ rw plain (match_one-Decides (λ text. true) r [] false nil-Decides)
]
matchhere-Decides (r ∷ s ∷ re) =
    let star =
      matchstar-Decides (matchhere re) r (items_of re) (ends_of re) (matchhere-Decides re) in
    let plain =
      match_one-Decides (matchhere (s ∷ re)) r (items_of (s ∷ re)) (ends_of (s ∷ re))
        (matchhere-Decides (s ∷ re)) in
    elim (Bool-cases (s == b'*')) [ inl is ↦ rw is star | inr not_star ↦ rw not_star plain ]
