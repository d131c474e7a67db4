-- ===== src/User/Grep/Matcher.antt =====
-- lab3/xv6-public/grep.c: the matcher finds what its pattern means.
use cs.Prelude.{
  ℕ, ◌≡◌, ◌↔◌, ◌⊎◌, ◌∙◌, refl, ap, arith, Bool, true, false, List, [], ◌∷◌, ◌++◌, ◌==◌, Bool-cases,
  inl, inr,
}
use cs.User.Grep.{matchhere, search_text, match}
use cs.User.Grep.Regex.{Item, items_of, ends_of, regex_of, Occurs}
use cs.User.Grep.Starts.{Starts}
use cs.User.Grep.Decides.{Decides, matchhere-Decides}

-- The items are found somewhere in the text.
record Within (is : List Item) (e : Bool) (text : List ℕ) : Type 0 where
  before : List ℕ
  rest : List ℕ
  split : text ≡ before ++ rest
  starts : Starts is e rest

Within-here : (is : List Item) (e : Bool) (text : List ℕ) → Starts is e text → Within is e text
Within-here is e text s = record { before = []; rest = text; split = refl; starts = s }

Within-later :
    (a : ℕ) (is : List Item) (e : Bool) (text : List ℕ) → Within is e text → Within is e (a ∷ text)
Within-later a is e text w = record {
  before = a ∷ w.before;
  rest = w.rest;
  split = ap (λ t. a ∷ t) w.split;
  starts = w.starts;
}

Starts-at :
    {is : List Item} {e : Bool} (text rest : List ℕ)
    → text ≡ rest
    → Starts is e rest
    → Starts is e text
Starts-at text rest p s = record {
  middle = s.middle;
  after = s.after;
  parts = p ∙ s.parts;
  produced = s.produced;
  end = s.end;
}

Within-inv :
    (a : ℕ) (is : List Item) (e : Bool) (text : List ℕ)
    → Within is e (a ∷ text)
    → Starts is e (a ∷ text) ⊎ Within is e text
Within-inv a is e text w = go w.before w.rest w.split w.starts
  where
    go :
        (before rest : List ℕ)
        → a ∷ text ≡ before ++ rest
        → Starts is e rest
        → Starts is e (a ∷ text) ⊎ Within is e text
    go [] rest p s = inl (Starts-at (a ∷ text) rest p s)
    go (c ∷ before) rest p s =
        inr (record { before = before; rest = rest; split = ground (arith, p); starts = s })

Within-nil : (is : List Item) (e : Bool) → Within is e [] → Starts is e []
Within-nil is e w = go w.before w.rest w.split w.starts
  where
    go : (before rest : List ℕ) → [] ≡ before ++ rest → Starts is e rest → Starts is e []
    go [] rest p s = Starts-at [] rest p s
    go (c ∷ before) rest p s = absurd (ground (arith, p))

search_text_iff :
    (here : List ℕ → Bool) (is : List Item) (e : Bool)
    → Decides here is e
    → (text : List ℕ) → (search_text here text ≡ true) ↔ Within is e text
unfolding search_text
search_text_iff here is e d [] =
    (λ h. Within-here is e [] ((d []).0 h), λ w. (d []).1 (Within-nil is e w))
search_text_iff here is e d (a ∷ text) = (
  λ h. elim (Bool-cases (here (a ∷ text))) [
    | inl now ↦ Within-here is e (a ∷ text) ((d (a ∷ text)).0 now)
    | inr later ↦
        Within-later a is e text ((search_text_iff here is e d text).0 (ground (arith, h, later)))
  ],
  λ w. elim (Within-inv a is e text w) [
    | inl now ↦ let b = (d (a ∷ text)).1 now in ground (arith, b)
    | inr later ↦ let b = (search_text_iff here is e d text).1 later in ground (arith, b)
  ],
)

Within-Occurs :
    (is : List Item) (e : Bool) (text : List ℕ)
    → Within is e text ↔ Occurs (record { from_start = false; items = is; to_end = e }) text
Within-Occurs is e text = (
  λ w. record {
    before = w.before;
    middle = w.starts.middle;
    after = w.starts.after;
    parts = w.split ∙ ap (λ t. w.before ++ t) w.starts.parts;
    produced = w.starts.produced;
    start = λ b. absurd (ground (arith, b));
    end = w.starts.end;
  },
  λ o. record {
    before = o.before;
    rest = o.middle ++ o.after;
    split = o.parts;
    starts = record {
      middle = o.middle;
      after = o.after;
      parts = refl;
      produced = o.produced;
      end = o.end;
    };
  },
)

Starts-Occurs :
    (is : List Item) (e : Bool) (text : List ℕ)
    → Starts is e text ↔ Occurs (record { from_start = true; items = is; to_end = e }) text
Starts-Occurs is e text = (
  λ s. record {
    before = [];
    middle = s.middle;
    after = s.after;
    parts = s.parts;
    produced = s.produced;
    start = λ b. refl;
    end = s.end;
  },
  λ o. record {
    middle = o.middle;
    after = o.after;
    parts = o.parts ∙ ap (λ b. b ++ (o.middle ++ o.after)) (o.start refl);
    produced = o.produced;
    end = o.end;
  },
)

both_ways : {A B C : Type 0} → A ↔ B → B ↔ C → A ↔ C
both_ways f g = (λ a. g.0 (f.0 a), λ c. f.1 (g.1 c))

-- match is true exactly where the regular expression that the pattern spells, with its `.`, `*`,
-- `^` and `$`, occurs in the text.
pub match_iff : (re text : List ℕ) → (match re text ≡ true) ↔ Occurs (regex_of re) text
unfolding match regex_of
match_iff [] text =
    both_ways (search_text_iff (matchhere []) [] false (matchhere-Decides []) text)
      (Within-Occurs [] false text)
match_iff (r ∷ re) text = elim (Bool-cases (r == b'^')) [
  | inl caret ↦
      rw caret
        (both_ways (matchhere-Decides re text) (Starts-Occurs (items_of re) (ends_of re) text))
  | inr plain ↦ rw plain (
      both_ways
        (search_text_iff (matchhere (r ∷ re)) (items_of (r ∷ re)) (ends_of (r ∷ re))
          (matchhere-Decides (r ∷ re)) text)
        (Within-Occurs (items_of (r ∷ re)) (ends_of (r ∷ re)) text))
]
