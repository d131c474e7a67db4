-- ===== src/User/Grep/Regex.antt =====
-- lab3/xv6-public/grep.c: what a pattern of `^`, `.`, `*` and `$` means.
use cs.Prelude.{ℕ, ◌≡◌, Bool, true, false, List, [], ◌∷◌, ◌++◌, if◌then◌else◌, ◌==◌}
use cs.User.Grep.{accepts}

-- A character that stands once, or any number of times.
pub data Item : Type 0 where
  once : ℕ → Item
  many : ℕ → Item

-- A pattern: whether it is tied to the start and to the end of the text.
pub record Regex : Type 0 where
  pub from_start : Bool
  pub items : List Item
  pub to_end : Bool

pub data Produces : List Item → List ℕ → Type 0 where
  nothing : Produces [] []
  one :
      {r c : ℕ} {is : List Item} {s : List ℕ}
      → accepts r c ≡ true
      → Produces is s
      → Produces (once r ∷ is) (c ∷ s)
  leave : {r : ℕ} {is : List Item} {s : List ℕ} → Produces is s → Produces (many r ∷ is) s
  take :
      {r c : ℕ} {is : List Item} {s : List ℕ}
      → accepts r c ≡ true
      → Produces (many r ∷ is) s
      → Produces (many r ∷ is) (c ∷ s)

-- The items of a pattern without its `^`, and whether it ends in a `$`.
unfoldable pub items_of : List ℕ → List Item
items_of [] = []
items_of (r ∷ []) = if r == b'$' then [] else once r ∷ []
items_of (r ∷ s ∷ re) =
    let star = items_of re in
    let plain = items_of (s ∷ re) in if s == b'*' then many r ∷ star else once r ∷ plain

unfoldable pub ends_of : List ℕ → Bool
ends_of [] = false
ends_of (r ∷ []) = r == b'$'
ends_of (r ∷ s ∷ re) =
    let star = ends_of re in let plain = ends_of (s ∷ re) in if s == b'*' then star else plain

unfoldable pub regex_of : List ℕ → Regex
unfolding items_of ends_of
regex_of [] = record { from_start = false; items = []; to_end = false }
regex_of (r ∷ re) =
    if r == b'^'
    then record { from_start = true; items = items_of re; to_end = ends_of re }
    else record { from_start = false; items = items_of (r ∷ re); to_end = ends_of (r ∷ re) }

-- A part of the text that starts and ends where the pattern says.
pub record Occurs (p : Regex) (text : List ℕ) : Type 0 where
  pub before : List ℕ
  pub middle : List ℕ
  pub after : List ℕ
  pub parts : text ≡ before ++ (middle ++ after)
  pub produced : Produces p.items middle
  pub start : p.from_start ≡ true → before ≡ []
  pub end : p.to_end ≡ true → after ≡ []
