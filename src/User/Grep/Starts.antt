-- ===== src/User/Grep/Starts.antt =====
-- lab3/xv6-public/grep.c: the items of a pattern at the start of a text.
use cs.Prelude.{ℕ, ◌≡◌, ◌⊎◌, sym, ap, arith, Bool, true, false, List, [], ◌∷◌, ◌++◌, inl, inr}
use cs.User.Grep.{accepts}
use cs.User.Grep.Regex.{Item, once, many, Produces, one, leave, take}

-- The items are found at the start of the text.
pub record Starts (is : List Item) (e : Bool) (text : List ℕ) : Type 0 where
  pub middle : List ℕ
  pub after : List ℕ
  pub parts : text ≡ middle ++ after
  pub produced : Produces is middle
  pub end : e ≡ true → after ≡ []

pub Starts-leave :
    (r : ℕ) (is : List Item) (e : Bool) (text : List ℕ)
    → Starts is e text
    → Starts (many r ∷ is) e text
Starts-leave r is e text s = record {
  middle = s.middle;
  after = s.after;
  parts = s.parts;
  produced = leave s.produced;
  end = s.end;
}

pub Starts-take :
    (r a : ℕ) (is : List Item) (e : Bool) (text : List ℕ)
    → accepts r a ≡ true
    → Starts (many r ∷ is) e text
    → Starts (many r ∷ is) e (a ∷ text)
Starts-take r a is e text h s = record {
  middle = a ∷ s.middle;
  after = s.after;
  parts = ap (λ t. a ∷ t) s.parts;
  produced = take h s.produced;
  end = s.end;
}

pub Starts-one :
    (r a : ℕ) (is : List Item) (e : Bool) (text : List ℕ)
    → accepts r a ≡ true
    → Starts is e text
    → Starts (once r ∷ is) e (a ∷ text)
Starts-one r a is e text h s = record {
  middle = a ∷ s.middle;
  after = s.after;
  parts = ap (λ t. a ∷ t) s.parts;
  produced = one h s.produced;
  end = s.end;
}

abbrev tail : List ℕ → List ℕ
tail [] = []
tail (a ∷ text) = text

abbrev head_is : ℕ → List ℕ → Bool
head_is r [] = false
head_is r (a ∷ text) = accepts r a

-- What an item at the front leaves to the others.
once-inv :
    {r : ℕ} {is : List Item} {m : List ℕ}
    → Produces (once r ∷ is) m
    → (head_is r m ≡ true) × Produces is (tail m)
once-inv (one h p) = (h, p)

data ManyInv (r : ℕ) (is : List Item) : List ℕ → Type 0 where
  left : {m : List ℕ} → Produces is m → ManyInv r is m
  taken :
      {c : ℕ} {m : List ℕ} → accepts r c ≡ true → Produces (many r ∷ is) m → ManyInv r is (c ∷ m)

many-inv : {r : ℕ} {is : List Item} {m : List ℕ} → Produces (many r ∷ is) m → ManyInv r is m
many-inv (leave p) = left p
many-inv (take h p) = taken h p

pub Starts-once-inv :
    (r a : ℕ) (is : List Item) (e : Bool) (text : List ℕ)
    → Starts (once r ∷ is) e (a ∷ text)
    → (accepts r a ≡ true) × Starts is e text
Starts-once-inv r a is e text s = go s.middle s.after s.parts (once-inv s.produced) s.end
  where
    go :
        (m after : List ℕ)
        → a ∷ text ≡ m ++ after
        → (head_is r m ≡ true) × Produces is (tail m)
        → (e ≡ true → after ≡ [])
        → (accepts r a ≡ true) × Starts is e text
    go [] after p (h, q) end = absurd (ground (arith, h))
    go (c ∷ m) after p (h, q) end = (
      ground (arith, h, p),
      record { middle = m; after = after; parts = ground (arith, p); produced = q; end = end },
    )

pub Starts-many-inv :
    (r a : ℕ) (is : List Item) (e : Bool) (text : List ℕ)
    → Starts (many r ∷ is) e (a ∷ text)
    → Starts is e (a ∷ text) ⊎ ((accepts r a ≡ true) × Starts (many r ∷ is) e text)
Starts-many-inv r a is e text s = go s.middle s.after s.parts (many-inv s.produced) s.end
  where
    go :
        (m after : List ℕ)
        → a ∷ text ≡ m ++ after
        → ManyInv r is m
        → (e ≡ true → after ≡ [])
        → Starts is e (a ∷ text) ⊎ ((accepts r a ≡ true) × Starts (many r ∷ is) e text)
    go m after p (left q) end =
        inl (record { middle = m; after = after; parts = p; produced = q; end = end })
    go (c ∷ m) after p (taken h q) end = inr (
      ground (arith, h, p),
      record { middle = m; after = after; parts = ground (arith, p); produced = q; end = end },
    )

pub Starts-many-nil :
    (r : ℕ) (is : List Item) (e : Bool) → Starts (many r ∷ is) e [] → Starts is e []
Starts-many-nil r is e s = go s.middle s.after s.parts (many-inv s.produced) s.end
  where
    go :
        (m after : List ℕ)
        → [] ≡ m ++ after
        → ManyInv r is m
        → (e ≡ true → after ≡ [])
        → Starts is e []
    go m after p (left q) end = record {
      middle = m;
      after = after;
      parts = p;
      produced = q;
      end = end;
    }
    go (c ∷ m) after p (taken h q) end = absurd (ground (arith, p))

pub Starts-once-nil : (r : ℕ) (is : List Item) (e : Bool) → Starts (once r ∷ is) e [] → true ≡ false
Starts-once-nil r is e s = go s.middle s.after s.parts (once-inv s.produced)
  where
    go :
        (m after : List ℕ)
        → [] ≡ m ++ after
        → (head_is r m ≡ true) × Produces is (tail m)
        → true ≡ false
    go [] after p (h, q) = sym h
    go (c ∷ m) after p q = ground (arith, p)
