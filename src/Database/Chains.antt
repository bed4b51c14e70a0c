-- ===== src/Database/Chains.antt =====
-- The singly linked lists that run through the objects of server/db_objects.c: a field of the owner
-- names the first item, a field of each item the next one, and -1 (`NOTHING`) ends the list. Here
-- such a pair of fields is a partial function on object numbers.
use waverous.Base.{
  ℕ, zero, suc, ◌≤◌, ◌<◌, ◌≡◌, refl, ap, sym, ◌∙◌, ◌≢◌, inl, inr, Bool, true, false, ◌&&◌, ◌||◌,
  not, Option, some, ℤ, pos, negsuc, eqz, eqz_iff, List, [], ◌∷◌, ◌++◌, arith, length,
  if◌then◌else◌, Bool-cases,
}
use mathlib.Core.Path.{subst}
use waverous.Base.Int.{eqz_refl}

-- `NOTHING` of server/structures.h.
abbrev pub nothing : ℤ
nothing = negsuc 0

abbrev pub has : ℤ → List ℤ → Bool
has a [] = false
has a (x ∷ xs) = eqz a x || has a xs

-- A table of links: `none` at a number that names no object.
abbrev pub Table : Type 0
Table = ℤ → Option ℤ

abbrev pub upd : Table → ℤ → Option ℤ → Table
upd f p v a = if eqz a p then v else f a

abbrev pub first : List ℤ → ℤ
first [] = nothing
first (x ∷ xs) = x

-- Through the table the items lead one to the next, each once, and the last to `nothing`.
abbrev pub Linked : Table → List ℤ → Type 0
Linked f [] = Unit
Linked f (x ∷ xs) = (f x ≡ some (first xs)) × (has x xs ≡ false) × Linked f xs

-- The list without the item.
unfoldable pub erase : ℤ → List ℤ → List ℤ
erase a [] = []
erase a (x ∷ xs) = if eqz a x then xs else x ∷ erase a xs

pub erase-head : (a x : ℤ) (xs : List ℤ) → eqz a x ≡ true → erase a (x ∷ xs) ≡ xs
unfolding erase
erase-head a x xs t = rw t

pub erase-tail : (a x : ℤ) (xs : List ℤ) → eqz a x ≡ false → erase a (x ∷ xs) ≡ x ∷ erase a xs
unfolding erase
erase-tail a x xs f = rw f

pub upd_ne : (f : Table) (p : ℤ) (v : Option ℤ) (b : ℤ) → eqz b p ≡ false → upd f p v b ≡ f b
upd_ne f p v b h = rw h

pub upd_same : (f : Table) (p : ℤ) (v : Option ℤ) (b : ℤ) → f p ≡ v → f b ≡ upd f p v b
upd_same f p v b h = elim (Bool-cases (eqz b p)) [
  | inl t ↦ rw t (ap f ((eqz_iff b p).0 t) ∙ h)
  | inr n ↦ rw n
]

pub Linked-frame :
    {f g : Table} (xs : List ℤ)
    → ((a : ℤ) → has a xs ≡ true → g a ≡ f a)
    → Linked f xs
    → Linked g xs
Linked-frame [] same l = tt
Linked-frame (x ∷ xs) same l =
    (same x (rw eqz_refl) ∙ l.0, l.1, Linked-frame xs (λ a h. same a (ground arith)) l.2)

pub Linked-upd :
    (f : Table) (xs : List ℤ) (p : ℤ) (v : Option ℤ)
    → has p xs ≡ false
    → Linked f xs
    → Linked (upd f p v) xs
Linked-upd f xs p v out = Linked-frame xs λ a h. ground (arith, eqz_iff a p)

pub not-has-erase : (a b : ℤ) (xs : List ℤ) → has b xs ≡ false → has b (erase a xs) ≡ false
unfolding erase
not-has-erase a b [] h = refl
not-has-erase a b (x ∷ xs) h = ground (arith, not-has-erase a b xs)

-- Each item stands once.
abbrev pub Distinct : List ℤ → Type 0
Distinct [] = Unit
Distinct (x ∷ xs) = (has x xs ≡ false) × Distinct xs

pub Linked-Distinct : (f : Table) (xs : List ℤ) → Linked f xs → Distinct xs
Linked-Distinct f [] l = tt
Linked-Distinct f (x ∷ xs) l = (l.1, Linked-Distinct f xs l.2)

-- Where each item stands once, erasing one leaves exactly the others.
pub has-erase :
    (a b : ℤ) (xs : List ℤ) → Distinct xs → has b (erase a xs) ≡ (has b xs && not (eqz a b))
unfolding erase
has-erase a b [] l = refl
has-erase a b (x ∷ xs) l =
    ground (arith, has-erase a b xs l.1, eqz_iff a x, eqz_iff b x, eqz_iff a b)

pub Distinct-erase : (a : ℤ) (xs : List ℤ) → Distinct xs → Distinct (erase a xs)
unfolding erase
Distinct-erase a [] d = tt
Distinct-erase a (x ∷ xs) d = elim (Bool-cases (eqz a x)) [
  | inl t ↦ rw t d.1
  | inr f ↦ rw f (not-has-erase a x xs d.0, Distinct-erase a xs d.1)
]

pub erase_absent : (a : ℤ) (xs : List ℤ) → has a xs ≡ false → erase a xs ≡ xs
unfolding erase
erase_absent a [] h = refl
erase_absent a (x ∷ xs) h = ground (arith, erase_absent a xs)

length-erase : (a : ℤ) (xs : List ℤ) → length xs ≤ suc (length (erase a xs))
unfolding erase
length-erase a [] = omega arith
length-erase a (x ∷ xs) = ground (arith, length-erase a xs)

-- A list of distinct numbers below `n` has at most `n` items.
pub length-le-bound :
    (n : ℕ) (xs : List ℤ)
    → Distinct xs
    → ((a : ℤ) → has a xs ≡ true → (m : ℕ) × (a ≡ pos m) × (m < n))
    → length xs ≤ n
length-le-bound zero [] d below = omega arith
length-le-bound zero (x ∷ xs) d below =
    let (m, e, lt) = below x (rw eqz_refl) in absurd (omega arith)
length-le-bound (suc n) xs d below = omega (
  arith,
  length-erase (pos n) xs,
  length-le-bound n (erase (pos n) xs) (Distinct-erase (pos n) xs d) (λ a h. smaller a h),
)
  where
    smaller : (a : ℤ) → has a (erase (pos n) xs) ≡ true → (m : ℕ) × (a ≡ pos m) × (m < n)
    smaller a h =
        let both : (has a xs ≡ true) × (eqz (pos n) a ≡ false) =
          ground (arith, has-erase (pos n) a xs d) in
        let (m, e, lt) = below a both.0 in
        let ne : m ≢ n = λ q. cc ((eqz_iff (pos n) a).1 (ap pos (sym q) ∙ sym e), both.1) in
        (m, e, omega arith)

pub has-append : (a b : ℤ) (xs : List ℤ) → has b (xs ++ a ∷ []) ≡ (has b xs || eqz b a)
has-append a b [] = ground arith
has-append a b (x ∷ xs) = ground (arith, has-append a b xs)

-- An erased item is gone.
pub has-erase_self : (f : Table) (a : ℤ) (xs : List ℤ) → Linked f xs → has a (erase a xs) ≡ false
has-erase_self f a xs l = ground (arith, has-erase a a xs (Linked-Distinct f xs l), eqz_refl a)

-- The item in front of `a` in the list that starts with `x`.
abbrev pub before : ℤ → ℤ → List ℤ → ℤ
before a x [] = x
before a x (y ∷ ys) = if eqz a y then x else before a y ys

pub has-before : (a x : ℤ) (ys : List ℤ) → has (before a x ys) (x ∷ ys) ≡ true
has-before a x [] = rw eqz_refl
has-before a x (y ∷ ys) = ground (arith, has-before a y ys, eqz_refl x)

pub has_ne : (x q : ℤ) (xs : List ℤ) → has x xs ≡ false → has q xs ≡ true → eqz x q ≡ false
has_ne x q xs out h = ground (arith, eqz_iff x q)

-- Let the item in front of `a` point behind `a`: the list without `a` remains.
pub Linked-erase :
    (f : Table) (a x : ℤ) (ys : List ℤ) (r : Option ℤ)
    → eqz a x ≡ false
    → has a ys ≡ true
    → f a ≡ r
    → Linked f (x ∷ ys)
    → Linked (upd f (before a x ys) r) (x ∷ erase a ys)
unfolding erase
Linked-erase f a x [] r ne h e l = cc
Linked-erase f a x (y ∷ ys) r ne h e l = elim (Bool-cases (eqz a y)) [
  | inl here ↦ elim_at x ys (rw here) (rw here) (unlink_next ((eqz_iff a y).0 here))
  | inr there ↦
      elim_at (before a y ys) (y ∷ erase a ys) (rw there) (rw there)
        (unlink_later there (Linked-erase f a y ys r there (ground arith) e l.2))
]
  where
    elim_at :
        (q : ℤ) (zs : List ℤ)
        → before a x (y ∷ ys) ≡ q
        → erase a (y ∷ ys) ≡ zs
        → Linked (upd f q r) (x ∷ zs)
        → Linked (upd f (before a x (y ∷ ys)) r) (x ∷ erase a (y ∷ ys))
    elim_at q zs p k m =
        subst (λ w. Linked (upd f w r) (x ∷ erase a (y ∷ ys))) (sym p)
          (subst (λ w. Linked (upd f q r) (x ∷ w)) (sym k) m)

    unlink_next : a ≡ y → Linked (upd f x r) (x ∷ ys)
    unlink_next at = (
      rw eqz_refl (sym e ∙ ap f at ∙ l.2.0),
      ground arith,
      Linked-upd f ys x r (ground arith) l.2.2,
    )

    unlink_later :
        eqz a y ≡ false
        → Linked (upd f (before a y ys) r) (y ∷ erase a ys)
        → Linked (upd f (before a y ys) r) (x ∷ y ∷ erase a ys)
    unlink_later there m = (
      rw (has_ne x (before a y ys) (y ∷ ys) l.1 (has-before a y ys)) l.0,
      ground (arith, not-has-erase a x ys),
      m,
    )

-- The last item of the list that starts with `x`.
abbrev pub last : ℤ → List ℤ → ℤ
last x [] = x
last x (y ∷ ys) = last y ys

pub has-last : (x : ℤ) (ys : List ℤ) → has (last x ys) (x ∷ ys) ≡ true
has-last x [] = rw eqz_refl
has-last x (y ∷ ys) = ground (arith, has-last y ys)

has_ne_sym : (a x : ℤ) → (eqz a x || false) ≡ false → eqz x a ≡ false
has_ne_sym a x h = ground (arith, eqz_iff a x, eqz_iff x a)

-- Let the last item point to a new one, and the new one to `nothing`: it is appended.
pub Linked-append :
    (f : Table) (a x : ℤ) (ys : List ℤ)
    → has a (x ∷ ys) ≡ false
    → Linked f (x ∷ ys)
    → Linked (upd (upd f (last x ys) (some a)) a (some nothing)) ((x ∷ ys) ++ a ∷ [])
Linked-append f a x [] out l =
    (rw (has_ne_sym a x out, eqz_refl) refl, rw (has_ne_sym a x out), (rw eqz_refl, refl, tt))
Linked-append f a x (y ∷ ys) out l = (
  rw (has_ne_sym a x out', has_ne x (last y ys) (y ∷ ys) l.1 (has-last y ys)) l.0,
  rw (has-append a x (y ∷ ys), l.1) (has_ne_sym a x out'),
  Linked-append f a y ys (ground arith) l.2,
)
  where
    out' : (eqz a x || false) ≡ false
    out' = ground arith
