-- ===== src/Quote/Refused.antt =====
-- The memory of refused tokens against its bound (internal/quote/limits.go).
use fillwire.Prelude.{
  List, [], ◌∷◌, ◌++◌, refl, String, ◌≡◌, length, ◌≤◌, ◌||◌, ◌<◌, false, str_eq, arith, eq_iff, ap,
  subst, length-append, str_eq_refl, ◌∙◌, true, Bool-cases, inl, inr, leb, leb-le, Bool,
  if◌then◌else◌,
}
use fillwire.Quote.{
  has, delete, RefusedTokens, max_refused_tokens, append_token, drop_oldest, contains, add,
}

abbrev pub Distinct : List String → Type 0
Distinct [] = Unit
Distinct (x ∷ xs) = (has x xs ≡ false) × Distinct xs

-- The set holds the fingerprints of the order, each once, and they are 32 at most.
pub record Bounded (r : RefusedTokens) : Type 0 where
  pub same : r.set ≡ r.order
  pub distinct : Distinct r.order
  pub at_most : length r.order ≤ max_refused_tokens

delete-absent : (x : String) (ys : List String) → has x ys ≡ false → delete x ys ≡ ys
unfolding delete has
delete-absent x [] h = refl
delete-absent x (y ∷ ys) h = ground (arith, delete-absent x ys)

delete-first : (x : String) (ys : List String) → has x ys ≡ false → delete x (x ∷ ys) ≡ ys
unfolding delete
delete-first x ys h = rw (str_eq_refl x) (delete-absent x ys h)

has-delete : (f x : String) (ys : List String) → has f ys ≡ false → has f (delete x ys) ≡ false
unfolding has delete
has-delete f x [] h = refl
has-delete f x (y ∷ ys) h = ground (arith, has-delete f x ys)

has-append : (x f : String) (ys : List String) → has x (ys ++ f ∷ []) ≡ (has x ys || str_eq f x)
unfolding has
has-append x f [] = ground arith
has-append x f (y ∷ ys) = ground (arith, has-append x f ys)

Distinct-append :
    (f : String) (xs : List String) → Distinct xs → has f xs ≡ false → Distinct (xs ++ f ∷ [])
unfolding has
Distinct-append f [] d h = (refl, tt)
Distinct-append f (x ∷ xs) (out, d) h =
    let differs : str_eq f x ≡ false = ground (arith, eq_iff x f, eq_iff f x) in
    (ground (arith, has-append x f xs), Distinct-append f xs d (ground arith))

append_token-Bounded :
    (fp : String → String) (f : String) (r : RefusedTokens)
    → Bounded r
    → length r.order < 32
    → has f r.set ≡ false
    → Bounded (append_token fp f r)
append_token-Bounded fp f r b room new = record {
  same = ap (λ (xs : List String). xs ++ f ∷ []) b.same;
  distinct =
      Distinct-append f r.order b.distinct
        (subst (λ (xs : List String). has f xs ≡ false) b.same new);
  at_most = omega (arith, length-append r.order (f ∷ []));
}

drop_oldest-Bounded :
    (order : List String) (r : RefusedTokens)
    → r.order ≡ order
    → Bounded r
    → 32 ≤ length order
    → Bounded (drop_oldest order r) × (length (drop_oldest order r).order < 32)
drop_oldest-Bounded [] r eq b full = absurd (omega arith)
drop_oldest-Bounded (x ∷ xs) r eq b full =
    let d : Distinct (x ∷ xs) = subst Distinct eq b.distinct in
    let k : length (x ∷ xs) ≤ 32 = subst (λ (ys : List String). length ys ≤ 32) eq b.at_most in
    (
      record {
        same = ap (delete x) (b.same ∙ eq) ∙ delete-first x xs d.0;
        distinct = d.1;
        at_most = omega arith;
      },
      omega arith,
    )

-- What is not in the set is not in it without its oldest.
drop_oldest-has :
    (f : String) (order : List String) (r : RefusedTokens)
    → has f r.set ≡ false
    → has f (drop_oldest order r).set ≡ false
drop_oldest-has f [] r h = h
drop_oldest-has f (x ∷ xs) r h = has-delete f x r.set h

add-Bounded :
    (fp : String → String) (t : String) (r : RefusedTokens) → Bounded r → Bounded (add fp t r)
unfolding add
add-Bounded fp t r b = elim (Bool-cases (has (fp t) r.set)) [
  | inl known ↦ rw known b
  | inr new ↦ elim (Bool-cases (leb max_refused_tokens (length r.order))) [
    | inr room ↦ rw (new, room) (append_token-Bounded fp (fp t) r b (ground arith) new)
    | inl full ↦
        let (b', room) = drop_oldest-Bounded r.order r refl b (leb-le 32 (length r.order) full) in
        rw (new, full)
          (append_token-Bounded fp (fp t) (drop_oldest r.order r) b' room
            (drop_oldest-has (fp t) r.order r new))
  ]
]

add-contains :
    (fp : String → String) (t : String) (r : RefusedTokens) → contains fp t (add fp t r) ≡ true
unfolding add contains
add-contains fp t r = elim (Bool-cases (has (fp t) r.set)) [
  | inl known ↦ rw known known
  | inr new ↦ rw new (
      last_in (fp t) (if leb max_refused_tokens (length r.order) then drop_oldest r.order r else r))
]
  where
    or_true : (b : Bool) {d : Bool} → d ≡ true → (b || d) ≡ true
    or_true b h = ground arith

    last_in : (f : String) (r' : RefusedTokens) → has f (append_token fp f r').set ≡ true
    last_in f r' = has-append f f r'.set ∙ or_true (has f r'.set) (str_eq_refl f)

-- The tokens refused, in order.
unfoldable pub add_all : (String → String) → List String → RefusedTokens → RefusedTokens
add_all fp [] r = r
add_all fp (t ∷ ts) r = add_all fp ts (add fp t r)

-- After any tokens have been refused, whatever their fingerprints: the set holds what the order
-- holds, each fingerprint once, 32 at most; and a token that is refused next is remembered.
pub add_all-Bounded :
    (fp : String → String) (ts : List String) (t : String) (r : RefusedTokens)
    → Bounded r
    → Bounded (add_all fp ts r) × (contains fp t (add fp t (add_all fp ts r)) ≡ true)
unfolding add_all
add_all-Bounded fp [] t r b = (b, add-contains fp t r)
add_all-Bounded fp (x ∷ xs) t r b = add_all-Bounded fp xs t (add fp x r) (add-Bounded fp x r b)
