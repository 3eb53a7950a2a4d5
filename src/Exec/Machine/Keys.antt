-- ===== src/Exec/Machine/Keys.antt =====
-- Lookups by idempotency key in the children sent (internal/exec/machine.go, `sentKey`).
use fillwire.Prelude.{
  ◌≡◌, refl, String, true, false, some, List, [], ◌∷◌, ◌++◌, All, is_none, arith, Bool-cases,
  if◌then◌else◌, eq_iff, ◌∙◌, str_eq, str_eq_refl, inl, subst, some-eq, inr,
}
use fillwire.Exec.State.{Child, find_key}
use fillwire.Exec.Machine.Invariant.{DistinctKeys}
use fillwire.Exec.Machine.{str_eq}

pub find_key-append :
    (k : String) (cs ds : List Child)
    → find_key k (cs ++ ds) ≡ (if is_none (find_key k cs) then find_key k ds else find_key k cs)
unfolding find_key
find_key-append k [] ds = refl
find_key-append k (c ∷ cs) ds = ground (arith, find_key-append k cs ds)

pub known-append :
    (k : String) (cs ds : List Child)
    → is_none (find_key k cs) ≡ false
    → is_none (find_key k (cs ++ ds)) ≡ false
known-append k cs ds h = rw find_key-append (rw h h)

pub DistinctKeys-snoc :
    (c : Child) (cs : List Child)
    → DistinctKeys cs
    → is_none (find_key c.key cs) ≡ true
    → DistinctKeys (cs ++ c ∷ [])
unfolding find_key
DistinctKeys-snoc c [] h k = (refl, tt)
DistinctKeys-snoc c (d ∷ cs) h k = (
  ground (arith, find_key-append d.key cs (c ∷ []), eq_iff c.key d.key, eq_iff d.key c.key),
  DistinctKeys-snoc c cs h.1 (ground arith),
)

pub All-find_key :
    (P : Child → Type 0) (k : String) (cs : List Child) {c : Child}
    → All P cs
    → find_key k cs ≡ some c
    → P c
unfolding find_key
All-find_key P k [] h e = ground arith
All-find_key P k (d ∷ cs) {c} h e = elim (Bool-cases (str_eq d.key k)) [
  | inl same ↦ subst P (some-eq (rw same at e)) h.0
  | inr other ↦ All-find_key P k cs h.1 (rw other at e)
]

pub find_key-snoc :
    (c : Child) (cs : List Child)
    → is_none (find_key c.key cs) ≡ true
    → find_key c.key (cs ++ c ∷ []) ≡ some c
unfolding find_key
find_key-snoc c cs h = find_key-append c.key cs (c ∷ []) ∙ rw h (rw (str_eq_refl c.key) refl)
