-- ===== src/Decode/Duplicate.antt =====
-- internal/decode/duplicate.go: the bounded count of how often a notice was seen. The map of counts
-- is an association list, oldest entry first; the lock makes each call one step.
pub mod Bounds
use fillwire.Prelude.{
  ℕ, zero, suc, List, [], ◌∷◌, ◌++◌, refl, String, ◌≡◌, ◌+◌, some, length, if◌then◌else◌, Option,
  Bool-cases, Bool, ◌≤◌, ◌%◌, true, str_eq, none, leb, inl, arith, ◌^◌, ◌&&◌, str_eq_refl, inr, ap,
}
use fillwire.Prelude.Int.{ℤ, eq_ℤ, pos, negsuc}

-- `duplicateKey`.
pub record DuplicateKey : Type 0 where
  pub order_no : String
  pub fill_seq : ℤ

abbrev pub key_eq : DuplicateKey → DuplicateKey → Bool
key_eq j k = str_eq j.order_no k.order_no && eq_ℤ j.fill_seq k.fill_seq

abbrev pub Counts : Type 0
Counts = List (DuplicateKey × ℕ)

-- `duplicateTracker`.
pub record DuplicateTracker : Type 0 where
  pub max : ℕ
  pub counts : Counts
  pub fifo : List DuplicateKey

-- `newDuplicateTracker`.
abbrev pub new_duplicate_tracker : ℤ → DuplicateTracker
new_duplicate_tracker (pos zero) = record { max = 10000; counts = []; fifo = [] }
new_duplicate_tracker (pos (suc n)) = record { max = suc n; counts = []; fifo = [] }
new_duplicate_tracker (negsuc n) = record { max = 10000; counts = []; fifo = [] }

unfoldable pub count_of : DuplicateKey → Counts → Option ℕ
count_of k [] = none
count_of k ((j, n) ∷ es) = if key_eq j k then some n else count_of k es

-- The count under a key that is there.
unfoldable pub set_count : DuplicateKey → ℕ → Counts → Counts
set_count k n [] = []
set_count k n ((j, m) ∷ es) =
    let rest = set_count k n es in if key_eq j k then (j, n) ∷ es else (j, m) ∷ rest

-- `delete`.
unfoldable pub delete_count : DuplicateKey → Counts → Counts
delete_count k [] = []
delete_count k ((j, m) ∷ es) =
    let rest = delete_count k es in if key_eq j k then rest else (j, m) ∷ rest

-- The eviction of the oldest key. An empty `fifo` panics in the code: it is not there when the
-- counts are full.
abbrev pub evict : List DuplicateKey → DuplicateTracker → DuplicateTracker
evict [] t = t
evict (oldest ∷ rest) t = record t { counts = delete_count oldest t.counts; fifo = rest }

abbrev pub admit : DuplicateKey → DuplicateTracker → DuplicateTracker
admit k t = record t { counts = t.counts ++ (k, 1) ∷ []; fifo = t.fifo ++ k ∷ [] }

-- uint64 `count++`.
abbrev pub next_count : ℕ → ℕ
next_count n = (n + 1) % 2 ^ 64

-- `observe`.
unfoldable pub observe : DuplicateKey → DuplicateTracker → ℕ × DuplicateTracker
observe k t = elim (count_of k t.counts) [
  | some n ↦ (next_count n, record t { counts = set_count k (next_count n) t.counts })
  | none ↦ (1, admit k (if leb t.max (length t.counts) then evict t.fifo t else t))
]

-- `size`.
abbrev pub size : DuplicateTracker → ℕ
size t = length t.counts
