-- ===== src/Quote.antt =====
-- internal/quote/limits.go: the limit on subscription declarations, and the tokens refused.
-- A time is a number of nanoseconds behind the zero `time.Time`. The lock of the limiter makes each
-- call one step; the wait between two calls is the caller's.
pub mod Window
pub mod Refused
pub mod Session
pub mod Symbols
mod Tests
use fillwire.Prelude.{
  ℕ, if◌then◌else◌, [], String, Option, List, Bool, ◌∷◌, ◌++◌, ltb, leb, false, ◌+◌, str_eq, some,
  length, ◌||◌, ◌-◌, none,
}

-- `declareLimit`, `declareWindow` and `maxRefusedTokens`.
abbrev pub declare_limit : ℕ
declare_limit = 5

abbrev pub declare_window : ℕ
declare_window = 1000000000

abbrev pub max_refused_tokens : ℕ
max_refused_tokens = 32

-- `declareLimiter`.
pub record DeclareLimiter : Type 0 where
  pub admitted : List ℕ
  pub not_before : ℕ

-- `newDeclareLimiter`.
abbrev pub new_declare_limiter : DeclareLimiter
new_declare_limiter = record { admitted = []; not_before = 0 }

-- `coolDown`.
unfoldable pub cool_down : ℕ → DeclareLimiter → DeclareLimiter
cool_down until l = if ltb l.not_before until then record l { not_before = until } else l

-- `now.Sub(at) < declareWindow`.
abbrev pub is_recent : ℕ → ℕ → Bool
is_recent now at = ltb now (at + declare_window)

-- The admissions that are in the window still.
unfoldable pub keep : ℕ → List ℕ → List ℕ
keep now [] = []
keep now (at ∷ ats) = let rest = keep now ats in if is_recent now at then at ∷ rest else rest

-- What is left to wait for the oldest of the admissions.
abbrev pub oldest_wait : ℕ → List ℕ → ℕ
oldest_wait now [] = 0
oldest_wait now (at ∷ ats) = at + declare_window - now

-- `reserve`: `none` is a reserved slot, `some w` the time to wait.
unfoldable pub reserve : ℕ → DeclareLimiter → Option ℕ × DeclareLimiter
unfolding keep
reserve now l =
    let kept = keep now l.admitted in
    if ltb now l.not_before
    then (some (l.not_before - now), record l { admitted = kept })
    else if leb declare_limit (length kept)
    then (some (oldest_wait now kept), record l { admitted = kept })
    else (none, record l { admitted = kept ++ now ∷ [] })

-- `refusedTokens`: the fingerprints in the order of their addition, and the set of them.
pub record RefusedTokens : Type 0 where
  pub order : List String
  pub set : List String

unfoldable pub has : String → List String → Bool
has x [] = false
has x (y ∷ ys) = str_eq y x || has x ys

unfoldable pub delete : String → List String → List String
delete x [] = []
delete x (y ∷ ys) = let rest = delete x ys in if str_eq y x then rest else y ∷ rest

-- `delete(r.set, r.order[0])` and `r.order = r.order[1:]`.
abbrev pub drop_oldest : List String → RefusedTokens → RefusedTokens
drop_oldest [] r = r
drop_oldest (x ∷ xs) r = record { order = xs; set = delete x r.set }

-- The digest of a token is SHA-256, the parameter `fingerprint`.
module _ (fingerprint : String → String) where
  abbrev pub append_token : String → RefusedTokens → RefusedTokens
  append_token f r = record { order = r.order ++ f ∷ []; set = r.set ++ f ∷ [] }

  -- `add`.
  unfoldable pub add : String → RefusedTokens → RefusedTokens
  add token r =
      let f = fingerprint token in
      if has f r.set
      then r
      else append_token f
          (if leb max_refused_tokens (length r.order) then drop_oldest r.order r else r)

  -- `contains`.
  unfoldable pub contains : String → RefusedTokens → Bool
  contains token r = has (fingerprint token) r.set
