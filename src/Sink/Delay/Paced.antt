-- ===== src/Sink/Delay/Paced.antt =====
-- How retries of internal/sink/sink.go are paced, and when they end.
use fillwire.Sink.Delay.{delay_from, retry_delay, deliver_with_retry, Attempt, failed_queue}
use fillwire.Prelude.{
  ℕ, zero, suc, arith, refl, List, [], ◌∷◌, some, none, false, ◌≡◌, leb, inl, ◌<◌, inr, Bool, ◌⊎◌,
  ltb-ge, ok, Bool-cases, ap, ◌∙◌, All, ◌++◌, length, ◌≤◌, Option-cases, ◌+◌,
}
use fillwire.Prelude.Int.{ℤ, pos, ◌≤ℤ◌, ltb_ℤ, leb_ℤ}
use fillwire.Sink.{new_runner, Runner, Ws, Message, Queue, deliver_once}
use fillwire.Decode.Notice.{Ws}
use fillwire.Stream.{Message, Queue}

-- The loop goes on, or ends at the maximum or where it is.
delay_from-cases :
    (scale : ℤ → ℤ) (max : ℤ) (d : ℤ)
    → ((n : ℕ) → delay_from scale max (suc n) d ≡ d)
      ⊎ ((n : ℕ) → delay_from scale max (suc n) d ≡ max)
      ⊎ (((n : ℕ) → delay_from scale max (suc n) d ≡ delay_from scale max n (scale d))
          × (leb_ℤ (scale d) d ≡ false)
          × (ltb_ℤ max (scale d) ≡ false))
unfolding delay_from
delay_from-cases scale max d = elim (Bool-cases (ltb_ℤ d max)) [
  | inr top ↦ inl (λ n. rw (top, delay_from) refl)
  | inl below ↦ elim (Bool-cases (leb_ℤ (scale d) d)) [
    | inl falls ↦ inr (inl (λ n. rw (below, falls, delay_from) refl))
    | inr grows ↦ elim (Bool-cases (ltb_ℤ max (scale d))) [
      | inl over ↦ inr (inl (λ n. rw (below, grows, over, delay_from) refl))
      | inr fits ↦ inr (inr (λ n. rw (below, grows, fits, delay_from) refl, grows, fits))
    ]
  ]
]

leb-gt : (a b : ℕ) → leb a b ≡ false → b < a
leb-gt a b h = ground arith

delay_from-between :
    (scale : ℤ → ℤ) (max : ℤ) (n : ℕ) (d : ℤ)
    → d ≤ℤ max
    → (d ≤ℤ delay_from scale max n d) × (delay_from scale max n d ≤ℤ max)
unfolding delay_from
delay_from-between scale max zero d k = (omega arith, k)
delay_from-between scale max (suc n) d k = elim (delay_from-cases scale max d) [
  | inl stays ↦ rw (stays n) (omega arith, k)
  | inr (inl ends) ↦ rw (ends n) (k, omega arith)
  | inr (inr (goes, grows, fits)) ↦
      let more = leb-gt _ _ grows in
      let (lo, hi) = delay_from-between scale max n (scale d) (ltb-ge _ _ fits) in
      rw (goes n) (omega arith, hi)
]

delay_from-zero : (scale : ℤ → ℤ) (max d : ℤ) → delay_from scale max zero d ≡ d
unfolding delay_from
delay_from-zero scale max d = refl

-- Another round never makes the delay shorter.
delay_from-grows :
    (scale : ℤ → ℤ) (max : ℤ) (n : ℕ) (d : ℤ)
    → d ≤ℤ max
    → delay_from scale max n d ≤ℤ delay_from scale max (suc n) d
delay_from-grows scale max zero d k =
    rw (delay_from-zero scale max d) (delay_from-between scale max 1 d k).0
delay_from-grows scale max (suc n) d k = elim (delay_from-cases scale max d) [
  | inl stays ↦ rw (stays n, stays (suc n)) (omega arith)
  | inr (inl ends) ↦ rw (ends n, ends (suc n)) (omega arith)
  | inr (inr (goes, grows, fits)) ↦
      rw (goes n, goes (suc n)) (delay_from-grows scale max n (scale d) (ltb-ge _ _ fits))
]

new_runner-ok :
    (connected grows : Bool) (retry_min retry_max : ℤ) (r : Runner)
    → new_runner connected grows retry_min retry_max ≡ ok r
    → (pos 1 ≤ℤ retry_min)
      × (retry_min ≤ℤ retry_max)
      × (r.retry_min ≡ retry_min)
      × (r.retry_max ≡ retry_max)
unfolding new_runner
new_runner-ok connected grows retry_min retry_max r h = ground arith

retry_delay-from :
    (scale : ℤ → ℤ) (r : Runner) (low high : ℤ) (n : ℕ)
    → r.retry_min ≡ low
    → r.retry_max ≡ high
    → retry_delay scale r n ≡ delay_from scale high n low
unfolding retry_delay
retry_delay-from scale r low high n h k =
    ap (λ (x : ℤ). delay_from scale r.retry_max n x) h ∙ ap (λ (x : ℤ). delay_from scale x n low) k

-- A runner that NewRunner returns: whatever the factor makes of a delay, every delay is positive, at
-- least the minimum and at most the maximum, and no delay is longer than the next one.
pub retry_delay-between :
    (scale : ℤ → ℤ) (connected grows : Bool) (retry_min retry_max : ℤ) (r : Runner) (n : ℕ)
    → new_runner connected grows retry_min retry_max ≡ ok r
    → (pos 1 ≤ℤ retry_min)
      × (retry_min ≤ℤ retry_delay scale r n)
      × (retry_delay scale r n ≤ℤ retry_max)
      × (retry_delay scale r n ≤ℤ retry_delay scale r (suc n))
retry_delay-between scale connected grows retry_min retry_max r n h =
    let (positive, ordered, low, high) = new_runner-ok connected grows retry_min retry_max r h in
    let (lo, hi) = delay_from-between scale retry_max n retry_min ordered in
    rw
      (
        retry_delay-from scale r retry_min retry_max n low high,
        retry_delay-from scale r retry_min retry_max (suc n) low high,
      )
      (positive, lo, hi, delay_from-grows scale retry_max n retry_min ordered)

-- An attempt after which the loop goes on, if its delivery fails.
abbrev pub Patient : Attempt → Type 0
Patient a = (a.ended ≡ false) × (a.interrupted ≡ false)

-- Attempts that nothing ends, in front of one whose delivery has no error, whatever was counted by
-- then: the loop ends without an error, at that attempt or before it, and slept once behind each
-- delivery but the last.
pub deliver_with_retry-delivers :
    (scale : ℤ → ℤ) (ws : Ws) (r : Runner) (ms : List Message) (n : ℕ) (first : List Attempt)
    (a : Attempt) (others : List Attempt) (q : Queue)
    → All Patient first
    → ((p : Queue) → (deliver_once ws a.request a.xack ms p).error ≡ none)
    → let end = deliver_with_retry scale ws r ms n (first ++ a ∷ others) q in
      (end.result ≡ some none)
      × (length end.deliveries ≡ suc (length end.delays))
      × (length end.deliveries ≤ suc (length first))
unfolding deliver_with_retry
deliver_with_retry-delivers scale ws r ms n [] a others q patient good =
    rw (good q, deliver_with_retry) (refl, refl, omega arith)
deliver_with_retry-delivers scale ws r ms n (b ∷ bs) a others q (calm, patient) good =
    let d = deliver_once ws b.request b.xack ms q in
    elim (Option-cases d.error) [
      | inl fine ↦ rw (fine, deliver_with_retry) (refl, refl, omega arith)
      | inr (e, bad) ↦
          let (done, equal, few) =
            deliver_with_retry-delivers scale ws r ms (n + 1) bs a others (failed_queue scale d)
              patient good in
          rw (bad, calm.0, calm.1, deliver_with_retry) (done, ap suc equal, omega arith)
    ]
