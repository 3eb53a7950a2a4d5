-- ===== src/Book/Detect/Tape.antt =====
-- The volume of a tape (internal/book/detect.go, `trade`).
use fillwire.Book.Frame.{TradeRecord}
use fillwire.Prelude.{
  ℕ, List, [], ◌∷◌, refl, String, ◌≤◌, ◌≡◌, ◌+◌, if◌then◌else◌, Bool, ◌<◌, false, ◌^◌, ◌-◌,
  Bool-cases, str_eq, ◌||◌, arith, inl, inr, true, some, str_eq_refl, All, subst, sym, ◌∙◌, ap,
}
use fillwire.Prelude.Int.{ℤ, pos_part, neg_part, eq_ℤ, -ℤ_parts, ltb_ℤ}
use fillwire.Book.Detect.{
  trade_continues, Verdict, TradeCursor, Bool, sub64, is_applied, false, str_eq, eq_ℤ, ltb_ℤ, true,
  trade_all, trade, lookup, trade_verdict, put, Tracker, some,
}
use fillwire.Prelude.Word.{sub64, sub64_parts}

-- A volume that an int64 holds.
abbrev pub IsVolume : ℤ → Type 0
IsVolume a = (neg_part a ≡ 0) × (pos_part a < 2 ^ 63)

-- A trade of the symbol, with its volumes.
abbrev pub IsTradeOf : String → TradeRecord → Type 0
IsTradeOf s r = (r.symbol ≡ s) × IsVolume r.acml_vol × IsVolume r.qty

-- What a verdict says was traded: the quantity and the missing volume, if it is applied.
abbrev pub counted : Verdict → TradeRecord → ℕ
counted v r = if is_applied v.class then pos_part r.qty + pos_part v.missing_vol else 0

-- What the verdicts on the trades say.
unfoldable pub counted_all : List Verdict → List TradeRecord → ℕ
counted_all [] rs = 0
counted_all (v ∷ vs) [] = 0
counted_all (v ∷ vs) (r ∷ rs) = counted v r + counted_all vs rs

abbrev pub GrowsBy : ℕ → ℕ → ℕ → Type 0
GrowsBy a a' n = (a ≤ a') × (a' ≤ a + n)

-- A cursor without a mark, and the same behind a trade that the verdict accounts for.
abbrev pub Accounts : TradeCursor → TradeRecord → Verdict × TradeCursor → Type 0
Accounts c r (v, c') =
    (c'.restart ≡ false)
    × (c'.resync ≡ false)
    × IsVolume c'.acml
    × GrowsBy (pos_part c.acml) (pos_part c'.acml) (counted v r)

previous-parts :
    (p q : ℤ)
    → IsVolume p
    → IsVolume q
    → (pos_part (sub64 p q) ≡ pos_part p - pos_part q)
      × (neg_part (sub64 p q) ≡ pos_part q - pos_part p)
previous-parts p q hp hq =
    rw (sub64_parts p q (omega arith) (omega arith))
      (ground (arith, -ℤ_parts p q), ground (arith, -ℤ_parts p q))

ltb_ℤ-below : (a b : ℤ) → neg_part a ≡ 0 → ltb_ℤ a b ≡ true → pos_part a < pos_part b
ltb_ℤ-below a b h k = ground arith

ltb_ℤ-at_least : (a b : ℤ) → neg_part a ≡ 0 → ltb_ℤ a b ≡ false → pos_part b ≤ pos_part a
ltb_ℤ-at_least a b h k = ground arith

trade_continues-Accounts :
    (b : Bool) (c : TradeCursor) (r : TradeRecord)
    → c.restart ≡ false
    → c.resync ≡ false
    → IsVolume c.acml
    → IsVolume r.acml_vol
    → IsVolume r.qty
    → Accounts c r (trade_continues b c r)
unfolding trade_continues
trade_continues-Accounts b c r nr ns va vp vq =
    elim (Bool-cases (str_eq r.text c.text || eq_ℤ r.acml_vol c.acml)) [
      | inl same ↦ rw same (nr, ns, va, (omega arith, omega arith))
      | inr other ↦ elim (Bool-cases (ltb_ℤ r.acml_vol c.acml)) [
        | inl back ↦ rw (other, back) (nr, ns, va, (omega arith, omega arith))
        | inr on ↦
            let above : pos_part c.acml ≤ pos_part r.acml_vol =
              ltb_ℤ-at_least r.acml_vol c.acml vp.0 on in
            let prev = previous-parts r.acml_vol r.qty vp vq in
            elim (Bool-cases (ltb_ℤ c.acml (sub64 r.acml_vol r.qty))) [
              | inl gap ↦
                  let more : pos_part c.acml < pos_part (sub64 r.acml_vol r.qty) =
                    ltb_ℤ-below c.acml (sub64 r.acml_vol r.qty) va.0 gap in
                  let missing =
                    previous-parts (sub64 r.acml_vol r.qty) c.acml
                      (omega (arith, prev.0, prev.1), omega (arith, prev.0, prev.1)) va in
                  rw (other, on, gap)
                    (nr, ns, vp, (above, omega (arith, prev.0, prev.1, missing.0)))
              | inr joined ↦
                  let near : pos_part (sub64 r.acml_vol r.qty) ≤ pos_part c.acml =
                    ltb_ℤ-at_least c.acml (sub64 r.acml_vol r.qty) va.0 joined in
                  rw (other, on, joined) (nr, ns, vp, (above, omega (arith, prev.0)))
            ]
      ]
    ]

pub lookup-put {ℓ} :
    {A : Type ℓ} (k : String) (a : A) (es : List (String × A)) → lookup k (put k a es) ≡ some a
unfolding lookup put
lookup-put k a [] = rw (str_eq_refl k) refl
lookup-put k a ((j, b) ∷ es) = elim (Bool-cases (str_eq j k)) [
  | inl same ↦ rw same (rw same refl)
  | inr other ↦ rw other (rw other (lookup-put k a es))
]

unmarked :
    (c : TradeCursor) (r : TradeRecord)
    → c.restart ≡ false
    → c.resync ≡ false
    → trade_verdict (some c) r ≡ trade_continues false c r
unfolding trade_verdict
unmarked c r nr ns = ground arith

-- `trade` of a symbol that was seen.
trade-seen :
    (t : Tracker) (c : TradeCursor) (r : TradeRecord)
    → lookup r.symbol t.trades ≡ some c
    → ((trade t r).0 ≡ (trade_verdict (some c) r).0)
      × (lookup r.symbol (trade t r).1.trades ≡ some (trade_verdict (some c) r).1)
unfolding trade
trade-seen t c r found = rw found (refl, lookup-put r.symbol (trade_verdict (some c) r).1 t.trades)

-- `trade` of a symbol whose cursor has no mark.
trade-continues :
    (t : Tracker) (s : String) (c : TradeCursor) (r : TradeRecord)
    → lookup s t.trades ≡ some c
    → c.restart ≡ false
    → c.resync ≡ false
    → r.symbol ≡ s
    → ((trade t r).0 ≡ (trade_continues false c r).0)
      × (lookup s (trade t r).1.trades ≡ some (trade_continues false c r).1)
trade-continues t s c r found nr ns at =
    let eq = unmarked c r nr ns in
    let (said, kept) =
      trade-seen t c r (subst (λ (k : String). lookup k t.trades ≡ some c) (sym at) found) in
    (
      said ∙ ap (λ (x : Verdict × TradeCursor). x.0) eq,
      subst (λ (k : String). lookup k (trade t r).1.trades ≡ some (trade_continues false c r).1) at
          (kept ∙ ap (λ (x : Verdict × TradeCursor). some x.1) eq),
    )

-- Over trades of one symbol whose cursor is marked for neither a resync nor a new day, with volumes
-- that an int64 holds: the cumulative volume of the cursor never goes back, and it grows by no more
-- than the quantities of the applied trades and the missing volumes that the verdicts report.
pub trade_all-accounts :
    (rs : List TradeRecord) (t : Tracker) (s : String) (c : TradeCursor)
    → lookup s t.trades ≡ some c
    → c.restart ≡ false
    → c.resync ≡ false
    → IsVolume c.acml
    → All (IsTradeOf s) rs
    → (c' : TradeCursor) × (lookup s (trade_all t rs).1.trades ≡ some c')
      × (pos_part c.acml ≤ pos_part c'.acml)
      × (pos_part c'.acml ≤ pos_part c.acml + counted_all (trade_all t rs).0 rs)
unfolding trade_all counted_all
trade_all-accounts [] t s c found nr ns va good = (c, found, omega arith, omega arith)
trade_all-accounts (r ∷ rs) t s c found nr ns va ((at, vp, vq), good) =
    let (said, kept) = trade-continues t s c r found nr ns at in
    let (nr', ns', va', step) = trade_continues-Accounts false c r nr ns va vp vq in
    let (c', found', low, high) =
      trade_all-accounts rs (trade t r).1 s (trade_continues false c r).1 kept nr' ns' va' good in
    (c', found', omega (arith, step.0), rw said (omega (arith, step.1, high)))
