-- ===== src/Book/Replay/Agrees/Verdicts.antt =====
-- What the loop over the verdicts of a frame leaves alone (internal/book/replay.go, frame).
use fillwire.Book.Detect.{
  class_ok, class_gap, class_duplicate, class_regress, Tracker, trade_all, frame, book_all, Verdict,
  Class, turn_day,
}
use fillwire.Book.Evidence.{Line}
use fillwire.Prelude.{
  String, List, [], ◌∷◌, Bool, true, false, none, refl, inl, inr, ◌≡◌, arith, ◌+◌, ◌∙◌, ◌≤◌,
  str_eq_refl, length, length-append,
}
use fillwire.Prelude.Int.{ℤ}
use fillwire.Book.Replay.{
  send_event, Replayer, Frame, Replayed, same_bool, same_all, entry_round, apply_entries,
  same_verdict, same_class, apply_entry, Entry, Summary, of_book, deep_equal, of_trade,
}
use fillwire.Book.Frame.{Frame, parse_frame}
use fillwire.Book.Frame.Parsed.{parse_frame-GoodFrame}
use fillwire.Book.Replay.Agrees.Chunks.{takes_all}
use fillwire.Book.Detect.Runs.{length-book_all, length-trade_all}

-- What the loop over the verdicts leaves alone, when every event is taken.
abbrev pub Keeps : Replayer → Replayed → Type 0
Keeps rp (rp', x) =
    (x ≡ none)
    × (rp'.torn ≡ rp.torn)
    × (rp'.summary.verdict_mismatches ≡ rp.summary.verdict_mismatches)
    × (rp'.session ≡ rp.session)
    × (rp'.tracker ≡ rp.tracker)

pub entry_round-Keeps :
    (c : Class) (rp : Replayer) (s : Summary) (l : Line) (tr : String) (v : Verdict) (e : Entry)
    → s.verdict_mismatches ≡ rp.summary.verdict_mismatches
    → Keeps rp (entry_round takes_all c rp s l tr v e)
unfolding entry_round apply_entry send_event
entry_round-Keeps class_ok rp s l tr v (of_book r) h = (refl, refl, h, refl, refl)
entry_round-Keeps class_ok rp s l tr v (of_trade r) h = (refl, refl, h, refl, refl)
entry_round-Keeps class_gap rp s l tr v (of_book r) h = (refl, refl, h, refl, refl)
entry_round-Keeps class_gap rp s l tr v (of_trade r) h = (refl, refl, h, refl, refl)
entry_round-Keeps class_duplicate rp s l tr v e h = (refl, refl, h, refl, refl)
entry_round-Keeps class_regress rp s l tr v e h = (refl, refl, h, refl, refl)

pub apply_entries-Keeps :
    (l : Line) (tr : String) (vs : List Verdict) (es : List Entry) (rp : Replayer)
    → Keeps rp (apply_entries takes_all l tr vs es rp)
unfolding apply_entries
apply_entries-Keeps l tr [] es rp = (refl, refl, refl, refl, refl)
apply_entries-Keeps l tr (v ∷ vs) [] rp = (refl, refl, refl, refl, refl)
apply_entries-Keeps l tr (v ∷ vs) (e ∷ es) rp =
    let s : Summary = record rp.summary { records = rp.summary.records + 1 } in
    let (fine, torn, miss, sess, track) = entry_round-Keeps v.class rp s l tr v e refl in
    let next = (entry_round takes_all v.class rp s l tr v e).0 in
    let (fine', torn', miss', sess', track') = apply_entries-Keeps l tr vs es next in
    rw (fine, apply_entries) (fine', torn' ∙ torn, miss' ∙ miss, sess' ∙ sess, track' ∙ track)

pub same_class_refl : (c : Class) → same_class c c ≡ true
same_class_refl class_ok = refl
same_class_refl class_gap = refl
same_class_refl class_duplicate = refl
same_class_refl class_regress = refl

pub same_bool_refl : (b : Bool) → same_bool b b ≡ true
same_bool_refl true = refl
same_bool_refl false = refl

pub same_verdict_refl : (v : Verdict) → same_verdict v v ≡ true
same_verdict_refl v =
    rw (str_eq_refl v.symbol, same_class_refl v.class, same_bool_refl v.resync) (ground arith)

pub same_all_refl : (vs : List Verdict) → same_all vs vs ≡ true
unfolding same_all
same_all_refl [] = refl
same_all_refl (v ∷ vs) = rw (same_verdict_refl v) (same_all_refl vs)

pub deep_equal_refl : (vs : List Verdict) → 1 ≤ length vs → deep_equal vs vs ≡ true
deep_equal_refl [] h = absurd (omega arith)
deep_equal_refl (v ∷ vs) h = same_all_refl (v ∷ vs)

-- A frame that parses has a verdict at least.
pub length-frame :
    (t : Tracker) (raw : String) (f : Frame) (at : ℤ)
    → parse_frame raw ≡ (f, none)
    → 1 ≤ length (frame t f at).0
unfolding frame
length-frame t raw f at h =
    let t1 = (turn_day t at).1 in
    let t2 = (book_all t1 f.books).1 in
    let k = length-append (book_all t1 f.books).0 (trade_all t2 f.trades).0 in
    elim (parse_frame-GoodFrame raw f h) [
      | inl (_, some_books, _, _) ↦ omega (arith, k, length-book_all t1 f.books, some_books)
      | inr (_, some_trades, _, _) ↦ omega (arith, k, length-trade_all t2 f.trades, some_trades)
    ]
