-- ===== src/Book/Replay/Agrees.antt =====
-- The replay of what a recorder wrote (internal/book/recorder.go, replay.go).
pub mod Chunks
pub mod Utf8
mod Verdicts
mod Steps
mod Writes
pub mod Calls
use fillwire.Book.Detect.{
  class_ok, class_gap, class_duplicate, class_regress, Tracker, reconnect, trade_all, frame,
  book_all, Verdict, Class, turn_day, trade, book, new_tracker,
}
use fillwire.Book.Evidence.{
  Line, format_version, kind_stale, blank_line, kind_reconnect, kind_session, Texts, TextLaws,
}
use fillwire.Prelude.{
  ℕ, zero, suc, String, List, [], ◌∷◌, Bool, true, false, some, none, refl, inl, inr, ◌++◌, ◌≡◌, ap,
  arith, Option, Option-cases, ◌+◌, ◌∙◌, ◌≤◌, str_eq_refl, length, length-append, if◌then◌else◌,
  subst, Bool-cases, ◌%◌, ◌^◌, ◌||◌, All, take-all,
}
use fillwire.Prelude.Int.{ℤ, leb_ℤ, pos}
use fillwire.Book.Replay.{
  replay_line, replay_chunks, line_kind, Event, Chunk, send_event, replay_frame, replay_chunk,
  decoded, Replayer, unsync_books, new_replayer, Frame, Replayed, ReplayError, Option, bad_frame,
  count_frame, same_bool, same_all, entry_round, apply_entries, same_verdict, same_class,
  apply_entry, Entry, Summary, of_book, deep_equal, of_trade, replay_parsed, entries, replay,
  invalid, pos,
}
use fillwire.Book.Recorder.{
  Recorder, StreamKey, stale_line, frame_line, write, flag_all, arrive_all, arrive, StreamState,
  find_stream, put_stream, is_silent, record_parsed, record_frame, new_recorder, record_tick,
  record_reconnect, is_ignored, silent_keys, default_stale_after,
}
use fillwire.Book.Frame.{Frame, FrameError, parse_frame, Parse, TradeRecord, BookRecord}
use fillwire.Book.Frame.Parsed.{parse_frame-GoodFrame}
use fillwire.Prelude.Word.{quot64}
use fillwire.Book.Replay.Agrees.Writes.{Synced}
use fillwire.Book.Replay.Agrees.Calls.{
  Call, record_calls, record_calls-Synced, new_recorder-Synced, OnUtf8Symbols,
}
use fillwire.Book.Replay.Agrees.Chunks.{
  takes_all, file, replay_chunks-then, chunks, replay_chunk-invalid,
}

-- A replay ends without an error and without a verdict that differs.
abbrev pub Matches : Replayed → Type 0
Matches (rp, x) = (x ≡ none) × (rp.summary.verdict_mismatches ≡ 0)

pub Synced-Matches :
    (texts : Texts) (torn : Bool) (r : Recorder)
    → Synced texts r
    → Matches (replay takes_all (file texts torn r.written))
unfolding replay
Synced-Matches texts false r a = (
  ap (λ (p : Replayed). p.1) a.replays,
  ap (λ (p : Replayed). p.0.summary.verdict_mismatches) a.replays ∙ a.matched,
)
Synced-Matches texts true r a =
    let (m, eq) =
      replay_chunks-then invalid (chunks texts r.written) 1 new_replayer a.rp a.replays in
    let k = eq ∙ replay_chunk-invalid m a.rp a.whole in
    (
      ap (λ (p : Replayed). p.1) k,
      ap (λ (p : Replayed). p.0.summary.verdict_mismatches) k ∙ a.matched,
    )

-- Frames arrive at a recorder, UTF-8 or not, whose records have symbols that are UTF-8, and it
-- reconnects and ticks as it may, also when a write is lost or leaves a torn line at the end: the replay
-- of the file with the lines that it wrote, as the JSON gives them back, ends without an error when the
-- callback takes every event, and it finds for every frame the verdicts that the recorder noted there.
pub record_calls-replay :
    (texts : Texts) (laws : TextLaws texts) (accepts : ℕ → Bool)
    (sort : List StreamKey → List StreamKey) (stale_after now : ℤ) (cs : List Call) (torn : Bool)
    → All (OnUtf8Symbols texts) cs
    → let r =
        record_calls texts accepts sort cs (new_recorder texts accepts sort stale_after now) in
      let (rp, x) = replay takes_all (file texts torn r.written) in
      (x ≡ none) × (rp.summary.verdict_mismatches ≡ 0)
record_calls-replay texts laws accepts sort stale_after now cs torn utf8 =
    let first = new_recorder texts accepts sort stale_after now in
    Synced-Matches texts torn (record_calls texts accepts sort cs first) (
      record_calls-Synced texts accepts sort laws cs first utf8
        (new_recorder-Synced texts accepts sort stale_after now))
