-- ===== src/Book/Replay.antt =====
-- internal/book/replay.go: the replay of an evidence file. The chunks are what `ReadBytes` gives up
-- to each newline: blank, a line that `json.Unmarshal` decodes, or one that it refuses. The callback
-- is the parameter `emit`: whether it takes an event behind the events so far. A map is an
-- association list; an error is its kind.
pub mod Agrees
use fillwire.Book.Detect.{
  class_ok, class_gap, class_duplicate, class_regress, new_tracker, map_values, Verdict, Tracker,
  Class, put, frame, reconnect,
}
use fillwire.Book.Evidence.{
  Line, LineKind, is_session, format_version, other_kind, kind_session, kind_reconnect, kind_stale,
  kind_frame, line_raw,
}
use fillwire.Prelude.{
  ℕ, zero, suc, String, List, [], ◌∷◌, Bool, true, false, some, none, not, Option, ◌&&◌, str_eq,
  if◌then◌else◌, ◌==◌, ◌+◌, ◌++◌, ◌||◌,
}
use fillwire.Prelude.Int.{ℤ, pos, eq_ℤ}
use fillwire.Book.Frame.{TradeRecord, Level, Frame, BookRecord, tr_book, Parse, parse_frame}
use fillwire.Prelude.Word.{add64}

pub data EventType : Type 0 where
  event_session event_book event_trade event_gap event_stale event_reconnect : EventType

pub record BookState : Type 0 where
  pub symbol : String
  pub hour : String
  pub asks : List Level
  pub bids : List Level
  pub total_ask : ℤ
  pub total_bid : ℤ
  pub at_ns : ℤ
  pub synced : Bool

pub record Trade : Type 0 where
  pub symbol : String
  pub hour : String
  pub price : ℤ
  pub qty : ℤ
  pub acml_vol : ℤ
  pub side : String
  pub at_ns : ℤ

pub record Event : Type 0 where
  pub type : EventType
  pub session : ℕ
  pub seq : ℕ
  pub at_ns : ℤ
  pub tr : String
  pub symbol : String
  pub book_state : Option BookState
  pub traded : Option Trade
  pub missing_vol : ℤ
  pub since_ns : ℤ

pub record Summary : Type 0 where
  pub sessions : ℕ
  pub frames : ℕ
  pub records : ℕ
  pub applied : ℕ
  pub duplicates : ℕ
  pub regressed : ℕ
  pub gaps : ℕ
  pub missing_vol : ℤ
  pub stale : ℕ
  pub reconnects : ℕ
  pub bad_frames : ℕ
  pub torn_lines : ℕ
  pub verdict_mismatches : ℕ

abbrev pub no_summary : Summary
no_summary = record {
  sessions = 0;
  frames = 0;
  records = 0;
  applied = 0;
  duplicates = 0;
  regressed = 0;
  gaps = 0;
  missing_vol = pos 0;
  stale = 0;
  reconnects = 0;
  bad_frames = 0;
  torn_lines = 0;
  verdict_mismatches = 0;
}

-- `ErrFormat`, `ErrCorrupt`, or the error of `emit`.
pub data ReplayError : Type 0 where
  bad_format corrupt emit_failed : ReplayError

-- `replayer` with its `State`, and the events that were emitted, oldest first.
pub record Replayer : Type 0 where
  pub tracker : Tracker
  pub books : List (String × BookState)
  pub tape : List Trade
  pub summary : Summary
  pub session : ℕ
  pub torn : ℕ
  pub events : List Event

abbrev pub new_replayer : Replayer
new_replayer = record {
  tracker = new_tracker;
  books = [];
  tape = [];
  summary = no_summary;
  session = 0;
  torn = 0;
  events = [];
}

-- What a method of the replayer leaves, and the error that it returns.
abbrev pub Replayed : Type 0
Replayed = Replayer × Option ReplayError

pub data Chunk : Type 0 where
  blank invalid : Chunk
  decoded : Line → Chunk

abbrev pub same_class : Class → Class → Bool
same_class class_ok class_ok = true
same_class class_gap class_gap = true
same_class class_duplicate class_duplicate = true
same_class class_regress class_regress = true
same_class _ _ = false

abbrev pub same_bool : Bool → Bool → Bool
same_bool true b = b
same_bool false b = not b

abbrev pub same_verdict : Verdict → Verdict → Bool
same_verdict v w =
    str_eq v.symbol w.symbol
    && same_class v.class w.class
    && same_bool v.resync w.resync
    && eq_ℤ v.missing_vol w.missing_vol

unfoldable pub same_all : List Verdict → List Verdict → Bool
same_all [] [] = true
same_all [] (w ∷ ws) = false
same_all (v ∷ vs) [] = false
same_all (v ∷ vs) (w ∷ ws) = same_verdict v w && same_all vs ws

-- `reflect.DeepEqual` of the verdicts with those of a line, which are nil where the line has none: a
-- slice that is empty and not nil differs from it.
abbrev pub deep_equal : List Verdict → List Verdict → Bool
deep_equal [] ws = false
deep_equal (v ∷ vs) ws = same_all (v ∷ vs) ws

-- `Event{Session, Seq, AtNS}`.
abbrev pub base_event : EventType → Replayer → Line → Event
base_event t rp l = record {
  type = t;
  session = rp.session;
  seq = l.seq;
  at_ns = l.at_ns;
  tr = "";
  symbol = "";
  book_state = none;
  traded = none;
  missing_vol = pos 0;
  since_ns = pos 0;
}

abbrev pub unsync_book : BookState → BookState
unsync_book b = record b { synced = false }

-- `unsyncBooks`.
unfoldable pub unsync_books : Replayer → Replayer
unsync_books rp = record rp { books = map_values unsync_book rp.books }

-- A record of a frame, of the kind that its transaction has.
pub data Entry : Type 0 where
  of_book : BookRecord → Entry
  of_trade : TradeRecord → Entry

abbrev pub book_entries : List BookRecord → List Entry
book_entries [] = []
book_entries (r ∷ rs) = of_book r ∷ book_entries rs

abbrev pub trade_entries : List TradeRecord → List Entry
trade_entries [] = []
trade_entries (r ∷ rs) = of_trade r ∷ trade_entries rs

abbrev pub entries : Frame → List Entry
entries f = if str_eq f.tr tr_book then book_entries f.books else trade_entries f.trades

abbrev pub book_state_of : BookRecord → ℤ → BookState
book_state_of r at = record {
  symbol = r.symbol;
  hour = r.hour;
  asks = r.asks;
  bids = r.bids;
  total_ask = r.total_ask;
  total_bid = r.total_bid;
  at_ns = at;
  synced = true;
}

abbrev pub trade_of : TradeRecord → ℤ → Trade
trade_of r at = record {
  symbol = r.symbol;
  hour = r.hour;
  price = r.price;
  qty = r.qty;
  acml_vol = r.acml_vol;
  side = r.side;
  at_ns = at;
}

module _ (emit : List Event → Event → Bool) where
  -- `send`.
  unfoldable pub send_event : Replayer → Event → Replayed
  send_event rp e = (
    record rp { events = rp.events ++ e ∷ [] },
    if emit rp.events e then none else some emit_failed,
  )

  -- The state and the event of a record that is applied.
  unfoldable pub apply_entry : Replayer → Line → String → Verdict → Entry → Replayed
  unfolding send_event
  apply_entry rp l tr v (of_book r) =
      let b = book_state_of r l.at_ns in
      send_event (record rp { books = put r.symbol b rp.books })
        (record (base_event event_book rp l) { tr = tr; symbol = v.symbol; book_state = some b })
  apply_entry rp l tr v (of_trade r) =
      let t = trade_of r l.at_ns in
      send_event (record rp { tape = rp.tape ++ t ∷ [] })
        (record (base_event event_trade rp l) { tr = tr; symbol = v.symbol; traded = some t })

  abbrev pub count_applied : Summary → Summary
  count_applied s = record s { applied = s.applied + 1 }

  -- The end of a round, with the summary that counts the record.
  abbrev pub applied_round : Replayer → Summary → Line → String → Verdict → Entry → Replayed
  applied_round rp s l tr v e = apply_entry (record rp { summary = count_applied s }) l tr v e

  abbrev pub count_gap : Summary → ℤ → Summary
  count_gap s m = record s { gaps = s.gaps + 1; missing_vol = add64 s.missing_vol m }

  abbrev pub gap_event : Replayer → Line → String → Verdict → Event
  gap_event rp l tr v = record (base_event event_gap rp l) {
    tr = tr;
    symbol = v.symbol;
    missing_vol = v.missing_vol;
  }

  -- A round that applies its record, if the event in front of it was taken.
  abbrev pub after_gap : Replayed → Line → String → Verdict → Entry → Replayed
  after_gap (rp, some x) l tr v e = (rp, some x)
  after_gap (rp, none) l tr v e = applied_round rp rp.summary l tr v e

  -- One round of the loop over the verdicts, by the class.
  unfoldable pub entry_round :
      Class → Replayer → Summary → Line → String → Verdict → Entry → Replayed
  unfolding apply_entry send_event
  entry_round class_duplicate rp s l tr v e =
      (record rp { summary = record s { duplicates = s.duplicates + 1 } }, none)
  entry_round class_regress rp s l tr v e =
      (record rp { summary = record s { regressed = s.regressed + 1 } }, none)
  entry_round class_gap rp s l tr v e =
      after_gap
        (send_event (record rp { summary = count_gap s v.missing_vol }) (gap_event rp l tr v)) l tr
        v e
  entry_round class_ok rp s l tr v e = applied_round rp s l tr v e

  -- The loop over the verdicts and their records; there are as many of both.
  unfoldable pub apply_entries : Line → String → List Verdict → List Entry → Replayer → Replayed
  apply_entries l tr [] es rp = (rp, none)
  apply_entries l tr (v ∷ vs) [] rp = (rp, none)
  apply_entries l tr (v ∷ vs) (e ∷ es) rp =
      let counted = record rp.summary { records = rp.summary.records + 1 } in
      let (rp', x) = entry_round v.class rp counted l tr v e in
      elim x [ some err ↦ (rp', some err) | none ↦ apply_entries l tr vs es rp' ]

  -- `frame` on a frame that parses.
  unfoldable pub replay_parsed : Frame → Line → Replayer → Replayed
  unfolding apply_entries unsync_books same_all
  replay_parsed f l rp =
      let (vs, new_day, t) = frame rp.tracker f l.at_ns in
      let rp1 : Replayer = record rp { tracker = t } in
      let rp2 = if new_day then unsync_books rp1 else rp1 in
      let s = rp2.summary in
      let missed = if deep_equal vs l.verdicts then 0 else 1 in
      apply_entries l f.tr vs (entries f)
        (record rp2 { summary = record s { verdict_mismatches = s.verdict_mismatches + missed } })

  abbrev pub bad_frame : Replayer → Replayer
  bad_frame rp = record rp {
    summary = record rp.summary { bad_frames = rp.summary.bad_frames + 1 };
  }

  abbrev pub count_frame : Replayer → Replayer
  count_frame rp = record rp { summary = record rp.summary { frames = rp.summary.frames + 1 } }

  -- `frame`, after the frame was parsed and counted.
  unfoldable pub replay_frame : Parse → Line → Replayer → Replayed
  unfolding replay_parsed
  replay_frame (f, some e) l rp = (bad_frame rp, none)
  replay_frame (f, none) l rp = replay_parsed f l rp

  abbrev pub count_stale : Replayer → Replayer
  count_stale rp = record rp { summary = record rp.summary { stale = rp.summary.stale + 1 } }

  -- The `switch` of `line` on the kind.
  unfoldable pub line_kind : LineKind → Line → Replayer → Replayed
  unfolding replay_frame unsync_books send_event
  line_kind kind_session l rp =
      let s = rp.summary in
      let next = unsync_books (record rp {
        session = rp.session + 1;
        summary = record s { sessions = s.sessions + 1 };
        tracker = new_tracker;
      }) in
      send_event next (base_event event_session next l)
  line_kind kind_reconnect l rp =
      let s = rp.summary in
      let next = unsync_books (record rp {
        summary = record s { reconnects = s.reconnects + 1 };
        tracker = reconnect rp.tracker;
      }) in
      send_event next (base_event event_reconnect rp l)
  line_kind kind_stale l rp =
      send_event (count_stale rp) (record (base_event event_stale rp l) {
        tr = l.tr;
        symbol = l.symbol;
        since_ns = l.since_ns;
      })
  line_kind kind_frame l rp = replay_frame (parse_frame (line_raw l)) l (count_frame rp)
  line_kind (other_kind k) l rp = (rp, some bad_format)

  -- `line` on a line that decodes.
  unfoldable pub replay_line : Line → Replayer → Replayed
  unfolding line_kind
  replay_line l rp =
      if not (rp.torn == 0) && not (is_session l.kind)
      then (rp, some corrupt)
      else if not (eq_ℤ l.v format_version) || not (is_session l.kind) && rp.session == 0
      then (record rp { torn = 0 }, some bad_format)
      else line_kind l.kind l (record rp { torn = 0 })

  -- A chunk of the file, with its number.
  unfoldable pub replay_chunk : ℕ → Chunk → Replayer → Replayed
  unfolding replay_line
  replay_chunk n blank rp = (rp, none)
  replay_chunk n (decoded l) rp = replay_line l rp
  replay_chunk n invalid rp = if not (rp.torn == 0) then (rp, some corrupt) else (
    record rp { torn = n; summary = record rp.summary { torn_lines = rp.summary.torn_lines + 1 } },
    none,
  )

  -- The loop of `Replay` from a number of a chunk on.
  unfoldable pub replay_chunks : ℕ → List Chunk → Replayer → Replayed
  unfolding replay_chunk
  replay_chunks n [] rp = (rp, none)
  replay_chunks n (c ∷ cs) rp =
      let (rp', x) = replay_chunk n c rp in
      elim x [ some err ↦ (rp', some err) | none ↦ replay_chunks (n + 1) cs rp' ]

  -- `Replay`.
  unfoldable pub replay : List Chunk → Replayed
  unfolding replay_chunks
  replay cs = replay_chunks 1 cs new_replayer
