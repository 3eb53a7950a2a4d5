-- ===== src/Book/Recorder.antt =====
-- internal/book/recorder.go: the recorder, which writes frames and what it observes as evidence. A
-- time is in nanoseconds. The writer is the parameter `accepts`: whether it takes the line with a
-- number; `sort.Slice` is the parameter `sort`; `texts` is what the JSON does to texts. The lock makes each call one step.
use fillwire.Book.Evidence.{
  Line, blank_line, kind_stale, kind_reconnect, kind_frame, kind_session, format_version, Texts,
  set_raw,
}
use fillwire.Prelude.{
  ℕ, String, List, [], Bool, true, false, ◌∷◌, str_eq, Option, ◌+◌, ◌&&◌, not, none, if◌then◌else◌,
  ◌%◌, some, ◌||◌, ◌^◌, ◌++◌,
}
use fillwire.Prelude.Int.{ℤ, pos, ltb_ℤ, leb_ℤ}
use fillwire.Book.Frame.{FrameError, not_realtime, Parse, Frame, unsupported_tr}
use fillwire.Book.Detect.{Verdict, Tracker, frame, reconnect, new_tracker}
use fillwire.Prelude.Word.{sub64, quot64}

abbrev pub StreamKey : Type 0
StreamKey = String × String

-- `streamState`.
pub record StreamState : Type 0 where
  pub last_ns : ℤ
  pub stale : Bool

-- `Recorder`, with the lines that the writer took, oldest first.
pub record Recorder : Type 0 where
  pub stale_after : ℤ
  pub seq : ℕ
  pub tracker : Tracker
  pub streams : List (StreamKey × StreamState)
  pub failed : Bool
  pub written : List Line

abbrev pub same_key : StreamKey → StreamKey → Bool
same_key (a, b) (c, d) = str_eq a c && str_eq b d

unfoldable pub find_stream : StreamKey → List (StreamKey × StreamState) → Option StreamState
find_stream k [] = none
find_stream k ((j, s) ∷ es) = if same_key j k then some s else find_stream k es

unfoldable pub put_stream :
    StreamKey → StreamState → List (StreamKey × StreamState) → List (StreamKey × StreamState)
put_stream k s [] = (k, s) ∷ []
put_stream k s ((j, t) ∷ es) =
    let rest = put_stream k s es in if same_key j k then (j, s) ∷ es else (j, t) ∷ rest

-- `DefaultStaleAfter`, two seconds.
abbrev pub default_stale_after : ℤ
default_stale_after = pos 2000000000

-- A stream that is not flagged and was silent for longer than the threshold.
abbrev pub is_silent : ℤ → ℤ → StreamState → Bool
is_silent stale_after at s = not s.stale && ltb_ℤ stale_after (sub64 at s.last_ns)

-- The streams that `Tick` flags.
unfoldable pub silent_keys : ℤ → ℤ → List (StreamKey × StreamState) → List StreamKey
silent_keys stale_after at [] = []
silent_keys stale_after at ((k, s) ∷ es) =
    let rest = silent_keys stale_after at es in
    if is_silent stale_after at s then k ∷ rest else rest

abbrev pub stale_line : ℤ → StreamKey → ℤ → Line
stale_line at (tr, symbol) since = record (blank_line kind_stale at) {
  tr = tr;
  symbol = symbol;
  since_ns = since;
}

abbrev pub frame_line : Texts → ℤ → String → String → Line
frame_line texts at tr raw = set_raw texts raw (record (blank_line kind_frame at) { tr = tr })

module _ (texts : Texts) (accepts : ℕ → Bool) (sort : List StreamKey → List StreamKey) where
  -- `write`.
  unfoldable pub write : Line → Recorder → Recorder
  write l r =
      let n = (r.seq + 1) % 2 ^ 64 in
      if r.failed
      then r
      else if accepts n
      then record r {
        seq = n;
        written = r.written ++ record l { v = format_version; seq = n } ∷ [];
      }
      else record r { seq = n; failed = true }

  -- `NewRecorder`.
  unfoldable pub new_recorder : ℤ → ℤ → Recorder
  unfolding write
  new_recorder stale_after now =
      let after = if leb_ℤ stale_after (pos 0) then default_stale_after else stale_after in
      write (record (blank_line kind_session now) { stale_after_ms = quot64 after (pos 1000000) })
        (record {
          stale_after = after;
          seq = 0;
          tracker = new_tracker;
          streams = [];
          failed = false;
          written = [];
        })

  -- `arrive`.
  unfoldable pub arrive : StreamKey → ℤ → Recorder → Recorder
  arrive k at r =
      let now : StreamState = record { last_ns = at; stale = false } in
      let heard = λ (q : Recorder). record q { streams = put_stream k now q.streams } in
      elim (find_stream k r.streams) [
        | none ↦ heard r
        | some s ↦
            if is_silent r.stale_after at s
            then heard (write (stale_line at k s.last_ns) r)
            else heard r
      ]

  unfoldable pub arrive_all : String → ℤ → List Verdict → Recorder → Recorder
  arrive_all tr at [] r = r
  arrive_all tr at (v ∷ vs) r = arrive_all tr at vs (arrive (tr, v.symbol) at r)

  -- `Frame` on a frame that parses.
  unfoldable pub record_parsed : String → ℤ → Frame → Recorder → Recorder
  record_parsed raw at f r =
      let (vs, day, t) = frame r.tracker f at in
      write (record (frame_line texts at f.tr raw) { verdicts = vs })
        (arrive_all f.tr at vs (record r { tracker = t }))

  abbrev pub is_ignored : FrameError → Bool
  is_ignored not_realtime = true
  is_ignored unsupported_tr = true
  is_ignored _ = false

  -- `Frame`, after the frame was parsed.
  unfoldable pub record_frame : String → ℤ → Parse → Recorder → Recorder
  record_frame raw at (f, none) r = if r.failed then r else record_parsed raw at f r
  record_frame raw at (f, some e) r =
      if is_ignored e || r.failed
      then r
      else write (record (frame_line texts at f.tr raw) { error = some e }) r

  -- `Reconnect`.
  unfoldable pub record_reconnect : ℤ → ℤ → Recorder → Recorder
  record_reconnect at attempt r =
      if r.failed
      then r
      else write (record (blank_line kind_reconnect at) { attempt = attempt })
          (record r { tracker = reconnect r.tracker })

  -- The loop of `Tick` over the keys.
  unfoldable pub flag_all : ℤ → List StreamKey → Recorder → Recorder
  flag_all at [] r = r
  flag_all at (k ∷ ks) r = elim (find_stream k r.streams) [
    | none ↦ flag_all at ks r
    | some s ↦ flag_all at ks (
        write (stale_line at k s.last_ns)
          (record r { streams = put_stream k (record s { stale = true }) r.streams }))
  ]

  -- `Tick`.
  unfoldable pub record_tick : ℤ → Recorder → Recorder
  record_tick at r =
      if r.failed then r else flag_all at (sort (silent_keys r.stale_after at r.streams)) r
