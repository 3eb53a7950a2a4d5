-- ===== src/Book/Replay/Agrees/Steps.antt =====
-- What each line does to a replayer (internal/book/replay.go, line and frame).
use fillwire.Book.Evidence.{
  Line, format_version, kind_stale, blank_line, kind_reconnect, kind_session, Texts, read_line,
  TextLaws, kind_frame, set_raw, read_verdicts,
}
use fillwire.Prelude.{
  ℕ, String, Bool, true, false, some, none, refl, ◌≡◌, ap, arith, Option, ◌+◌, ◌∙◌, if◌then◌else◌,
  subst, List,
}
use fillwire.Prelude.Int.{ℤ}
use fillwire.Book.Replay.{
  replay_line, line_kind, send_event, replay_frame, Replayer, unsync_books, new_replayer, Frame,
  Replayed, ReplayError, Option, bad_frame, count_frame, apply_entries, deep_equal, replay_parsed,
  entries, List,
}
use fillwire.Book.Detect.{Tracker, reconnect, frame, new_tracker, Verdict}
use fillwire.Book.Recorder.{StreamKey, stale_line, frame_line}
use fillwire.Book.Frame.{Frame, FrameError, parse_frame, Parse}
use fillwire.Book.Replay.Agrees.Chunks.{takes_all, with_error}
use fillwire.Book.Replay.Agrees.Verdicts.{apply_entries-Keeps, deep_equal_refl, length-frame}
use fillwire.Book.Replay.Agrees.Utf8.{
  SymbolsUtf8, line_raw-read_line, read_verdicts-same, OnUtf8-frame,
}

-- The replayer has no torn line and no mismatch, is in its first session and tracks as the tracker.
abbrev pub Follows : Tracker → Replayer → Type 0
Follows t rp =
    (rp.torn ≡ 0) × (rp.summary.verdict_mismatches ≡ 0) × (rp.session ≡ 1) × (rp.tracker ≡ t)

-- The line takes a replayer from one tracker to another.
abbrev pub Steps : Texts → Tracker → Tracker → Line → Type 0
Steps texts t t' l =
    (rp : Replayer) (n : ℕ)
    → Follows t rp
    → (rp' : Replayer) × (replay_line takes_all
          (read_line texts (record l { v = format_version; seq = n })) rp
        ≡ (rp', none))
      × Follows t' rp'

-- A line that decodes, in a session without a torn line.
pub replay_line-kind :
    (l : Line) (rp : Replayer)
    → rp.torn ≡ 0
    → rp.session ≡ 1
    → l.v ≡ format_version
    → replay_line takes_all l rp ≡ line_kind takes_all l.kind l (record rp { torn = 0 })
unfolding replay_line
replay_line-kind l rp whole one v = ground arith

pub stale_line-Steps :
    (texts : Texts) (t : Tracker) (at since : ℤ) (k : StreamKey)
    → Steps texts t t (stale_line at k since)
unfolding line_kind send_event
stale_line-Steps texts t at since (tr, symbol) rp n (whole, matched, one, track) = (
  (line_kind takes_all kind_stale
      (read_line texts (record (stale_line at (tr, symbol) since) { v = format_version; seq = n }))
      (record rp { torn = 0 })).0,
  replay_line-kind
      (read_line texts (record (stale_line at (tr, symbol) since) { v = format_version; seq = n }))
      rp whole one refl,
  (refl, matched, one, track),
)

pub reconnect-Steps :
    (texts : Texts) (t : Tracker) (at attempt : ℤ)
    → Steps texts t (reconnect t) (record (blank_line kind_reconnect at) { attempt = attempt })
unfolding line_kind send_event unsync_books
reconnect-Steps texts t at attempt rp n (whole, matched, one, track) =
    let l =
      read_line texts (record (blank_line kind_reconnect at) {
        attempt = attempt;
        v = format_version;
        seq = n;
      }) in
    (
      (line_kind takes_all kind_reconnect l (record rp { torn = 0 })).0,
      replay_line-kind l rp whole one refl,
      (refl, matched, one, ap reconnect track),
    )

pub bad_frame-Steps :
    (texts : Texts) (laws : TextLaws texts) (t : Tracker) (at : ℤ) (tr raw : String) (f : Frame)
    (e : FrameError)
    → parse_frame raw ≡ (f, some e)
    → Steps texts t t (record (frame_line texts at tr raw) { error = some e })
unfolding line_kind replay_frame
bad_frame-Steps texts laws t at tr raw f e bad rp n (whole, matched, one, track) =
    let written : Line = record (blank_line kind_frame at) {
      tr = tr;
      error = some e;
      v = format_version;
      seq = n;
    } in
    let l = read_line texts (set_raw texts raw written) in
    let rp0 : Replayer = count_frame takes_all (record rp { torn = 0 }) in
    (
      bad_frame takes_all rp0,
      replay_line-kind l rp whole one refl
          ∙ ap (λ (p : Parse). replay_frame takes_all p l rp0)
              (ap parse_frame (line_raw-read_line texts laws raw written refl) ∙ bad),
      (refl, matched, one, track),
    )

-- A replayer that has turned to the day of a frame.
abbrev pub turned : Bool → Replayer → Replayer
turned new_day rp = if new_day then unsync_books rp else rp

pub turned-Follows :
    (b : Bool) (t : Tracker) (rp : Replayer) → Follows t rp → Follows t (turned b rp)
unfolding unsync_books
turned-Follows true t rp h = h
turned-Follows false t rp h = h

-- With so many mismatches more.
abbrev pub missed_by : ℕ → Replayer → Replayer
missed_by n rp = record rp {
  summary = record rp.summary { verdict_mismatches = rp.summary.verdict_mismatches + n };
}

-- The verdicts of a replayer are those of the line.
pub replay_parsed-matched :
    (f : Frame) (l : Line) (rp : Replayer)
    → deep_equal (frame rp.tracker f l.at_ns).0 l.verdicts ≡ true
    → let (vs, day, t') = frame rp.tracker f l.at_ns in
      replay_parsed takes_all f l rp
      ≡ apply_entries takes_all l f.tr vs
          (entries f)
          (missed_by 0 (turned day (record rp { tracker = t' })))
unfolding replay_parsed
replay_parsed-matched f l rp h = rw h refl

-- The line of a frame with its verdicts, as it is read.
abbrev pub frame_read : Texts → ℤ → String → Frame → List Verdict → ℕ → Line
frame_read texts at raw f vs n =
    read_line texts
      (record (frame_line texts at f.tr raw) { verdicts = vs; v = format_version; seq = n })

-- The step that a frame line takes.
abbrev pub FrameSteps : Texts → Tracker → ℤ → String → Frame → Replayer → ℕ → Type 0
FrameSteps texts t at raw f rp n =
    let (vs, day, t') = frame t f at in
    (rp' : Replayer) × (replay_line takes_all (frame_read texts at raw f vs n) rp ≡ (rp', none))
    × Follows t' rp'

pub frame-step :
    (texts : Texts) (laws : TextLaws texts) (at : ℤ) (raw : String) (f : Frame)
    → parse_frame raw ≡ (f, none)
    → SymbolsUtf8 texts f
    → (rp : Replayer) (n : ℕ) → Follows rp.tracker rp
    → FrameSteps texts rp.tracker at raw f rp n
unfolding line_kind replay_frame
frame-step texts laws at raw f good utf8 rp n (whole, matched, one, track) =
    let vs = (frame rp.tracker f at).0 in
    let day = (frame rp.tracker f at).1 in
    let t' = (frame rp.tracker f at).2 in
    let l = frame_read texts at raw f vs n in
    let read =
      line_raw-read_line texts laws raw (record (blank_line kind_frame at) { tr = f.tr }) refl in
    let noted : read_verdicts texts vs ≡ vs =
      read_verdicts-same texts laws vs (OnUtf8-frame texts rp.tracker f at utf8) in
    let rp0 : Replayer = count_frame takes_all (record rp { torn = 0 }) in
    let rp1 = missed_by 0 (turned day (record rp0 { tracker = t' })) in
    let (z, m, o, k) =
      turned-Follows day t' (record rp0 { tracker = t' }) (refl, matched, one, refl) in
    let (fine, torn, miss, sess, tr) = apply_entries-Keeps l f.tr vs (entries f) rp1 in
    let end : Replayed = apply_entries takes_all l f.tr vs (entries f) rp1 in
    let equal : deep_equal vs (read_verdicts texts vs) ≡ true =
      rw noted (deep_equal_refl vs (length-frame rp.tracker raw f at good)) in
    (
      end.0,
      replay_line-kind l rp whole one refl
          ∙ ap (λ (p : Parse). replay_frame takes_all p l rp0) (ap parse_frame read ∙ good)
          ∙ replay_parsed-matched f l rp0 equal
          ∙ ap (λ (x : Option ReplayError). with_error end.0 x) fine,
      (torn ∙ z, omega (arith, miss, m), sess ∙ o, tr ∙ k),
    )

pub frame-Steps :
    (texts : Texts) (laws : TextLaws texts) (t : Tracker) (at : ℤ) (raw : String) (f : Frame)
    → parse_frame raw ≡ (f, none)
    → SymbolsUtf8 texts f
    → let (vs, day, t') = frame t f at in
      Steps texts t t' (record (frame_line texts at f.tr raw) { verdicts = vs })
frame-Steps texts laws t at raw f good utf8 rp n (whole, matched, one, track) =
    subst (λ (u : Tracker). FrameSteps texts u at raw f rp n) track
      (frame-step texts laws at raw f good utf8 rp n (whole, matched, one, refl))

pub session-Steps :
    (texts : Texts) (at ms : ℤ) (n : ℕ)
    → let l = read_line texts (record (blank_line kind_session at) {
      stale_after_ms = ms;
      v = format_version;
      seq = n;
    }) in
      (rp : Replayer) × (replay_line takes_all l new_replayer ≡ (rp, none)) × Follows new_tracker rp
unfolding replay_line line_kind send_event unsync_books
session-Steps texts at ms n = (
  (line_kind takes_all kind_session
      (read_line texts
        (record (blank_line kind_session at) { stale_after_ms = ms; v = format_version; seq = n }))
      new_replayer).0,
  refl,
  (refl, refl, refl, refl),
)
