-- ===== src/Book/Replay/Agrees/Calls.antt =====
-- Calls of a recorder one behind the other (internal/book/recorder.go).
use fillwire.Book.Evidence.{
  Line, format_version, blank_line, kind_reconnect, kind_session, Texts, TextLaws,
}
use fillwire.Prelude.{
  ℕ, String, List, [], ◌∷◌, Bool, true, false, some, none, refl, ◌≡◌, ◌∙◌, if◌then◌else◌, ◌||◌, All,
}
use fillwire.Prelude.Int.{ℤ, leb_ℤ, pos}
use fillwire.Book.Detect.{Tracker, reconnect, frame, new_tracker}
use fillwire.Book.Recorder.{
  Recorder, StreamKey, frame_line, write, flag_all, arrive_all, record_parsed, record_frame,
  new_recorder, record_tick, record_reconnect, is_ignored, silent_keys, default_stale_after,
}
use fillwire.Book.Replay.{new_replayer, Frame, pos}
use fillwire.Book.Frame.{Frame, parse_frame, Parse}
use fillwire.Prelude.Word.{quot64}
use fillwire.Book.Replay.Agrees.Writes.{
  Synced, if-Synced, Tracks, arrive_all-Tracks, Tracks-Synced, write-At, restream-At,
  flag_all-Tracks, write-tracker,
}
use fillwire.Book.Replay.Agrees.Steps.{
  Steps, session-Steps, frame-Steps, reconnect-Steps, bad_frame-Steps,
}
use fillwire.Book.Replay.Agrees.Chunks.{replay_chunks-first, replay_chunks-nil}
use fillwire.Book.Replay.Agrees.Utf8.{SymbolsUtf8}

-- A call of a recorder.
pub data Call : Type 0 where
  got_frame : String → ℤ → Call
  reconnected : ℤ → ℤ → Call
  ticked : ℤ → Call

-- A call with a frame has one whose records have symbols that are UTF-8.
abbrev pub OnUtf8Symbols : Texts → Call → Type 0
OnUtf8Symbols texts (got_frame raw at) = SymbolsUtf8 texts (parse_frame raw).0
OnUtf8Symbols texts (reconnected at attempt) = Unit
OnUtf8Symbols texts (ticked at) = Unit

module _ (texts : Texts) (accepts : ℕ → Bool) (sort : List StreamKey → List StreamKey) where
  write-Synced :
      (t u : Tracker) (l : Line) (r : Recorder)
      → Steps texts t u l
      → Tracks texts t u r
      → Synced texts (write texts accepts sort l r)
  write-Synced t u l r steps (a, same) =
      Tracks-Synced texts u (write texts accepts sort l r)
        (write-At texts accepts sort t u l r steps a, write-tracker texts accepts sort l r ∙ same)

  pub new_recorder-Synced :
      (stale_after now : ℤ) → Synced texts (new_recorder texts accepts sort stale_after now)
  unfolding new_recorder write
  new_recorder-Synced stale_after now =
      let after = if leb_ℤ stale_after (pos 0) then default_stale_after else stale_after in
      let first : Line = record (blank_line kind_session now) {
        stale_after_ms = quot64 after (pos 1000000);
        v = format_version;
        seq = 1;
      } in
      let lost : Recorder = record {
        stale_after = after;
        seq = 1;
        tracker = new_tracker;
        streams = [];
        failed = true;
        written = [];
      } in
      let (rp, eq, (whole, matched, one, track)) =
        session-Steps texts now (quot64 after (pos 1000000)) 1 in
      if-Synced texts (accepts 1) (record lost { failed = false; written = first ∷ [] }) lost
        (λ taken. record {
          rp = rp;
          replays = replay_chunks-first _ rp eq;
          whole = whole;
          matched = matched;
          follows = λ live. (whole, matched, one, track);
        })
        (λ no. record {
          rp = new_replayer;
          replays = replay_chunks-nil new_replayer;
          whole = refl;
          matched = refl;
          follows = λ live. absurd (stuck live);
        })
    where
      stuck : true ≡ false → ⊥
      stuck h = cc

  pub record_parsed-Synced :
      (laws : TextLaws texts) (raw : String) (at : ℤ) (f : Frame) (r : Recorder)
      → parse_frame raw ≡ (f, none)
      → SymbolsUtf8 texts f
      → Synced texts r
      → Synced texts (record_parsed texts accepts sort raw at f r)
  unfolding record_parsed
  record_parsed-Synced laws raw at f r good utf8 a =
      let vs = (frame r.tracker f at).0 in
      let t' = (frame r.tracker f at).2 in
      let q : Recorder = record r { tracker = t' } in
      write-Synced r.tracker t' (record (frame_line texts at f.tr raw) { verdicts = vs })
        (arrive_all texts accepts sort f.tr at vs q)
        (frame-Steps texts laws r.tracker at raw f good utf8)
        (arrive_all-Tracks texts accepts sort r.tracker t' f.tr at vs q
          (restream-At texts r.tracker r r.streams t' a, refl))

  pub record_frame-Synced :
      (laws : TextLaws texts) (raw : String) (at : ℤ) (p : Parse) (r : Recorder)
      → parse_frame raw ≡ p
      → SymbolsUtf8 texts p.0
      → Synced texts r
      → Synced texts (record_frame texts accepts sort raw at p r)
  unfolding record_frame
  record_frame-Synced laws raw at (f, none) r good utf8 a =
      if-Synced texts r.failed r (record_parsed texts accepts sort raw at f r) (λ h. a)
        (λ h. record_parsed-Synced laws raw at f r good utf8 a)
  record_frame-Synced laws raw at (f, some e) r bad utf8 a =
      let l : Line = record (frame_line texts at f.tr raw) { error = some e } in
      if-Synced texts (is_ignored texts accepts sort e || r.failed) r (write texts accepts sort l r)
        (λ h. a)
        (λ h.
          write-Synced r.tracker r.tracker l r
            (bad_frame-Steps texts laws r.tracker at f.tr raw f e bad) (a, refl))

  pub record_reconnect-Synced :
      (at attempt : ℤ) (r : Recorder)
      → Synced texts r
      → Synced texts (record_reconnect texts accepts sort at attempt r)
  unfolding record_reconnect
  record_reconnect-Synced at attempt r a =
      let l : Line = record (blank_line kind_reconnect at) { attempt = attempt } in
      let t' = reconnect r.tracker in
      let q : Recorder = record r { tracker = t' } in
      if-Synced texts r.failed r (write texts accepts sort l q) (λ h. a)
        (λ h.
          write-Synced r.tracker t' l q (reconnect-Steps texts r.tracker at attempt)
            (restream-At texts r.tracker r r.streams t' a, refl))

  pub record_tick-Synced :
      (at : ℤ) (r : Recorder) → Synced texts r → Synced texts (record_tick texts accepts sort at r)
  unfolding record_tick
  record_tick-Synced at r a =
      let ks = sort (silent_keys r.stale_after at r.streams) in
      if-Synced texts r.failed r (flag_all texts accepts sort at ks r) (λ h. a)
        (λ h.
          Tracks-Synced texts r.tracker (flag_all texts accepts sort at ks r)
            (flag_all-Tracks texts accepts sort r.tracker r.tracker at ks r (a, refl)))

  unfoldable pub record_call : Call → Recorder → Recorder
  unfolding record_frame record_reconnect record_tick
  record_call (got_frame raw at) r = record_frame texts accepts sort raw at (parse_frame raw) r
  record_call (reconnected at attempt) r = record_reconnect texts accepts sort at attempt r
  record_call (ticked at) r = record_tick texts accepts sort at r

  unfoldable pub record_calls : List Call → Recorder → Recorder
  unfolding record_call
  record_calls [] r = r
  record_calls (c ∷ cs) r = record_calls cs (record_call c r)

  pub record_call-Synced :
      (laws : TextLaws texts) (c : Call) (r : Recorder)
      → OnUtf8Symbols texts c
      → Synced texts r
      → Synced texts (record_call c r)
  unfolding record_call
  record_call-Synced laws (got_frame raw at) r h a =
      record_frame-Synced laws raw at (parse_frame raw) r refl h a
  record_call-Synced laws (reconnected at attempt) r h a = record_reconnect-Synced at attempt r a
  record_call-Synced laws (ticked at) r h a = record_tick-Synced at r a

  pub record_calls-Synced :
      (laws : TextLaws texts) (cs : List Call) (r : Recorder)
      → All (OnUtf8Symbols texts) cs
      → Synced texts r
      → Synced texts (record_calls cs r)
  unfolding record_calls
  record_calls-Synced laws [] r h a = a
  record_calls-Synced laws (c ∷ cs) r (h, k) a =
      record_calls-Synced laws cs (record_call c r) k (record_call-Synced laws c r h a)
