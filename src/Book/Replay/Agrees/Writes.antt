-- ===== src/Book/Replay/Agrees/Writes.antt =====
-- What a write does to the lines of a recorder (internal/book/recorder.go, write, arrive and Tick).
use fillwire.Book.Evidence.{Line, format_version, Texts}
use fillwire.Prelude.{
  ℕ, String, List, [], ◌∷◌, Bool, true, false, none, refl, inl, inr, ◌++◌, ◌≡◌, ap, arith,
  Option-cases, ◌+◌, ◌∙◌, if◌then◌else◌, subst, Bool-cases, ◌%◌, ◌^◌,
}
use fillwire.Prelude.Int.{ℤ}
use fillwire.Book.Replay.{replay_chunks, Chunk, Replayer, new_replayer}
use fillwire.Book.Detect.{Tracker, Verdict}
use fillwire.Book.Recorder.{
  Recorder, StreamKey, stale_line, write, flag_all, arrive_all, arrive, StreamState, find_stream,
  put_stream, is_silent,
}
use fillwire.Book.Replay.Agrees.Steps.{stale_line-Steps, Steps, Follows}
use fillwire.Book.Replay.Agrees.Chunks.{takes_all, chunks-append, chunks, replay_chunks-line}

-- The lines written replay without an error; if no write failed, to a replayer with the tracker.
pub record At (texts : Texts) (t : Tracker) (r : Recorder) : Type 0 where
  pub rp : Replayer
  pub replays : replay_chunks takes_all 1 (chunks texts r.written) new_replayer ≡ (rp, none)
  pub whole : rp.torn ≡ 0
  pub matched : rp.summary.verdict_mismatches ≡ 0
  pub follows : r.failed ≡ false → Follows t rp

-- What the streams and the tracker of a recorder are does not matter.
pub restream-At :
    (texts : Texts) (t : Tracker) (r : Recorder) (streams : List (StreamKey × StreamState))
    (u : Tracker)
    → At texts t r
    → At texts t (record r { streams = streams; tracker = u })
restream-At texts t r streams u a = record {
  rp = a.rp;
  replays = a.replays;
  whole = a.whole;
  matched = a.matched;
  follows = a.follows;
}

-- A recorder whose lines replay to a tracker, and that keeps another one.
abbrev pub Tracks : Texts → Tracker → Tracker → Recorder → Type 0
Tracks texts t u r = At texts t r × (r.tracker ≡ u)

pub streams-Tracks :
    (texts : Texts) (t u : Tracker) (r : Recorder) (streams : List (StreamKey × StreamState))
    → Tracks texts t u r
    → Tracks texts t u (record r { streams = streams })
streams-Tracks texts t u r streams (a, same) = (restream-At texts t r streams r.tracker a, same)

-- The lines of a recorder replay to its own tracker.
abbrev pub Synced : Texts → Recorder → Type 0
Synced texts r = At texts r.tracker r

pub Tracks-Synced :
    (texts : Texts) (t : Tracker) (r : Recorder) → Tracks texts t t r → Synced texts r
Tracks-Synced texts t r (a, same) = subst (λ (u : Tracker). At texts u r) (of same) a
  where
    of : {u : Tracker} → r.tracker ≡ u → u ≡ r.tracker
    of h = cc

pub if-Synced :
    (texts : Texts) (b : Bool) (r q : Recorder)
    → (b ≡ true → Synced texts r)
    → (b ≡ false → Synced texts q)
    → Synced texts (if b then r else q)
if-Synced texts true r q h k = h refl
if-Synced texts false r q h k = k refl

module _ (texts : Texts) (accepts : ℕ → Bool) (sort : List StreamKey → List StreamKey) where
  write-failed : (l : Line) (r : Recorder) → r.failed ≡ true → write texts accepts sort l r ≡ r
  unfolding write
  write-failed l r h = ground arith

  pub write-lost :
      (l : Line) (r : Recorder)
      → r.failed ≡ false
      → accepts ((r.seq + 1) % 2 ^ 64) ≡ false
      → write texts accepts sort l r ≡ record r { seq = (r.seq + 1) % 2 ^ 64; failed = true }
  unfolding write
  write-lost l r h k = ground arith

  pub write-taken :
      (l : Line) (r : Recorder)
      → r.failed ≡ false
      → accepts ((r.seq + 1) % 2 ^ 64) ≡ true
      → write texts accepts sort l r ≡ record r {
        seq = (r.seq + 1) % 2 ^ 64;
        written = r.written ++ record l { v = format_version; seq = (r.seq + 1) % 2 ^ 64 } ∷ [];
      }
  unfolding write
  write-taken l r h k = ground arith

  pub write-At :
      (t t' : Tracker) (l : Line) (r : Recorder)
      → Steps texts t t' l
      → At texts t r
      → At texts t' (write texts accepts sort l r)
  write-At t t' l r steps a = elim (Bool-cases r.failed) [
    | inl stopped ↦ rw (write-failed l r stopped) (record {
      rp = a.rp;
      replays = a.replays;
      whole = a.whole;
      matched = a.matched;
      follows = λ live. absurd (stuck stopped live);
    })
    | inr live ↦ elim (Bool-cases (accepts ((r.seq + 1) % 2 ^ 64))) [
      | inr lost ↦ rw (write-lost l r live lost) (record {
        rp = a.rp;
        replays = a.replays;
        whole = a.whole;
        matched = a.matched;
        follows = λ h. absurd (stuck refl h);
      })
      | inl taken ↦
          let n = (r.seq + 1) % 2 ^ 64 in
          let (rp', eq, (whole, matched, one, track)) = steps a.rp n (a.follows live) in
          rw (write-taken l r live taken) (record {
            rp = rp';
            replays =
                ap (λ (cs : List Chunk). replay_chunks takes_all 1 cs new_replayer)
                  (chunks-append texts r.written (record l { v = format_version; seq = n } ∷ []))
                ∙ replay_chunks-line (chunks texts r.written) 1 new_replayer a.rp rp' _ a.replays
                    eq;
            whole = whole;
            matched = matched;
            follows = λ h. (whole, matched, one, track);
          })
    ]
  ]
    where
      stuck : {b : Bool} → b ≡ true → b ≡ false → ⊥
      stuck h k = cc

  pub write-tracker : (l : Line) (r : Recorder) → (write texts accepts sort l r).tracker ≡ r.tracker
  unfolding write
  write-tracker l r = elim (Bool-cases r.failed) [
    | inl h ↦ ap (λ (q : Recorder). q.tracker) (write-failed l r h)
    | inr h ↦ elim (Bool-cases (accepts ((r.seq + 1) % 2 ^ 64))) [
      | inl k ↦ ap (λ (q : Recorder). q.tracker) (write-taken l r h k)
      | inr k ↦ ap (λ (q : Recorder). q.tracker) (write-lost l r h k)
    ]
  ]

  -- A stale line that is written into a recorder keeps both, whatever its streams are then.
  pub stale-Tracks :
      (t u : Tracker) (k : StreamKey) (at since : ℤ) (r : Recorder)
      → Tracks texts t u r
      → Tracks texts t u (write texts accepts sort (stale_line at k since) r)
  stale-Tracks t u k at since r (a, same) = (
    write-At t t (stale_line at k since) r (stale_line-Steps texts t at since k) a,
    write-tracker (stale_line at k since) r ∙ same,
  )

  pub arrive-Tracks :
      (t u : Tracker) (k : StreamKey) (at : ℤ) (r : Recorder)
      → Tracks texts t u r
      → Tracks texts t u (arrive texts accepts sort k at r)
  unfolding arrive
  arrive-Tracks t u k at r a = elim (Option-cases (find_stream k r.streams)) [
    | inl new ↦ rw (new, arrive) (streams-Tracks texts t u r _ a)
    | inr (s, seen) ↦ elim (Bool-cases (is_silent r.stale_after at s)) [
      | inr loud ↦ rw (seen, arrive) (rw (loud, arrive) (streams-Tracks texts t u r _ a))
      | inl silent ↦
          let w = stale-Tracks t u k at s.last_ns r a in
          rw (seen, arrive)
            (rw (silent, arrive)
              (streams-Tracks texts t u (write texts accepts sort (stale_line at k s.last_ns) r) _
                w))
    ]
  ]

  pub arrive_all-Tracks :
      (t u : Tracker) (tr : String) (at : ℤ) (vs : List Verdict) (r : Recorder)
      → Tracks texts t u r
      → Tracks texts t u (arrive_all texts accepts sort tr at vs r)
  unfolding arrive_all
  arrive_all-Tracks t u tr at [] r a = a
  arrive_all-Tracks t u tr at (v ∷ vs) r a =
      arrive_all-Tracks t u tr at vs (arrive texts accepts sort (tr, v.symbol) at r)
        (arrive-Tracks t u (tr, v.symbol) at r a)

  pub flag_all-Tracks :
      (t u : Tracker) (at : ℤ) (ks : List StreamKey) (r : Recorder)
      → Tracks texts t u r
      → Tracks texts t u (flag_all texts accepts sort at ks r)
  unfolding flag_all
  flag_all-Tracks t u at [] r a = a
  flag_all-Tracks t u at (k ∷ ks) r a = elim (Option-cases (find_stream k r.streams)) [
    | inl gone ↦ rw (gone, flag_all) (flag_all-Tracks t u at ks r a)
    | inr (s, seen) ↦
        let q : Recorder = record r {
          streams = put_stream k (record s { stale = true }) r.streams;
        } in
        rw (seen, flag_all)
          (flag_all-Tracks t u at ks (write texts accepts sort (stale_line at k s.last_ns) q)
            (stale-Tracks t u k at s.last_ns q (streams-Tracks texts t u r _ a)))
  ]
