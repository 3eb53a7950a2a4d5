-- ===== src/Sink/Run.antt =====
-- internal/sink/sink.go: Run and reclaimPending. The rounds are what happens outside at each of them,
-- in order; a call that is still at it behind them has no result.
use fillwire.Decode.Notice.{Ws}
use fillwire.Sink.{Runner, SinkError}
use fillwire.Sink.Delay.{Attempt, deliver_with_retry}
use fillwire.Stream.{
  Codec, Entry, Message, Queue, StreamError, ReadReply, GroupReply, auto_claim, read_new,
  ensure_group,
}
use fillwire.Prelude.{
  String, List, [], ◌∷◌, Bool, Option, some, none, ok, err, if◌then◌else◌, str_eq, ◌||◌,
}
use fillwire.Prelude.Int.{ℤ}

pub data RunError : Type 0 where
  no_group claim_failed read_refused : StreamError → RunError
  delivery_failed : SinkError → RunError
  run_canceled : RunError

-- The answer of XAUTOCLAIM, and the attempts at the messages that it gives.
pub record ClaimRound : Type 0 where
  pub reply : Option (List Entry × String)
  pub attempts : List Attempt

-- The answer of XREADGROUP, whether the context has ended by then, and the attempts.
pub record ReadRound (codec : Codec) : Type 0 where
  pub reply : ReadReply codec
  pub ended : Bool
  pub attempts : List Attempt

-- The result of a call, if it has come to its end, with the queue.
abbrev pub Progress : Type 0
Progress = Option (Option RunError) × Queue

module _ (scale : ℤ → ℤ) (ws : Ws) (codec : Codec) (r : Runner) where
  -- The delivery of messages, if there are any.
  unfoldable pub deliver_messages : List Message → List Attempt → Queue → Progress
  unfolding deliver_with_retry
  deliver_messages [] attempts q = (some none, q)
  deliver_messages (m ∷ ms) attempts q =
      let end = deliver_with_retry scale ws r (m ∷ ms) 0 attempts q in
      elim end.result [
        | none ↦ (none, end.queue)
        | some none ↦ (some none, end.queue)
        | some (some e) ↦ (some (some (delivery_failed e)), end.queue)
      ]

  -- `reclaimPending` from a cursor on.
  unfoldable pub reclaim_pending : String → List ClaimRound → Queue → Progress
  unfolding deliver_messages auto_claim
  reclaim_pending cursor [] q = (none, q)
  reclaim_pending cursor (c ∷ cs) q =
      let (read, next) = auto_claim codec c.reply in
      elim read [
        | err e ↦ (some (some (claim_failed e)), q)
        | ok ms ↦
            let (done, q') = deliver_messages ms c.attempts q in
            elim done [
              | none ↦ (none, q')
              | some (some e) ↦ (some (some e), q')
              | some none ↦
                  if str_eq next "" || str_eq next "0-0" || str_eq next cursor
                  then (some none, q')
                  else reclaim_pending next cs q'
            ]
      ]

  -- The loop of `Run`.
  unfoldable pub read_rounds : List (ReadRound codec) → Queue → Progress
  unfolding deliver_messages read_new
  read_rounds [] q = (none, q)
  read_rounds (c ∷ cs) q = elim (read_new codec c.reply) [
    | err e ↦ (some (some (if c.ended then run_canceled else read_refused e)), q)
    | ok ms ↦
        let (done, q') = deliver_messages ms c.attempts q in
        elim done [
          | none ↦ (none, q')
          | some (some e) ↦ (some (some e), q')
          | some none ↦ read_rounds cs q'
        ]
  ]

  -- `Run`.
  unfoldable pub run : GroupReply → List ClaimRound → List (ReadRound codec) → Queue → Progress
  unfolding reclaim_pending read_rounds
  run group claims reads q = elim (ensure_group group) [
    | some e ↦ (some (some (no_group e)), q)
    | none ↦
        let (done, q') = reclaim_pending "0-0" claims q in
        elim done [
          | none ↦ (none, q')
          | some (some e) ↦ (some (some e), q')
          | some none ↦ read_rounds reads q'
        ]
  ]
