-- ===== src/Sink/Delay.antt =====
-- The pacing of retries (internal/sink/sink.go, retryDelay and deliverWithRetry). The float product of
-- a delay is the parameter `scale`. The attempts are what happens outside at each of them, in order.
pub mod Paced
use fillwire.Sink.{Runner, Delivery, SinkError, deliver_once, canceled}
use fillwire.Sink.Client.{Reply}
use fillwire.Stream.{Message, Queue}
use fillwire.Decode.Notice.{Ws}
use fillwire.Decode.Record.{FillRecord}
use fillwire.Decode.Counters.{inc_ingest_failure}
use fillwire.Prelude.{
  ℕ, zero, suc, String, List, [], ◌∷◌, Bool, true, false, Option, some, none, ◌+◌, if◌then◌else◌,
  ◌||◌,
}
use fillwire.Prelude.Int.{ℤ, pos, ltb_ℤ, leb_ℤ}

-- What happens at an attempt: the answers to the post and to the acknowledgement, whether the context
-- has ended when the attempt has failed, and whether it ends in the sleep behind it.
pub record Attempt : Type 0 where
  pub request : List FillRecord → Reply
  pub xack : List String → Option ℤ
  pub ended : Bool
  pub interrupted : Bool

-- `deliverWithRetry`: still at it behind these attempts, or at its end, with its error; the delays
-- that it slept, and the deliveries that it made.
pub record Retrying : Type 0 where
  pub result : Option (Option SinkError)
  pub delays : List ℤ
  pub deliveries : List Delivery
  pub queue : Queue

module _ (scale : ℤ → ℤ) where
  -- The loop of `retryDelay` from a delay on, with the rounds that are left.
  unfoldable pub delay_from : ℤ → ℕ → ℤ → ℤ
  delay_from max zero delay = delay
  delay_from max (suc n) delay =
      let next = scale delay in
      let rest = delay_from max n next in
      if ltb_ℤ delay max then if leb_ℤ next delay || ltb_ℤ max next then max else rest else delay

  -- `retryDelay`.
  unfoldable pub retry_delay : Runner → ℕ → ℤ
  unfolding delay_from
  retry_delay r attempt = delay_from r.retry_max attempt r.retry_min

  abbrev pub failed_queue : Delivery → Queue
  failed_queue d = record d.queue { counters = inc_ingest_failure d.queue.counters }

  -- A delivery in front of what comes behind it, with the delay between them.
  abbrev pub behind : Delivery → ℤ → Retrying → Retrying
  behind d delay rest = record rest {
    delays = delay ∷ rest.delays;
    deliveries = d ∷ rest.deliveries;
  }

  abbrev pub finished : Option SinkError → List ℤ → Delivery → Queue → Retrying
  finished x delays d q = record {
    result = some x;
    delays = delays;
    deliveries = d ∷ [];
    queue = q;
  }

  -- `deliverWithRetry` from a number of an attempt on.
  unfoldable pub deliver_with_retry :
      Ws → Runner → List Message → ℕ → List Attempt → Queue → Retrying
  unfolding deliver_once retry_delay
  deliver_with_retry ws r ms n [] q = record {
    result = none;
    delays = [];
    deliveries = [];
    queue = q;
  }
  deliver_with_retry ws r ms n (a ∷ attempts) q =
      let d = deliver_once ws a.request a.xack ms q in
      let rest = deliver_with_retry ws r ms (n + 1) attempts (failed_queue d) in
      let delay = retry_delay r n in
      elim d.error [
        | none ↦ finished none [] d d.queue
        | some e ↦
            if a.ended
            then finished (some canceled) [] d (failed_queue d)
            else if a.interrupted
            then finished (some canceled) (delay ∷ []) d (failed_queue d)
            else behind d delay rest
      ]
