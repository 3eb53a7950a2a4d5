-- ===== src/Sink.antt =====
-- internal/sink/sink.go: the delivery of fills to the ledger. `net/http` and JSON are the parameter
-- `request`, what a request with some fills comes to; the float product of a delay is the parameter
-- `scale`; an error is its kind; logging is left out. What a call does outside is part of its result.
pub mod Client
pub mod Acks
pub mod Posts
pub mod Flow
mod Tests
pub mod Delay
pub mod Run
use fillwire.Decode.Notice.{Ws, classify_notice}
use fillwire.Decode.Record.{FillRecord, is_fill}
use fillwire.Decode.Counters.{inc_sink_non_fill, inc_ingest_failure}
use fillwire.Stream.{Queue, Message, StreamError, ack}
use fillwire.Sink.Client.{Reply, PostError, Response, IngestResult, post}
use fillwire.Prelude.{
  ℕ, zero, suc, String, List, [], ◌∷◌, ◌++◌, Bool, true, false, Option, some, none, Result, ok, err,
  length, if◌then◌else◌, str_eq, not, ltb, ◌||◌, ◌==◌,
}
use fillwire.Prelude.Int.{ℤ, pos, leb_ℤ, ltb_ℤ}

pub data SinkError : Type 0 where
  batch_too_large unknown_status canceled : SinkError
  post_failed : PostError → SinkError
  result_count : ℕ → ℕ → SinkError
  ack_failed : StreamError → SinkError

-- What one call of DeliverOnce does: its error, the fills that it posts and the identifiers that it
-- acknowledges, if it comes to that, and the queue afterwards.
pub record Delivery : Type 0 where
  pub error : Option SinkError
  pub posted : Option (List FillRecord)
  pub acked : Option (List String)
  pub queue : Queue

-- `Runner`, with the retry bounds in nanoseconds.
pub record Runner : Type 0 where
  pub retry_min : ℤ
  pub retry_max : ℤ

pub data RunnerError : Type 0 where
  no_queue_or_client bad_retry_bounds bad_retry_factor : RunnerError

-- `NewRunner`, with whether there are a queue and a client, and whether the factor is at least 1.
unfoldable pub new_runner : Bool → Bool → ℤ → ℤ → Result RunnerError Runner
new_runner connected grows retry_min retry_max =
    if not connected
    then err no_queue_or_client
    else if leb_ℤ retry_min (pos 0) || ltb_ℤ retry_max retry_min
    then err bad_retry_bounds
    else if not grows
    then err bad_retry_factor
    else ok (record { retry_min = retry_min; retry_max = retry_max })

-- Whether the ledger confirmed a fill: `none` where the status is not known.
abbrev pub is_confirmed : String → Option Bool
is_confirmed status =
    if str_eq status "inserted" || str_eq status "updated" || str_eq status "unchanged"
    then some true
    else if str_eq status "rejected"
    then some false
    else none

-- The loop over the results and the messages at their positions: the identifiers to acknowledge.
unfoldable pub confirmed_ids : List IngestResult → List Message → Result SinkError (List String)
confirmed_ids [] ms = ok []
confirmed_ids (r ∷ rs) [] = ok []
confirmed_ids (r ∷ rs) (m ∷ ms) =
    let rest = confirmed_ids rs ms in
    elim (is_confirmed r.status) [
      | none ↦ err unknown_status
      | some false ↦ rest
      | some true ↦ elim rest [ err e ↦ err e | ok ids ↦ ok (m.id ∷ ids) ]
    ]

abbrev pub fills_of : List Message → List FillRecord
fills_of [] = []
fills_of (m ∷ ms) = m.fill ∷ fills_of ms

-- `Ack` at the end of a call.
unfoldable pub deliver_ack :
    (List String → Option ℤ) → Option (List FillRecord) → List String → Queue → Delivery
unfolding ack
deliver_ack xack posted ids q =
    let (x, q') = ack xack ids q in
    record {
      error = elim x [ none ↦ none | some e ↦ some (ack_failed e) ];
      posted = posted;
      acked = some ids;
      queue = q';
    }

-- A call that ends in an error without an acknowledgement.
abbrev pub failed_delivery : SinkError → Option (List FillRecord) → Queue → Delivery
failed_delivery e posted q = record { error = some e; posted = posted; acked = none; queue = q }

module _ (ws : Ws) where
  -- Whether the stored frame of a message classifies as a fill.
  unfoldable pub is_fill_message : Message → Bool
  unfolding classify_notice
  is_fill_message m =
      is_fill (classify_notice ws m.fill.raw_payload_json.tr m.fill.raw_payload_json.fields)

  -- The loop over the messages: the identifiers of those that are no fill, and the others.
  unfoldable pub non_fill_ids : List Message → List String
  unfolding is_fill_message
  non_fill_ids [] = []
  non_fill_ids (m ∷ ms) =
      let rest = non_fill_ids ms in if is_fill_message m then rest else m.id ∷ rest

  unfoldable pub fill_messages : List Message → List Message
  unfolding is_fill_message
  fill_messages [] = []
  fill_messages (m ∷ ms) =
      let rest = fill_messages ms in if is_fill_message m then m ∷ rest else rest

  -- The counter of the loop, by the identifiers.
  abbrev pub count_non_fills : List String → Queue → Queue
  count_non_fills [] q = q
  count_non_fills (id ∷ ids) q =
      count_non_fills ids (record q { counters = inc_sink_non_fill q.counters })

  module _ (request : List FillRecord → Reply) (xack : List String → Option ℤ) where
    -- The end of `DeliverOnce`, with the response.
    unfoldable pub deliver_results : List String → List Message → Response → Queue → Delivery
    unfolding confirmed_ids deliver_ack
    deliver_results skipped fills response q =
        let posted = some (fills_of fills) in
        if not (length response.results == length fills)
        then failed_delivery (result_count (length response.results) (length fills)) posted q
        else elim (confirmed_ids response.results fills) [
          | err e ↦ failed_delivery e posted q
          | ok ids ↦ deliver_ack xack posted (skipped ++ ids) q
        ]

    -- The part of `DeliverOnce` that posts.
    unfoldable pub deliver_fills : List String → List Message → Queue → Delivery
    unfolding deliver_results deliver_ack post
    deliver_fills skipped [] q = deliver_ack xack none skipped q
    deliver_fills skipped (m ∷ ms) q = elim (post request (fills_of (m ∷ ms))) [
      | err e ↦ failed_delivery (post_failed e) (some (fills_of (m ∷ ms))) q
      | ok response ↦ deliver_results skipped (m ∷ ms) response q
    ]

    -- `DeliverOnce`.
    unfoldable pub deliver_once : List Message → Queue → Delivery
    unfolding deliver_fills non_fill_ids fill_messages
    deliver_once [] q = record { error = none; posted = none; acked = none; queue = q }
    deliver_once (m ∷ ms) q =
        let skipped = non_fill_ids (m ∷ ms) in
        if ltb 200 (length (m ∷ ms))
        then failed_delivery batch_too_large none q
        else deliver_fills skipped (fill_messages (m ∷ ms)) (count_non_fills skipped q)
