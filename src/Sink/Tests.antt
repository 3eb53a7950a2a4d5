-- ===== src/Sink/Tests.antt =====
-- The theorems on internal/sink and internal/stream at concrete inputs.
use fillwire.Decode.Tests.{
  ws_test, digest_test, upper_test, fill_event, test_decoder, fill_result, fill_event-decodes,
}
use fillwire.Sink.{deliver_once, is_fill_message, new_runner, Runner}
use fillwire.Sink.Client.{Reply, answered, IngestResult, network_failed}
use fillwire.Sink.Acks.{Settled, Named, deliver_once-acked}
use fillwire.Sink.Posts.{IsFill, deliver_once-posted}
use fillwire.Sink.Flow.{decode-is_fill_message}
use fillwire.Sink.Delay.Paced.{retry_delay-between, deliver_with_retry-delivers}
use fillwire.Sink.Delay.{retry_delay, deliver_with_retry, Attempt}
use fillwire.Stream.{Message, Queue, Codec, decode_entry, entry_values}
use fillwire.Stream.Entries.{without_flags, decode_entry-entry_values}
use fillwire.Decode.Counters.{new_counters}
use fillwire.Decode.Record.{FillRecord}
use fillwire.Prelude.{
  refl, none, some, true, false, List, [], ◌∷◌, String, Option, ok, arith, ◌≡◌, ◌≤◌, ◌↔◌, length,
  leb, suc, All,
}
use fillwire.Prelude.Strings.{trim_text}
use fillwire.Prelude.Int.{pos, ℤ, ◌≤ℤ◌, ◌+ℤ◌}

abbrev queue_test : Queue
queue_test = record {
  cfg = record {
    key = "fills";
    max_len = pos 1000;
    group = "ingest";
    consumer = "one";
    batch_size = pos 100;
    block = pos 0;
    claim_min_idle = pos 0;
  };
  counters = some new_counters;
}

abbrev message : String → FillRecord → Message
message id r = record { id = id; fill = r; dup_suspect = false; dup_observation_count = 1 }

-- The record of a notice that an order was accepted.
abbrev order_notice : FillRecord
order_notice = record fill_result {
  raw_payload_json = record fill_result.raw_payload_json { tr = "H0STCNI9" };
}

abbrev batch : List Message
batch = message "1-0" fill_result ∷ message "2-0" order_notice ∷ message "3-0" fill_result ∷ []

abbrev result_of : String → IngestResult
result_of status = record { status = status; row_id = none; reason = none }

-- A ledger that takes the first fill and rejects the second.
abbrev ledger : List FillRecord → Reply
ledger fs = answered 200 (
    some (record {
      source = "fillwire";
      source_run_id = none;
      received = pos 2;
      accepted = pos 1;
      rejected = pos 1;
      results = result_of "inserted" ∷ result_of "rejected" ∷ [];
    }))

abbrev all_acked : List String → Option ℤ
all_acked ids = some (pos (length ids))

batch-acked :
    (deliver_once ws_test ledger all_acked batch queue_test).acked ≡ some ("2-0" ∷ "1-0" ∷ [])
unfolding deliver_once trim_text
batch-acked = refl

deliver_once-acked_example : Named "1-0" ("2-0" ∷ "1-0" ∷ []) ↔ Settled ws_test ledger batch "1-0"
deliver_once-acked_example =
    deliver_once-acked ws_test ledger all_acked batch queue_test ("2-0" ∷ "1-0" ∷ []) "1-0"
      batch-acked

batch-posted :
    (deliver_once ws_test ledger all_acked batch queue_test).posted
    ≡ some (fill_result ∷ fill_result ∷ [])
unfolding deliver_once trim_text
batch-posted = refl

deliver_once-posted_example :
    (1 ≤ 2) × (2 ≤ 200) × All (IsFill ws_test) (fill_result ∷ fill_result ∷ [])
deliver_once-posted_example =
    deliver_once-posted ws_test ledger all_acked batch queue_test (fill_result ∷ fill_result ∷ [])
      batch-posted

-- A JSON that knows one record.
abbrev codec_test : Codec
codec_test = record { marshal = λ r. some "{}"; unmarshal = λ s. some (without_flags fill_result) }

decode_entry-entry_values_example :
    decode_entry codec_test (record { id = "1-0"; values = entry_values "{}" fill_result })
    ≡ ok (message "1-0" (without_flags fill_result))
decode_entry-entry_values_example =
    decode_entry-entry_values codec_test "1-0" "{}" fill_result refl (omega arith)

decode-is_fill_message_example :
    (m : Message) × (decode_entry codec_test
        (record { id = "1-0"; values = entry_values "{}" fill_result })
      ≡ ok m)
    × (m.id ≡ "1-0")
    × (m.fill ≡ without_flags fill_result)
    × (m.dup_suspect ≡ fill_result.dup_suspect)
    × (m.dup_observation_count ≡ fill_result.dup_observation_count)
    × (m.dup_suspect ≡ leb 2 m.dup_observation_count)
    × (is_fill_message ws_test m ≡ true)
decode-is_fill_message_example =
    decode-is_fill_message ws_test digest_test upper_test codec_test fill_event test_decoder
      fill_result "1-0" "{}" fill_event-decodes refl

abbrev twice : ℤ → ℤ
twice d = d +ℤ d

abbrev runner_test : Runner
runner_test = record { retry_min = pos 1000; retry_max = pos 60000 }

runner_test-new : new_runner true true (pos 1000) (pos 60000) ≡ ok runner_test
unfolding new_runner
runner_test-new = refl

retry_delay-between_example :
    (pos 1 ≤ℤ pos 1000)
    × (pos 1000 ≤ℤ retry_delay twice runner_test 3)
    × (retry_delay twice runner_test 3 ≤ℤ pos 60000)
    × (retry_delay twice runner_test 3 ≤ℤ retry_delay twice runner_test 4)
retry_delay-between_example =
    retry_delay-between twice true true (pos 1000) (pos 60000) runner_test 3 runner_test-new

-- The network fails once, and then the ledger answers.
abbrev failing : Attempt
failing = record {
  request = λ fs. network_failed;
  xack = all_acked;
  ended = false;
  interrupted = false;
}

abbrev answering : Attempt
answering = record { request = ledger; xack = all_acked; ended = false; interrupted = false }

answering-delivers : (p : Queue) → (deliver_once ws_test ledger all_acked batch p).error ≡ none
unfolding deliver_once trim_text
answering-delivers p = refl

deliver_with_retry-delivers_example :
    let end =
      deliver_with_retry twice ws_test runner_test batch 0 (failing ∷ answering ∷ []) queue_test in
    (end.result ≡ some none)
    × (length end.deliveries ≡ suc (length end.delays))
    × (length end.deliveries ≤ suc 1)
deliver_with_retry-delivers_example =
    deliver_with_retry-delivers twice ws_test runner_test batch 0 (failing ∷ []) answering []
      queue_test ((refl, refl), tt) answering-delivers
