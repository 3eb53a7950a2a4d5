-- ===== src/Stream.antt =====
-- internal/stream/stream.go: the durable queue of fills on a Redis stream. What Redis answers and the
-- JSON of a record are parameters; an error is its kind; logging is left out.
mod Decimal
pub mod Entries
use fillwire.Decode.Record.{FillRecord}
use fillwire.Decode.Counters.{Counters, inc_xadded, add_xacked, add_xack_shortfall}
use fillwire.Prelude.{
  ℕ, String, List, [], ◌∷◌, Bool, true, false, Option, some, none, Result, ok, err, length, ◌++◌,
  str_eq, if◌then◌else◌, first_error, not, ◌||◌,
}
use fillwire.Prelude.Int.{ℤ, pos, ltb_ℤ, pos_part, ◌-ℤ◌, leb_ℤ}
use fillwire.Prelude.Strings.{is_space, trim_text, parse_bool, parse_uint, format_bool, decimal}

-- `Config`, without the counters.
pub record Config : Type 0 where
  pub key : String
  pub max_len : ℤ
  pub group : String
  pub consumer : String
  pub batch_size : ℤ
  pub block : ℤ
  pub claim_min_idle : ℤ

-- `Message`.
pub record Message : Type 0 where
  pub id : String
  pub fill : FillRecord
  pub dup_suspect : Bool
  pub dup_observation_count : ℕ

pub data StreamError : Type 0 where
  no_client no_names bad_max_len bad_batch_size bad_duration : StreamError
  no_payload payload_not_text bad_payload bad_dup_suspect bad_observation_count : StreamError
  redis_failed marshal_failed : StreamError

-- `Queue`.
pub record Queue : Type 0 where
  pub cfg : Config
  pub counters : Option Counters

abbrev pub is_blank_text : String → Bool
is_blank_text s = str_eq (trim_text is_space s) ""

-- `New`, with whether there is a client.
unfoldable pub new_queue : Bool → Config → Option Counters → Result StreamError Queue
new_queue has_client cfg counters =
    elim (first_error (
      (not has_client, no_client)
      ∷ (is_blank_text cfg.key || is_blank_text cfg.group || is_blank_text cfg.consumer, no_names)
      ∷ (leb_ℤ cfg.max_len (pos 0), bad_max_len)
      ∷ (ltb_ℤ cfg.batch_size (pos 1) || ltb_ℤ (pos 200) cfg.batch_size, bad_batch_size)
      ∷ (ltb_ℤ cfg.block (pos 0) || ltb_ℤ cfg.claim_min_idle (pos 0), bad_duration)
      ∷ [])) [ some e ↦ err e | none ↦ ok (record { cfg = cfg; counters = counters }) ]

-- The answer of XGROUP CREATE: done, an error that names BUSYGROUP, or another one.
pub data GroupReply : Type 0 where
  group_created group_busy group_failed : GroupReply

-- `EnsureGroup`: the error, if there is one.
abbrev pub ensure_group : GroupReply → Option StreamError
ensure_group group_created = none
ensure_group group_busy = none
ensure_group group_failed = some redis_failed

-- A value of an entry, as the client returns it.
pub data Value : Type 0 where
  text_value bytes_value : String → Value
  other_value : Value

-- An entry of the stream, `redis.XMessage`.
pub record Entry : Type 0 where
  pub id : String
  pub values : List (String × Value)

-- A value of the map; `none` is the nil of a missing one.
unfoldable pub value_of : String → List (String × Value) → Option Value
value_of k [] = none
value_of k ((j, v) ∷ vs) = if str_eq j k then some v else value_of k vs

-- `payloadField`.
abbrev pub payload_field : String
payload_field = "payload"

-- `payloadString`.
abbrev pub payload_string : Value → Option String
payload_string (text_value s) = some s
payload_string (bytes_value s) = some s
payload_string other_value = none

-- `boolValue`.
unfoldable pub bool_value : Option Value → Option Bool
unfolding parse_bool
bool_value none = some false
bool_value (some v) = elim (payload_string v) [ none ↦ none | some s ↦ parse_bool s ]

-- `uintValue`.
unfoldable pub uint_value : Option Value → Option ℕ
unfolding parse_uint
uint_value none = some 0
uint_value (some v) = elim (payload_string v) [ none ↦ none | some s ↦ parse_uint s ]

-- `Values` of the entry that `Enqueue` adds.
unfoldable pub entry_values : String → FillRecord → List (String × Value)
unfolding decimal
entry_values payload r =
    (payload_field, text_value payload)
    ∷ ("dup_suspect", text_value (format_bool r.dup_suspect))
    ∷ ("dup_observation_count", text_value (decimal r.dup_observation_count))
    ∷ []

-- `json.Marshal` and `json.Unmarshal` of a record, where they do not fail.
pub record Codec : Type 0 where
  pub marshal : FillRecord → Option String
  pub unmarshal : String → Option FillRecord

module _ (codec : Codec) where
  -- `Enqueue`, with what XADD answers to the values: an identifier, or an error.
  unfoldable pub enqueue :
      (List (String × Value) → Option String)
      → FillRecord
      → Queue
      → Result StreamError String × Queue
  unfolding entry_values
  enqueue xadd r q = elim (codec.marshal r) [
    | none ↦ (err marshal_failed, q)
    | some payload ↦ elim (xadd (entry_values payload r)) [
      | none ↦ (err redis_failed, q)
      | some id ↦ (ok id, record q { counters = inc_xadded q.counters })
    ]
  ]

  -- The flags of an entry with its record.
  unfoldable pub flagged : Entry → FillRecord → Result StreamError Message
  unfolding bool_value uint_value value_of
  flagged e r = elim (bool_value (value_of "dup_suspect" e.values)) [
    | none ↦ err bad_dup_suspect
    | some suspect ↦ elim (uint_value (value_of "dup_observation_count" e.values)) [
      | none ↦ err bad_observation_count
      | some count ↦
          ok (record { id = e.id; fill = r; dup_suspect = suspect; dup_observation_count = count })
    ]
  ]

  -- One round of the loop of `decodeEntries`.
  unfoldable pub decode_entry : Entry → Result StreamError Message
  unfolding flagged value_of
  decode_entry e = elim (value_of payload_field e.values) [
    | none ↦ err no_payload
    | some v ↦ elim (payload_string v) [
      | none ↦ err payload_not_text
      | some payload ↦ elim (codec.unmarshal payload) [
        | none ↦ err bad_payload
        | some r ↦ flagged e r
      ]
    ]
  ]

  -- `decodeEntries`.
  unfoldable pub decode_entries : List Entry → Result StreamError (List Message)
  unfolding decode_entry
  decode_entries [] = ok []
  decode_entries (e ∷ es) =
      let rest = decode_entries es in
      elim (decode_entry e) [
        | err x ↦ err x
        | ok m ↦ elim rest [ err x ↦ err x | ok ms ↦ ok (m ∷ ms) ]
      ]

  -- The entries of all streams, behind each other.
  abbrev pub all_entries : List (List Entry) → List Entry
  all_entries [] = []
  all_entries (es ∷ ess) = es ++ all_entries ess

  -- The answer of XREADGROUP: the streams with their entries, `redis.Nil`, or another error.
  pub data ReadReply : Type 0 where
    read_streams : List (List Entry) → ReadReply
    read_nil read_failed : ReadReply

  -- `ReadNew`.
  unfoldable pub read_new : ReadReply → Result StreamError (List Message)
  unfolding decode_entries
  read_new read_nil = ok []
  read_new read_failed = err redis_failed
  read_new (read_streams ess) = decode_entries (all_entries ess)

  -- `AutoClaim`, with the answer of XAUTOCLAIM: entries with the next cursor, or an error.
  unfoldable pub auto_claim :
      Option (List Entry × String) → Result StreamError (List Message) × String
  unfolding decode_entries
  auto_claim none = (err redis_failed, "")
  auto_claim (some (es, next)) = (decode_entries es, next)

-- What the counters count of an acknowledgement of so many, out of those asked for.
abbrev pub count_acked : ℤ → ℕ → Option Counters → Option Counters
count_acked acked asked c =
    let first = if ltb_ℤ (pos 0) acked then add_xacked (pos_part acked) c else c in
    if ltb_ℤ acked (pos asked)
    then add_xack_shortfall (pos_part (pos asked -ℤ acked)) first
    else first

-- `Ack`, with what XACK answers to the identifiers: how many, or an error.
unfoldable pub ack : (List String → Option ℤ) → List String → Queue → Option StreamError × Queue
ack xack [] q = (none, q)
ack xack (id ∷ ids) q = elim (xack (id ∷ ids)) [
  | none ↦ (some redis_failed, q)
  | some acked ↦ (none, record q { counters = count_acked acked (length (id ∷ ids)) q.counters })
]
