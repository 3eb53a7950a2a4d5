-- ===== src/Stream/Entries.antt =====
-- Entries that are written are read back (internal/stream/stream.go, Enqueue and decodeEntries).
use fillwire.Stream.Decimal.{parse_uint-decimal}
use fillwire.Stream.{
  Codec, decode_entry, entry_values, flagged, value_of, parse_bool, bool_value, uint_value,
}
use fillwire.Decode.Record.{FillRecord}
use fillwire.Prelude.{String, some, ◌≡◌, refl, ok, false, Bool, ◌<◌, ◌^◌}
use fillwire.Prelude.Strings.{parse_bool, format_bool}
use mathlib.Core.Bool.{true}

-- What the JSON of a record keeps: all but the two fields that it does not have.
abbrev pub without_flags : FillRecord → FillRecord
without_flags r = record r { dup_suspect = false; dup_observation_count = 0 }

parse_bool-format_bool : (b : Bool) → parse_bool (format_bool b) ≡ some b
unfolding parse_bool
parse_bool-format_bool true = refl
parse_bool-format_bool false = refl

module _ (codec : Codec) where
  -- A record that marshals to a text from which the JSON reads it back without its two flags, with a
  -- uint64 count: the entry that Enqueue adds for it is read back as a message with the record, and
  -- the flags stand in the message.
  pub decode_entry-entry_values :
      (id payload : String) (r : FillRecord)
      → codec.unmarshal payload ≡ some (without_flags r)
      → r.dup_observation_count < 2 ^ 64
      → decode_entry codec (record { id = id; values = entry_values payload r })
        ≡ ok (record {
          id = id;
          fill = without_flags r;
          dup_suspect = r.dup_suspect;
          dup_observation_count = r.dup_observation_count;
        })
  unfolding decode_entry entry_values flagged value_of bool_value uint_value
  decode_entry-entry_values id payload r back small =
      rw
        (
          back,
          flagged,
          parse_bool-format_bool r.dup_suspect,
          parse_uint-decimal r.dup_observation_count small,
        )
        refl
