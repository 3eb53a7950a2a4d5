-- ===== src/Sink/Flow.antt =====
-- A fill on its way from the decoder through the queue to the sink (internal/decode/decode.go,
-- internal/stream/stream.go, internal/sink/sink.go).
use fillwire.Decode.Notice.{Ws}
use fillwire.Decode.Record.{Event, FillRecord, Decoder, decode}
use fillwire.Decode.Record.Fills.{decode-GoodRecord}
use fillwire.Stream.{Codec, Message, decode_entry, entry_values}
use fillwire.Stream.Entries.{without_flags, decode_entry-entry_values}
use fillwire.Sink.{is_fill_message}
use fillwire.Prelude.{ℕ, String, refl, some, ok, ◌≡◌, true, leb}

-- A record that Decode returns, whose JSON is read back without its two flags: the entry that Enqueue
-- adds for it is read as a message with the identifier of the entry, that record without its flags, and
-- the record's two flags beside it, the first of which says that the count is two or more. The sink
-- takes the message for a fill, so DeliverOnce does not skip it.
pub decode-is_fill_message :
    (ws : Ws) (digest : String → ℕ) (to_upper : String → String) (codec : Codec) (e : Event)
    (d : Decoder) (r : FillRecord) (id payload : String)
    → (decode ws digest to_upper e d).0 ≡ some r
    → codec.unmarshal payload ≡ some (without_flags r)
    → (m : Message) × (decode_entry codec (record { id = id; values = entry_values payload r })
        ≡ ok m)
      × (m.id ≡ id)
      × (m.fill ≡ without_flags r)
      × (m.dup_suspect ≡ r.dup_suspect)
      × (m.dup_observation_count ≡ r.dup_observation_count)
      × (m.dup_suspect ≡ leb 2 m.dup_observation_count)
      × (is_fill_message ws m ≡ true)
unfolding is_fill_message
decode-is_fill_message ws digest to_upper codec e d r id payload made back =
    let (fill, _, _, _, _, _, _, _, _, _, _, suspect, small) =
      decode-GoodRecord ws digest to_upper e d r made in
    (
      record {
        id = id;
        fill = without_flags r;
        dup_suspect = r.dup_suspect;
        dup_observation_count = r.dup_observation_count;
      },
      decode_entry-entry_values codec id payload r back small,
      refl,
      refl,
      refl,
      refl,
      suspect,
      rw fill refl,
    )
