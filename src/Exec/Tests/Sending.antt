-- ===== src/Exec/Tests/Sending.antt =====
-- A child that is sent (internal/exec/executor.go, Tick): a codec that knows the lines of the start
-- record and of the first send.
use fillwire.Exec.State.{Record}
use fillwire.Exec.Decide.{Config, Decision, decide, Top}
use fillwire.Exec.Tests.{begin, started_state, three_shares}
use fillwire.Exec.Tests.Crash.{default_config, Line-discrete, begin_line}
use fillwire.Prelude.{
  some, false, true, none, Option, List, [], ◌∷◌, ◌==◌, if◌then◌else◌, ◌≡◌, err, length,
}
use fillwire.Prelude.Int.{pos}
use fillwire.Exec.Executor.Announced.{Announced}
use fillwire.Exec.Journal.{Line, Codec, Bytes, journal_version}
use fillwire.Exec.Executor.{Env}
use fillwire.Exec.Executor.Calls.{Op, begin_intent, book, tick_now}

abbrev sending : Config
sending = record default_config { send_enabled = true }

abbrev top : Top
top = record { bid = pos 69800; ask = pos 69900; at_ns = pos 8; synced = true }

abbrev record_of : Decision → Record
record_of (Decision.commit r) = r
record_of Decision.idle = begin
record_of Decision.query = begin

abbrev first : Record
first =
    record_of
      (decide started_state (record { now = pos 9; top = some top; cfg = sending; killed = false }))

abbrev send_line : Line
send_line = record { v = journal_version; seq = 2; rec = first; state = "digest" }

abbrev encode_either : {l : Line} → Dec (l ≡ begin_line) → Dec (l ≡ send_line) → Option Bytes
encode_either (yes p) d = some (65 ∷ [])
encode_either (no p) (yes q) = some (66 ∷ [])
encode_either (no p) (no q) = none

abbrev decode_either : Bytes → Option Line
decode_either [] = none
decode_either (b ∷ bs) = if b == 65 then some begin_line else some send_line

abbrev two_lines : Codec
two_lines = record {
  encode = λ l. encode_either (Line-discrete l begin_line) (Line-discrete l send_line);
  decode = decode_either;
  digest = λ s. "digest";
}

-- The gateway cannot be reached: the outcome of the child is not known.
abbrev unreached : Env Unit
unreached = record {
  codec = two_lines;
  gateway_send = λ w c. (err "down", w);
  gateway_query = λ w i. (err "down", w);
  disk = λ w bytes. (record { written = length bytes; write_ok = true; sync_ok = true }, w);
  killed = λ w. false;
  quoted = λ s. s;
}

abbrev calls : List Op
calls = begin_intent three_shares (pos 7) ∷ book top ∷ tick_now (pos 9) ∷ tick_now (pos 10) ∷ []
