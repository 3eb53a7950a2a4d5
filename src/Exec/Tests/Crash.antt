-- ===== src/Exec/Tests/Crash.antt =====
-- The theorems on the journal (internal/exec/journal.go, executor.go) at concrete inputs: a codec
-- that knows the line of one start record, and a disk that writes everything.
use native.Mathlib.Decide.{ℕ_discrete}
use fillwire.Prelude.{
  refl, ok, ◌≡◌, some, Option, ◌∷◌, ap, sym, [], none, arith, String, List, false, err, ◌++◌, true,
  length, take, Bool-cases, ◌⊎◌, str_eq, inl, str_eq→eq, ◌∙◌, subst, str_eq_refl, some-eq,
}
use fillwire.Exec.Journal.Replay.{
  CodecLaws, ReplaysTo, replay-torn, replay-append, open_journal-cut,
}
use fillwire.Exec.Journal.{
  Line, Codec, journal_version, Bytes, replay, open_journal, newline, line_bytes, Journal,
  each_line, lines_from, end_line,
}
use fillwire.Exec.Machine.Invariant.{ViewInt64}
use fillwire.Exec.Journal.Valid.{Settled, DecodesInt64, replay-IsValid}
use fillwire.Exec.Tests.{
  begin, [], none, arith, zero_state, started_state, false, pos, three_shares, inl, begin-ok, inr,
}
use fillwire.Exec.Journal.Reading.{IsOneLine}
use fillwire.Exec.Executor.Durable.{Journaled, run-Journaled}
use fillwire.Exec.Executor.Commit.{EnvLaws}
use fillwire.Exec.Executor.{Executor, Env, new}
use fillwire.Exec.Executor.Calls.{Op, run, begin_intent, book, ledger_fill, poll, tick_now}
use fillwire.Exec.Decide.{Config}
use fillwire.Prelude.Int.{pos}

String_discrete : Discrete String
String_discrete s t = elim (Bool-cases (str_eq s t)) [
  | inl same ↦ yes (str_eq→eq s t same)
  | inr other ↦ no (λ (p : s ≡ t).
      differ (sym other ∙ subst (λ (x : String). str_eq s x ≡ true) p (str_eq_refl s)))
]
  where
    differ : false ≡ true → ⊥
    differ h = cc

pub Line-discrete : Discrete Line
Line-discrete = hlevel (ℕ_discrete, String_discrete)

abbrev pub begin_line : Line
begin_line = record { v = journal_version; seq = 1; rec = begin; state = "digest" }

abbrev encode_if : {l : Line} → Dec (l ≡ begin_line) → Option Bytes
encode_if (yes p) = some (123 ∷ 125 ∷ [])
encode_if (no p) = none

-- A codec that encodes one line and refuses every other.
abbrev one_line_codec : Codec
one_line_codec = record {
  encode = λ l. encode_if (Line-discrete l begin_line);
  decode = λ bytes. some begin_line;
  digest = λ s. "digest";
}

one_line_codec-laws : CodecLaws one_line_codec
one_line_codec-laws = record {
  round_trip = λ l bs h. decodes l bs (Line-discrete l begin_line) h;
  one_line_each = λ l bs h. is_line l bs (Line-discrete l begin_line) h;
}
  where
    decodes :
        (l : Line) (bs : Bytes) (d : Dec (l ≡ begin_line))
        → encode_if d ≡ some bs
        → ◌≡◌ {A = Option Line} (some begin_line) (some l)
    decodes l bs (yes p) h = ap some (sym p)
    decodes l bs (no p) h = cc

    is_line :
        (l : Line) (bs : Bytes) (d : Dec (l ≡ begin_line)) → encode_if d ≡ some bs → IsOneLine bs
    is_line l bs (yes p) h = ground arith
    is_line l bs (no p) h = cc

-- A disk that writes and syncs everything, and a gateway that cannot be reached.
abbrev quiet : Env Unit
quiet = record {
  codec = one_line_codec;
  gateway_send = λ w c. (err "down", w);
  gateway_query = λ w i. (err "down", w);
  disk = λ w bytes. (record { written = length bytes; write_ok = true; sync_ok = true }, w);
  killed = λ w. false;
  quoted = λ s. s;
}

quiet-laws : EnvLaws quiet
quiet-laws = record { codec_laws = one_line_codec-laws; whole_write = λ w bs h. omega arith }

abbrev pub default_config : Config
default_config = record {
  send_enabled = false;
  require_ledger_complete = false;
  step_every = pos 5000000000;
  stale_after = pos 2000000000;
}

abbrev pub empty_journal : Journal
empty_journal = record { file = []; seq = 0 }

empty-ReplaysTo : ReplaysTo one_line_codec zero_state [] zero_state 0
unfolding replay each_line lines_from
empty-ReplaysTo = refl

abbrev calls : List Op
calls =
    begin_intent three_shares (pos 7)
    ∷ book (record { bid = pos 69800; ask = pos 69900; at_ns = pos 8; synced = true })
    ∷ poll true
    ∷ tick_now (pos 9)
    ∷ ledger_fill "0000117"
        (record { fill_id = "f1"; key = ""; qty = pos 1; price = pos 69900; at_ns = pos 10 })
    ∷ []

abbrev fresh : Executor
fresh = new default_config empty_journal zero_state

run-Journaled_example : Journaled quiet quiet-laws zero_state (run quiet calls fresh tt).0
run-Journaled_example =
    run-Journaled quiet quiet-laws zero_state calls fresh tt (inl empty-ReplaysTo)

abbrev begin_bytes : Bytes
begin_bytes = 123 ∷ 125 ∷ newline ∷ []

begin_bytes-eq : line_bytes one_line_codec 0 begin started_state ≡ some begin_bytes
unfolding line_bytes
begin_bytes-eq = ap end_line (encoded (Line-discrete begin_line begin_line))
  where
    encoded : (d : Dec (begin_line ≡ begin_line)) → encode_if d ≡ some (123 ∷ 125 ∷ [])
    encoded (yes p) = refl
    encoded (no p) = absurd (p refl)

-- The line is cut behind its first byte.
open_journal-cut_example :
    let reopened = open_journal one_line_codec zero_state false ([] ++ take 1 begin_bytes) in
    (reopened ≡ ok (record { file = []; seq = 0 }, zero_state))
    ⊎ (reopened ≡ ok (record { file = [] ++ begin_bytes; seq = 1 }, started_state))
open_journal-cut_example =
    open_journal-cut one_line_codec one_line_codec-laws zero_state zero_state started_state 0 []
      begin begin_bytes 1 empty-ReplaysTo begin-ok begin_bytes-eq

replay-append_example : ReplaysTo one_line_codec zero_state ([] ++ begin_bytes) started_state 1
replay-append_example =
    replay-append one_line_codec one_line_codec-laws zero_state zero_state 0 [] empty-ReplaysTo
      begin started_state begin_bytes begin-ok begin_bytes-eq

replay-torn_example :
    (replay one_line_codec zero_state ([] ++ 123 ∷ [])
      ≡ record { value = zero_state; count = 0; end = 0; error = none })
    × (open_journal one_line_codec zero_state false ([] ++ 123 ∷ [])
        ≡ ok (record { file = []; seq = 0 }, zero_state))
replay-torn_example =
    replay-torn one_line_codec one_line_codec-laws zero_state zero_state 0 [] empty-ReplaysTo
      (123 ∷ []) (refl, tt)

begin_line-ints : DecodesInt64 one_line_codec
begin_line-ints bytes l eq = subst (λ (k : Line). ViewInt64 k.rec.view) (some-eq eq) tt

-- The line of a start record, which is replayed, and a second one with a sequence that is refused.
replay-IsValid_example :
    Settled (replay one_line_codec zero_state (begin_bytes ++ begin_bytes)).value
replay-IsValid_example =
    replay-IsValid one_line_codec begin_line-ints zero_state (begin_bytes ++ begin_bytes) refl
