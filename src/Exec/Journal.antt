-- ===== src/Exec/Journal.antt =====
-- internal/exec/journal.go: the append-only log, as the bytes of its file, and its replay.
-- `json.Marshal`, `jsonx.DecodeStrict` and the SHA-256 digest of a state's JSON form are the
-- parameters of `Codec`. Reads of the file, its lock and the sync of its folder are the caller's:
-- a file that another handle holds is the argument `locked`.
pub mod Reading
pub mod Replay
pub mod Valid
use fillwire.Prelude.{
  ℕ, zero, suc, ◌+◌, ◌%◌, ◌^◌, String, Bool, true, false, not, ◌||◌, Option, none, some, List, [],
  ◌∷◌, ◌++◌, if◌then◌else◌, ◌==◌, str_eq, length, take, Result, ok, err,
}
use fillwire.Prelude.Int.{ℤ, pos, eq_ℤ}
use fillwire.Exec.State.{Record, State}
use fillwire.Exec.Machine.{TransitionError, apply}

abbrev pub Bytes : Type 0
Bytes = List ℕ

abbrev pub newline : ℕ
newline = 10

abbrev pub journal_version : ℤ
journal_version = pos 1

-- `journalLine`.
pub record Line : Type 0 where
  pub v : ℤ
  pub seq : ℕ
  pub rec : Record
  pub state : String

-- The refusals of `brokerKeys` in ledger.go.
pub data KeysError : Type 0 where
  no_send all_zero multiple_keys : KeysError

pub data JournalError : Type 0 where
  bad_line bad_version_or_seq digest_differs journal_locked : JournalError
  refused_record : TransitionError → JournalError
  unattributed : KeysError → JournalError

pub record Codec : Type 0 where
  -- `none` where `json.Marshal` returns an error.
  pub encode : Line → Option Bytes
  pub decode : Bytes → Option Line
  pub digest : State → String

-- uint64 `n + 1`.
abbrev pub next_seq : ℕ → ℕ
next_seq n = (n + 1) % 2 ^ 64

-- `bytes.IndexByte(data, '\n')`: what stands before the first newline, and what follows it.
unfoldable pub split_line : Bytes → Option (Bytes × Bytes)
split_line [] = none
split_line (b ∷ bs) =
    let rest = split_line bs in
    if b == newline
    then some ([], bs)
    else elim rest [ none ↦ none | some (l, r) ↦ some (b ∷ l, r) ]

-- What `eachLine` has done: what the callback built, the lines that it accepted, the offset past
-- the last of them, and the error.
pub record Scan (S : Type 0) : Type 0 where
  pub value : S
  pub count : ℕ
  pub end : ℕ
  pub error : Option JournalError

module _ {S : Type 0} (c : Codec) (fn : S → Line → Result JournalError S) where
  -- One complete line: it is decoded, its version and sequence are checked, and `fn` is called.
  unfoldable pub one_line : S → ℕ → Bytes → Result JournalError S
  one_line st n bytes = elim (c.decode bytes) [
    | none ↦ err bad_line
    | some l ↦
        if not (eq_ℤ l.v journal_version) || not (l.seq == next_seq n)
        then err bad_version_or_seq
        else fn st l
  ]

  -- The loop of `eachLine` over the bytes that are left. A line has a newline at least, so as many
  -- rounds as there are bytes are enough.
  unfoldable pub lines_from : ℕ → Bytes → S → ℕ → ℕ → Scan S
  unfolding one_line split_line
  lines_from zero bytes st n end = record { value = st; count = n; end = end; error = none }
  lines_from (suc fuel) bytes st n end = elim (split_line bytes) [
    | none ↦ record { value = st; count = n; end = end; error = none }
    | some (line, rest) ↦ elim (one_line st n line) [
      | err e ↦ record { value = st; count = n; end = end; error = some e }
      | ok st' ↦ lines_from fuel rest st' (next_seq n) (end + length line + 1)
    ]
  ]

  -- `eachLine`.
  unfoldable pub each_line : Bytes → S → Scan S
  unfolding lines_from
  each_line bytes st = lines_from (length bytes) bytes st 0 0

-- The callback of `replay`.
unfoldable pub replay_line : Codec → State → Line → Result JournalError State
replay_line c st l = elim (apply st l.rec) [
  | err e ↦ err (refused_record e)
  | ok next ↦ if str_eq (c.digest next) l.state then ok next else err digest_differs
]

-- `replay`, from the zero state.
unfoldable pub replay : Codec → State → Bytes → Scan State
unfolding each_line replay_line
replay c zero_state bytes = each_line c (replay_line c) bytes zero_state

-- `Journal`: the file's bytes and the sequence of the last record.
pub record Journal : Type 0 where
  pub file : Bytes
  pub seq : ℕ

-- The end of `openJournal`: the file is cut behind its last complete line.
unfoldable pub opened : Bytes → Scan State → Result JournalError (Journal × State)
opened bytes s = elim s.error [
  | some e ↦ err e
  | none ↦ ok (record { file = take s.end bytes; seq = s.count }, s.value)
]

-- `openJournal`.
unfoldable pub open_journal : Codec → State → Bool → Bytes → Result JournalError (Journal × State)
unfolding opened
open_journal c zero_state locked bytes =
    if locked then err journal_locked else opened bytes (replay c zero_state bytes)

-- The line of a record.
abbrev pub line_of : Codec → ℕ → Record → State → Line
line_of c seq r after = record {
  v = journal_version;
  seq = next_seq seq;
  rec = r;
  state = c.digest after;
}

abbrev pub end_line : Option Bytes → Option Bytes
end_line none = none
end_line (some bs) = some (bs ++ newline ∷ [])

-- The bytes that `append` writes.
unfoldable pub line_bytes : Codec → ℕ → Record → State → Option Bytes
line_bytes c seq r after = end_line (c.encode (line_of c seq r after))

-- What the operating system answers to one write and one sync: the bytes written, and whether
-- each succeeded.
pub record Disk : Type 0 where
  pub written : ℕ
  pub write_ok : Bool
  pub sync_ok : Bool

-- `append` of a line that was encoded; the Boolean says that it returned nil.
unfoldable pub append : Disk → Journal → Bytes → Journal × Bool
append d j bytes =
    let file = j.file ++ take d.written bytes in
    if not d.write_ok
    then (record j { file = file }, false)
    else if not d.sync_ok
    then (record j { file = file }, false)
    else (record { file = file; seq = next_seq j.seq }, true)
