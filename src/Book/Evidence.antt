-- ===== src/Book/Evidence.antt =====
-- internal/book/evidence.go: the lines of an evidence file. The JSON of a line is the standard library's,
-- so a file is modelled as its lines; what it does to the texts of a line is the parameter `Texts`. A Go
-- string need not be UTF-8: whether one is, is a part of that parameter.
use fillwire.Prelude.{
  ℕ, String, List, [], Bool, true, false, Option, none, some, ◌∷◌, ◌≡◌, if◌then◌else◌,
}
use fillwire.Prelude.Int.{ℤ, pos}
use fillwire.Book.Frame.{FrameError}
use fillwire.Book.Detect.{Verdict}

-- `utf8.Valid`, and the text that `json.Unmarshal` gives for one that `json.Marshal` wrote: it has
-- U+FFFD for each byte that is not UTF-8.
pub record Texts : Type 0 where
  pub is_utf8 : String → Bool
  pub read_back : String → String

-- What the JSON is documented to do: a text that is UTF-8 is read back as it was.
pub record TextLaws (texts : Texts) : Type 0 where
  pub utf8_kept : (s : String) → texts.is_utf8 s ≡ true → texts.read_back s ≡ s

-- `FormatVersion`.
abbrev pub format_version : ℤ
format_version = pos 1

pub data LineKind : Type 0 where
  kind_session kind_frame kind_reconnect kind_stale : LineKind
  other_kind : String → LineKind

-- `Line`; an error is its kind, and `none` where the line has none.
pub record Line : Type 0 where
  pub v : ℤ
  pub seq : ℕ
  pub kind : LineKind
  pub at_ns : ℤ
  pub stale_after_ms : ℤ
  pub attempt : ℤ
  pub symbol : String
  pub since_ns : ℤ
  pub tr : String
  pub raw : String
  pub raw_bytes : Option String
  pub error : Option FrameError
  pub verdicts : List Verdict

-- A line of a kind at a time, with nothing else set.
abbrev pub blank_line : LineKind → ℤ → Line
blank_line k at = record {
  v = pos 0;
  seq = 0;
  kind = k;
  at_ns = at;
  stale_after_ms = pos 0;
  attempt = pos 0;
  symbol = "";
  since_ns = pos 0;
  tr = "";
  raw = "";
  raw_bytes = none;
  error = none;
  verdicts = [];
}

abbrev pub is_session : LineKind → Bool
is_session kind_session = true
is_session _ = false

-- `setRaw`: a frame that is not UTF-8 is kept byte by byte instead.
abbrev pub set_raw : Texts → String → Line → Line
set_raw texts raw l = record l {
  raw = if texts.is_utf8 raw then raw else l.raw;
  raw_bytes = if texts.is_utf8 raw then l.raw_bytes else some raw;
}

-- `raw`.
abbrev pub line_raw : Line → String
line_raw l = elim l.raw_bytes [ some bytes ↦ bytes | none ↦ l.raw ]

abbrev pub read_verdict : Texts → Verdict → Verdict
read_verdict texts v = record v { symbol = texts.read_back v.symbol }

abbrev pub read_verdicts : Texts → List Verdict → List Verdict
read_verdicts texts [] = []
read_verdicts texts (v ∷ vs) = read_verdict texts v ∷ read_verdicts texts vs

-- The line that is read where `writeLine` wrote one; the base64 of `raw_bytes` is exact.
abbrev pub read_line : Texts → Line → Line
read_line texts l = record l {
  symbol = texts.read_back l.symbol;
  tr = texts.read_back l.tr;
  raw = texts.read_back l.raw;
  verdicts = read_verdicts texts l.verdicts;
}
