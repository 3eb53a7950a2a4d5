-- ===== src/Decode/Counters.antt =====
-- internal/decode/counters.go: the counters of the pipeline. A nil pointer is `none`; an atomic
-- counter is a uint64 that wraps around, and each addition is one step.
use fillwire.Decode.Notice.{
  NoticeKind, notice_order, notice_rejected, notice_canceled, notice_fill, notice_unknown,
}
use fillwire.Prelude.{ℕ, ◌+◌, ◌%◌, ◌^◌, Option, none, some}

-- `Counters`.
pub record Counters : Type 0 where
  pub dropped : ℕ
  pub dup_suspect : ℕ
  pub xadded : ℕ
  pub xacked : ℕ
  pub xack_shortfall : ℕ
  pub ingest_failures : ℕ
  pub drain_dropped : ℕ
  pub non_fill_order : ℕ
  pub non_fill_reject : ℕ
  pub non_fill_cancel : ℕ
  pub non_fill_unknown : ℕ
  pub sink_non_fill : ℕ

-- `NewCounters`.
abbrev pub new_counters : Counters
new_counters = record {
  dropped = 0;
  dup_suspect = 0;
  xadded = 0;
  xacked = 0;
  xack_shortfall = 0;
  ingest_failures = 0;
  drain_dropped = 0;
  non_fill_order = 0;
  non_fill_reject = 0;
  non_fill_cancel = 0;
  non_fill_unknown = 0;
  sink_non_fill = 0;
}

-- `Add` of an atomic uint64.
abbrev pub atomic_add : ℕ → ℕ → ℕ
atomic_add n k = (n + k) % 2 ^ 64

-- `Snapshot`.
abbrev pub snapshot : Option Counters → Counters
snapshot none = new_counters
snapshot (some c) = c

abbrev pub inc_dropped : Option Counters → Option Counters
inc_dropped none = none
inc_dropped (some c) = some (record c { dropped = atomic_add c.dropped 1 })

abbrev pub inc_dup_suspect : Option Counters → Option Counters
inc_dup_suspect none = none
inc_dup_suspect (some c) = some (record c { dup_suspect = atomic_add c.dup_suspect 1 })

abbrev pub inc_xadded : Option Counters → Option Counters
inc_xadded none = none
inc_xadded (some c) = some (record c { xadded = atomic_add c.xadded 1 })

-- Adding 0, which the code leaves out, changes nothing.
abbrev pub add_xacked : ℕ → Option Counters → Option Counters
add_xacked n none = none
add_xacked n (some c) = some (record c { xacked = atomic_add c.xacked n })

abbrev pub add_xack_shortfall : ℕ → Option Counters → Option Counters
add_xack_shortfall n none = none
add_xack_shortfall n (some c) = some (record c { xack_shortfall = atomic_add c.xack_shortfall n })

abbrev pub inc_ingest_failure : Option Counters → Option Counters
inc_ingest_failure none = none
inc_ingest_failure (some c) = some (record c { ingest_failures = atomic_add c.ingest_failures 1 })

abbrev pub add_drain_dropped : ℕ → Option Counters → Option Counters
add_drain_dropped n none = none
add_drain_dropped n (some c) = some (record c { drain_dropped = atomic_add c.drain_dropped n })

abbrev count_kind : NoticeKind → Counters → Counters
count_kind notice_order c = record c { non_fill_order = atomic_add c.non_fill_order 1 }
count_kind notice_rejected c = record c { non_fill_reject = atomic_add c.non_fill_reject 1 }
count_kind notice_canceled c = record c { non_fill_cancel = atomic_add c.non_fill_cancel 1 }
count_kind notice_fill c = record c { non_fill_unknown = atomic_add c.non_fill_unknown 1 }
count_kind notice_unknown c = record c { non_fill_unknown = atomic_add c.non_fill_unknown 1 }

abbrev pub inc_non_fill : NoticeKind → Option Counters → Option Counters
inc_non_fill kind none = none
inc_non_fill kind (some c) = some (count_kind kind c)

abbrev pub inc_sink_non_fill : Option Counters → Option Counters
inc_sink_non_fill none = none
inc_sink_non_fill (some c) = some (record c { sink_non_fill = atomic_add c.sink_non_fill 1 })
