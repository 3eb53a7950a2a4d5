-- ===== src/Book/Replay/Agrees/Chunks.antt =====
-- A replay of chunks one behind the other (internal/book/replay.go, Replay).
use fillwire.Book.Evidence.{Line, Texts, read_line}
use fillwire.Prelude.{
  ℕ, List, [], ◌∷◌, Bool, true, some, none, refl, inl, inr, ◌++◌, ◌≡◌, ap, arith, Option,
  Option-cases, ◌+◌, ◌∙◌, if◌then◌else◌,
}
use fillwire.Book.Replay.{
  replay_line, replay_chunks, Event, Chunk, replay_chunk, decoded, Replayer, new_replayer, Replayed,
  ReplayError, Option, invalid,
}

-- A callback that takes every event.
abbrev pub takes_all : List Event → Event → Bool
takes_all es e = true

-- The chunks of a file to which the lines were written.
abbrev pub chunks : Texts → List Line → List Chunk
chunks texts [] = []
chunks texts (l ∷ ls) = decoded (read_line texts l) ∷ chunks texts ls

pub chunks-append :
    (texts : Texts) (ls ms : List Line)
    → chunks texts (ls ++ ms) ≡ chunks texts ls ++ chunks texts ms
chunks-append texts [] ms = refl
chunks-append texts (l ∷ ls) ms =
    ap (λ (cs : List Chunk). decoded (read_line texts l) ∷ cs) (chunks-append texts ls ms)

abbrev pub with_error : Replayer → Option ReplayError → Replayed
with_error rp x = (rp, x)

-- The file of one chunk.
pub replay_chunks-one :
    (c : Chunk) (n : ℕ) (rp : Replayer)
    → replay_chunks takes_all n (c ∷ []) rp ≡ replay_chunk takes_all n c rp
unfolding replay_chunks
replay_chunks-one c n rp = elim (Option-cases (replay_chunk takes_all n c rp).1) [
  | inl fine ↦
      rw (fine, replay_chunks)
        (ap (λ (x : Option ReplayError). with_error (replay_chunk takes_all n c rp).0 x)
          (back fine))
  | inr (x, bad) ↦
      rw (bad, replay_chunks)
        (ap (λ (x : Option ReplayError). with_error (replay_chunk takes_all n c rp).0 x) (back bad))
]
  where
    back : {x y : Option ReplayError} → x ≡ y → y ≡ x
    back h = cc

-- Behind chunks that replay without an error, the next one replays from where they end.
pub replay_chunks-then :
    (c : Chunk) (cs : List Chunk) (n : ℕ) (rp0 rp : Replayer)
    → replay_chunks takes_all n cs rp0 ≡ (rp, none)
    → (m : ℕ) × (replay_chunks takes_all n (cs ++ c ∷ []) rp0 ≡ replay_chunk takes_all m c rp)
unfolding replay_chunks
replay_chunks-then c [] n rp0 rp h = (
  n,
  replay_chunks-one c n rp0
      ∙ ap (λ (q : Replayer). replay_chunk takes_all n c q) (ap (λ (p : Replayed). p.0) h),
)
replay_chunks-then c (d ∷ cs) n rp0 rp h = elim (Option-cases (replay_chunk takes_all n d rp0).1) [
  | inl fine ↦
      rw (fine, replay_chunks)
        (replay_chunks-then c cs (n + 1) (replay_chunk takes_all n d rp0).0 rp
          (rw (fine, replay_chunks) at h))
  | inr (x, bad) ↦ absurd (some_none (ap (λ (p : Replayed). p.1) (rw (bad, replay_chunks) at h)))
]
  where
    some_none : {x : ReplayError} → ◌≡◌ {A = Option ReplayError} (some x) none → ⊥
    some_none e = cc

pub replay_chunks-line :
    (cs : List Chunk) (n : ℕ) (rp0 rp rp' : Replayer) (l : Line)
    → replay_chunks takes_all n cs rp0 ≡ (rp, none)
    → replay_line takes_all l rp ≡ (rp', none)
    → replay_chunks takes_all n (cs ++ decoded l ∷ []) rp0 ≡ (rp', none)
unfolding replay_chunk
replay_chunks-line cs n rp0 rp rp' l h k = (replay_chunks-then (decoded l) cs n rp0 rp h).1 ∙ k

pub replay_chunks-nil : (rp : Replayer) → replay_chunks takes_all 1 [] rp ≡ (rp, none)
unfolding replay_chunks
replay_chunks-nil rp = refl

pub replay_chunks-first :
    (l : Line) (rp : Replayer)
    → replay_line takes_all l new_replayer ≡ (rp, none)
    → replay_chunks takes_all 1 (decoded l ∷ []) new_replayer ≡ (rp, none)
unfolding replay_chunk
replay_chunks-first l rp h = replay_chunks-one (decoded l) 1 new_replayer ∙ h

-- The chunks of a file with such lines, which ends in a torn line or does not.
abbrev pub file : Texts → Bool → List Line → List Chunk
file texts torn ls = if torn then chunks texts ls ++ invalid ∷ [] else chunks texts ls

-- A replayer that comes to a torn line.
abbrev pub torn_by : ℕ → Replayer → Replayer
torn_by n rp = record rp {
  torn = n;
  summary = record rp.summary { torn_lines = rp.summary.torn_lines + 1 };
}

pub replay_chunk-invalid :
    (n : ℕ) (rp : Replayer)
    → rp.torn ≡ 0
    → replay_chunk takes_all n invalid rp ≡ (torn_by n rp, none)
unfolding replay_chunk
replay_chunk-invalid n rp whole = ground arith
