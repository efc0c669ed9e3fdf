-- ===== src/Io/DoubleBuffer.antt =====
-- The double buffer of crates/plc-io/src/double_buffer.rs, with one writer and one reader whose steps
-- come in any order. A step is what a thread does between two accesses to shared state: a load or a
-- store of the sequence, or the work under a mutex. The payload is the pair of the values and the
-- qualities; that both have the length of the buffer is asserted by the code before anything else.
pub mod Publications
use my_soft_plc.Prelude.{
  ℕ, ◌+◌, ◌%◌, ◌^◌, Bool, true, false, ◌&&◌, List, [], ◌∷◌, leb, ◌==◌, if◌then◌else◌,
}

module _ {ℓ} where
  pub record Snapshot (A : Type ℓ) : Type ℓ where
    pub seq : ℕ  -- u64
    pub payload : A

  pub record DoubleBuffer (A : Type ℓ) : Type ℓ where
    pub front : Snapshot A
    pub back : Snapshot A
    pub seq : ℕ  -- u64

  -- Where `publish` stands. From the swap to the store it holds both mutexes.
  pub data Writer (A : Type ℓ) : Type ℓ where
    idle : Writer A
    loaded : (next : ℕ) (payload : A) → Writer A
    filled : (next : ℕ) → Writer A
    swapped : (next : ℕ) → Writer A

  -- Where `read` stands, and at last the snapshot that it returns.
  pub data Reader (A : Type ℓ) : Type ℓ where
    attempt : (attempts : ℕ) → Reader A
    began : (attempts seq_before : ℕ) → Reader A
    cloned : (attempts seq_before : ℕ) (snap : Snapshot A) → Reader A
    returned : (snap : Snapshot A) → Reader A

  pub record System (A : Type ℓ) : Type ℓ where
    pub buffer : DoubleBuffer A
    pub writer : Writer A
    pub reader : Reader A

  -- A call of `publish`, a step of the writer, a call of `read`, or a step of the reader.
  pub data Event (A : Type ℓ) : Type ℓ where
    publishes : A → Event A
    writer_moves reads reader_moves : Event A

module _ {ℓ} {A : Type ℓ} where
  -- `Snapshot::zeros` has the payload of zeros.
  abbrev pub zeros : A → Snapshot A
  zeros zero_payload = record { seq = 0; payload = zero_payload }

  abbrev pub new : A → DoubleBuffer A
  new zero_payload = record { front = zeros zero_payload; back = zeros zero_payload; seq = 0 }

  -- A call while the writer is busy is not one of this writer.
  abbrev pub start_publish : DoubleBuffer A → A → Writer A → Writer A
  start_publish b payload idle = loaded ((b.seq + 1) % 2 ^ 64) payload
  start_publish b payload busy = busy

  unfoldable pub write_step : DoubleBuffer A → Writer A → DoubleBuffer A × Writer A
  write_step b idle = (b, idle)
  write_step b (loaded next payload) =
      (record b { back = record { seq = next; payload = payload } }, filled next)
  write_step b (filled next) = (record b { front = b.back; back = b.front }, swapped next)
  write_step b (swapped next) = (record b { seq = next }, idle)

  -- The writer holds the mutex of the front.
  abbrev pub holds_front : Writer A → Bool
  holds_front (swapped next) = true
  holds_front _ = false

  -- The end of one round of `read`.
  abbrev pub check : DoubleBuffer A → ℕ → ℕ → ℕ → Snapshot A → Reader A
  check b max_retries attempts seq_before snap =
      if seq_before == b.seq && snap.seq == b.seq
      then returned snap
      else if leb max_retries (attempts + 1)
      then returned snap
      else attempt (attempts + 1)

  unfoldable pub read_step : ℕ → DoubleBuffer A → Writer A → Reader A → Reader A
  read_step max_retries b w (attempt attempts) = began attempts b.seq
  read_step max_retries b w (began attempts seq_before) =
      if holds_front w then began attempts seq_before else cloned attempts seq_before b.front
  read_step max_retries b w (cloned attempts seq_before snap) =
      check b max_retries attempts seq_before snap
  read_step max_retries b w (returned snap) = returned snap

  unfoldable pub step : ℕ → System A → Event A → System A
  unfolding write_step read_step
  step max_retries s (publishes payload) = record s {
    writer = start_publish s.buffer payload s.writer;
  }
  step max_retries s writer_moves = record s {
    buffer = (write_step s.buffer s.writer).0;
    writer = (write_step s.buffer s.writer).1;
  }
  step max_retries s reads = record s { reader = attempt 0 }
  step max_retries s reader_moves = record s {
    reader = read_step max_retries s.buffer s.writer s.reader;
  }
