-- ===== src/Io/DoubleBuffer/Publications.antt =====
-- A reader never sees a torn snapshot (crates/plc-io/src/double_buffer.rs).
use my_soft_plc.Prelude.{
  ℕ, ◌+◌, ◌%◌, ◌^◌, ◌≡◌, refl, ◌⊎◌, inl, inr, ◌&&◌, List, [], ◌∷◌, arith, length, leb, ◌==◌,
  Bool-cases,
}
use my_soft_plc.Io.DoubleBuffer.{
  Snapshot, DoubleBuffer, Writer, idle, loaded, filled, swapped, Reader, attempt, began, cloned,
  returned, System, Event, publishes, writer_moves, reads, reader_moves, zeros, new, start_publish,
  write_step, holds_front, read_step, step,
}

module _ {ℓ} {A : Type ℓ} (zero_payload : A) where
  -- The snapshot of the newest payload: its number is how many were published.
  abbrev pub newest : List A → Snapshot A
  newest [] = zeros zero_payload
  newest (p ∷ older) = record { seq = length (p ∷ older) % 2 ^ 64; payload = p }

  -- The snapshot is the one of a payload that was published, with its number, or the first of all.
  abbrev pub IsPublished : List A → Snapshot A → Type ℓ
  IsPublished [] snap = snap ≡ newest []
  IsPublished (p ∷ older) snap = (snap ≡ newest (p ∷ older)) ⊎ IsPublished older snap

  IsPublished-newest : (h : List A) → IsPublished h (newest h)
  IsPublished-newest [] = refl
  IsPublished-newest (p ∷ older) = inl refl

  -- What has been published, the newest first: a payload counts from the swap on.
  abbrev pub publication : Writer A → DoubleBuffer A → List A → List A
  publication (filled next) b h = b.back.payload ∷ h
  publication _ b h = h

  abbrev pub record_event : System A → Event A → List A → List A
  record_event s writer_moves h = publication s.writer s.buffer h
  record_event s _ h = h

  pub record Run : Type ℓ where
    pub system : System A
    pub history : List A

  abbrev pub start : Run
  start = record {
    system = record { buffer = new zero_payload; writer = idle; reader = attempt 0 };
    history = [];
  }

  -- The newest event stands first.
  abbrev pub run : ℕ → List (Event A) → Run
  run max_retries [] = start
  run max_retries (e ∷ earlier) =
      let r = run max_retries earlier in
      record { system = step max_retries r.system e; history = record_event r.system e r.history }

  -- What is true of the writer and the sequence after the publications of `h`.
  abbrev IsWriting : Writer A → DoubleBuffer A → List A → Type ℓ
  IsWriting idle b h = (b.seq ≡ length h % 2 ^ 64) × Unit {ℓ}
  IsWriting (loaded next payload) b h =
      (b.seq ≡ length h % 2 ^ 64) × ((next ≡ (length h + 1) % 2 ^ 64) × Unit {ℓ})
  IsWriting (filled next) b h =
      (b.seq ≡ length h % 2 ^ 64)
      × ((next ≡ (length h + 1) % 2 ^ 64) × ((b.back.seq ≡ next) × Unit {ℓ}))
  IsWriting (swapped next) b h = (next ≡ length h % 2 ^ 64) × Unit {ℓ}

  abbrev pub IsSound : List A → Reader A → Type ℓ
  IsSound h (cloned attempts seq_before snap) = IsPublished h snap
  IsSound h (returned snap) = IsPublished h snap
  IsSound h _ = Unit

  record Inv (b : DoubleBuffer A) (w : Writer A) (r : Reader A) (h : List A) : Type ℓ where
    front : b.front ≡ newest h
    writing : IsWriting w b h
    sound : IsSound h r

  IsSound-later : (h : List A) (p : A) (r : Reader A) → IsSound h r → IsSound (p ∷ h) r
  IsSound-later h p (attempt attempts) x = tt
  IsSound-later h p (began attempts seq_before) x = tt
  IsSound-later h p (cloned attempts seq_before snap) x = inr x
  IsSound-later h p (returned snap) x = inr x

  start_publish-Inv :
      (b : DoubleBuffer A) (w : Writer A) (r : Reader A) (h : List A) (payload : A)
      → Inv b w r h
      → Inv b (start_publish b payload w) r h
  start_publish-Inv b idle r h payload v = record {
    front = v.front;
    writing = (v.writing.0, (omega (arith, v.writing.0), tt));
    sound = v.sound;
  }
  start_publish-Inv b (loaded next p) r h payload v = v
  start_publish-Inv b (filled next) r h payload v = v
  start_publish-Inv b (swapped next) r h payload v = v

  write_step-Inv :
      (b : DoubleBuffer A) (w : Writer A) (r : Reader A) (h : List A)
      → Inv b w r h
      → Inv (write_step b w).0 (write_step b w).1 r (publication w b h)
  unfolding write_step
  write_step-Inv b idle r h v = v
  write_step-Inv b (loaded next p) r h v = record {
    front = v.front;
    writing = (v.writing.0, (v.writing.1.0, (refl, tt)));
    sound = v.sound;
  }
  write_step-Inv b (filled next) r h v =
      let counted : next ≡ length (b.back.payload ∷ h) % 2 ^ 64 = omega (arith, v.writing.1.0) in
      record {
        front = cc (v.writing.1.1.0, counted);
        writing = (counted, tt);
        sound = IsSound-later h b.back.payload r v.sound;
      }
  write_step-Inv b (swapped next) r h v = record {
    front = v.front;
    writing = (v.writing.0, tt);
    sound = v.sound;
  }

  read_step-IsSound :
      (m : ℕ) (b : DoubleBuffer A) (w : Writer A) (r : Reader A) (h : List A)
      → b.front ≡ newest h
      → IsSound h r
      → IsSound h (read_step m b w r)
  unfolding read_step
  read_step-IsSound m b w (attempt attempts) h e x = tt
  read_step-IsSound m b w (began attempts seq_before) h e x = elim (Bool-cases (holds_front w)) [
    | inl held ↦ rw held tt
    | inr free ↦ rw (free, e) (IsPublished-newest h)
  ]
  read_step-IsSound m b w (cloned attempts seq_before snap) h e x =
      elim (Bool-cases (seq_before == b.seq && snap.seq == b.seq)) [
        | inl agreed ↦ rw agreed x
        | inr moved ↦ elim (Bool-cases (leb m (attempts + 1))) [
          | inl spent ↦ rw (moved, spent) x
          | inr left ↦ rw (moved, left) tt
        ]
      ]
  read_step-IsSound m b w (returned snap) h e x = x

  run-Inv :
      (m : ℕ) (events : List (Event A))
      → let r = run m events in Inv r.system.buffer r.system.writer r.system.reader r.history
  unfolding step
  run-Inv m [] = record { front = refl; writing = (omega arith, tt); sound = tt }
  run-Inv m (publishes payload ∷ earlier) =
      let t = run m earlier in
      start_publish-Inv t.system.buffer t.system.writer t.system.reader t.history payload
        (run-Inv m earlier)
  run-Inv m (writer_moves ∷ earlier) =
      let t = run m earlier in
      write_step-Inv t.system.buffer t.system.writer t.system.reader t.history (run-Inv m earlier)
  run-Inv m (reads ∷ earlier) =
      let v = run-Inv m earlier in record { front = v.front; writing = v.writing; sound = tt }
  run-Inv m (reader_moves ∷ earlier) =
      let v = run-Inv m earlier in
      record {
        front = v.front;
        writing = v.writing;
        sound =
            let t = run m earlier in
            read_step-IsSound m t.system.buffer t.system.writer t.system.reader t.history v.front
              v.sound;
      }

  -- Whatever the order of the steps of one writer and one reader, the front is the newest payload that
  -- has been published, with its number, and the snapshot that the reader has copied or returned is
  -- one that was published, with its own number (or the zeros of the start): the values and the
  -- qualities of a snapshot come from one call of `publish`, also when the reader gives up.
  pub run-IsPublished :
      (max_retries : ℕ) (events : List (Event A))
      → let r = run max_retries events in
        (r.system.buffer.front ≡ newest r.history) × IsSound r.history r.system.reader
  run-IsPublished max_retries events = let v = run-Inv max_retries events in (v.front, v.sound)
