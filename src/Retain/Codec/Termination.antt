-- ===== src/Retain/Codec/Termination.antt =====
-- The decoding of a payload ends (crates/plc-retain/src/codec.rs).
use my_soft_plc.Prelude.{
  ℕ, zero, suc, ◌+◌, ◌-◌, ◌<◌, ◌≤◌, ◌≡◌, ◌≢◌, refl, not, none, some, List, arith, length,
  Bool-cases, inl, inr, Result, ok, err, ok_or, >>=-eq-ok, reject_if, leb, ltb, get_or, ◌==◌,
  Result,
}
use my_soft_plc.Ir.IrType
use my_soft_plc.Ir.IrType.{IrType, byte_width}
use my_soft_plc.Ir.Bytes.{from_le_bytes, slice}
use my_soft_plc.Ir.Spbc.{is_utf8}
use my_soft_plc.Retain.Codec.{
  RetainRecord, RetainError, truncated_name_len, truncated_name, not_utf8, nonzero_pad, unknown_tag,
  decode_value, decode_record, Decoded, push_front, next_record, decode_loop, decode_records,
}

value_moves :
    (bs : List ℕ) (i : ℕ) (name : List ℕ) (ty : IrType) (r : RetainRecord) (j : ℕ)
    → decode_value bs i name ty ≡ ok (r, j)
    → i ≤ j
unfolding decode_value
value_moves bs i name ty r j h = ground arith

-- A record that is decoded ends after its start.
record_moves :
    (bs : List ℕ) (i : ℕ) (r : RetainRecord) (j : ℕ) → decode_record bs i ≡ ok (r, j) → i < j
unfolding decode_record
record_moves bs i r j h =
    let len = from_le_bytes (slice bs i 2) in
    let name = slice bs (i + 2) len in
    let (_, a, h1) = >>=-eq-ok (reject_if (ltb (length bs) (i + 2)) truncated_name_len) _ h in
    let (_, b, h2) =
      >>=-eq-ok (reject_if (ltb (length bs) (i + 2 + len + 2)) truncated_name) _ h1 in
    let (_, c, h3) = >>=-eq-ok (reject_if (not (is_utf8 name)) not_utf8) _ h2 in
    let (_, d, h4) =
      >>=-eq-ok (reject_if (not (get_or bs (i + 2 + len + 1) 0 == 0)) nonzero_pad) _ h3 in
    let (ty, e, h5) =
      >>=-eq-ok (ok_or (IrType.from_u8 (get_or bs (i + 2 + len) 0)) unknown_tag) _ h4 in
    omega (arith, value_moves bs (i + 2 + len + 2) name ty r j h5)

push_front-some : (r : RetainRecord) (rest : Decoded) → rest ≢ none → push_front r rest ≢ none
push_front-some r none h = λ e. h refl
push_front-some r (some (err x)) h = λ e. cc
push_front-some r (some (ok rs)) h = λ e. cc

next_record-some :
    (decoded : Result (RetainRecord × ℕ) RetainError) (loop : ℕ → Decoded)
    → ((r : RetainRecord) (j : ℕ) → decoded ≡ ok (r, j) → loop j ≢ none)
    → next_record decoded loop ≢ none
next_record-some (err x) loop h = λ e. cc
next_record-some (ok (r, j)) loop h = push_front-some r (loop j) (h r j refl)

loop_ends : (fuel : ℕ) (bs : List ℕ) (i : ℕ) → length bs - i < fuel → decode_loop fuel bs i ≢ none
unfolding decode_loop
loop_ends zero bs i h = absurd (omega arith)
loop_ends (suc fuel) bs i h = elim (Bool-cases (leb (length bs) i)) [
  | inl over ↦ rw over (λ e. cc)
  | inr within ↦ rw within (
      next_record-some (decode_record bs i) (λ j. decode_loop fuel bs j)
        (λ r j e. let further = record_moves bs i r j e in loop_ends fuel bs j (ground arith)))
]

-- Whatever the bytes, the decoding of a payload ends with records or with an error.
pub decode_records-total : (payload : List ℕ) → decode_records payload ≢ none
unfolding decode_records
decode_records-total payload = loop_ends (length payload + 1) payload 0 (omega arith)
