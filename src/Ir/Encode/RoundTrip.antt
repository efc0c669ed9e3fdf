-- ===== src/Ir/Encode/RoundTrip.antt =====
-- Decoding undoes encoding, wherever the instruction stands (crates/plc-ir/src/encode.rs).
use my_soft_plc.Prelude.{
  ℕ, ◌+◌, ◌*◌, ◌/◌, ◌%◌, ◌^◌, ◌<◌, ◌≤◌, ◌≡◌, ◌∙◌, refl, Bool, true, false, Option, some, List, ◌++◌,
  ok, arith, ltb, length, length-append,
}
use mathlib.Core.List.{append_assoc}
use my_soft_plc.Ir.Bytes.{to_le_bytes, length-to_le_bytes, from-to_u32, slice-middle}
use my_soft_plc.Ir.Opcode.{Opcode, push_i_dint, push_i_real, push_time, call_fb, to_u8, from_u8}
use my_soft_plc.Ir.Opcode.Codes.{from_u8-to_u8, to_u8-lt}
use my_soft_plc.Ir.Encode.{
  DecodedInstr, simple, with_imm32, call_block, pack_word, encode_instruction, decode_instruction,
  decode_operands, decode_opcode, word_at,
}

-- The opcodes that have operand words.
abbrev pub is_wide : Opcode → Bool
is_wide push_i_dint = true
is_wide push_i_real = true
is_wide push_time = true
is_wide call_fb = true
is_wide _ = false

abbrev pub has_imm : Opcode → Bool
has_imm push_i_dint = true
has_imm push_i_real = true
has_imm push_time = true
has_imm _ = false

-- The instruction has the form of its opcode, and its fields fit their widths.
abbrev pub IsEncodable : DecodedInstr → Type 0
IsEncodable (simple op payload) = (is_wide op ≡ false) × (payload < 2 ^ 24)
IsEncodable (with_imm32 op payload imm) = (has_imm op ≡ true) × (payload < 2 ^ 24) × (imm < 2 ^ 32)
IsEncodable (call_block fb_kind fb_id instance_base) =
    (fb_kind < 2 ^ 8) × (fb_id < 2 ^ 24) × (instance_base < 2 ^ 32)

pub word_at-middle :
    (before after : List ℕ) (pc w : ℕ)
    → length before ≡ pc
    → w < 2 ^ 32
    → word_at (before ++ (to_le_bytes 4 w ++ after)) pc ≡ w
word_at-middle before after pc w e h =
    rw (slice-middle before (to_le_bytes 4 w) after pc 4 e (length-to_le_bytes 4 w))
      (from-to_u32 w h)

decode_opcode-some :
    (code : List ℕ) (pc word : ℕ) (op : Opcode) (found : Option Opcode)
    → found ≡ some op
    → decode_opcode code pc word found ≡ decode_operands code pc op (word % 2 ^ 24)
unfolding decode_opcode
decode_opcode-some code pc word op found e = rw e

-- What an encoded first word decodes to.
decode_first :
    (code : List ℕ) (pc payload : ℕ) (op : Opcode)
    → pc + 4 ≤ length code
    → word_at code pc ≡ to_u8 op * 2 ^ 24 + payload
    → payload < 2 ^ 24
    → decode_instruction code pc ≡ decode_operands code pc op payload
unfolding decode_instruction
decode_first code pc payload op fits e h =
    let word = word_at code pc in
    let code_is : word / 2 ^ 24 % 2 ^ 8 ≡ to_u8 op = omega (arith, to_u8-lt op, e) in
    let rest : word % 2 ^ 24 ≡ payload = omega (arith, e) in
    let long : ltb (length code) (pc + 4) ≡ false = ground arith in
    let found : from_u8 (word / 2 ^ 24 % 2 ^ 8) ≡ some op = rw code_is (from_u8-to_u8 op) in
    rw long (decode_opcode-some code pc word op (from_u8 (word / 2 ^ 24 % 2 ^ 8)) found ∙ rw rest)

decode_operands-narrow :
    (code : List ℕ) (pc payload : ℕ) (op : Opcode)
    → is_wide op ≡ false
    → decode_operands code pc op payload ≡ ok (simple op payload, 4)
unfolding decode_operands
decode_operands-narrow code pc payload call_fb h = cc
decode_operands-narrow code pc payload push_i_dint h = cc
decode_operands-narrow code pc payload push_i_real h = cc
decode_operands-narrow code pc payload push_time h = cc
decode_operands-narrow code pc payload _ h = refl

decode_operands-imm :
    (code : List ℕ) (pc payload imm : ℕ) (op : Opcode)
    → has_imm op ≡ true
    → pc + 8 ≤ length code
    → word_at code (pc + 4) ≡ imm
    → decode_operands code pc op payload ≡ ok (with_imm32 op payload imm, 8)
unfolding decode_operands
decode_operands-imm code pc payload imm push_i_dint h fits e = ground arith
decode_operands-imm code pc payload imm push_i_real h fits e = ground arith
decode_operands-imm code pc payload imm push_time h fits e = ground arith
decode_operands-imm code pc payload imm _ h fits e = cc

decode_operands-call :
    (code : List ℕ) (pc fb_kind fb_id instance_base : ℕ)
    → fb_kind < 2 ^ 8
    → fb_id < 2 ^ 24
    → pc + 12 ≤ length code
    → word_at code (pc + 4) ≡ fb_kind * 2 ^ 24 + fb_id
    → word_at code (pc + 8) ≡ instance_base
    → decode_operands code pc call_fb 0 ≡ ok (call_block fb_kind fb_id instance_base, 12)
unfolding decode_operands
decode_operands-call code pc fb_kind fb_id instance_base k i fits e b =
    let kind : word_at code (pc + 4) / 2 ^ 24 % 2 ^ 8 ≡ fb_kind = omega (arith, e) in
    let id : word_at code (pc + 4) % 2 ^ 24 ≡ fb_id = omega (arith, e) in
    let long : ltb (length code) (pc + 12) ≡ false = ground arith in rw long (rw (kind, id, b) refl)

-- Where a word stands after another.
word_at-second :
    (before after : List ℕ) (w v : ℕ)
    → v < 2 ^ 32
    → word_at (before ++ (to_le_bytes 4 w ++ (to_le_bytes 4 v ++ after))) (length before + 4) ≡ v
word_at-second before after w v h =
    rw (← append_assoc before (to_le_bytes 4 w) (to_le_bytes 4 v ++ after)) (
      word_at-middle (before ++ to_le_bytes 4 w) after (length before + 4) v
        (omega (arith, length-append before (to_le_bytes 4 w), length-to_le_bytes 4 w)) h)

word_at-third :
    (before after : List ℕ) (w v u : ℕ)
    → u < 2 ^ 32
    → word_at
        (before ++ (to_le_bytes 4 w ++ (to_le_bytes 4 v ++ (to_le_bytes 4 u ++ after))))
        (length before + 8)
      ≡ u
word_at-third before after w v u h =
    let place : length before + 8 ≡ length (before ++ to_le_bytes 4 w) + 4 =
      omega (arith, length-append before (to_le_bytes 4 w), length-to_le_bytes 4 w) in
    rw (← append_assoc before (to_le_bytes 4 w) (to_le_bytes 4 v ++ (to_le_bytes 4 u ++ after)))
      (rw place (word_at-second (before ++ to_le_bytes 4 w) after v u h))

ruleset lengths = (arith, length-append, length-to_le_bytes)

pack_word-lt :
    (op : Opcode) (payload : ℕ)
    → payload < 2 ^ 24
    → (pack_word op payload ≡ to_u8 op * 2 ^ 24 + payload) × (pack_word op payload < 2 ^ 32)
unfolding pack_word
pack_word-lt op payload h = omega (arith, to_u8-lt op)

-- The first word, whatever follows it.
decode_packed :
    (op : Opcode) (payload : ℕ) (before after : List ℕ)
    → payload < 2 ^ 24
    → let code = before ++ (to_le_bytes 4 (pack_word op payload) ++ after) in
      decode_instruction code (length before) ≡ decode_operands code (length before) op payload
decode_packed op payload before after h =
    let word = to_le_bytes 4 (pack_word op payload) in
    let code = before ++ (word ++ after) in
    let (packed, small) = pack_word-lt op payload h in
    let fits : length before + 4 ≤ length code = omega (
      arith,
      length-append before (word ++ after),
      length-append word after,
      length-to_le_bytes 4 (pack_word op payload),
    ) in
    decode_first code (length before) payload op fits
      (word_at-middle before after (length before) (pack_word op payload) refl small ∙ packed) h

decode_with_imm :
    (op : Opcode) (payload imm : ℕ) (before after : List ℕ)
    → has_imm op ≡ true
    → payload < 2 ^ 24
    → imm < 2 ^ 32
    → decode_instruction
        (before ++ (to_le_bytes 4 (pack_word op payload) ++ (to_le_bytes 4 imm ++ after)))
        (length before)
      ≡ ok (with_imm32 op payload imm, 8)
decode_with_imm op payload imm before after wide h room =
    let word = to_le_bytes 4 (pack_word op payload) in
    let second = to_le_bytes 4 imm in
    let code = before ++ (word ++ (second ++ after)) in
    let fits : length before + 8 ≤ length code = omega (
      arith,
      length-append before (word ++ (second ++ after)),
      length-append word (second ++ after),
      length-append second after,
      length-to_le_bytes 4 (pack_word op payload),
      length-to_le_bytes 4 imm,
    ) in
    decode_packed op payload before (second ++ after) h
    ∙ decode_operands-imm code (length before) payload imm op wide fits
        (word_at-second before after (pack_word op payload) imm room)

decode_call :
    (fb_kind fb_id instance_base : ℕ) (before after : List ℕ)
    → fb_kind < 2 ^ 8
    → fb_id < 2 ^ 24
    → instance_base < 2 ^ 32
    → decode_instruction
        (before
          ++ (to_le_bytes 4 (pack_word call_fb 0)
              ++ (to_le_bytes 4 (fb_kind % 2 ^ 8 * 2 ^ 24 + fb_id % 2 ^ 24)
                  ++ (to_le_bytes 4 instance_base ++ after))))
        (length before)
      ≡ ok (call_block fb_kind fb_id instance_base, 12)
decode_call fb_kind fb_id instance_base before after k i b =
    let v = fb_kind % 2 ^ 8 * 2 ^ 24 + fb_id % 2 ^ 24 in
    let word = to_le_bytes 4 (pack_word call_fb 0) in
    let second = to_le_bytes 4 v in
    let third = to_le_bytes 4 instance_base in
    let code = before ++ (word ++ (second ++ (third ++ after))) in
    let fits : length before + 12 ≤ length code = omega (
      arith,
      length-append before (word ++ (second ++ (third ++ after))),
      length-append word (second ++ (third ++ after)),
      length-append second (third ++ after),
      length-append third after,
      length-to_le_bytes 4 (pack_word call_fb 0),
      length-to_le_bytes 4 v,
      length-to_le_bytes 4 instance_base,
    ) in
    decode_packed call_fb 0 before (second ++ (third ++ after)) (omega arith)
    ∙ decode_operands-call code (length before) fb_kind fb_id instance_base k i fits
        (word_at-second before (third ++ after) (pack_word call_fb 0) v (omega arith) ∙ omega arith)
        (word_at-third before after (pack_word call_fb 0) v instance_base b)

-- At any place in a code, decoding gives back an encodable instruction, and the length of its
-- encoding as the size.
pub decode-encode :
    (i : DecodedInstr) (before after : List ℕ)
    → IsEncodable i
    → decode_instruction (before ++ (encode_instruction i ++ after)) (length before)
      ≡ ok (i, length (encode_instruction i))
unfolding encode_instruction
decode-encode (simple op payload) before after (narrow, fits) =
    rw (length-to_le_bytes 4 (pack_word op payload)) (
      decode_packed op payload before after fits
      ∙ decode_operands-narrow (before ++ (to_le_bytes 4 (pack_word op payload) ++ after))
          (length before) payload op narrow)
decode-encode (with_imm32 op payload imm) before after (wide, fits, room) =
    simp (length-append, length-to_le_bytes, append_assoc)
      (decode_with_imm op payload imm before after wide fits room)
decode-encode (call_block fb_kind fb_id instance_base) before after (k, i, b) =
    simp (length-append, length-to_le_bytes, append_assoc)
      (decode_call fb_kind fb_id instance_base before after k i b)
