-- ===== src/Command/Codec.antt =====
-- The codecs of manager/src/CommandMessage.cpp against a layout of fields.
use improved_process_manager.Base.{
  ℕ, ◌+◌, ◌<◌, ◌≡◌, refl, ap, ◌∙◌, List, [], ◌∷◌, arith, length, get_elem?, some, ◌≤◌, Text,
}
use improved_process_manager.Wire.Writer.{zeros}
use improved_process_manager.Wire.Reader.{WireReader, u8, read_text}
use improved_process_manager.Wire.Texts.{carried}
use improved_process_manager.Wire.Words.{Inside}
use improved_process_manager.Wire.Fields.{
  Field, word, label, write_all, Holds, length-write_all, write_all-Holds, get_bytes-field,
  read_text-field,
}
use improved_process_manager.Command.{
  CommandMessage, CommandReply, DecodeCode, encode_command, decode_command, encode_reply,
  decode_reply, CommandResult, command_reader, reply_reader, result_byte, command_result_from_byte,
}
use improved_process_manager.Command.Codes.{command_result_from_byte-result_byte}

abbrev command_fields : CommandMessage → List Field
command_fields m = word 0 1 m.command ∷ label 1 32 m.service_name ∷ label 33 32 m.args ∷ []

abbrev reply_fields : CommandReply → List Field
reply_fields r =
    word 0 1 r.command
    ∷ word 1 1 (result_byte r.result)
    ∷ label 2 32 r.service_name
    ∷ label 34 94 r.message
    ∷ []

encode_reply-write_all :
    (r : CommandReply) → encode_reply r ≡ write_all 0 (reply_fields r) (zeros 128)
encode_reply-write_all r = unfold encode_reply in refl

encode_command-write_all :
    (m : CommandMessage) → encode_command m ≡ write_all 0 (command_fields m) (zeros 65)
encode_command-write_all m = unfold encode_command in refl

pub length-encode_command : (m : CommandMessage) → length (encode_command m) ≡ 65
length-encode_command m =
    ap length (encode_command-write_all m)
    ∙ length-write_all 65 0 (command_fields m) (zeros 65) refl (omega arith)

length-encode_reply : (r : CommandReply) → length (encode_reply r) ≡ 128
length-encode_reply r =
    ap length (encode_reply-write_all r)
    ∙ length-write_all 128 0 (reply_fields r) (zeros 128) refl (omega arith)

module _ (m : CommandMessage) where
  sent : WireReader
  sent = command_reader (encode_command m)

  sent-Inside : Inside sent
  unfolding sent
  sent-Inside = omega (arith, length-encode_command m)

  sent-Holds : Holds 0 (command_fields m) (encode_command m)
  sent-Holds =
      rw (encode_command-write_all m)
        (write_all-Holds 65 0 (command_fields m) (zeros 65) refl (omega arith))

  command_read : m.command < 256 → u8 sent 0 ≡ m.command
  unfolding sent
  command_read h =
      unfold u8 in
      omega (
        arith,
        get_bytes-field sent (command_fields m) sent-Inside sent-Holds 0 0 1 m.command refl
            (omega arith) (omega arith),
      )

  name_read : read_text sent 1 32 ≡ carried 32 m.service_name
  unfolding sent
  name_read =
      read_text-field sent (command_fields m) sent-Inside sent-Holds 1 1 32 m.service_name refl
        (omega arith) (omega arith)

  args_read : read_text sent 33 32 ≡ carried 32 m.args
  unfolding sent
  args_read =
      read_text-field sent (command_fields m) sent-Inside sent-Holds 2 33 32 m.args refl
        (omega arith) (omega arith)

-- Decoding an encoded command gives the command back, each text as its 32-byte field carries it.
pub decode_command-encode_command :
    (m out : CommandMessage)
    → m.command < 256
    → decode_command (encode_command m) out ≡ (
      DecodeCode.ok,
      record {
        command = m.command;
        service_name = carried 32 m.service_name;
        args = carried 32 m.args;
      },
    )
decode_command-encode_command m out h =
    unfold decode_command sent in
    ground (arith, length-encode_command m, command_read m h, name_read m, args_read m)

module _ (r : CommandReply) where
  answer : WireReader
  answer = reply_reader (encode_reply r)

  answer-Inside : Inside answer
  unfolding answer
  answer-Inside = omega (arith, length-encode_reply r)

  answer-Holds : Holds 0 (reply_fields r) (encode_reply r)
  answer-Holds =
      rw (encode_reply-write_all r)
        (write_all-Holds 128 0 (reply_fields r) (zeros 128) refl (omega arith))

  byte_read :
      (i o v : ℕ)
      → get_elem? (reply_fields r) i ≡ some (word o 1 v)
      → o + 1 ≤ 128
      → v < 256
      → u8 answer o ≡ v
  unfolding answer
  byte_read i o v e h small =
      unfold u8 in
      omega (
        arith,
        get_bytes-field answer (reply_fields r) answer-Inside answer-Holds i o 1 v e (omega arith)
            h,
      )

  label_read :
      (i o n : ℕ) (t : Text)
      → get_elem? (reply_fields r) i ≡ some (label o n t)
      → 0 < n
      → o + n ≤ 128
      → read_text answer o n ≡ carried n t
  unfolding answer
  label_read i o n t e p h =
      read_text-field answer (reply_fields r) answer-Inside answer-Holds i o n t e p h

result_byte-lt : (result : CommandResult) → result_byte result < 256
result_byte-lt CommandResult.ok = omega arith
result_byte-lt _ = omega arith

-- Decoding an encoded reply gives the reply back, the name as its 32-byte field carries it and the
-- message as its 94-byte field does.
pub decode_reply-encode_reply :
    (r out : CommandReply)
    → r.command < 256
    → decode_reply (encode_reply r) out ≡ (
      DecodeCode.ok,
      record {
        command = r.command;
        result = r.result;
        service_name = carried 32 r.service_name;
        message = carried 94 r.message;
      },
    )
decode_reply-encode_reply r out h =
    let byte : u8 (reply_reader (encode_reply r)) 1 ≡ result_byte r.result =
      unfold answer in
      byte_read r 1 1 (result_byte r.result) refl (omega arith) (result_byte-lt r.result) in
    let judged = ap command_result_from_byte byte ∙ command_result_from_byte-result_byte r.result in
    unfold decode_reply answer in
    ground (
      arith,
      length-encode_reply r,
      judged,
      byte_read r 0 0 r.command refl (omega arith) h,
      label_read r 2 2 32 r.service_name refl (omega arith) (omega arith),
      label_read r 3 34 94 r.message refl (omega arith) (omega arith),
    )
