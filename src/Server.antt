-- ===== src/Server.antt =====
-- manager/src/CommandServer.cpp: a message of frames is read as a request, and a reply is sent back.
-- The ROUTER socket itself is ZeroMQ's; what it received is an argument.
pub mod Requests
use improved_process_manager.Base.{
  ℕ, zero, suc, ◌/◌, ◌%◌, ◌+◌, ◌-◌, Bool, true, false, not, ◌&&◌, List, [], ◌∷◌, ◌++◌, Option, none,
  some, ltb, leb, if◌then◌else◌, length, Bytes, Text, text, same_text, to_string,
}
use improved_process_manager.Command.{
  CommandMessage, CommandReply, DecodeCode, command_message_size, decode_command, encode_reply,
}

abbrev pub Frame : Type 0
Frame = Bytes

abbrev pub command_tag : Text
command_tag = text "BPM"

pub record CommandRequest : Type 0 where
  pub identity : Frame
  pub delimiter : Bool
  pub command : CommandMessage

pub data RequestCode : Type 0 where
  ok empty malformed : RequestCode

-- The result, the request and the problem.
pub record Received : Type 0 where
  pub code : RequestCode
  pub request : CommandRequest
  pub problem : Text

abbrev pub no_command : CommandMessage
no_command = record { command = 0; service_name = []; args = [] }

abbrev pub new_request : Frame → CommandRequest
new_request identity = record { identity = identity; delimiter = false; command = no_command }

-- The loop over empty frames: whether there was one, and the frames behind them.
unfoldable pub skip_empty : Bool → List Frame → Bool × List Frame
skip_empty seen [] = (seen, [])
skip_empty seen ([] ∷ frames) = skip_empty true frames
skip_empty seen (frame ∷ frames) = (seen, frame ∷ frames)

unfoldable pub skip_tag : List Frame → List Frame
skip_tag [] = []
skip_tag (frame ∷ frames) = if same_text frame command_tag then frames else frame ∷ frames

unfoldable pub decoded : DecodeCode × CommandMessage → Frame → CommandRequest → Text → Received
decoded (DecodeCode.ok, command) frame out problem = record {
  code = RequestCode.ok;
  request = record out { command = command };
  problem = problem;
}
decoded (_, command) frame out problem = record {
  code = RequestCode.malformed;
  request = record out { command = command };
  problem =
      text "the command frame has "
      ++ (to_string (length frame) ++ (text " bytes, expected " ++ to_string command_message_size));
}

-- What is done with the frames behind the tag, in a message of so many frames.
unfoldable pub read_command : ℕ → List Frame → CommandRequest → Text → Received
read_command count (frame ∷ []) out problem =
    decoded (decode_command frame out.command) frame out problem
read_command count frames out problem = record {
  code = RequestCode.malformed;
  request = out;
  problem =
      text "expected frame \"BPM\" and one command frame, got "
      ++ (to_string (count - 1) ++ text " frames");
}

-- `Receive` of what the socket had, if anything.
unfoldable pub receive : Option (List Frame) → CommandRequest → Text → Received
receive none out problem = record { code = RequestCode.empty; request = out; problem = problem }
receive (some []) out problem = record {
  code = RequestCode.empty;
  request = out;
  problem = problem;
}
receive (some (identity ∷ frames)) out problem =
    let skipped = skip_empty false frames in
    read_command (suc (length frames)) (skip_tag skipped.1)
      (record (new_request identity) { delimiter = skipped.0 }) problem

-- The frames that `Reply` sends.
unfoldable pub reply_frames : CommandRequest → CommandReply → List Frame
reply_frames request reply =
    request.identity
    ∷ ((if request.delimiter then [] ∷ [] else []) ++ (command_tag ∷ encode_reply reply ∷ []))

unfoldable pub is_printable : Frame → Bool
is_printable [] = true
is_printable (byte ∷ bytes) = leb 0x20 byte && ltb byte 0x7f && is_printable bytes

-- A hexadecimal digit in lower case.
unfoldable pub digit : ℕ → ℕ
digit d = if ltb d 10 then b'0' + d else b'a' + (d - 10)

unfoldable pub in_hex : Frame → Text
in_hex [] = []
in_hex (byte ∷ bytes) = digit (byte / 16) ∷ (digit (byte % 16) ∷ in_hex bytes)

unfoldable pub describe_identity : Frame → Text
describe_identity [] = text "0x"
describe_identity (byte ∷ bytes) =
    if is_printable (byte ∷ bytes) then byte ∷ bytes else text "0x" ++ in_hex (byte ∷ bytes)
