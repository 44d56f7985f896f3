-- ===== src/Server/Requests.antt =====
-- The requests that manager/src/CommandServer.cpp receives.
use improved_process_manager.Base.{
  ℕ, zero, suc, ◌<◌, ◌≡◌, ◌≢◌, ◌∙◌, inl, inr, refl, ap, arith, Bool, true, false, ◌||◌, List, [],
  ◌∷◌, ◌++◌, some, ltb, if◌then◌else◌, length, replicate, Text, same_text, same_text_iff,
  Bool-cases,
}
use improved_process_manager.Command.{CommandMessage, DecodeCode, encode_command}
use improved_process_manager.Command.Codec.{length-encode_command, decode_command-encode_command}
use improved_process_manager.Server.{
  Frame, CommandRequest, RequestCode, Received, no_command, new_request, command_tag, skip_empty,
  skip_tag, decoded, read_command, receive,
}
use improved_process_manager.Wire.Texts.{carried}

-- The frames that a client sends behind its identity: empty delimiters, then the tag, which older
-- clients leave out, then the command.
abbrev pub sent_frames : ℕ → Bool → CommandMessage → List Frame
sent_frames delimiters tagged m =
    replicate delimiters []
    ++ (if tagged then command_tag ∷ encode_command m ∷ [] else encode_command m ∷ [])

skip_empty-replicate :
    (n : ℕ) (seen : Bool) (x : ℕ) (xs : Frame) (frames : List Frame)
    → skip_empty seen (replicate n [] ++ (x ∷ xs) ∷ frames) ≡ (seen || ltb 0 n, (x ∷ xs) ∷ frames)
unfolding skip_empty
skip_empty-replicate zero seen x xs frames = ground arith
skip_empty-replicate (suc n) seen x xs frames =
    skip_empty-replicate n true x xs frames ∙ ground arith

not_a_tag : (frame : Frame) → length frame ≡ 65 → same_text frame command_tag ≡ false
not_a_tag frame h = elim (Bool-cases (same_text frame command_tag)) [
  | inl same ↦
      let short : length frame ≡ 3 = ap length ((same_text_iff frame command_tag).0 same) in
      absurd (omega arith)
  | inr other ↦ other
]

abbrev pub received : Frame → Bool → CommandMessage → Text → Received
received identity delimiter m problem = record {
  code = RequestCode.ok;
  request = record {
    identity = identity;
    delimiter = delimiter;
    command = record {
      command = m.command;
      service_name = carried 32 m.service_name;
      args = carried 32 m.args;
    };
  };
  problem = problem;
}

abbrev tagged_frames : Bool → Frame → List Frame
tagged_frames tagged frame = if tagged then command_tag ∷ frame ∷ [] else frame ∷ []

skip_empty-tagged_frames :
    (n : ℕ) (tagged : Bool) (frame : Frame)
    → length frame ≡ 65
    → skip_empty false (replicate n [] ++ tagged_frames tagged frame)
      ≡ (ltb 0 n, tagged_frames tagged frame)
skip_empty-tagged_frames n true frame h =
    skip_empty-replicate n false b'B' (b'P' ∷ b'M' ∷ []) (frame ∷ [])
skip_empty-tagged_frames n false [] h = absurd (omega arith)
skip_empty-tagged_frames n false (x ∷ xs) h = skip_empty-replicate n false x xs []

skip_tag-tagged_frames :
    (tagged : Bool) (frame : Frame)
    → length frame ≡ 65
    → skip_tag (tagged_frames tagged frame) ≡ frame ∷ []
unfolding skip_tag same_text
skip_tag-tagged_frames true frame h = refl
skip_tag-tagged_frames false frame h = rw (not_a_tag frame h) refl

-- A command that a client encoded is received with its identity, with or without the tag and behind
-- any number of empty delimiter frames, and the request says whether there was a delimiter.
pub receive-encode_command :
    (identity : Frame) (delimiters : ℕ) (tagged : Bool) (m : CommandMessage) (out : CommandRequest)
    (problem : Text)
    → m.command < 256
    → receive (some (identity ∷ sent_frames delimiters tagged m)) out problem
      ≡ received identity (ltb 0 delimiters) m problem
unfolding receive read_command decoded
receive-encode_command identity delimiters tagged m out problem h =
    rw
      (
        skip_empty-tagged_frames delimiters tagged (encode_command m) (length-encode_command m),
        skip_tag-tagged_frames tagged (encode_command m) (length-encode_command m),
        decode_command-encode_command m no_command h,
      )
      refl

decoded-identity :
    (result : DecodeCode × CommandMessage) (frame : Frame) (out : CommandRequest) (problem : Text)
    → ((decoded result frame out problem).code ≢ RequestCode.empty)
      × ((decoded result frame out problem).request.identity ≡ out.identity)
unfolding decoded
decoded-identity (DecodeCode.ok, command) frame out problem = (ground arith, refl)
decoded-identity (_, command) frame out problem = (ground arith, refl)

read_command-identity :
    (count : ℕ) (frames : List Frame) (out : CommandRequest) (problem : Text)
    → ((read_command count frames out problem).code ≢ RequestCode.empty)
      × ((read_command count frames out problem).request.identity ≡ out.identity)
unfolding read_command
read_command-identity count [] out problem = (ground arith, refl)
read_command-identity count (frame ∷ []) out problem = decoded-identity _ frame out problem
read_command-identity count (frame ∷ (next ∷ frames)) out problem = (ground arith, refl)

-- Every message of at least one frame can be answered: whatever follows, it is read or refused, and the
-- request has the sender's identity.
pub receive-identity :
    (identity : Frame) (frames : List Frame) (out : CommandRequest) (problem : Text)
    → ((receive (some (identity ∷ frames)) out problem).code ≢ RequestCode.empty)
      × ((receive (some (identity ∷ frames)) out problem).request.identity ≡ identity)
unfolding receive
receive-identity identity frames out problem =
    read_command-identity _ (skip_tag (skip_empty false frames).1)
      (record (new_request identity) { delimiter = (skip_empty false frames).0 }) problem
