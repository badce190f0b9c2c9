-- ===== src/Proto.antt =====
-- agent_proto/src/lib.rs: the frames of tool calls that the kernel and the user programs share. The
-- body of a frame is written by the postcard crate, which is a parameter: `Codec`.
pub mod Frames
mod Tests
use os_agent.Base.{
  ℕ, ◌+◌, ◌-◌, ◌≡◌, Bool, true, false, Option, none, some, List, [], ◌∷◌, ◌++◌, length, take, drop,
  ltb, leb, ◌==◌, if◌then◌else◌,
}
use os_agent.Base.Bytes.{to_le_bytes, from_le_bytes}
use os_agent.BTree.Str.{Str}

abbrev pub proto_magic : ℕ
proto_magic = 0xa9e4_7f00

abbrev pub proto_version : ℕ
proto_version = 1

abbrev pub frame_header_size : ℕ
frame_header_size = 6

unfoldable pub frame_header : List ℕ
frame_header = to_le_bytes 4 proto_magic ++ to_le_bytes 2 proto_version

-- The first bytes of the buffer are overwritten; the assertion on its length is the caller's test.
unfoldable pub write_frame_header : List ℕ → List ℕ
write_frame_header buf = frame_header ++ drop frame_header_size buf

pub data FrameError : Type 0 where
  too_short bad_magic : FrameError
  unsupported_version : ℕ → FrameError

pub data Checked : Type 0 where
  body_at : ℕ → Checked
  bad_frame : FrameError → Checked

unfoldable pub check_frame_header : List ℕ → Checked
check_frame_header buf =
    let magic = from_le_bytes (take 4 buf) in
    let version = from_le_bytes (take 2 (drop 4 buf)) in
    if ltb (length buf) frame_header_size
    then bad_frame too_short
    else if magic == proto_magic
    then (if version == proto_version
        then body_at frame_header_size
        else bad_frame (unsupported_version version))
    else bad_frame bad_magic

pub data ToolName : Type 0 where
  system_status query_process read_context send_message query_file : ToolName

-- `ToolName::ALL`
abbrev pub all_tools : List ToolName
all_tools = system_status ∷ query_process ∷ read_context ∷ send_message ∷ query_file ∷ []

pub data ProcStatus : Type 0 where
  running ready zombie blocked : ProcStatus

pub data AgentTypeFilter : Type 0 where
  any normal agent : AgentTypeFilter

pub data ContextTargetType : Type 0 where
  process file agent_target : ContextTargetType

pub data ToolParams : Type 0 where
  system_status_params : ToolParams
  query_process_params : Option ProcStatus → AgentTypeFilter → ToolParams
  read_context_params : ContextTargetType → ℕ → ToolParams
  send_message_params : ℕ → List ℕ → ToolParams
  query_file_params : Option Str → Option Str → Option Str → Bool → ToolParams

pub record ToolRequest : Type 0 where
  pub req_id : ℕ
  pub tool : ToolName
  pub params : ToolParams

pub data ToolStatus : Type 0 where
  tool_ok tool_not_found bad_params permission_denied quota_exceeded internal_error
        not_implemented :
      ToolStatus

pub record ToolResponse : Type 0 where
  pub req_id : ℕ
  pub status : ToolStatus
  pub result_offset : ℕ
  pub result_len : ℕ

pub record ProcessInfo : Type 0 where
  pub pid : ℕ
  pub name : Str
  pub status : ProcStatus
  pub is_agent : Bool

pub record FileInfo : Type 0 where
  pub inode_id : ℕ
  pub name : Str
  pub size : ℕ
  pub tags : List Str
  pub owner : Option Str
  pub digest_preview : Str

pub record QueryFileBenchmark : Type 0 where
  pub indexed_us : ℕ
  pub scan_us : ℕ
  pub indexed_results : List Str
  pub scan_results : List Str

pub record SystemStatusInfo : Type 0 where
  pub total_procs : ℕ
  pub agent_procs : ℕ
  pub running_procs : ℕ
  pub memory_used_bytes : ℕ
  pub uptime_ticks : ℕ

pub record QueryResult (A : Type 0) : Type 0 where
  pub items : List A

pub record ToolDescriptor : Type 0 where
  pub name : Str
  pub doc : Str

-- What postcard makes of a value, and of bytes.
pub record Codec (A : Type 0) : Type 0 where
  pub encode : A → List ℕ
  pub decode : List ℕ → Option A

pub data Encoded : Type 0 where
  encoded : ℕ → List ℕ → Encoded
  buffer_full : Encoded

pub data Decoded (A : Type 0) : Type 0 where
  decoded : A → Decoded A
  frame : FrameError → Decoded A
  postcard : Decoded A

module _ {A : Type 0} (codec : Codec A) where
  -- `encode_request` and `encode_response`: how many bytes were written, and the buffer.
  unfoldable pub encode_frame : A → List ℕ → Encoded
  encode_frame a out =
      let body = codec.encode a in
      let n = frame_header_size + length body in
      if ltb (length out) frame_header_size
      then buffer_full
      else if ltb (length out - frame_header_size) (length body)
      then buffer_full
      else encoded n (frame_header ++ (body ++ drop n out))

  unfoldable pub decode_body : Option A → Decoded A
  decode_body none = postcard
  decode_body (some a) = decoded a

  -- `decode_request` and `decode_response`
  unfoldable pub decode_frame : List ℕ → Decoded A
  decode_frame buf = elim (check_frame_header buf) [
    | bad_frame e ↦ frame e
    | body_at body_off ↦ decode_body (codec.decode (drop body_off buf))
  ]
