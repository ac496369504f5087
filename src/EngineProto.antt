-- ===== src/EngineProto.antt =====
-- internal/engineproto/proto.go: the frames on the link between the application and the engine.
pub mod Op
mod Examples
use stugan.Base.{
  ℕ, ◌*◌, ◌^◌, ◌≡◌, arith, Bool, true, false, Option, none, some, List, [], ◌∷◌, Bytes, codes,
  if◌then◌else◌,
}
use stugan.Go.Utf8.{valid_string}

abbrev pub protocol_major : ℕ
protocol_major = 1

abbrev pub protocol_minor : ℕ
protocol_minor = 0

abbrev pub max_line_bytes : ℕ
max_line_bytes = 16 * 2 ^ 10

-- `none` in `bin` is the nil slice.
pub record Frame : Type 0 where
  pub op : Bytes
  pub protocol : ℕ
  pub minor : ℕ
  pub secret : Bytes
  pub instance_id : Bytes
  pub gen : ℕ
  pub version : Bytes
  pub id : Bytes
  pub handle : Bytes
  pub addr : Bytes
  pub tls : Bool
  pub insecure : Bool
  pub cert_pem : Bytes
  pub fingerprint : Bytes
  pub line : Bytes
  pub bin : Option Bytes
  pub seq : ℕ
  pub at : ℕ
  pub replay : List Bytes
  pub nick : Bytes
  pub channels : List Bytes
  pub unattended : Bool
  pub detached_ms : ℕ
  pub backlog : ℕ
  pub lost : ℕ
  pub error : Bytes

-- The zero value of the struct.
abbrev pub blank : Frame
blank = record {
  op = [];
  protocol = 0;
  minor = 0;
  secret = [];
  instance_id = [];
  gen = 0;
  version = [];
  id = [];
  handle = [];
  addr = [];
  tls = false;
  insecure = false;
  cert_pem = [];
  fingerprint = [];
  line = [];
  bin = none;
  seq = 0;
  at = 0;
  replay = [];
  nick = [];
  channels = [];
  unattended = false;
  detached_ms = 0;
  backlog = 0;
  lost = 0;
  error = [];
}

-- `SetLine`: a line that is not valid UTF-8 rides in `bin`.
unfoldable pub set_line : Frame → Bytes → Frame
set_line f line =
    if valid_string line
    then record f { line = line; bin = none }
    else record f { line = []; bin = some line }

-- `Text`
unfoldable pub text : Frame → Bytes
text f = elim f.bin [ some b ↦ b | none ↦ f.line ]

-- `SetLine` and `Text` carry every line unchanged, whether or not it is valid UTF-8, and `bin` is
-- set exactly for a line that is not.
pub text-set_line :
    (f : Frame) (line : Bytes)
    → (text (set_line f line) ≡ line)
      × ((set_line f line).bin ≡ (if valid_string line then none else some line))
unfolding text set_line
text-set_line f line = ground arith
