-- ===== src/WebSocketClient.antt =====
-- include/ws_client/WebSocketClient.hpp: the client's state, and what it is parameterised by.
pub mod Opening
pub mod Sending
pub mod Receiving
pub mod Messages
use websocketclient_cpp.Prelude.{ℕ, ◌+◌, Bool, true, false, List, Option, none, some, replicate}
use websocketclient_cpp.Errors.{ok}
use websocketclient_cpp.Errors.Steps.{M}
use websocketclient_cpp.Buffer.{Buffer, Allocator}
use websocketclient_cpp.Transport.{Transport}
use websocketclient_cpp.BufferedSocket.{BufferedSocket}
use websocketclient_cpp.Frame.{ControlFrame}
use websocketclient_cpp.Frame.Opcode

-- `std::span<byte>`: where it lies in memory, and what stands there
pub record Span : Type 0 where
  pub address : ℕ
  pub bytes : List ℕ

-- What the client asks of `PermessageDeflateContext`
pub record Compression : Type 1 where
  pub Context : Type 0
  pub decompress_buffer : Context → Buffer
  pub set_decompress_buffer : Buffer → Context → Context
  pub decompress : M (Context × Buffer) (Unit {0})
  pub clear_compress_buffer : Context → Context
  pub compress : Span → M Context Span

-- What the templates of the client leave open, and the memory that it is built on
pub record Platform : Type 1 where
  pub transport : Transport
  pub allocator : Allocator
  pub compression : Compression
  -- `TMaskKeyGen`, and its `operator()`
  pub MaskKeyGen : Type 0
  pub next_mask_key : MaskKeyGen → ℕ × MaskKeyGen
  -- Where `write_buffer_storage_` lies
  pub write_buffer_address : ℕ

-- `enum class MessageType`
pub data MessageType : Type 0 where
  text binary : MessageType

pub record Message : Type 0 where
  pub type : MessageType
  pub data_ : Span

-- What `read_message` returns when it does not return an error
pub data Incoming : Type 0 where
  message : MessageType → List ℕ → Incoming
  ping pong close : ControlFrame → Incoming

pub record MessageReadState : Type 0 where
  pub is_compressed : Bool
  pub is_first : Bool
  pub op_code : ℕ

-- `MessageReadState::reset`, and the state that an object starts in
abbrev pub reset : MessageReadState
reset = record { is_compressed = false; is_first = true; op_code = Opcode.not_set }

pub record SendOptions : Type 0 where
  pub compress : Bool
  pub timeout : ℕ

module _ (p : Platform) where
  pub record Client : Type 0 where
    pub closed : Bool
    pub socket : BufferedSocket p.transport
    pub mask_key_gen : p.MaskKeyGen
    pub permessage_deflate_ctx : Option p.compression.Context
    pub write_buffer : List ℕ
    pub read_state : MessageReadState

  -- A call of `socket_`
  abbrev pub on_socket : {A : Type 0} → M (BufferedSocket p.transport) A → M Client A
  on_socket m c = let (r, socket) = m c.socket in (r, record c { socket = socket })

  -- `Timeout timeout(timeout_ms)`
  abbrev pub start_timeout : ℕ → M Client (Unit {0})
  start_timeout ms c = (
    ok tt,
    record c {
      socket = record (c.socket) { socket = p.transport.start_timeout ms c.socket.socket };
    },
  )

  -- `this->mask_key_gen_()`
  abbrev pub draw_mask_key : M Client ℕ
  draw_mask_key c =
      let (key, gen) = p.next_mask_key c.mask_key_gen in (ok key, record c { mask_key_gen = gen })

  -- A call of `permessage_deflate_ctx_`
  abbrev pub on_context :
      {A : Type 0} → p.compression.Context → M p.compression.Context A → M Client A
  on_context ctx m c = let (r, ctx') = m ctx in (r, record c { permessage_deflate_ctx = some ctx' })
