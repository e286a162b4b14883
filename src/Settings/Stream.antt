-- ===== src/Settings/Stream.antt =====
-- The settings stream (include/bmw_remote/infrastructure/settings_stream.hpp and
-- src/infrastructure/settings_stream.cpp): frames are gathered byte by byte, and answered.
pub mod Gathering
pub mod Reception
use bmw_e9x_remote_control.Common.{
  ℕ, ◌+◌, Bool, true, false, not, ◌&&◌, ◌||◌, Option, some, List, [], ◌∷◌, ◌++◌, get_or, length,
  ltb, leb, ◌==◌, if◌then◌else◌, sub32,
}
use bmw_e9x_remote_control.Settings.Bytes.{read_u16}
use bmw_e9x_remote_control.Settings.Payload.{user_settings_payload_size}
use bmw_e9x_remote_control.Settings.Identity.{SettingsDeviceIdentity}
use bmw_e9x_remote_control.Settings.Protocol.{
  SettingsProtocolFrame, SettingsFrameDecodeStatus, SettingsFrameDecodeResult, default_frame,
  maximum_frame_size, status_ok, encode, decode,
}
use bmw_e9x_remote_control.Settings.Ports.{UserSettingsStore, SettingsTransportPort}
use bmw_e9x_remote_control.Settings.Service.{SettingsProtocolAccess, handle_request}

pub data SettingsStreamEventType : Type 0 where
  none frame_ready frame_rejected timed_out : SettingsStreamEventType

pub record SettingsStreamEvent : Type 0 where
  pub type : SettingsStreamEventType
  pub decode_status : SettingsFrameDecodeStatus
  pub frame : SettingsProtocolFrame

-- `SettingsStreamEvent{type, decodeStatus}`.
abbrev pub event : SettingsStreamEventType → SettingsFrameDecodeStatus → SettingsStreamEvent
event type status = record { type = type; decode_status = status; frame = default_frame }

abbrev pub no_event : SettingsStreamEvent
no_event = event SettingsStreamEventType.none SettingsFrameDecodeStatus.ok

abbrev pub frame_event : SettingsProtocolFrame → SettingsStreamEvent
frame_event f = record {
  type = SettingsStreamEventType.frame_ready;
  decode_status = SettingsFrameDecodeStatus.ok;
  frame = f;
}

-- `buffer` holds the first `bufferedSize_` bytes of the array; the others are never read.
pub record SettingsStreamReceiver : Type 0 where
  pub inter_byte_timeout_ms : ℕ
  pub buffer : List ℕ
  pub expected_size : ℕ
  pub last_byte_time_ms : ℕ

abbrev pub reset : SettingsStreamReceiver → SettingsStreamReceiver
reset r = record r { buffer = []; expected_size = 0; last_byte_time_ms = 0 }

-- The character of "BMCF" at a place.
abbrev pub magic_at : ℕ → ℕ
magic_at i = get_or (66 ∷ 77 ∷ 67 ∷ 70 ∷ []) i 0

-- `consumeSynchronized`, before the whole of "BMCF" is there.
abbrev pub synchronize : SettingsStreamReceiver → ℕ → SettingsStreamReceiver
synchronize r byte =
    if byte == magic_at (length r.buffer)
    then record r { buffer = r.buffer ++ byte ∷ [] }
    else if byte == magic_at 0
    then record r { buffer = byte ∷ [] }
    else record r { buffer = [] }

abbrev pub event_of_result : SettingsFrameDecodeResult → SettingsStreamEvent
event_of_result d = elim d.status [
  | SettingsFrameDecodeStatus.ok ↦ frame_event d.frame
  | status ↦ event SettingsStreamEventType.frame_rejected status
]

-- The end of `consumeSynchronized`: the frame is decoded once its last byte is there.
abbrev pub finish : SettingsStreamReceiver → SettingsStreamReceiver × SettingsStreamEvent
finish r =
    if r.expected_size == 0 || ltb (length r.buffer) r.expected_size
    then (r, no_event)
    else (reset r, event_of_result (decode r.buffer))

-- `consumeSynchronized`, once the header is complete.
abbrev pub measure : SettingsStreamReceiver → SettingsStreamReceiver × SettingsStreamEvent
measure r =
    let payload_size = read_u16 r.buffer 10 in
    if ltb user_settings_payload_size payload_size
    then (
      reset r,
      event SettingsStreamEventType.frame_rejected SettingsFrameDecodeStatus.payload_too_large,
    )
    else finish (record r { expected_size = 12 + payload_size + 4 })

-- `consumeSynchronized`. The buffer is an `EncodedFrame`, of `MaximumFrameSize` bytes.
unfoldable pub consume_synchronized :
    SettingsStreamReceiver → ℕ → SettingsStreamReceiver × SettingsStreamEvent
consume_synchronized r byte =
    if ltb (length r.buffer) 4
    then (synchronize r byte, no_event)
    else if leb maximum_frame_size (length r.buffer)
    then (reset r, event SettingsStreamEventType.frame_rejected SettingsFrameDecodeStatus.too_long)
    else (let r1 = record r { buffer = r.buffer ++ byte ∷ [] } in
        if length r1.buffer == 12 then measure r1 else finish r1)

abbrev pub expired : SettingsStreamReceiver → ℕ → Bool
expired r now =
    not (length r.buffer == 0) && ltb r.inter_byte_timeout_ms (sub32 now r.last_byte_time_ms)

-- The event of a byte that came after a timeout.
abbrev pub late : SettingsStreamEvent → SettingsStreamEvent
late e = elim e.type [
  | SettingsStreamEventType.none ↦
      event SettingsStreamEventType.timed_out SettingsFrameDecodeStatus.ok
  | _ ↦ e
]

-- `SettingsStreamReceiver::consume`.
unfoldable pub consume :
    SettingsStreamReceiver → ℕ → ℕ → SettingsStreamReceiver × SettingsStreamEvent
unfolding consume_synchronized
consume r byte now =
    let timed_out = expired r now in
    let r1 = if timed_out then reset r else r in
    let (r2, e) = consume_synchronized (record r1 { last_byte_time_ms = now }) byte in
    (r2, if timed_out then late e else e)

-- `SettingsStreamReceiver::poll`.
abbrev pub poll_receiver : SettingsStreamReceiver → ℕ → SettingsStreamReceiver × SettingsStreamEvent
poll_receiver r now =
    if not (expired r now)
    then (r, no_event)
    else (reset r, event SettingsStreamEventType.timed_out SettingsFrameDecodeStatus.ok)

pub data SettingsEndpointStatus : Type 0 where
  none response_sent frame_rejected frame_timed_out transport_failure : SettingsEndpointStatus

pub record SettingsEndpointResult : Type 0 where
  pub status : SettingsEndpointStatus
  pub decode_status : SettingsFrameDecodeStatus
  pub response_status : ℕ  -- SettingsProtocolStatus

abbrev pub result : SettingsEndpointStatus → SettingsFrameDecodeStatus → ℕ → SettingsEndpointResult
result status decoded response = record {
  status = status;
  decode_status = decoded;
  response_status = response;
}

module _ (Store : UserSettingsStore) (Transport : SettingsTransportPort) where
  -- The members of `SettingsProtocolEndpoint`, with the store and the transport that it refers to.
  pub record SettingsProtocolEndpoint : Type 0 where
    pub receiver : SettingsStreamReceiver
    pub identity : SettingsDeviceIdentity
    pub store : Store.State
    pub transport : Transport.State

  -- The response is encoded and sent.
  abbrev pub send_response :
      SettingsProtocolEndpoint
      → SettingsProtocolFrame
      → Option (List ℕ)
      → SettingsProtocolEndpoint × SettingsEndpointResult
  send_response p response Option.none = (
    p,
    result SettingsEndpointStatus.transport_failure SettingsFrameDecodeStatus.ok response.status,
  )
  send_response p response (some bytes) =
      let (transport, sent) = Transport.send bytes p.transport in
      (
        record p { transport = transport },
        if not sent
            then result SettingsEndpointStatus.transport_failure SettingsFrameDecodeStatus.ok
                response.status
            else result SettingsEndpointStatus.response_sent SettingsFrameDecodeStatus.ok
                response.status,
      )

  -- `handleStreamEvent`.
  abbrev pub handle_stream_event :
      SettingsProtocolEndpoint
      → SettingsStreamEvent
      → SettingsProtocolAccess
      → SettingsProtocolEndpoint × SettingsEndpointResult
  handle_stream_event p e access = elim e.type [
    | SettingsStreamEventType.none ↦
        (p, result SettingsEndpointStatus.none SettingsFrameDecodeStatus.ok status_ok)
    | SettingsStreamEventType.timed_out ↦
        (p, result SettingsEndpointStatus.frame_timed_out SettingsFrameDecodeStatus.ok status_ok)
    | SettingsStreamEventType.frame_rejected ↦
        (p, result SettingsEndpointStatus.frame_rejected e.decode_status status_ok)
    | SettingsStreamEventType.frame_ready ↦
        let (store, response) = handle_request Store p.identity e.frame access p.store in
        send_response (record p { store = store }) response (encode response)
  ]

  -- `SettingsProtocolEndpoint::consume`.
  unfoldable pub consume_byte :
      SettingsProtocolEndpoint
      → ℕ
      → ℕ
      → SettingsProtocolAccess
      → SettingsProtocolEndpoint × SettingsEndpointResult
  consume_byte p byte now access =
      let (receiver, e) = consume p.receiver byte now in
      handle_stream_event (record p { receiver = receiver }) e access

  -- `SettingsProtocolEndpoint::poll`.
  abbrev pub poll_endpoint :
      SettingsProtocolEndpoint → ℕ → SettingsProtocolEndpoint × SettingsEndpointResult
  poll_endpoint p now =
      let (receiver, e) = poll_receiver p.receiver now in
      (
        record p { receiver = receiver },
        elim e.type [
          | SettingsStreamEventType.timed_out ↦
              result SettingsEndpointStatus.frame_timed_out SettingsFrameDecodeStatus.ok status_ok
          | _ ↦ result SettingsEndpointStatus.none SettingsFrameDecodeStatus.ok status_ok
        ],
      )
