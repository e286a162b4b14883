-- ===== src/Settings/Stream/Reception.antt =====
-- A frame that arrives in time is received.
use mathlib.Core.Path.{subst}
use bmw_e9x_remote_control.Common.{
  ℕ, ◌≤◌, ◌≡◌, refl, sym, ap, ◌∙◌, true, false, some, List, [], ◌∷◌, ◌++◌, length, replicate,
  length-append, ltb, sub32, arith,
}
use bmw_e9x_remote_control.Settings.Protocol.{SettingsProtocolFrame, decode, encode}
use bmw_e9x_remote_control.Settings.Protocol.RoundTrip.{
  IsFrame, IsAccepted, IsAccepted-decode, cleared, decode-encode,
}
use bmw_e9x_remote_control.Settings.Stream.{
  SettingsStreamReceiver, SettingsStreamEvent, consume, no_event, frame_event, expired,
  event_of_result,
}
use bmw_e9x_remote_control.Settings.Stream.Gathering.{holding, gathered, step, append_assoc}

-- The bytes of a transmission with the times at which they come, and the events that they give.
abbrev pub feed :
    SettingsStreamReceiver → List (ℕ × ℕ) → SettingsStreamReceiver × List SettingsStreamEvent
feed r [] = (r, [])
feed r ((byte, now) ∷ rest) =
    let (r1, e) = consume r byte now in let (r2, es) = feed r1 rest in (r2, e ∷ es)

abbrev pub bytes_of : List (ℕ × ℕ) → List ℕ
bytes_of [] = []
bytes_of ((byte, now) ∷ rest) = byte ∷ bytes_of rest

-- Every byte comes within the timeout after the one before.
abbrev pub Timely : ℕ → ℕ → List (ℕ × ℕ) → Type 0
Timely timeout last [] = Unit {0}
Timely timeout last ((byte, now) ∷ rest) = (sub32 now last ≤ timeout) × Timely timeout now rest

-- A receiver that waits for a frame.
abbrev pub waiting : ℕ → SettingsStreamReceiver
waiting timeout = record {
  inter_byte_timeout_ms = timeout;
  buffer = [];
  expected_size = 0;
  last_byte_time_ms = 0;
}

module _ (timeout n : ℕ) where
  consume-holding :
      (d rest : List ℕ) (b last now : ℕ)
      → IsAccepted (d ++ b ∷ rest)
      → length (d ++ b ∷ rest) ≡ n
      → expired (holding timeout d n last) now ≡ false
      → consume (holding timeout d n last) b now ≡ gathered timeout d b now n
  unfolding consume
  consume-holding d rest b last now w size timely = rw timely (step timeout d rest b now n w size)

  arrives :
      (e d : List ℕ) (b last now : ℕ) (rest : List (ℕ × ℕ))
      → d ++ b ∷ bytes_of rest ≡ e
      → IsAccepted e
      → length e ≡ n
      → expired (holding timeout d n last) now ≡ false
      → Timely timeout now rest
      → feed (holding timeout d n last) ((b, now) ∷ rest)
        ≡ (waiting timeout, replicate (length rest) no_event ++ event_of_result (decode e) ∷ [])
  arrives e d b last now [] whole w size timely later =
      let w1 = subst IsAccepted (sym whole) w in
      let size1 : length (d ++ b ∷ []) ≡ n = ap length whole ∙ size in
      let stop : ltb (length (d ++ b ∷ [])) n ≡ false = ground arith in
      let first : consume (holding timeout d n last) b now
          ≡ (waiting timeout, event_of_result (decode (d ++ b ∷ []))) =
        consume-holding d [] b last now w1 size1 timely ∙ rw stop refl in
      ap (λ x. (x.0, x.1 ∷ [])) first
      ∙ ap (λ l. (waiting timeout, event_of_result (decode l) ∷ [])) whole
  arrives e d b last now ((b2, now2) ∷ rest) whole w size timely (soon, later) =
      let w1 = subst IsAccepted (sym whole) w in
      let size1 : length (d ++ b ∷ b2 ∷ bytes_of rest) ≡ n = ap length whole ∙ size in
      let so_far = length-append d (b ∷ []) in
      let total = length-append d (b ∷ b2 ∷ bytes_of rest) in
      let more : ltb (length (d ++ b ∷ [])) n ≡ true = ground arith in
      let first : consume (holding timeout d n last) b now
          ≡ (holding timeout (d ++ b ∷ []) n now, no_event) =
        consume-holding d (b2 ∷ bytes_of rest) b last now w1 size1 timely ∙ rw more refl in
      let in_time : expired (holding timeout (d ++ b ∷ []) n now) now2 ≡ false = ground arith in
      let others =
        arrives e (d ++ b ∷ []) b2 now now2 rest
          (append_assoc d (b ∷ []) (b2 ∷ bytes_of rest) ∙ whole) w size in_time later in
      ap (λ x. let y = feed x.0 ((b2, now2) ∷ rest) in (y.0, x.1 ∷ y.1)) first
      ∙ ap (λ y. (y.0, no_event ∷ y.1)) others

-- A waiting receiver that is given the bytes of an encoded frame, each within the timeout after the one
-- before, reports nothing until the last byte, then the frame, with its payload zero from the size on,
-- and waits again.
pub feed-encode :
    (f : SettingsProtocolFrame) (timeout b now : ℕ) (rest : List (ℕ × ℕ))
    → IsFrame f
    → encode f ≡ some (b ∷ bytes_of rest)
    → Timely timeout now rest
    → feed (waiting timeout) ((b, now) ∷ rest)
      ≡ (waiting timeout, replicate (length rest) no_event ++ frame_event (cleared f) ∷ [])
feed-encode f timeout b now rest h sent timely =
    let (e, shown, size, decoded) = decode-encode f h in
    let same : b ∷ bytes_of rest ≡ e = ground arith in
    let w = IsAccepted-decode e (ap (λ d. d.status) decoded) in
    arrives timeout (length e) e [] b 0 now rest same w refl refl timely
    ∙ ap (λ d. (waiting timeout, replicate (length rest) no_event ++ event_of_result d ∷ []))
        decoded
