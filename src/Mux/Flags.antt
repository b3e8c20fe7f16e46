-- ===== src/Mux/Flags.antt =====
-- The state machine of a stream: what `process_flags` does to the stream it is given, the flags
-- that `get_send_flags` takes from the state, and the state change of `tmux_stream_close`.
use xfrpc.Prelude.{
  ℕ, ◌≤◌, ◌≡◌, refl, List, [], ◌∷◌, arith, Bool, true, false, if◌then◌else◌, if_elim, Option, none,
  some, Option-cases, inl, inr,
}
use xfrpc.Mux.{
  TmuxStream, TcpMuxState, init, syn_send, syn_received, established, local_close, remote_close,
  closed, reset, has_flag, zero_flag, syn, ack, fin, rst,
}

-- The switch of the FIN branch, with `close_stream`: `none` where the assertion fails.
unfoldable pub fin_state : TcpMuxState → Option (TcpMuxState × Bool)
fin_state syn_send = some (remote_close, false)
fin_state syn_received = some (remote_close, false)
fin_state established = some (remote_close, false)
fin_state local_close = some (closed, true)
fin_state _ = none

unfoldable pub ack_state : TcpMuxState → TcpMuxState
ack_state syn_send = established
ack_state s = s

-- The state and `close_stream` after the flags.
unfoldable pub flags_state : ℕ → TcpMuxState → Option (TcpMuxState × Bool)
unfolding fin_state ack_state
flags_state flags s =
    if has_flag flags ack
    then some (ack_state s, false)
    else if has_flag flags fin
    then fin_state s
    else if has_flag flags rst
    then some (reset, true)
    else some (s, false)

-- The switch of `get_send_flags`. `flags` starts at 0, so `flags |= SYN` is SYN.
unfoldable pub send_state : TcpMuxState → ℕ × TcpMuxState
send_state init = (syn, syn_send)
send_state syn_received = (ack, established)
send_state s = (zero_flag, s)

unfoldable pub get_send_flags : TmuxStream → ℕ × TmuxStream
get_send_flags st = let (flags, s) = send_state st.state in (flags, record st { state = s })

-- The switch of `tmux_stream_close`, with `flag`: `none` for its early return.
unfoldable pub close_state : TcpMuxState → Option (TcpMuxState × Bool)
close_state syn_send = some (local_close, false)
close_state syn_received = some (local_close, false)
close_state established = some (local_close, false)
close_state local_close = some (closed, true)
close_state remote_close = some (closed, true)
close_state _ = none

-- How far a stream is in its life.
abbrev pub stage : TcpMuxState → ℕ
stage init = 0
stage syn_send = 1
stage syn_received = 1
stage established = 2
stage local_close = 3
stage remote_close = 3
stage closed = 4
stage reset = 4

-- The moves that one of the three routines may make.
pub data Move : TcpMuxState → TcpMuxState → Type 0 where
  stay : {s : TcpMuxState} → Move s s
  open_stream : Move init syn_send
  accept : Move syn_received established
  accepted : Move syn_send established
  remote : {s : TcpMuxState} → 1 ≤ stage s → stage s ≤ 2 → Move s remote_close
  local : {s : TcpMuxState} → 1 ≤ stage s → stage s ≤ 2 → Move s local_close
  both : {s : TcpMuxState} → stage s ≡ 3 → Move s closed
  abort : {s : TcpMuxState} → Move s reset

stage-le : (s : TcpMuxState) → stage s ≤ 4
stage-le init = omega arith
stage-le _ = omega arith

pub Move-stage : {s t : TcpMuxState} → Move s t → stage s ≤ stage t
Move-stage stay = omega arith
Move-stage open_stream = omega arith
Move-stage accept = omega arith
Move-stage accepted = omega arith
Move-stage (remote h k) = omega arith
Move-stage (local h k) = omega arith
Move-stage (both h) = omega arith
Move-stage (abort {s}) = stage-le s

-- What a routine may answer: nothing, or a move along the life of the stream that frees the stream
-- only at the end.
abbrev pub Allowed : TcpMuxState → Option (TcpMuxState × Bool) → Type 0
Allowed s none = Unit {0}
Allowed s (some (t, freed)) = Move s t × (freed ≡ true → stage t ≡ 4)

fin_state-Allowed : (s : TcpMuxState) → Allowed s (fin_state s)
unfolding fin_state
fin_state-Allowed syn_send = (remote (omega arith) (omega arith), λ e. cc)
fin_state-Allowed syn_received = (remote (omega arith) (omega arith), λ e. cc)
fin_state-Allowed established = (remote (omega arith) (omega arith), λ e. cc)
fin_state-Allowed local_close = (both refl, λ e. refl)
fin_state-Allowed _ = tt

ack_state-Move : (s : TcpMuxState) → Move s (ack_state s)
unfolding ack_state
ack_state-Move syn_send = accepted
ack_state-Move s = stay

send_state-Move : (s : TcpMuxState) → Move s (send_state s).1
unfolding send_state
send_state-Move init = open_stream
send_state-Move syn_received = accept
send_state-Move s = stay

close_state-Allowed : (s : TcpMuxState) → Allowed s (close_state s)
unfolding close_state
close_state-Allowed syn_send = (local (omega arith) (omega arith), λ e. cc)
close_state-Allowed syn_received = (local (omega arith) (omega arith), λ e. cc)
close_state-Allowed established = (local (omega arith) (omega arith), λ e. cc)
close_state-Allowed local_close = (both refl, λ e. refl)
close_state-Allowed remote_close = (both refl, λ e. refl)
close_state-Allowed _ = tt

flags_state-Allowed : (flags : ℕ) (s : TcpMuxState) → Allowed s (flags_state flags s)
unfolding flags_state
flags_state-Allowed flags s =
    if_elim (Allowed s) (has_flag flags ack) _ _ (ack_state-Move s, λ e. cc)
      (if_elim (Allowed s) (has_flag flags fin) _ _ (fin_state-Allowed s)
        (if_elim (Allowed s) (has_flag flags rst) _ _ (abort, λ e. refl) (stay, λ e. cc)))

-- What happens to a stream: a frame with flags comes in, a frame is about to go out, or the local
-- side closes.
pub data Event : Type 0 where
  receives : ℕ → Event
  sends : Event
  closes : Event

-- `none` where `process_flags` fails its assertion; `tmux_stream_close` may return early.
unfoldable pub event_state : Event → TcpMuxState → Option TcpMuxState
event_state (receives flags) s = elim (flags_state flags s) [ none ↦ none | some (t, _) ↦ some t ]
event_state sends s = some (send_state s).1
event_state closes s = elim (close_state s) [ none ↦ some s | some (t, _) ↦ some t ]

unfoldable pub history_state : List Event → TcpMuxState → Option TcpMuxState
history_state [] s = some s
history_state (e ∷ es) s = elim (event_state e s) [ none ↦ none | some t ↦ history_state es t ]

Allowed-stage :
    (s t : TcpMuxState) (freed : Bool) (o : Option (TcpMuxState × Bool))
    → Allowed s o
    → o ≡ some (t, freed)
    → stage s ≤ stage t
Allowed-stage s t freed none a e = cc
Allowed-stage s t freed (some (u, c)) a e = ground (arith, Move-stage a.0)

event_state-stage : (e : Event) (s t : TcpMuxState) → event_state e s ≡ some t → stage s ≤ stage t
unfolding event_state
event_state-stage (receives flags) s t h = elim (Option-cases (flags_state flags s)) [
  | inl e ↦ ground (arith, e)
  | inr ((u, c), e) ↦ ground (arith, e, Allowed-stage s u c _ (flags_state-Allowed flags s) e)
]
event_state-stage sends s t h = ground (arith, Move-stage (send_state-Move s))
event_state-stage closes s t h = elim (Option-cases (close_state s)) [
  | inl e ↦ ground (arith, e)
  | inr ((u, c), e) ↦ ground (arith, e, Allowed-stage s u c _ (close_state-Allowed s) e)
]

-- No history takes a stream back to an earlier stage of its life.
pub history_state-stage :
    (es : List Event) (s t : TcpMuxState) → history_state es s ≡ some t → stage s ≤ stage t
unfolding history_state
history_state-stage [] s t h = ground arith
history_state-stage (e ∷ es) s t h = elim (Option-cases (event_state e s)) [
  | inl n ↦ ground (arith, n)
  | inr (u, n) ↦
      ground (arith, n, event_state-stage e s u n, history_state-stage es u t (ground (arith, n)))
]
