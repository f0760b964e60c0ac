-- ===== src/Gateway/Terminal/Turns.antt =====
-- services/ssh-gateway/src/terminal.rs: what one turn of the loop of `bridge_terminal` may do.
use ctfdpp.Base.{
  ℕ, ◌+◌, ◌-◌, ◌^◌, ◌≤◌, ◌≡◌, ◌∙◌, sym, ap, refl, Bool, true, false, not, Option, none, some, List,
  [], ◌∷◌, ◌==◌, if◌then◌else◌, count_where, arith, leb, ltb, str_eq, min,
}
use ctfdpp.Gateway.Terminal.{
  Action, output_frame, report_closed, terminate, disarm, spawn_terminal, run_preflight, resize,
  valid_dimensions,
}
use ctfdpp.Gateway.Terminal.Bridge.{
  Heartbeat, alive, revoked, unanswered, ChildStatus, exited, still_running, wait_failed, sent,
  queue_full, disconnected, Message, binary, text, ping, closed, Output, bytes, end, Poll, Bridge,
  Turn, next, break, on_heartbeat, with_heartbeat, on_child, on_message, on_output, poll_heartbeat,
  turn, add_u64, add_u8, end_with, touched, on_sent, max_pty_frame_bytes,
}

abbrev is_close : ℕ → Action → Bool
is_close session (report_closed s reason from to exit_code) = s == session
is_close session action = false

-- How many reports say that the session is closed.
unfoldable pub closes : ℕ → List Action → ℕ
closes session actions = count_where (is_close session) actions

abbrev is_stop : Action → Bool
is_stop terminate = true
is_stop disarm = true
is_stop action = false

-- How often the SSH process is terminated or found to have exited.
unfoldable pub stops : List Action → ℕ
stops actions = count_where is_stop actions

abbrev is_spawn : Action → Bool
is_spawn (spawn_terminal address) = true
is_spawn action = false

-- How often an SSH process is started.
unfoldable pub spawns : List Action → ℕ
spawns actions = count_where is_spawn actions

abbrev pub is_connection : Action → Bool
is_connection (run_preflight address) = true
is_connection (spawn_terminal address) = true
is_connection action = false

-- How often an SSH client is run against the host.
unfoldable pub connects : List Action → ℕ
connects actions = count_where is_connection actions

-- How many bytes of output are sent to the browser.
unfoldable pub output_total : List Action → ℕ
output_total [] = 0
output_total (output_frame size ∷ actions) = size + output_total actions
output_total (action ∷ actions) = output_total actions

abbrev pub turn_actions : Turn → List Action
turn_actions (next actions bridge) = actions
turn_actions (break actions bridge reason exit_code) = actions

abbrev pub turn_bridge : Turn → Bridge
turn_bridge (next actions bridge) = bridge
turn_bridge (break actions bridge reason exit_code) = bridge

-- How often the turn itself must have stopped the process: only when the loop ends with its exit.
abbrev pub due_stops : Turn → ℕ
due_stops (next actions bridge) = 0
due_stops (break actions bridge reason exit_code) = if str_eq reason "remote_exit" then 1 else 0

abbrev pub max_u64 : ℕ
max_u64 = 2 ^ 64 - 1

pub record Steady (b : Bridge) (r : Turn) : Type 0 where
  pub silent : (t : ℕ) → closes t (turn_actions r) ≡ 0
  pub session_kept : (turn_bridge r).session_id ≡ b.session_id
  pub absolute_kept : (turn_bridge r).absolute ≡ b.absolute
  pub stopped : stops (turn_actions r) ≡ due_stops r
  pub unspawned : spawns (turn_actions r) ≡ 0
  pub unconnected : connects (turn_actions r) ≡ 0
  pub counted :
      (turn_bridge r).bytes_to_browser
      ≡ min (b.bytes_to_browser + output_total (turn_actions r)) max_u64

Steady-if :
    (b : Bridge) (t : Bool) (x y : Turn) → Steady b x → Steady b y → Steady b (if t then x else y)
Steady-if b true x y hx hy = hx
Steady-if b false x y hx hy = hy

-- A turn that sends no output.
idle_turn :
    (b : Bridge) (r : Turn)
    → b.bytes_to_browser ≤ max_u64
    → ((t : ℕ) → closes t (turn_actions r) ≡ 0)
    → (turn_bridge r).session_id ≡ b.session_id
    → (turn_bridge r).absolute ≡ b.absolute
    → stops (turn_actions r) ≡ due_stops r
    → spawns (turn_actions r) ≡ 0
    → connects (turn_actions r) ≡ 0
    → (turn_bridge r).bytes_to_browser ≡ b.bytes_to_browser
    → output_total (turn_actions r) ≡ 0
    → Steady b r
idle_turn b r bound silent session absolute stopped unspawned unconnected same none_sent = record {
  silent = silent;
  session_kept = session;
  absolute_kept = absolute;
  stopped = stopped;
  unspawned = unspawned;
  unconnected = unconnected;
  counted = same ∙ (omega arith) ∙ ap (λ n. min (b.bytes_to_browser + n) max_u64) (sym none_sent);
}

module _ (b : Bridge) (bound : b.bytes_to_browser ≤ max_u64) where
  on_heartbeat-Steady : (h : Heartbeat) → Steady b (with_heartbeat b (on_heartbeat b h))
  unfolding closes stops spawns connects output_total
  on_heartbeat-Steady alive = idle_turn b _ bound (λ t. refl) refl refl refl refl refl refl refl
  on_heartbeat-Steady revoked = idle_turn b _ bound (λ t. refl) refl refl refl refl refl refl refl
  on_heartbeat-Steady unanswered = either (leb 2 (add_u8 b.missed_heartbeats 1))
    where
      missed : Bridge
      missed = record b { missed_heartbeats = add_u8 b.missed_heartbeats 1 }

      either :
          (lost : Bool)
          → Steady b (
              with_heartbeat b
                (if lost then break [] missed "control_plane_unavailable" none else next [] missed))
      either true = idle_turn b _ bound (λ t. refl) refl refl refl refl refl refl refl
      either false = idle_turn b _ bound (λ t. refl) refl refl refl refl refl refl refl

  on_child-Steady : (c : ChildStatus) → Steady b (on_child b c)
  unfolding closes stops spawns connects output_total
  on_child-Steady (exited code) = idle_turn b _ bound (λ t. refl) refl refl refl refl refl refl refl
  on_child-Steady still_running = idle_turn b _ bound (λ t. refl) refl refl refl refl refl refl refl
  on_child-Steady wait_failed = idle_turn b _ bound (λ t. refl) refl refl refl refl refl refl refl

  on_message-Steady : (at : ℕ) (m : Message) → Steady b (on_message at b m)
  unfolding closes stops spawns connects output_total
  on_message-Steady at (binary size sent) =
      Steady-if b (ltb max_pty_frame_bytes size) (end_with b "input_too_large")
        (on_sent at size (record b { bytes_from_browser = add_u64 b.bytes_from_browser size }) sent)
        (idle_turn b _ bound (λ t. refl) refl refl refl refl refl refl refl)
        (idle_turn b _ bound (λ t. refl) refl refl refl refl refl refl refl)
  on_message-Steady at (binary size queue_full) =
      Steady-if b (ltb max_pty_frame_bytes size) (end_with b "input_too_large")
        (on_sent at size (record b { bytes_from_browser = add_u64 b.bytes_from_browser size })
          queue_full)
        (idle_turn b _ bound (λ t. refl) refl refl refl refl refl refl refl)
        (idle_turn b _ bound (λ t. refl) refl refl refl refl refl refl refl)
  on_message-Steady at (binary size disconnected) =
      Steady-if b (ltb max_pty_frame_bytes size) (end_with b "input_too_large")
        (on_sent at size (record b { bytes_from_browser = add_u64 b.bytes_from_browser size })
          disconnected)
        (idle_turn b _ bound (λ t. refl) refl refl refl refl refl refl refl)
        (idle_turn b _ bound (λ t. refl) refl refl refl refl refl refl refl)
  on_message-Steady at (text none done) =
      idle_turn b _ bound (λ t. refl) refl refl refl refl refl refl refl
  on_message-Steady at (text (some (cols, rows)) done) =
      let answered : Turn =
        if not done
        then break (resize cols rows ∷ []) b "resize_failed" none
        else next (resize cols rows ∷ []) (touched at b) in
      Steady-if b (not (valid_dimensions cols rows)) (end_with b "invalid_control") answered
        (idle_turn b _ bound (λ t. refl) refl refl refl refl refl refl refl)
        (Steady-if b (not done) (break (resize cols rows ∷ []) b "resize_failed" none)
          (next (resize cols rows ∷ []) (touched at b))
          (idle_turn b _ bound (λ t. refl) refl refl refl refl refl refl refl)
          (idle_turn b _ bound (λ t. refl) refl refl refl refl refl refl refl))
  on_message-Steady at ping = idle_turn b _ bound (λ t. refl) refl refl refl refl refl refl refl
  on_message-Steady at closed = idle_turn b _ bound (λ t. refl) refl refl refl refl refl refl refl

  shown :
      (size : ℕ)
      → min (b.bytes_to_browser + size) max_u64 ≡ min (b.bytes_to_browser + (size + 0)) max_u64
  shown size = omega arith

  on_output-Steady : (at : ℕ) (o : Output) → Steady b (on_output at b o)
  unfolding closes stops spawns connects output_total
  on_output-Steady at (bytes size taken) =
      let counted = record b { bytes_to_browser = add_u64 b.bytes_to_browser size } in
      Steady-if b taken (next (output_frame size ∷ []) (touched at counted))
        (break (output_frame size ∷ []) counted "slow_browser" none)
        (record {
          silent = λ t. refl;
          session_kept = refl;
          absolute_kept = refl;
          stopped = refl;
          unspawned = refl;
          unconnected = refl;
          counted = shown size;
        })
        (record {
          silent = λ t. refl;
          session_kept = refl;
          absolute_kept = refl;
          stopped = refl;
          unspawned = refl;
          unconnected = refl;
          counted = shown size;
        })
  on_output-Steady at (end (exited code)) =
      idle_turn b _ bound (λ t. refl) refl refl refl refl refl refl refl
  on_output-Steady at (end still_running) =
      idle_turn b _ bound (λ t. refl) refl refl refl refl refl refl refl
  on_output-Steady at (end wait_failed) =
      idle_turn b _ bound (λ t. refl) refl refl refl refl refl refl refl

  poll-Steady :
      (p : Poll) (h : Option Heartbeat) (c : Option ChildStatus) (m : Option Message)
      (o : Option Output)
      → Steady b (poll_heartbeat b (record p { child = c; message = m; output = o }) h)
  unfolding closes stops spawns connects output_total
  poll-Steady p (some h) c m o = on_heartbeat-Steady h
  poll-Steady p none (some c) m o = on_child-Steady c
  poll-Steady p none none (some m) o = on_message-Steady p.body_at m
  poll-Steady p none none none (some o) = on_output-Steady p.body_at o
  poll-Steady p none none none none =
      idle_turn b _ bound (λ t. refl) refl refl refl refl refl refl refl

  pub turn-Steady : (p : Poll) → Steady b (turn b p)
  unfolding turn closes stops spawns connects output_total
  turn-Steady p =
      let data_turn = poll_heartbeat b p p.heartbeat_due in
      let in_time = if leb b.idle p.now then end_with b "idle_timeout" else data_turn in
      let unless_over = if leb b.absolute p.now then end_with b "session_timeout" else in_time in
      Steady-if b p.shutdown (end_with b "gateway_shutdown") unless_over
        (idle_turn b _ bound (λ t. refl) refl refl refl refl refl refl refl)
        (Steady-if b (leb b.absolute p.now) (end_with b "session_timeout") in_time
          (idle_turn b _ bound (λ t. refl) refl refl refl refl refl refl refl)
          (Steady-if b (leb b.idle p.now) (end_with b "idle_timeout") data_turn
            (idle_turn b _ bound (λ t. refl) refl refl refl refl refl refl refl)
            (poll-Steady p p.heartbeat_due p.child p.message p.output)))
