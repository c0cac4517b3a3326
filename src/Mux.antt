-- ===== src/Mux.antt =====
-- src/garden-external-networker/ipc/ipc.go: what a message to the networker calls, over any state. The
-- socket, the file descriptors in its control messages and JSON are parameters: a connection is what
-- was read from it. What is written is left out where writing fails; the loop that accepts
-- connections logs an error and goes on.
pub mod Lifetime
use cf_networking_release.Prelude.{
  ℕ, String, Option, none, some, List, [], ◌∷◌, str_eq, if◌then◌else◌, message, wrap, Result, ok,
  err,
}

-- message.Message, with the inputs decoded from its data.
pub record Message (Inputs : Type 0) : Type 0 where
  pub command : String
  pub handle : String
  pub inputs : Result Inputs

-- What readNsFileDescriptor and then decodeMsg give.
pub record Connection (Inputs : Type 0) : Type 0 where
  pub ns_fd : Result ℕ
  pub content : Result (Message Inputs)

module _ {Inputs Outputs State : Type 0}
    (up : String → Inputs → Option ℕ → State → Result Outputs × State)
    (down : String → State → Result (Unit {0}) × State) (encode : Outputs → Result String) where
  abbrev pub write_outputs : Result Outputs × State → Result String × State
  write_outputs (err e, s) = (err e, s)
  write_outputs (ok outputs, s) = (encode outputs, s)

  abbrev pub write_empty : Result (Unit {0}) × State → Result String × State
  write_empty (err e, s) = (err e, s)
  write_empty (ok u, s) = (ok "{}", s)

  abbrev pub decode_and_up : String → Option ℕ → Result Inputs → State → Result String × State
  decode_and_up handle ns_fd (err e) s = (err e, s)
  decode_and_up handle ns_fd (ok inputs) s = write_outputs (up handle inputs ns_fd s)

  -- Mux.handle, of an action, a handle and the input; it gives what is written to the output
  unfoldable pub mux_handle :
      String → String → Option ℕ → Result Inputs → State → Result String × State
  mux_handle action handle ns_fd stdin s =
      if str_eq handle ""
      then (err (message "missing handle"), s)
      else if str_eq action "up"
      then decode_and_up handle ns_fd stdin s
      else if str_eq action "down"
      then write_empty (down handle s)
      else (err (wrap "unrecognized action" (message action)), s)

  abbrev pub if_content : ℕ → Result (Message Inputs) → State → Result String × State
  if_content fd (err e) s = (err e, s)
  if_content fd (ok msg) s = mux_handle msg.command msg.handle (some fd) msg.inputs s

  abbrev pub if_fd : Result ℕ → Result (Message Inputs) → State → Result String × State
  if_fd (err e) content s = (err e, s)
  if_fd (ok fd) content s = if_content fd content s

  -- Mux.handleOne, of an accepted connection
  unfoldable pub handle_one : Result (Connection Inputs) → State → Result String × State
  handle_one (err e) s = (err e, s)
  handle_one (ok connection) s = if_fd connection.ns_fd connection.content s

  -- The loop of HandleWithSocket, over the connections that come
  unfoldable pub handle_with_socket : List (Result (Connection Inputs)) → State → State
  handle_with_socket [] s = s
  handle_with_socket (c ∷ connections) s = handle_with_socket connections ((handle_one c s).1)
