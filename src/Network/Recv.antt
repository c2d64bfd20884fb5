-- ===== src/Network/Recv.antt =====
-- The receiving of messages: `Inventory::recv` (src/flashptp/network/inventory.cpp). The answers of
-- `select` and `recvmsg` are arguments, and so is the order in which `fds` holds the sockets.
pub mod Safe
pub mod Accepted
use flashptpd.Prelude.{
  ℕ, zero, suc, ◌+◌, ◌-◌, ◌*◌, ◌/◌, ◌%◌, Bool, true, false, not, ◌&&◌, ◌||◌, ltb, ◌==◌,
  if◌then◌else◌, List, [], ◌∷◌, ◌++◌, Option, none, some, length,
}
use flashptpd.Prelude.Int.{ℤ, pos, negsuc}
use flashptpd.Prelude.Texts.{Text}
use flashptpd.Wire.Timestamp.{Timespec}
use flashptpd.Wire.Tlv.{message_size}
use flashptpd.Wire.Message.{Message, read_message}
use flashptpd.Client.Sequence.{TimestampLevel}
use flashptpd.Network.Address.{Family, Saddr, no_saddr, same_family}
use flashptpd.Network.Interface.{
  Interface, Socket, Opening, Sock, at_most, timestamp_level, get_family_addr, sock,
}
use flashptpd.Network.Inventory.{find_interface, modify_named}
use flashptpd.Network.Stamps.{Control, Found, receive_controls}

-- `SocketSpecs`, without the address that `recv` puts there.
pub record SocketSpecs : Type 0 where
  pub interface : Text
  pub family : Family
  pub src_port : ℕ
  pub timestamp_level : TimestampLevel

-- An entry of `fds`: the descriptor, and the specification with `familySockaddr`.
pub record Listened : Type 0 where
  pub fd : Option ℕ
  pub specs : SocketSpecs
  pub family_saddr : Saddr

-- `_fd`, counted from 1, with 0 for -1.
abbrev pub fd_number : Option ℕ → ℕ
fd_number none = 0
fd_number (some fd) = fd + 1

unfoldable pub has_fd : Option ℕ → List Listened → Bool
has_fd fd [] = false
has_fd fd (l ∷ ls) = fd_number l.fd == fd_number fd || has_fd fd ls

-- The specification with a level that the interface has.
abbrev pub limit : Interface → SocketSpecs → SocketSpecs
limit i sp = record sp { timestamp_level = at_most (timestamp_level i) sp.timestamp_level }

-- The interfaces and `fds`; `none` where a null pointer is followed.
abbrev pub Listening : Type 0
Listening = Option (List Interface × List Listened)

unfoldable pub add_listened :
    SocketSpecs → Interface → Socket → List Interface → List Listened → Listening
add_listened sp i s is fds =
    if has_fd s.fd fds then some (is, fds) else (elim (get_family_addr sp.family i) [
      | none ↦ none
      | some a ↦ some (is, fds ++ record { fd = s.fd; specs = sp; family_saddr = a.saddr } ∷ [])
    ])

unfoldable pub add_sock : SocketSpecs → List Interface → List Listened → Sock → Listening
add_sock sp is fds Sock.null_pointer = none
add_sock sp is fds (Sock.result j none) = some (modify_named sp.interface (λ k. j) is, fds)
add_sock sp is fds (Sock.result j (some s)) =
    add_listened sp j s (modify_named sp.interface (λ k. j) is) fds

-- The body of the loop over the specifications.
unfoldable pub listen_one : Opening → SocketSpecs → List Interface → List Listened → Listening
listen_one how sp is fds = elim (find_interface sp.interface is) [
  | none ↦ some (is, fds)
  | some i ↦
      let limited = limit i sp in
      if not i.up
      then some (is, fds)
      else add_sock limited is fds (sock how sp.family limited.timestamp_level sp.src_port i)
]

unfoldable pub listen :
    (SocketSpecs → Opening) → List SocketSpecs → List Interface → List Listened → Listening
listen how [] is fds = some (is, fds)
listen how (sp ∷ rest) is fds = elim (listen_one (how sp) sp is fds) [
  | none ↦ none
  | some (js, gs) ↦ listen how rest js gs
]

-- The version, the SDO ID, the domain and the unicast flag of a message.
unfoldable pub is_ours : Message → Bool
is_ours m =
    (m.version == 2 || m.version == 0x12)
    && m.sdo_id_major * 256 + m.sdo_id_minor == 0
    && m.domain == 0
    && m.flags0 / 4 % 2 == 1

-- The arguments of a call of `onMsgReceived`; the destination's port is that of the specification.
pub record Delivered : Type 0 where
  pub bytes : List ℕ
  pub src : Saddr
  pub dst : Saddr
  pub dst_port : ℕ
  pub level : TimestampLevel
  pub time : Timespec

abbrev pub dst_of : Listened → Saddr → Saddr
dst_of l s = if same_family s.family Family.unspec then l.family_saddr else s

-- What `recvmsg` returns at a descriptor.
pub data Ready : Type 0 where
  not_ready error : Ready
  message : List ℕ → Saddr → List Control → Ready

-- The call for a message that is taken.
unfoldable pub delivered : Timespec → Listened → List ℕ → Saddr → List Control → Delivered
delivered now l bytes src controls =
    let found =
      receive_controls l.specs.timestamp_level controls
        (record { dst = no_saddr; level = TimestampLevel.user; time = now }) in
    record {
      bytes = bytes;
      src = src;
      dst = dst_of l found.dst;
      dst_port = l.specs.src_port;
      level = found.level;
      time = found.time;
    }

-- The body of the loop over `fds`, with the clock read at `now`: the call that it makes.
unfoldable pub receive : Timespec → Listened → Ready → Option Delivered
receive now l Ready.not_ready = none
receive now l Ready.error = none
receive now l (Ready.message bytes src controls) = elim (read_message bytes) [
  | none ↦ none
  | some (m, rest) ↦ if not (is_ours m) then none else some (delivered now l bytes src controls)
]

-- The answer to a call of `select`: the number of sockets that are ready, 0 where there are none or it
-- fails; the clock; what `recvmsg` then returns; and whether there is time left.
pub record Round : Type 0 where
  pub ready : ℕ
  pub now : Timespec
  pub at : ℕ → Ready
  pub has_time : Bool

is_error : Ready → Bool
is_error Ready.error = true
is_error _ = false

-- The calls of one round, and the number of descriptors with errors.
unfoldable pub receive_all : Round → List Listened → List Delivered × ℕ
unfolding is_error
receive_all r [] = ([], 0)
receive_all r (l ∷ ls) =
    let rest = receive_all r ls in
    let answer = r.at (fd_number l.fd) in
    (
      elim (receive r.now l answer) [ none ↦ rest.0 | some d ↦ d ∷ rest.0 ],
      if is_error answer then rest.1 + 1 else rest.1,
    )

-- The loop at `select_set`.
unfoldable pub select_loop : List Round → List Listened → List Delivered
select_loop [] ls = []
select_loop (r ∷ rounds) ls =
    let rest = select_loop rounds ls in
    let done = receive_all r ls in
    if r.ready == 0 then [] else if ltb done.1 r.ready && r.has_time then done.0 ++ rest else done.0

-- `Inventory::recv` where `buf` and `mode` are given: a null pointer is followed, or what is returned, with
-- the calls of `onMsgReceived` and the interfaces that it leaves.
pub data Received : Type 0 where
  fault : Received
  returned : ℤ → List Delivered → List Interface → Received

unfoldable pub receive_on : List Round → Listening → Received
receive_on rounds none = Received.fault
receive_on rounds (some (is, [])) = Received.returned (negsuc 0) [] is
receive_on rounds (some (is, l ∷ ls)) =
    let calls = select_loop rounds (l ∷ ls) in Received.returned (pos (length calls)) calls is

unfoldable pub recv :
    (SocketSpecs → Opening) → List Round → ℕ → List SocketSpecs → ℕ → List Interface → Received
recv how rounds len [] ms_timeout is = Received.returned (negsuc 0) [] is
recv how rounds len (sp ∷ specs) ms_timeout is =
    if ltb len message_size || ms_timeout == 0
    then Received.returned (negsuc 0) [] is
    else receive_on rounds (listen how (sp ∷ specs) is [])
