-- ===== src/TcpClient/Chat.antt =====
-- `sendChatMessage` and `receiveChatMessages` of Src/Network/TCPClient.cpp.
use rtype_ci_cd.Common.{
  ℕ, zero, suc, ◌+◌, Option, none, some, List, [], ◌∷◌, drop, get_or, ltb, ◌==◌, uint_at,
  if◌then◌else◌,
}
use rtype_ci_cd.Common.Strings.{Text}
use rtype_ci_cd.Protocol.Tcp.MessageType
use rtype_ci_cd.Protocol.Tcp.Messages.{bytes_of, chat_message}
use rtype_ci_cd.TcpClient.Socket.{Socket}

module _ {S : Type 0} (io : Socket S) where
  -- A failure is only printed.
  unfoldable pub send_chat_message : Text → S → S
  send_chat_message message s = (io.write (bytes_of (chat_message message)) s).1

  -- The loop, of at most `fuel` rounds: the messages, and the stream after it, or nothing where it is not at
  -- its end by then. A read that fails throws, and the messages up to there are given.
  unfoldable pub chat_rounds : ℕ → S → Option (List Text × S)
  chat_rounds zero s = none
  chat_rounds (suc fuel) s =
      let header = io.peek 3 s in
      let len = uint_at 2 1 header in
      let whole = io.read (3 + len) s in
      let more = chat_rounds fuel whole.next in
      let trash = io.read 1 s in
      let skipped = chat_rounds fuel trash.next in
      if ltb (io.available s) 3
      then some ([], s)
      else if get_or header 0 0 == MessageType.chat_message
      then (if ltb (io.available s) (3 + len)
          then some ([], s)
          else if whole.ok
          then elim more [
            | none ↦ none
            | some (messages, last) ↦ some (drop 3 whole.bytes ∷ messages, last)
          ]
          else some ([], whole.next))
      else if trash.ok
      then skipped
      else some ([], trash.next)

  -- Each round but the last takes a byte at least, so that there is at most one more than there are bytes.
  unfoldable pub receive_chat_messages : S → Option (List Text × S)
  receive_chat_messages s = chat_rounds (suc (io.available s)) s
