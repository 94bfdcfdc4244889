-- ===== src/NetworkUtils.antt =====
-- Include/Server/Utils.hpp: a buffer received and sent whole, over the partial transfers of the system.
pub mod Transfer
mod Tests
use rtype_ci_cd.Common.{
  ℕ, zero, suc, ◌-◌, Bool, true, false, List, [], ◌∷◌, ◌++◌, length, drop, ◌==◌, if◌then◌else◌,
}

-- `recv`, with the bytes that it puts into the buffer, and `send`, with the number of those that it took:
-- none where the call returns 0 or less.
pub record Sock (S : Type 0) : Type 0 where
  pub recv : ℕ → S → List ℕ × S
  pub send : List ℕ → S → ℕ × S

module _ {S : Type 0} (io : Sock S) where
  -- The loop, with `n` bytes to go: what was received, and whether it is all. Each round receives one at least.
  unfoldable pub recv_loop : ℕ → ℕ → S → List ℕ × Bool × S
  recv_loop zero n s = ([], n == 0, s)
  recv_loop (suc fuel) n s =
      let (bytes, next) = io.recv n s in
      let (more, ok, last) = recv_loop fuel (n - length bytes) next in
      if n == 0
      then ([], true, s)
      else if length bytes == 0
      then ([], false, next)
      else (bytes ++ more, ok, last)

  unfoldable pub recv_all : ℕ → S → List ℕ × Bool × S
  recv_all n s = recv_loop n n s

  unfoldable pub send_loop : ℕ → List ℕ → S → Bool × S
  send_loop zero bytes s = (length bytes == 0, s)
  send_loop (suc fuel) bytes s =
      let (n, next) = io.send bytes s in
      let rest = send_loop fuel (drop n bytes) next in
      if length bytes == 0 then (true, s) else if n == 0 then (false, next) else rest

  unfoldable pub send_all : List ℕ → S → Bool × S
  send_all bytes s = send_loop (length bytes) bytes s
